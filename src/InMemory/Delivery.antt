-- ===== src/InMemory/Delivery.antt =====
-- The two loops of `send` in src/asynchronous/inmemory.rs: the first collects the subscriptions
-- whose send failed, the second removes them. Together they are one filter over the map.
use little_stomper.Prelude.{◌≡◌, refl, ◌≢◌, sym, none, List, [], ◌∷◌, ◌++◌, arith, if_neg}
use little_stomper.Prelude.Effects.{
  Act, Outcome, Result, ok, err, Unit₀, pure, and_then, ◌>>=◌, done, panic, Ensures,
}
use little_stomper.Prelude.HashMap
use little_stomper.Prelude.HashMap.{values, Distinct, remove_absent}
use mathlib.Core.List.{append_assoc}
use little_stomper.Error.{StomperError}
use little_stomper.Ids.{SubscriptionId, StringId-discrete}
use little_stomper.Destinations.{OutboundMessage}
use little_stomper.InMemory.Backend.{
  Subscription, Subscriptions, send_to, get, remove, deliver, remove_all,
}
use little_stomper.InMemory.Validity.{Keyed}

-- The id is not in the list.
abbrev Absent : SubscriptionId → List SubscriptionId → Type 0
Absent k [] = Unit
Absent k (x ∷ xs) = (x ≢ k) × Absent k xs

Absent-append :
    (k : SubscriptionId) (xs : List SubscriptionId) (x : SubscriptionId)
    → Absent k xs
    → x ≢ k
    → Absent k (xs ++ (x ∷ []))
Absent-append k [] x h n = (n, tt)
Absent-append k (y ∷ ys) x h n = (h.0, Absent-append k ys x h.1 n)

module _ {W : Type 0} where
  abbrev keep_if_ok :
      SubscriptionId × Subscription W
      → Result Unit₀ StomperError
      → Subscriptions W
      → Subscriptions W
  keep_if_ok e (ok _) m = e ∷ m
  keep_if_ok e (err _) m = m

  -- Each subscription is sent the message once, in order, and stays if that went well.
  unfoldable pub retain_reached : Subscriptions W → OutboundMessage → Act W (Subscriptions W)
  retain_reached [] out = pure []
  retain_reached (e ∷ m) out =
      send_to e.1 out >>= λ r. retain_reached m out >>= λ rest. pure (keep_if_ok e r rest)

  remove_all-cons :
      (dead : List SubscriptionId) (k : SubscriptionId) (s : Subscription W) (m : Subscriptions W)
      → Absent k dead
      → remove_all dead ((k, s) ∷ m) ≡ (k, s) ∷ remove_all dead m
  unfolding remove_all HashMap.remove
  remove_all-cons [] k s m h = refl
  remove_all-cons (x ∷ xs) k s m h =
      rw (if_neg (StringId-discrete k x) (λ e. h.0 (sym e)))
        (remove_all-cons xs k s (remove x m) h.1)

  remove_self :
      (k : SubscriptionId) (s : Subscription W) (m : Subscriptions W)
      → get k m ≡ none
      → remove k ((k, s) ∷ m) ≡ m
  unfolding HashMap.remove
  remove_self k s m h = ground (arith, remove_absent StringId-discrete k m)

  -- Only the ids of the subscriptions can be found dead.
  deliver-Absent :
      (m : Subscriptions W) (out : OutboundMessage) (dead : List SubscriptionId)
      (k : SubscriptionId) (w : W)
      → Keyed m
      → get k m ≡ none
      → Absent k dead
      → Ensures (Absent k) (deliver (values m) out dead w).0
  unfolding deliver HashMap.get
  deliver-Absent [] out dead k w keyed h a = a
  deliver-Absent ((j, s) ∷ m) out dead k w keyed h a =
      let w' = (send_to s out w).1 in
      ground (
        arith,
        Absent-append k dead s.id a,
        deliver-Absent m out dead k w' keyed.1,
        deliver-Absent m out (dead ++ (s.id ∷ [])) k w' keyed.1,
      )

  -- What was found dead before stands in front.
  deliver-append :
      (ss : List (Subscription W)) (out : OutboundMessage) (xs ys : List SubscriptionId) (w : W)
      → deliver ss out (xs ++ ys) w ≡ (deliver ss out ys >>= λ zs. pure (xs ++ zs)) w
  unfolding deliver
  deliver-append [] out xs ys w = refl
  deliver-append (s ∷ ss) out xs ys w =
      let w' = (send_to s out w).1 in
      ground (
        arith,
        deliver-append ss out xs ys w',
        deliver-append ss out xs (ys ++ (s.id ∷ [])) w',
        append_assoc xs ys (s.id ∷ []),
      )

  -- The head was reached: it stays in front of what the rest leaves.
  keep_head :
      (k : SubscriptionId) (s : Subscription W) (m : Subscriptions W)
      (o : Outcome (List SubscriptionId)) (w : W)
      → Ensures (Absent k) o
      → and_then o (λ dead. pure (remove_all dead ((k, s) ∷ m))) w
        ≡ ((λ w. (o, w)) >>= (λ dead. pure (remove_all dead m)) >>= λ rest. pure ((k, s) ∷ rest)) w
  keep_head k s m (done dead) w a = ground (arith, remove_all-cons dead k s m a)
  keep_head k s m (panic why) w a = refl

  -- The head was not reached: it is removed first.
  drop_head :
      (k : SubscriptionId) (s : Subscription W) (m : Subscriptions W)
      (o : Outcome (List SubscriptionId)) (w : W)
      → get k m ≡ none
      → ((λ w. (o, w)) >>= (λ dead. pure (k ∷ dead)) >>= λ dead.
            pure (remove_all dead ((k, s) ∷ m)))
          w
        ≡ and_then o (λ dead. pure (remove_all dead m)) w
  unfolding remove_all
  drop_head k s m (done dead) w a = ground (arith, remove_self k s m a)
  drop_head k s m (panic why) w a = refl

  -- Collecting the dead and removing them is keeping those that were reached: the same messages
  -- are sent in the same order, and the same subscriptions stay.
  pub deliver-retain_reached :
      (m : Subscriptions W) (out : OutboundMessage) (w : W)
      → Distinct StringId-discrete m
      → Keyed m
      → (deliver (values m) out [] >>= λ dead. pure (remove_all dead m)) w ≡ retain_reached m out w
  unfolding deliver retain_reached remove_all
  deliver-retain_reached [] out w d keyed = refl
  deliver-retain_reached ((k, s) ∷ m) out w d keyed =
      let w' = (send_to s out w).1 in
      let rest = deliver (values m) out [] w' in
      ground (
        arith,
        keep_head k s m rest.0 rest.1 (deliver-Absent m out [] k w' keyed.1 d.0 tt),
        drop_head k s m rest.0 rest.1 d.0,
        deliver-append (values m) out (k ∷ []) [] w',
        deliver-retain_reached m out w' d.1 keyed.1,
      )
