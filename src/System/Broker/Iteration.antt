-- ===== src/System/Broker/Iteration.antt =====
-- The order in which an in-memory destination of src/asynchronous/inmemory.rs iterates its map, which
-- HashMap leaves open.
use little_stomper.Prelude.{
  ℕ, ◌≡◌, refl, sym, subst, ◌∙◌, String, Option, none, some, [], ◌∷◌, map, arith,
}
use mathlib.Core.List.{Perm, Permᴰ}
use mathlib.Core.List.Perm
use little_stomper.Prelude.Effects.{Outcome, done, panic, Ensures}
use little_stomper.Prelude.HashMap
use little_stomper.Prelude.HashMap.{Distinct}
use little_stomper.Ids.{SubscriptionId, DestinationId, StringId-discrete}
use little_stomper.Stomp.{Frames}
use little_stomper.InMemory.Backend.{Subscription, Subscriptions, get, handle_action, to_send_fn}
use little_stomper.InMemory.Validity
use little_stomper.InMemory.Validity.{IsValid, Keyed, handle_action-IsValid}
use little_stomper.Session.Events.{as_subscriber}
use little_stomper.System.Shared.{Shared, Post, proxy, action_of, new_id}
use little_stomper.System.Moves.{Backend}
use little_stomper.System.Broker.{Roster, broker, Represents, Matches}
use little_stomper.System.Broker.Refinement.{get-Represents, Found, handle_action-Refines}
use little_stomper.System.Broker.Orders.{IsSameWorld, AreSameRosters, broker-Perm}

abbrev Member : Type 0
Member = SubscriptionId × (ℕ × SubscriptionId)

module _ {F : Frames} where
  abbrev subscription_for : Member → SubscriptionId × Subscription (Shared F)
  subscription_for (i, (k, c)) = (
    i,
    record { id = i; subscriber_sub_id = some c; send_fn = to_send_fn (as_subscriber (proxy k)) },
  )

  -- A map of subscriptions that are each under their own id is what its roster says.
  Represents-eq :
      (r : Roster) (m : Subscriptions (Shared F))
      → Represents r m
      → Keyed m
      → m ≡ map subscription_for r
  Represents-eq [] [] a keyed = refl
  Represents-eq ((i, (k, c)) ∷ r) ((j, s) ∷ m) (same, (sends, named), a) (key, keyed) = λ x.
      (
        sym same x,
        record { id = (sym key ∙ sym same) x; subscriber_sub_id = named x; send_fn = sends x },
      )
      ∷ Represents-eq r m a keyed x
  Represents-eq [] (e ∷ m) a keyed = absurd a
  Represents-eq (e ∷ r) [] a keyed = absurd a

  absent :
      (o : Option (ℕ × SubscriptionId)) (s : Option (Subscription (Shared F)))
      → Found o s
      → s ≡ none
      → o ≡ none
  absent none s f e = refl
  absent (some o) none f e = absurd f
  absent (some (k, c)) (some s) f e = ground arith

  Represents-Distinct :
      (r : Roster) (m : Subscriptions (Shared F))
      → Represents r m
      → Distinct StringId-discrete m
      → Distinct StringId-discrete r
  Represents-Distinct [] [] a d = tt
  Represents-Distinct ((i, o) ∷ r) ((j, s) ∷ m) (same, _, a) (new, d) = (
    absent (HashMap.get StringId-discrete i r) (get i m) (get-Represents i r m a)
        (subst (λ j. get j m ≡ none) (sym same) new),
    Represents-Distinct r m a d,
  )
  Represents-Distinct [] (e ∷ m) a d = absurd a
  Represents-Distinct (e ∷ r) [] a d = absurd a

  -- The same subscriptions in another order stand for the same roster in that order.
  abbrev Reordered : Roster → Subscriptions (Shared F) → Type 0
  Reordered r m' = (r' : Roster) × Permᴰ r r' × Represents r' m'

  Represents-Perm :
      (r : Roster) {m m' : Subscriptions (Shared F)} → Permᴰ m m' → Represents r m → Reordered r m'
  Represents-Perm [] Permᴰ.nil a = ([], Permᴰ.nil, tt)
  Represents-Perm ((i, (k, c)) ∷ r) (Permᴰ.cons {a = (j, s)} {b} {l₁ = m} {l₂ = n} e p)
        (same, owned, a) =
      let (r', q, a') = Represents-Perm r p a in
      subst (λ b. Reordered ((i, (k, c)) ∷ r) (b ∷ n)) e
        ((i, (k, c)) ∷ r', Permᴰ.cons refl q, (same, owned, a'))
  Represents-Perm ((i, (k, c)) ∷ (i₂, (k₂, c₂)) ∷ r)
        (Permᴰ.swap {a = (j, s)} {b = (j₂, s₂)} {a'} {b'} {l} e₁ e₂) (x, y, (x₂, y₂, a)) =
      subst (λ a'. Reordered ((i, (k, c)) ∷ (i₂, (k₂, c₂)) ∷ r) (a' ∷ b' ∷ l)) e₂
        (subst (λ b'. Reordered ((i, (k, c)) ∷ (i₂, (k₂, c₂)) ∷ r) ((j₂, s₂) ∷ b' ∷ l)) e₁
          ((i₂, (k₂, c₂)) ∷ (i, (k, c)) ∷ r, Permᴰ.swap refl refl, (x₂, y₂, (x, y, a))))
  Represents-Perm r (Permᴰ.trans p q) a =
      let (r₁, p₁, a₁) = Represents-Perm r p a in
      let (r₂, p₂, a₂) = Represents-Perm r₁ q a₁ in (r₂, Permᴰ.trans p₁ p₂, a₂)
  Represents-Perm (o ∷ []) (Permᴰ.swap {a = (j, s)} e₁ e₂) (same, owned, a) = absurd a
  Represents-Perm r p a = absurd a

  -- Both tasks end, or both go on with the same subscriptions, in some order.
  abbrev pub SameOutcome : Outcome (Option (Backend F)) → Outcome (Option (Backend F)) → Type 0
  SameOutcome (done (some b)) (done (some b')) =
      (b.id ≡ b'.id) × Perm b.subscriptions b'.subscriptions
  SameOutcome (done (some b)) _ = ⊥
  SameOutcome _ (done (some b')) = ⊥
  SameOutcome _ _ = Unit

  Matches-SameOutcome :
      (d : DestinationId) (y y' : Option Roster) (o o' : Outcome (Option (Backend F)))
      → AreSameRosters y y'
      → Matches d y o
      → Matches d y' o'
      → Ensures Validity.IfGoesOn o
      → Ensures Validity.IfGoesOn o'
      → SameOutcome o o'
  Matches-SameOutcome d (some r) (some r') (done (some b)) (done (some b')) p m m' v v' = (
    m.0 ∙ sym m'.0,
    subst (λ l. Perm b.subscriptions l) (sym (Represents-eq r' b'.subscriptions m'.1 v'.keyed))
        (subst (λ l. Perm l (map subscription_for r'))
          (sym (Represents-eq r b.subscriptions m.1 v.keyed)) (Perm.map subscription_for p)),
  )
  Matches-SameOutcome d none none (done none) (done none) p m m' v v' = tt
  Matches-SameOutcome d none none (done none) (panic why) p m m' v v' = tt
  Matches-SameOutcome d none none (panic why) (done none) p m m' v v' = tt
  Matches-SameOutcome d none none (panic why) (panic why') p m m' v v' = tt
  Matches-SameOutcome d y y' o o' p m m' v v' = ground arith

module _ {F : Frames} (name : ℕ → String) (d : DestinationId) (b b' : Backend F) (r : Roster) where
  -- Of two valid backends of a destination with the same subscriptions, made by sessions, in
  -- different orders: whatever action of a session they are given, the worlds that they leave differ
  -- at most in the order of the events within the channel of each session, and either both tasks end
  -- or both go on, with the same subscriptions in some order.
  pub handle_action-SameOutcome :
      (p : Post) (w : Shared F)
      → b.id ≡ d
      → b'.id ≡ d
      → IsValid b
      → IsValid b'
      → Represents r b.subscriptions
      → Permᴰ b.subscriptions b'.subscriptions
      → let (o, u) = handle_action (new_id name) b (action_of p) w in
        let (o', u') = handle_action (new_id name) b' (action_of p) w in
        SameOutcome o o' × IsSameWorld u u'
  handle_action-SameOutcome p w same same' v v' a q =
      let (o, u) = handle_action (new_id name) b (action_of p) w in
      let (o', u') = handle_action (new_id name) b' (action_of p) w in
      let (r', q', a') = Represents-Perm r q a in
      let (here, made) = handle_action-Refines name d b r same a p w v in
      let (here', made') = handle_action-Refines name d b' r' same' a' p w v' in
      let (rosters, worlds) =
        broker-Perm name d p w q' (Represents-Distinct r b.subscriptions a v.distinct) in
      (
        Matches-SameOutcome d (broker name d p r w).0 (broker name d p r' w).0 o o' rosters made
            made' (handle_action-IsValid (new_id name) b (action_of p) w v)
            (handle_action-IsValid (new_id name) b' (action_of p) w v'),
        subst (IsSameWorld u) (sym here')
            (subst (λ u. IsSameWorld u (broker name d p r' w).1) (sym here) worlds),
      )
