-- ===== src/System/Broker/Sending.antt =====
-- The loops of `send` (src/asynchronous/inmemory.rs) over the subscriptions of sessions.
use little_stomper.Prelude.{
  ℕ, ◌≡◌, refl, sym, subst, ◌∙◌, List, [], ◌∷◌, ◌++◌, map, Bool, true, false, Bool-cases, inl, inr,
  if◌then◌else◌, ite, ℕ_discrete, arith,
}
use little_stomper.Prelude.Effects.{ok, err, done}
use mathlib.Core.List.{append-nil, append_assoc}
use little_stomper.Error
use little_stomper.Ids.{SubscriptionId}
use little_stomper.Destinations.{OutboundMessage}
use little_stomper.Stomp.{Frames}
use little_stomper.InMemory.Backend.{Subscription, Subscriptions, send_to}
use little_stomper.InMemory.Delivery.{retain_reached}
use little_stomper.Session.Events
use little_stomper.Session.Events.{ClientEvent}
use little_stomper.System.Family.{update}
use little_stomper.System.Shared.{Shared, events_to}
use little_stomper.System.Broker.{Roster, client_ids, reached, told, IsOf, Represents}

-- A message removes the subscriptions of sessions whose channels are closed, and no other.
pub client_ids-reached :
    (is_open : ℕ → Bool) (r : Roster) (j : ℕ)
    → client_ids (reached is_open r) j ≡ (if is_open j then client_ids r j else [])
client_ids-reached is_open [] j = ground arith
client_ids-reached is_open ((i, (k, c)) ∷ r) j = ground (arith, client_ids-reached is_open r j)

-- An event at the end of one channel, and then more for each.
queue_after :
    {A B : Type 0} (is_open : ℕ → Bool) (k j : ℕ) (f : B → A) (b : B) (queues : ℕ → List A)
    (rest : List B)
    → is_open k ≡ true
    → (if is_open j
        then update ℕ_discrete k (queues k ++ (f b ∷ [])) queues j ++ map f rest
        else update ℕ_discrete k (queues k ++ (f b ∷ [])) queues j)
      ≡ (if is_open j then queues j ++ map f (ite (ℕ_discrete k j) (b ∷ rest) rest) else queues j)
queue_after is_open k j f b queues rest h =
    ground (arith, append_assoc (queues k) (f b ∷ []) (map f rest))

is_open-send :
    {F : Frames} (k : ℕ) (e : ClientEvent F) (w : Shared F)
    → ((events_to k).send e w).1.is_open ≡ w.is_open
is_open-send k e w = ground arith

module _ {F : Frames} (is_open : ℕ → Bool) where
  keep_head :
      (i : SubscriptionId) (k : ℕ) (c : SubscriptionId) (r : Roster) (n : SubscriptionId)
      (s : Subscription (Shared F)) (kept : Subscriptions (Shared F))
      → is_open k ≡ true
      → (i ≡ n) × IsOf k c s × Represents (reached is_open r) kept
      → Represents (reached is_open ((i, (k, c)) ∷ r)) ((n, s) ∷ kept)
  keep_head i k c r n s kept h a = rw h a

module _ {F : Frames} (out : OutboundMessage) where
  told-nil : (w : Shared F) (j : ℕ) → told out [] w j ≡ w.queues j
  told-nil w j = ground (arith, append-nil (w.queues j))

  told-open :
      (i : SubscriptionId) (k : ℕ) (c : SubscriptionId) (r : Roster) (w : Shared F) (j : ℕ)
      → w.is_open k ≡ true
      → told out r ((events_to k).send (ClientEvent.server_message c out) w).1 j
        ≡ told out ((i, (k, c)) ∷ r) w j
  told-open i k c r w j h = rw h (
      queue_after w.is_open k j (λ c. ClientEvent.server_message c out) c w.queues (client_ids r j)
        h)

  told-closed :
      (i : SubscriptionId) (k : ℕ) (c : SubscriptionId) (r : Roster) (w : Shared F) (j : ℕ)
      → w.is_open k ≡ false
      → told out r w j ≡ told out ((i, (k, c)) ∷ r) w j
  told-closed i k c r w j h = grind arith

  send_to-open :
      (k : ℕ) (c : SubscriptionId) (s : Subscription (Shared F)) (w : Shared F)
      → IsOf k c s
      → w.is_open k ≡ true
      → send_to s out w
        ≡ (done (ok tt), ((events_to k).send (ClientEvent.server_message c out) w).1)
  unfolding Events.send
  send_to-open k c s w a h = rw (a.0, a.1, h) refl

  send_to-closed :
      (k : ℕ) (c : SubscriptionId) (s : Subscription (Shared F)) (w : Shared F)
      → IsOf k c s
      → w.is_open k ≡ false
      → send_to s out w
        ≡ (done (err (Error.new "Unable to send message, client channel closed")), w)
  unfolding Events.send
  send_to-closed k c s w a h = rw (a.0, a.1, h) refl

  -- Sending to each subscription and keeping those that were reached: the same as telling the
  -- open channels and keeping what belongs to them.
  pub retain_reached-told :
      (r : Roster) (m : Subscriptions (Shared F)) (w : Shared F)
      → Represents r m
      → (kept : Subscriptions (Shared F)) × Represents (reached w.is_open r) kept
        × (retain_reached m out w ≡ (done kept, record w { queues = told out r w }))
  unfolding retain_reached
  retain_reached-told [] [] w a =
      ([], tt, λ i. (done [], record w { queues = λ j. sym (told-nil w j) i }))
  retain_reached-told ((i, (k, c)) ∷ r) ((n, s) ∷ m) w (same, owned, a) =
      elim (Bool-cases (w.is_open k)) [
        | inl open_ ↦
            let v = ((events_to k).send (ClientEvent.server_message c out) w).1 in
            let (kept, b, e) = retain_reached-told r m v a in
            (
              (n, s) ∷ kept,
              keep_head w.is_open i k c r n s kept open_ (
                same,
                owned,
                subst (λ o. Represents (reached o r) kept)
                    (is_open-send k (ClientEvent.server_message c out) w) b,
              ),
              ground (arith, send_to-open k c s w owned open_, e) ∙ (λ x.
                  (done ((n, s) ∷ kept), record w { queues = λ j. told-open i k c r w j open_ x })),
            )
        | inr closed ↦
            let (kept, b, e) = retain_reached-told r m w a in
            (
              kept,
              rw closed b,
              ground (arith, send_to-closed k c s w owned closed, e)
                  ∙ (λ x. (done kept, record w { queues = λ j. told-closed i k c r w j closed x })),
            )
      ]
  retain_reached-told [] (e ∷ m) w a = absurd a
  retain_reached-told (e ∷ r) [] w a = absurd a
