-- ===== src/System/Broker/Refinement.antt =====
-- The in-memory destination of src/asynchronous/inmemory.rs, over the closures that sessions of
-- src/asynchronous/client.rs give it, does what the plain description says.
use little_stomper.Prelude.{
  All, ℕ, String, ◌≡◌, refl, sym, subst, Option, none, some, [], ◌∷◌, arith, ite,
}
use little_stomper.Prelude.Effects.{Outcome, ok, done, pure, ◌>>◌, ◌>>=◌}
use little_stomper.Prelude.HashMap
use little_stomper.Ids.{SubscriptionId, DestinationId, StringId-discrete, from_str}
use little_stomper.Stomp.{Frames}
use little_stomper.InMemory.Backend.{
  Subscription, Subscriptions, get, remove, handle_action, remove_subscription,
  subscriber_sub_id_of, to_unsubscribe_callback, to_subscribe_callback, to_send_fn,
  to_send_callback,
}
use little_stomper.Destinations.{InboundMessage}
use little_stomper.InMemory.Delivery.{retain_reached}
use little_stomper.InMemory.Validity.{IsValid}
use little_stomper.InMemory.Actions.{add_subscription_lem, send_message-retain_reached}
use little_stomper.Session.Events
use little_stomper.Session.Events.{as_subscriber, as_sender}
use little_stomper.System.Shared.{
  Shared, Post, subscribes, unsubscribes, sends, closes, proxy, action_of, new_id,
}
use little_stomper.System.Moves.{Backend}
use little_stomper.System.Policy.{Ledger, Policy, IsAllowedSub}
use little_stomper.System.Broker.{
  Roster, told, outbound, broker, without, IsOf, Represents, Matches,
}
use little_stomper.System.Broker.Sending.{retain_reached-told}

module _ {F : Frames} where
  remove-Represents :
      (q : SubscriptionId) (r : Roster) (m : Subscriptions (Shared F))
      → Represents r m
      → Represents (HashMap.remove StringId-discrete q r) (remove q m)
  unfolding HashMap.remove
  remove-Represents q [] [] a = tt
  remove-Represents q ((i, o) ∷ r) ((j, s) ∷ m) (same, owned, a) =
      let rest = remove-Represents q r m a in
      subst
        (λ j. Represents (HashMap.remove StringId-discrete q ((i, o) ∷ r)) (remove q ((j, s) ∷ m)))
        same
        (elim (StringId-discrete i q)
          as (λ x.
            Represents
              (ite x (HashMap.remove StringId-discrete q r)
                ((i, o) ∷ HashMap.remove StringId-discrete q r))
              (ite x (remove q m) ((i, s) ∷ remove q m))) [
                | yes e ↦ rest
                | no n ↦ (refl, owned, rest)
              ])
  remove-Represents q [] (e ∷ m) a = absurd a
  remove-Represents q (e ∷ r) [] a = absurd a

  -- Both have the entry, or neither.
  abbrev pub Found : Option (ℕ × SubscriptionId) → Option (Subscription (Shared F)) → Type 0
  Found none none = Unit
  Found (some (k, c)) (some s) = IsOf k c s
  Found _ _ = ⊥

  pub get-Represents :
      (q : SubscriptionId) (r : Roster) (m : Subscriptions (Shared F))
      → Represents r m
      → Found (HashMap.get StringId-discrete q r) (get q m)
  unfolding HashMap.get
  get-Represents q [] [] a = tt
  get-Represents q ((i, (k, c)) ∷ r) ((j, s) ∷ m) (same, owned, a) =
      let rest = get-Represents q r m a in
      subst (λ j. Found (HashMap.get StringId-discrete q ((i, (k, c)) ∷ r)) (get q ((j, s) ∷ m)))
        same
        (elim (StringId-discrete i q)
          as (λ x.
            Found (ite x (some (k, c)) (HashMap.get StringId-discrete q r))
              (ite x (some s) (get q m))) [ yes e ↦ owned | no n ↦ rest ])
  get-Represents q [] (e ∷ m) a = absurd a
  get-Represents q (e ∷ r) [] a = absurd a

  -- The same world, and the same subscriptions, or an end of the task on both sides.
  abbrev pub Refines :
      DestinationId → Option Roster × Shared F → Outcome (Option (Backend F)) × Shared F → Type 0
  Refines d y x = (x.1 ≡ y.1) × Matches d y.0 x.0

module _ {F : Frames} (name : ℕ → String) (d : DestinationId) (b : Backend F) (r : Roster)
    (same : b.id ≡ d) (a : Represents r b.subscriptions) where
  subscribes-Refines :
      (k : ℕ) (i : Option SubscriptionId) (w : Shared F)
      → Refines d
          (broker name d (subscribes k i) r w)
          (handle_action (new_id name) b (action_of (subscribes k i)) w)
  unfolding broker handle_action HashMap.insert Events.subscribe_callback
  subscribes-Refines k none w =
      rw
        ((add_subscription_lem (new_id name) b none
          (to_subscribe_callback (as_subscriber (proxy k))) (to_send_fn (as_subscriber (proxy k)))
          w).0)
        (refl, tt)
  subscribes-Refines k (some c) w =
      rw
        (
          (add_subscription_lem (new_id name) b (some c)
              (to_subscribe_callback (as_subscriber (proxy k)))
              (to_send_fn (as_subscriber (proxy k))) w).0,
          same,
        )
        (
          refl,
          (
            refl,
            (refl, (refl, refl), remove-Represents (from_str (name w.next)) r b.subscriptions a),
          ),
        )

  unsubscribes-Refines :
      (k : ℕ) (i : SubscriptionId) (w : Shared F)
      → Refines d
          (broker name d (unsubscribes k i) r w)
          (handle_action (new_id name) b (action_of (unsubscribes k i)) w)
  unfolding broker handle_action remove_subscription Events.unsubscribe_callback
  unsubscribes-Refines k i w =
      go (HashMap.get StringId-discrete i r) (get i b.subscriptions)
        (get-Represents i r b.subscriptions a)
    where
      b' : Backend F
      b' = record b { subscriptions = remove i b.subscriptions }

      go :
          (o : Option (ℕ × SubscriptionId)) (s : Option (Subscription (Shared F)))
          → Found o s
          → Refines d (without name d k i r o w) (
              (to_unsubscribe_callback (as_subscriber (proxy k)) (subscriber_sub_id_of s) (ok i)
                  >> pure b'
                  >>= λ b. pure (some b))
                w)
      go none none f = (refl, tt)
      go (some (owner, c)) (some s) f =
          rw f.1 (refl, (same, remove-Represents i r b.subscriptions a))
      go none (some s) f = absurd f
      go (some o) none f = absurd f

  pub sent :
      (k : ℕ) (m : InboundMessage) (w : Shared F) (kept : Subscriptions (Shared F))
      → IsValid b
      → retain_reached b.subscriptions (outbound name d m w) (new_id name w).1 ≡ (
        done kept,
        record (new_id name w).1 { queues = told (outbound name d m w) r (new_id name w).1 },
      )
      → handle_action (new_id name) b (action_of (sends k m)) w ≡ (
        done (some (record b { subscriptions = kept })),
        record (new_id name w).1 { queues = told (outbound name d m w) r w },
      )
  unfolding handle_action
  sent k m w kept v e = ground (
    arith,
    send_message-retain_reached (new_id name) b m (to_send_callback (as_sender (proxy k))) w v,
    same,
    e,
  )

  sends-Refines :
      (k : ℕ) (m : InboundMessage) (w : Shared F)
      → IsValid b
      → Refines d
          (broker name d (sends k m) r w)
          (handle_action (new_id name) b (action_of (sends k m)) w)
  unfolding broker handle_action
  sends-Refines k m w v =
      let (kept, rep, e) =
        retain_reached-told (outbound name d m w) r b.subscriptions (new_id name w).1 a in
      subst (Refines d (broker name d (sends k m) r w)) (sym (sent k m w kept v e))
        (refl, (same, rep))

  -- Whatever a session posts, a valid backend that stands for a roster leaves the world as the
  -- plain description does; and it goes on, then standing for what that leaves of the roster, or its
  -- task ends, just as the description has it.
  pub handle_action-Refines :
      (p : Post) (w : Shared F)
      → IsValid b
      → Refines d (broker name d p r w) (handle_action (new_id name) b (action_of p) w)
  unfolding broker handle_action
  handle_action-Refines (subscribes k i) w v = subscribes-Refines k i w
  handle_action-Refines (unsubscribes k i) w v = unsubscribes-Refines k i w
  handle_action-Refines (sends k m) w v = sends-Refines k m w v
  handle_action-Refines closes w v = (refl, tt)

-- Each subscription that the policy admits is that of some session, so that some roster stands for it.
pub IsAllowedSub-Represents :
    {F : Frames} (L : Policy) (H : Ledger) (d : DestinationId) (m : Subscriptions (Shared F))
    → All (λ e. IsAllowedSub L H d e.1) m
    → (r : Roster) × Represents r m
IsAllowedSub-Represents L H d [] a = ([], tt)
IsAllowedSub-Represents L H d ((i, s) ∷ m) a =
    let (r, rest) = IsAllowedSub-Represents L H d m a.1 in
    ((i, (a.0.who, a.0.client_id)) ∷ r, (refl, (a.0.sends, a.0.named), rest))
