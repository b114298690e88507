-- ===== src/System/Backends.antt =====
-- Each action of a backend keeps the system within the policy.
use little_stomper.Prelude.{ℕ, String, arith, refl, sym, subst, Option, none, some, List, []}
use little_stomper.Prelude.Effects.{Act, ok, pure, ◌>>=◌, ◌>>◌}
use little_stomper.Prelude.HashMap
use little_stomper.Prelude.HashMap.{values, remove-All, get-insert_self}
use little_stomper.Ids.{SubscriptionId, DestinationId, StringId-discrete, from_str}
use little_stomper.Destinations.{InboundMessage, OutboundMessage}
use little_stomper.Stomp.{Frames, StompParser}
use little_stomper.InMemory.Backend.{
  Subscription, remove, insert, add_subscription, remove_subscription, deliver, remove_all,
  send_message, handle_action, to_subscribe_callback, to_send_fn, to_unsubscribe_callback,
  to_send_callback,
}
use little_stomper.InMemory.Actions.{add_subscription_lem}
use little_stomper.Session.Events.{as_subscriber, as_sender}
use little_stomper.System.Shared.{
  Shared, Post, subscribes, unsubscribes, sends, closes, proxy, action_of, new_id,
}
use little_stomper.System.Moves.{Backend}
use little_stomper.System.Safe.{Safe, SafeAt, SafeAt-bind, Safe-bind, Safe-pure, Any}
use little_stomper.System.Policy.{
  Ledger, IfGranted, Policy, IsAllowedPost, IsAllowedSub, IsAllowedBackend, IsAllowedShared,
}
use little_stomper.System.Callbacks.{
  subscribe_callback-Safe, unsubscribe_callback-Safe, deliver-Safe, remove_all-allowed,
  then_backend,
}

module _ {F : Frames} (P : StompParser F) (L : Policy) (H : Ledger) (name : ℕ → String)
    (d : DestinationId) (b : Backend F) (h : IsAllowedBackend L H d b) where
  next_id : (w : Shared F) → IsAllowedShared P L H w → IsAllowedShared P L H (new_id name w).1
  next_id w i = record {
    queues = i.queues;
    tasks = i.tasks;
    posts = i.posts;
    closed = i.closed;
    heard = i.heard;
    grown = omega (arith, i.grown);
  }

  add_subscription-Safe :
      (k : ℕ) (c : SubscriptionId) (w : Shared F)
      → L.may_subscribe k d c
      → H.holds k d c (from_str (name w.next))
      → IsAllowedShared P L H w
      → SafeAt
          (IsAllowedShared P L H)
          (IsAllowedBackend L H d)
          (add_subscription
            (new_id name)
            b
            (some c)
            (to_subscribe_callback (as_subscriber (proxy k)))
            (to_send_fn (as_subscriber (proxy k))))
          w
  unfolding HashMap.insert
  add_subscription-Safe k c w a held i =
      let id = from_str (name w.next) in
      let s : Subscription (Shared F) = record {
        id = id;
        subscriber_sub_id = some c;
        send_fn = to_send_fn (as_subscriber (proxy k));
      } in
      let mine : IsAllowedSub L H d s = record {
        who = k;
        client_id = c;
        sends = refl;
        named = refl;
        allowed = a;
        held = held;
      } in
      let b' = record b { subscriptions = insert id s b.subscriptions } in
      let others =
        remove-All StringId-discrete (λ e. IsAllowedSub L H d e.1) id b.subscriptions
          h.subscriptions in
      rw
        ((add_subscription_lem (new_id name) b (some c)
          (to_subscribe_callback (as_subscriber (proxy k))) (to_send_fn (as_subscriber (proxy k)))
          w).0)
        (then_backend P L H d
          (to_subscribe_callback (as_subscriber (proxy k)) b.id (some c) (ok id)) b'
          (subscribe_callback-Safe P L H k b.id (some c) (ok id)
            (subst (λ d. L.may_subscribe k d c × H.holds k d c id) (sym h.id_kept) (a, held)))
          (record { id_kept = h.id_kept; subscriptions = (mine, others) }) (new_id name w).1
          (next_id w i))

  remove_subscription-Safe :
      (k : ℕ) (i : SubscriptionId)
      → Safe
          (IsAllowedShared P L H)
          (IsAllowedBackend L H d)
          (remove_subscription b i (to_unsubscribe_callback (as_subscriber (proxy k))))
  unfolding remove_subscription
  remove_subscription-Safe k i =
      then_backend P L H d _ (record b { subscriptions = remove i b.subscriptions })
        (unsubscribe_callback-Safe P L H k _ _)
        (record {
          id_kept = h.id_kept;
          subscriptions =
              remove-All StringId-discrete (λ e. IsAllowedSub L H d e.1) i b.subscriptions
                h.subscriptions;
        })

  send_message-Safe :
      (k : ℕ) (m : InboundMessage)
      → Safe
          (IsAllowedShared P L H)
          (IsAllowedBackend L H d)
          (send_message (new_id name) b m (to_send_callback (as_sender (proxy k))))
  unfolding send_message
  send_message-Safe k m w i =
      let out : OutboundMessage = record {
        destination = b.id;
        message_id = from_str (name w.next);
        body = m.body;
      } in
      let after = λ (dead : List SubscriptionId). record b {
        subscriptions = remove_all dead b.subscriptions;
      } in
      let told = to_send_callback (as_sender (proxy k)) m.sender_message_id (ok out.message_id) in
      Safe-bind (IsAllowedShared P L H) Any (IsAllowedBackend L H d)
        (deliver (values b.subscriptions) out []) (λ dead. told >> pure (after dead))
        (deliver-Safe P L H d b.subscriptions out [] h.id_kept h.subscriptions)
        (λ dead _.
          then_backend P L H d told (after dead) (λ v j. (j, tt))
            (record {
              id_kept = h.id_kept;
              subscriptions = remove_all-allowed P L H d dead b.subscriptions h.subscriptions;
            }))
        (new_id name w).1 (next_id w i)

  abbrev pub IfGoesOn : Option (Backend F) → Type 0
  IfGoesOn none = ⊥
  IfGoesOn (some b) = IsAllowedBackend L H d b

  go_on :
      (m : Act (Shared F) (Backend F)) (w : Shared F)
      → SafeAt (IsAllowedShared P L H) (IsAllowedBackend L H d) m w
      → SafeAt (IsAllowedShared P L H) IfGoesOn (m >>= λ b. pure (some b)) w
  go_on m w safe =
      SafeAt-bind (IsAllowedShared P L H) (IsAllowedBackend L H d) IfGoesOn m (λ b. pure (some b)) w
        safe (λ b a. Safe-pure (IsAllowedShared P L H) IfGoesOn (some b) a)

  -- An action within the policy leaves the world, and a backend that goes on, within it.
  pub handle_action-Safe :
      (p : Post) (w : Shared F)
      → IsAllowedPost L H d p
      → IfGranted H name w.next d p
      → IsAllowedShared P L H w
      → SafeAt (IsAllowedShared P L H) IfGoesOn (handle_action (new_id name) b (action_of p)) w
  unfolding handle_action
  handle_action-Safe (subscribes k i) w (c, asked, a) held j = rw asked (
      go_on
        (add_subscription (new_id name) b (some c) (to_subscribe_callback (as_subscriber (proxy k)))
          (to_send_fn (as_subscriber (proxy k))))
        w
        (add_subscription-Safe k c w a
          (subst (λ i. IfGranted H name w.next d (subscribes k i)) asked held) j))
  handle_action-Safe (unsubscribes k i) w a held j =
      go_on (remove_subscription b i (to_unsubscribe_callback (as_subscriber (proxy k)))) w
        (remove_subscription-Safe k i w j)
  handle_action-Safe (sends k m) w a held j =
      go_on (send_message (new_id name) b m (to_send_callback (as_sender (proxy k)))) w
        (send_message-Safe k m w j)
  handle_action-Safe closes w a held j = absurd a
