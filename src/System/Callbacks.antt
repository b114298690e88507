-- ===== src/System/Callbacks.antt =====
-- What a backend calls of sessions, and its loops over them, keep the system within the policy.
use little_stomper.Prelude.{ℕ, ◌≡◌, Option, none, some, List, [], ◌∷◌, All}
use little_stomper.Prelude.Effects.{Act, Result, Unit₀, pure, ◌>>◌}
use little_stomper.Prelude.HashMap.{values, remove-All}
use little_stomper.Error.{StomperError}
use little_stomper.Ids.{SubscriptionId, DestinationId, StringId-discrete}
use little_stomper.Destinations.{OutboundMessage}
use little_stomper.Stomp.{Frames, StompParser}
use little_stomper.InMemory.Backend.{
  Subscription, Subscriptions, send_to, push_if_err, remove, deliver, remove_all,
  to_subscribe_callback, to_unsubscribe_callback,
}
use little_stomper.Session.Events
use little_stomper.Session.Events.{ClientEvent, as_subscriber, as_sender}
use little_stomper.System.Shared.{Shared, proxy}
use little_stomper.System.Moves.{Backend}
use little_stomper.System.Safe.{Safe, Safe-bind, Safe-then, Safe-pure, Any}
use little_stomper.System.Policy.{
  Ledger, IfHeld, Policy, IsAllowedSub, IsAllowedBackend, IsAllowedShared, push_event,
}

module _ {F : Frames} (P : StompParser F) (L : Policy) (H : Ledger) where
  -- What a session may be called back about.
  abbrev IsAllowedCall :
      ℕ → DestinationId → Option SubscriptionId → Result SubscriptionId StomperError → Type 0
  IsAllowedCall k d none r = Unit
  IsAllowedCall k d (some c) r = L.may_subscribe k d c × IfHeld H k d c r

  -- The callbacks and the send function of a session only post events to it.
  pub subscribe_callback-Safe :
      (k : ℕ) (d : DestinationId) (i : Option SubscriptionId)
      (r : Result SubscriptionId StomperError)
      → IsAllowedCall k d i r
      → Safe (IsAllowedShared P L H) Any (to_subscribe_callback (as_subscriber (proxy k)) d i r)
  unfolding Events.subscribe_callback
  subscribe_callback-Safe k d none r a w h = (h, tt)
  subscribe_callback-Safe k d (some c) r a w h =
      (push_event P L H k (ClientEvent.subscribed d c r) w a tt h, tt)

  pub unsubscribe_callback-Safe :
      (k : ℕ) (i : Option SubscriptionId) (r : Result SubscriptionId StomperError)
      → Safe (IsAllowedShared P L H) Any (to_unsubscribe_callback (as_subscriber (proxy k)) i r)
  unfolding Events.unsubscribe_callback
  unsubscribe_callback-Safe k none r w h = (h, tt)
  unsubscribe_callback-Safe k (some c) r w h =
      (push_event P L H k (ClientEvent.unsubscribed c r) w tt tt h, tt)

  send_to-Safe :
      (d : DestinationId) (s : Subscription (Shared F)) (out : OutboundMessage)
      → out.destination ≡ d
      → IsAllowedSub L H d s
      → Safe (IsAllowedShared P L H) Any (send_to s out)
  unfolding Events.send
  send_to-Safe d s out e a w h =
      rw (a.sends, a.named)
        (
          push_event P L H a.who (ClientEvent.server_message a.client_id out) w (rw e a.allowed) tt
              h,
          tt,
        )

  pub deliver-Safe :
      (d : DestinationId) (m : Subscriptions (Shared F)) (out : OutboundMessage)
      (dead : List SubscriptionId)
      → out.destination ≡ d
      → All (λ e. IsAllowedSub L H d e.1) m
      → Safe (IsAllowedShared P L H) Any (deliver (values m) out dead)
  unfolding deliver
  deliver-Safe d [] out dead e a = Safe-pure (IsAllowedShared P L H) Any dead tt
  deliver-Safe d ((i, s) ∷ m) out dead e a =
      Safe-bind (IsAllowedShared P L H) Any Any (send_to s out)
        (λ r. deliver (values m) out (push_if_err dead s.id r)) (send_to-Safe d s out e a.0)
        (λ r _. deliver-Safe d m out (push_if_err dead s.id r) e a.1)

  pub remove_all-allowed :
      (d : DestinationId) (ids : List SubscriptionId) (m : Subscriptions (Shared F))
      → All (λ e. IsAllowedSub L H d e.1) m
      → All (λ e. IsAllowedSub L H d e.1) (remove_all ids m)
  unfolding remove_all
  remove_all-allowed d [] m a = a
  remove_all-allowed d (i ∷ ids) m a =
      remove_all-allowed d ids (remove i m)
        (remove-All StringId-discrete (λ e. IsAllowedSub L H d e.1) i m a)

  -- Code that calls a session back and goes on with a backend.
  pub then_backend :
      (d : DestinationId) (m : Act (Shared F) Unit₀) (b : Backend F)
      → Safe (IsAllowedShared P L H) Any m
      → IsAllowedBackend L H d b
      → Safe (IsAllowedShared P L H) (IsAllowedBackend L H d) (m >> pure b)
  then_backend d m b h a =
      Safe-then (IsAllowedShared P L H) (IsAllowedBackend L H d) m (pure b) h
        (Safe-pure (IsAllowedShared P L H) (IsAllowedBackend L H d) b a)
