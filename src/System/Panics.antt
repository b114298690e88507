-- ===== src/System/Panics.antt =====
-- When `handle_event` of src/asynchronous/client.rs panics, in a session over the destinations of
-- src/asynchronous/destinations.rs and src/asynchronous/inmemory.rs.
use little_stomper.Prelude.{ℕ, String, ◌≡◌, Option, none, some, arith, ◌&&◌, if◌then◌else◌, Bytes}
use little_stomper.Prelude.Effects.{Outcome, Result, ok, err, Unit₀, done, panic}
use little_stomper.Client.{DefaultClient, default_client_methods}
use little_stomper.Error.{StomperError}
use little_stomper.Ids.{SubscriptionId, DestinationId, from_str}
use little_stomper.Stomp.{Frames, StompParser, ClientFrame}
use little_stomper.Timer.Resetter.{reset_timer}
use little_stomper.InMemory.Handle.{send, unsubscribe}
use little_stomper.AsyncDestinations.Registry
use little_stomper.Session.Events.{ClientEvent, no_identifier, unsubscribe_callback}
use little_stomper.Session.Handler
use little_stomper.Session.Handler.{
  ClientSession, get_active, handle_event, client_frame, handle, error, no_body, not_yet,
  reset_failed,
}
use little_stomper.System.Shared.{Shared, destinations_of, proxy}

-- What a panic says.
abbrev pub panic_message {ℓ} : {A : Type ℓ} → Outcome A → Option String
panic_message (panic why) = some why
panic_message (done _) = none

abbrev without_body : Option Bytes → Option String
without_body none = some no_body
without_body (some body) = none

abbrev if_failed : Outcome (Result Unit₀ StomperError) → Option String
if_failed (done (err _)) = some reset_failed
if_failed _ = none

module _ {F : Frames} (P : StompParser F) (quote : String → String) (k : ℕ)
    (s : ClientSession (Shared F) DefaultClient F) where
  -- A session in any state, with any timers, as session `k` of the broker.
  abbrev pub in_broker : ClientSession (Shared F) DefaultClient F
  in_broker = record s { destinations = destinations_of k; client_proxy = proxy k }

  -- The destination of the entry, if there is one, exists, and its task has ended.
  abbrev unsubscribe_fault : Option (DestinationId × SubscriptionId) → Shared F → Option String
  unsubscribe_fault none w = none
  unsubscribe_fault (some (d, i)) w = if w.made d && w.is_closed d then some no_identifier else none

  abbrev frame_fault : ClientFrame F → Shared F → Option String
  frame_fault (ClientFrame.send frame) w = without_body (P.send_body frame)
  frame_fault (ClientFrame.unsubscribe frame) w =
      unsubscribe_fault
        (get_active (from_str (P.unsubscribe_id frame)) s.active_subscriptions_by_client_id) w
  frame_fault (ClientFrame.abort _) w = some not_yet
  frame_fault (ClientFrame.ack _) w = some not_yet
  frame_fault (ClientFrame.begin _) w = some not_yet
  frame_fault (ClientFrame.commit _) w = some not_yet
  frame_fault (ClientFrame.nack _) w = some not_yet
  frame_fault _ w = none

  -- The panic that an event meets, if any.
  abbrev pub fault : ClientEvent F → Shared F → Option String
  fault (ClientEvent.client_frame (ok frame)) w =
      frame_fault frame (reset_timer s.client_heartbeat_resetter w).1
  fault (ClientEvent.server_message c m) w = if_failed (reset_timer s.server_heartbeat_resetter w).0
  fault _ w = none

  -- A session of the broker, in any state and with any timers, panics in these four cases exactly:
  -- on a frame whose handling is `todo!()`; on a SEND without a body; on a message to the client
  -- when its heartbeat timer is gone; and on an UNSUBSCRIBE of a subscription in its map whose
  -- destination exists and has ended its task. The panic has the
  -- text of the code there, without the error that `expect` appends.
  pub handle_event-fault :
      (e : ClientEvent F) (w : Shared F)
      → panic_message (handle_event P quote in_broker e w).0 ≡ fault e w
  unfolding handle_event reset_timer handle client_frame error Registry.send Registry.unsubscribe
      send unsubscribe unsubscribe_callback Handler.unsubscribe
  handle_event-fault e w = ground arith
