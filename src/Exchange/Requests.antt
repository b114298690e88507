-- ===== src/Exchange/Requests.antt =====
-- A client's frame on its way through the session (src/asynchronous/client.rs), the registry
-- (src/asynchronous/destinations.rs) and the handle (src/asynchronous/inmemory.rs) to the backend.
use little_stomper.Prelude.{String, ◌≡◌, none, some, arith, Bytes}
use little_stomper.Prelude.Effects.{ok, done}
use little_stomper.Ids.{SubscriptionId, DestinationId, from_str}
use little_stomper.Client.{Client, DefaultClient}
use little_stomper.Stomp.{Frames, StompParser, ClientFrame}
use little_stomper.Tokio.{Spawn}
use little_stomper.Timer.Resetter.{reset_timer}
use little_stomper.InMemory.Backend.{DestinationAction, to_unsubscribe_callback, to_send_callback}
use little_stomper.InMemory.Handle
use little_stomper.InMemory.Handle.{InMemDestination, as_destination}
use little_stomper.AsyncDestinations.Registry
use little_stomper.AsyncDestinations.Registry.{AsyncDestinations, as_destinations}
use little_stomper.Session.Events.{ClientEvent, as_subscriber, as_sender}
use little_stomper.Session.Handler.{ClientSession, get_active, nothing, handle_event}

module _ {W : Type 0} ⦃methods : Client DefaultClient⦄ {F : Frames} (P : StompParser F)
    (quote : String → String) (spawn : Spawn W) (registry : AsyncDestinations W DefaultClient)
    (h : InMemDestination W) (s : ClientSession W DefaultClient F) (w : W) where
  -- The session over the registry, and the world after the reset that each frame brings.
  abbrev pub over_registry : ClientSession W DefaultClient F
  over_registry = record s { destinations = as_destinations spawn registry }

  abbrev pub after_reset : W
  after_reset = (reset_timer s.client_heartbeat_resetter w).1

  -- What the handle sends to the backend for the session.
  abbrev unsubscribe_request : SubscriptionId → DestinationAction W
  unsubscribe_request i =
      DestinationAction.unsubscribe i (to_unsubscribe_callback (as_subscriber s.client_proxy))

  abbrev send_request : Bytes → DestinationAction W
  send_request body =
      DestinationAction.send (record { sender_message_id = none; body = body })
        (to_send_callback (as_sender s.client_proxy))

  -- An UNSUBSCRIBE for an active subscription of an in-memory destination posts one request with
  -- the destination's id of it to the backend, if the channel accepts it. The session stays as it
  -- was, the subscription included: the same frame again posts the same request again.
  pub handle_event-unsubscribe :
      (frame : F.UnsubscribeFrame) (d : DestinationId) (i : SubscriptionId)
      → get_active (from_str (P.unsubscribe_id frame)) s.active_subscriptions_by_client_id
        ≡ some (d, i)
      → registry.destinations.get_if_present d after_reset ≡ some (as_destination h)
      → (h.sender.send (unsubscribe_request i) after_reset).0 ≡ ok tt
      → handle_event P quote over_registry
          (ClientEvent.client_frame (ok (ClientFrame.unsubscribe frame)))
          w
        ≡ (done (over_registry, nothing), (h.sender.send (unsubscribe_request i) after_reset).1)
  unfolding handle_event Registry.unsubscribe Handle.unsubscribe reset_timer
  handle_event-unsubscribe frame d i active held accepted = ground arith

  -- A SEND with a body for an in-memory destination that the registry has posts one message to its
  -- backend, if the channel accepts it, and the session stays as it was.
  pub handle_event-send :
      (frame : F.SendFrame) (body : Bytes)
      → P.send_body frame ≡ some body
      → registry.destinations.get_if_present (from_str (P.send_destination frame)) after_reset
        ≡ some (as_destination h)
      → (h.sender.send (send_request body) after_reset).0 ≡ ok tt
      → handle_event P quote over_registry
          (ClientEvent.client_frame (ok (ClientFrame.send frame)))
          w
        ≡ (done (over_registry, nothing), (h.sender.send (send_request body) after_reset).1)
  unfolding handle_event Registry.send Handle.send reset_timer
  handle_event-send frame body there held accepted = ground arith
