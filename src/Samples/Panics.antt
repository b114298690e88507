-- ===== src/Samples/Panics.antt =====
-- Sessions whose destination a client has ended, by two UNSUBSCRIBE frames in a row.
use little_stomper.Prelude.{ℕ_discrete, String-discrete, ◌≡◌, refl, some, [], ◌∷◌, ◌++◌}
use little_stomper.Prelude.Effects.{ok}
use little_stomper.Prelude.HashMap
use little_stomper.Ids.{StringId-discrete, from_str}
use little_stomper.Stomp.{ClientFrame}
use little_stomper.InMemory.Backend
use little_stomper.InMemory.Handle
use little_stomper.AsyncDestinations.Registry
use little_stomper.Session.Events
use little_stomper.Session.Events.{ClientEvent, no_identifier}
use little_stomper.Session.Handler
use little_stomper.Session.Handler.{handle_event, not_yet}
use little_stomper.Session.Stream
use little_stomper.Timer.Resetter.{reset_timer}
use little_stomper.Client.{default_client_methods}
use little_stomper.System.Moves.{System, Session, serves, begin, run, step, session_of}
use little_stomper.System.Panics.{panic_message, in_broker, handle_event-fault}
use little_stomper.Samples.Protocol.{frames, parser}
use little_stomper.Samples.World.{news, my_id}
use little_stomper.Samples.Owners.{quote, name, ask, both_subscribe}

-- Client 2 ends the task of "news", where client 1 has a subscription too.
abbrev broken : System frames
broken =
    run parser quote name
      (both_subscribe
        ++ (ask 2 (ClientFrame.unsubscribe "mine")
            ∷ ask 2 (ClientFrame.unsubscribe "mine")
            ∷ serves news
            ∷ serves news
            ∷ []))
      begin

-- The session of client 1 then.
abbrev lost : Session frames
lost = record (session_of 1) {
  active_subscriptions_by_client_id = (my_id, (news, from_str "")) ∷ [];
}

broken-lost : (broken.sessions 1 ≡ some lost) × ((broken.backends news).subscriptions ≡ [])
unfolding run begin step Handler.handle_event Stream.not_dead Registry.subscribe_task
    Handle.subscribe StringId-discrete Backend.handle_action Backend.add_subscription HashMap.get
    HashMap.insert HashMap.remove Events.subscribe_callback ℕ_discrete Events.send_event
    Backend.start Handler.handle Handler.subscribed reset_timer String-discrete Handler.client_frame
    Registry.unsubscribe Handle.unsubscribe Handler.unsubscribe Backend.remove_subscription
    Events.unsubscribe_callback
broken-lost = (refl, refl)

abbrev leaves : ClientEvent frames
leaves = ClientEvent.client_frame (ok (ClientFrame.unsubscribe "mine"))

handle_event-fault_example :
    panic_message (handle_event parser quote (in_broker parser quote 1 lost) leaves broken.shared).0
    ≡ some no_identifier
unfolding run begin step Handler.handle_event Stream.not_dead Registry.subscribe_task
    Handle.subscribe StringId-discrete Backend.handle_action Backend.add_subscription HashMap.get
    HashMap.insert HashMap.remove Events.subscribe_callback ℕ_discrete Events.send_event
    Backend.start Handler.handle Handler.subscribed reset_timer String-discrete Handler.client_frame
    Registry.unsubscribe Handle.unsubscribe Handler.unsubscribe Backend.remove_subscription
    Events.unsubscribe_callback
handle_event-fault_example = handle_event-fault parser quote 1 lost leaves broken.shared

handle_event-todo :
    panic_message
      (handle_event parser quote
        (in_broker parser quote 1 lost)
        (ClientEvent.client_frame (ok (ClientFrame.ack tt)))
        broken.shared).0
    ≡ some not_yet
handle_event-todo =
    handle_event-fault parser quote 1 lost (ClientEvent.client_frame (ok (ClientFrame.ack tt)))
      broken.shared
