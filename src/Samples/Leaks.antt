-- ===== src/Samples/Leaks.antt =====
-- Two subscriptions of one client under one id.
use little_stomper.Prelude.{
  zero, suc, map, Bool, ℕ, ℕ_discrete, String-discrete, String, ◌≡◌, refl, some, List, [], ◌∷◌,
  true, false, inl,
}
use little_stomper.Prelude.Effects.{ok}
use little_stomper.Prelude.HashMap
use little_stomper.Ids.{StringId-discrete}
use little_stomper.Stomp.{ClientFrame, ServerFrame}
use little_stomper.Session.Events
use little_stomper.Session.Events.{ClientEvent, ServerMessage}
use little_stomper.System.Moves.{Move, arrives, receives, runs, serves, begin, run, step}
use little_stomper.InMemory.Backend.{handle_action, to_send_fn}
use little_stomper.Session.Events.{as_subscriber}
use little_stomper.Session.Handler.{server_message}
use little_stomper.InMemory.Backend
use little_stomper.InMemory.Handle
use little_stomper.AsyncDestinations.Registry
use little_stomper.Session.Handler
use little_stomper.Session.Stream
use little_stomper.Timer.Resetter.{reset_timer}
use little_stomper.Samples.Protocol.{frames, parser}
use little_stomper.Samples.World.{news}

abbrev quote : String → String
quote s = s

abbrev ask : ℕ → ClientFrame frames → Move frames
ask k f = arrives k (ClientEvent.client_frame (ok f))

abbrev is_frame : ServerMessage frames → Bool
is_frame (inl (ServerFrame.message f)) = true
is_frame m = false

-- Client 1 subscribes twice under one id, and unsubscribes it when both are confirmed; the removal is
-- confirmed, and the next message reaches it all the same.
abbrev two_names : ℕ → String
two_names zero = "a"
two_names (suc n) = "b"

abbrev leaking : List (Move frames)
leaking =
    ask 1 (ClientFrame.subscribe ("news", "mine"))
    ∷ ask 1 (ClientFrame.subscribe ("news", "mine"))
    ∷ runs 0
    ∷ runs 0
    ∷ serves news
    ∷ serves news
    ∷ receives 1
    ∷ receives 1
    ∷ ask 1 (ClientFrame.unsubscribe "mine")
    ∷ serves news
    ∷ receives 1
    ∷ ask 0 (ClientFrame.send ("news", some (7 ∷ [])))
    ∷ serves news
    ∷ receives 1
    ∷ []

written-leaking : map is_frame ((run parser quote two_names leaking begin).written 1) ≡ true ∷ []
unfolding run begin Handler.handle_event Stream.not_dead Registry.subscribe_task Handle.subscribe
    StringId-discrete Backend.handle_action Backend.add_subscription HashMap.get HashMap.insert
    Events.subscribe_callback ℕ_discrete Registry.send Handle.send Backend.send_message Events.send
    HashMap.remove Backend.start Backend.deliver Backend.remove_all Events.send_event Handler.handle
    Handler.server_message Handler.subscribed step reset_timer String-discrete Handler.client_frame
    Registry.unsubscribe Handle.unsubscribe Backend.remove_subscription Events.unsubscribe_callback
    Handler.unsubscribe Handler.unsubscribed
written-leaking = refl
