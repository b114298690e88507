-- ===== src/Samples/Systems.antt =====
-- Two clients and one destination, from the start.
use little_stomper.Prelude.{
  arith, ℕ, ℕ_discrete, String-discrete, String, ◌≡◌, refl, some, none, List, [], ◌∷◌, All, true,
  inl,
}
use little_stomper.Prelude.Effects.{ok}
use little_stomper.Prelude.HashMap
use little_stomper.Ids.{StringId-discrete}
use little_stomper.Stomp.{ClientFrame, ServerFrame}
use little_stomper.Session.Events
use little_stomper.Session.Events.{ClientEvent, ServerMessage}
use little_stomper.System.Moves.{System, Move, arrives, receives, runs, serves, begin, run, step}
use little_stomper.System.Policy.{Policy, IsAllowedOutput, MayEnd}
use little_stomper.System.Invariant.{run-may_leave, run-IsAllowedOutput, run-MayEnd}
use little_stomper.InMemory.Backend.{handle_action, to_send_fn}
use little_stomper.Session.Events.{as_subscriber}
use little_stomper.Session.Handler.{server_message}
use little_stomper.InMemory.Backend
use little_stomper.InMemory.Handle
use little_stomper.AsyncDestinations.Registry
use little_stomper.Session.Handler
use little_stomper.Session.Stream
use little_stomper.Timer.Resetter.{reset_timer}
use little_stomper.Samples.Protocol.{frames, parser}
use little_stomper.Samples.World.{news, my_id}

abbrev pub quote : String → String
quote s = s

abbrev pub name : ℕ → String
name n = "u"

abbrev ask : ℕ → ClientFrame frames → Move frames
ask k f = arrives k (ClientEvent.client_frame (ok f))

-- The policy: client 1 may subscribe to "news" under "mine", may unsubscribe "mine", and may leave.
abbrev pub policy : Policy
policy = record {
  may_subscribe = λ k d c. (k ≡ 1) × (d ≡ news) × (c ≡ my_id);
  may_unsubscribe = λ k c. (k ≡ 1) × (c ≡ my_id);
  may_leave = λ k. k ≡ 1;
}

-- A SEND with a body does not end a session.
pub no_need : parser.send_body ("news", some (7 ∷ [])) ≡ none → policy.may_leave 0
no_need e = ground arith

-- Client 1 subscribes to "news" under "mine", client 0 sends a message there, and client 1 another.
abbrev pub sending : List (Move frames)
sending =
    ask 1 (ClientFrame.subscribe ("news", "mine"))
    ∷ runs 0
    ∷ serves news
    ∷ receives 1
    ∷ ask 0 (ClientFrame.send ("news", some (7 ∷ [])))
    ∷ ask 1 (ClientFrame.send ("news", some (8 ∷ [])))
    ∷ []

abbrev pub start : System frames
start = begin

abbrev pub sent : System frames
sent = run parser quote name sending begin

-- It is delivered.
abbrev delivering : List (Move frames)
delivering =
    ask 1 (ClientFrame.subscribe ("news", "mine"))
    ∷ runs 0
    ∷ serves news
    ∷ receives 1
    ∷ ask 0 (ClientFrame.send ("news", some (7 ∷ [])))
    ∷ serves news
    ∷ receives 1
    ∷ []

abbrev pub delivered : ℕ → ServerMessage frames
delivered b = inl (
    ServerFrame.message (record {
      message_id = "u";
      destination = "news";
      subscription = "mine";
      content_type = some "text/plain";
      content_length = some 1;
      body = some (b ∷ []);
    }))

written-delivering : (run parser quote name delivering begin).written 1 ≡ delivered 7 ∷ []
unfolding run begin Handler.handle_event Stream.not_dead Registry.subscribe_task Handle.subscribe
    StringId-discrete Backend.handle_action Backend.add_subscription HashMap.get HashMap.insert
    Events.subscribe_callback ℕ_discrete Registry.send Handle.send Backend.send_message Events.send
    HashMap.remove Backend.start Backend.deliver Backend.remove_all Events.send_event Handler.handle
    Handler.server_message Handler.subscribed step reset_timer String-discrete Handler.client_frame
written-delivering = refl

run-IsAllowedOutput_example :
    All (IsAllowedOutput parser policy 1) ((run parser quote name delivering begin).written 1)
unfolding StringId-discrete
run-IsAllowedOutput_example =
    run-IsAllowedOutput parser quote name policy delivering 1
      ((refl, refl, refl), (tt, (tt, (tt, (no_need, (tt, (tt, tt)))))))

-- Client 1 unsubscribes twice before it hears of the first removal: the destination ends.
abbrev ending : List (Move frames)
ending =
    ask 1 (ClientFrame.subscribe ("news", "mine"))
    ∷ runs 0
    ∷ serves news
    ∷ receives 1
    ∷ ask 1 (ClientFrame.unsubscribe "mine")
    ∷ ask 1 (ClientFrame.unsubscribe "mine")
    ∷ serves news
    ∷ serves news
    ∷ []

closed-ending : (run parser quote name ending begin).shared.is_closed news ≡ true
unfolding run begin Handler.handle_event Stream.not_dead Registry.subscribe_task Handle.subscribe
    StringId-discrete Backend.handle_action Backend.add_subscription HashMap.get HashMap.insert
    Events.subscribe_callback ℕ_discrete Registry.unsubscribe Handle.unsubscribe
    Backend.remove_subscription Events.unsubscribe_callback HashMap.remove Backend.start
    Events.send_event Handler.handle Handler.unsubscribe Handler.subscribed step reset_timer
    String-discrete Handler.client_frame
closed-ending = refl

run-MayEnd_example : MayEnd policy news
run-MayEnd_example =
    run-MayEnd parser quote name policy ending news
      (
        (refl, refl, refl),
        (tt, (tt, (tt, (((refl, refl), refl), (((refl, refl), refl), (tt, (tt, tt))))))),
      )
      closed-ending

-- Client 1 leaves.
abbrev leaving : List (Move frames)
leaving = ask 0 (ClientFrame.send ("news", some (7 ∷ []))) ∷ ask 1 (ClientFrame.disconnect tt) ∷ []

ended-leaving : (run parser quote name leaving begin).sessions 1 ≡ none
unfolding run begin step Handler.handle_event Handler.client_frame Handler.handle Stream.not_dead
    reset_timer Registry.send ℕ_discrete
ended-leaving = refl

run-may_leave_example : policy.may_leave 1
run-may_leave_example =
    run-may_leave parser quote name policy leaving 1 (no_need, (refl, tt)) (inl ended-leaving)
