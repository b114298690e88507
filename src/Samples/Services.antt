-- ===== src/Samples/Services.antt =====
-- A destination that serves what two clients sent.
use little_stomper.Prelude.{
  arith, ℕ_discrete, String-discrete, ◌≡◌, refl, some, none, List, [], ◌∷◌, ◌++◌, true, false,
}
use little_stomper.Prelude.HashMap
use little_stomper.Ids.{StringId-discrete, from_str}
use little_stomper.Session.Events
use little_stomper.Session.Events.{ClientEvent, ServerMessage}
use little_stomper.System.Moves.{Move, receives, serves, begin, run, step, Session, session_of}
use little_stomper.System.Policy.{Policy, anyone, IsAllowedSystem}
use little_stomper.System.Invariant.{run-IsAllowed, begin-IsAllowed}
use little_stomper.System.Broker.{Roster, Represents, broker}
use little_stomper.System.Broker.Refinement.{Refines, handle_action-Refines}
use little_stomper.InMemory.Validity.{IsValid}
use little_stomper.System.Service.{Delivers}
use little_stomper.System.Draining.{cleared}
use little_stomper.System.Delivering.{run-Delivers}
use little_stomper.System.Order.{IsServing, published-written}
use little_stomper.InMemory.Backend.{handle_action, to_send_fn}
use little_stomper.Session.Events.{as_subscriber}
use little_stomper.Session.Handler.{server_message}
use little_stomper.System.Moves.{Backend}
use little_stomper.System.Shared.{new_id, action_of, proxy, sends}
use little_stomper.Destinations.{InboundMessage}
use little_stomper.InMemory.Backend
use little_stomper.InMemory.Handle
use little_stomper.AsyncDestinations.Registry
use little_stomper.Session.Handler
use little_stomper.Session.Stream
use little_stomper.Timer.Resetter.{reset_timer}
use little_stomper.Samples.Protocol.{frames, parser}
use little_stomper.Samples.World.{news, my_id}
use little_stomper.Samples.Systems.{quote, name, policy, sending, start, sent, delivered, no_need}

sent-IsAllowed : IsAllowedSystem parser policy anyone sent
sent-IsAllowed =
    run-IsAllowed parser quote name policy sending begin
      ((refl, refl, refl), (tt, (tt, (tt, (no_need, (λ _. refl, tt))))))
      (begin-IsAllowed parser quote name policy anyone (omega arith))

abbrev the_message : InboundMessage
the_message = record { sender_message_id = none; body = 7 ∷ [] }

abbrev a_reply : InboundMessage
a_reply = record { sender_message_id = none; body = 8 ∷ [] }

sent-IsReady :
    (sent.shared.is_closed news ≡ false)
    × (sent.shared.posts news ≡ sends 0 the_message ∷ sends 1 a_reply ∷ [])
    × (sent.shared.is_open 1 ≡ true)
    × (sent.shared.queues 1 ≡ [])
unfolding run begin Handler.handle_event Stream.not_dead Registry.subscribe_task Handle.subscribe
    StringId-discrete Backend.handle_action Backend.add_subscription HashMap.get HashMap.insert
    Events.subscribe_callback ℕ_discrete Registry.send Handle.send Backend.send_message Events.send
    HashMap.remove Backend.start Backend.deliver Backend.remove_all Events.send_event Handler.handle
    Handler.server_message Handler.subscribed step reset_timer String-discrete Handler.client_frame
sent-IsReady = (refl, refl, refl, refl)

listener : Session frames
listener = record (session_of 1) {
  active_subscriptions_by_client_id = (my_id, (news, from_str "u")) ∷ [];
}

alive-listener : sent.sessions 1 ≡ some listener
unfolding run begin Handler.handle_event Stream.not_dead Registry.subscribe_task Handle.subscribe
    StringId-discrete Backend.handle_action Backend.add_subscription HashMap.get HashMap.insert
    Events.subscribe_callback ℕ_discrete Registry.send Handle.send Backend.send_message Events.send
    HashMap.remove Backend.start Backend.deliver Backend.remove_all Events.send_event Handler.handle
    Handler.server_message Handler.subscribed step reset_timer String-discrete Handler.client_frame
    listener
alive-listener = refl

abbrev roster : Roster
roster = (from_str "u", (1, my_id)) ∷ []

sent-Represents : Represents roster (sent.backends news).subscriptions
unfolding run begin Handler.handle_event Stream.not_dead Registry.subscribe_task Handle.subscribe
    StringId-discrete Backend.handle_action Backend.add_subscription HashMap.get HashMap.insert
    Events.subscribe_callback ℕ_discrete Registry.send Handle.send Backend.send_message Events.send
    HashMap.remove Backend.start Backend.deliver Backend.remove_all Events.send_event Handler.handle
    Handler.server_message Handler.subscribed step reset_timer String-discrete Handler.client_frame
sent-Represents = (refl, (refl, refl), tt)

sent-IsServing : IsServing parser quote name news sent roster
sent-IsServing = record {
  id_kept = (sent-IsAllowed.backends news).id_kept;
  valid = sent-IsAllowed.valid news;
  stands_for = sent-Represents;
  is_open = sent-IsReady.0;
}

-- The two messages are delivered in order.
abbrev serving : List (Move frames)
serving = serves news ∷ serves news ∷ receives 1 ∷ receives 1 ∷ []

written-serving :
    (run parser quote name serving sent).written 1
    ≡ sent.written 1 ++ (delivered 7 ∷ delivered 8 ∷ [])
unfolding server_message ℕ_discrete listener
written-serving =
    published-written parser quote name news ((0, the_message) ∷ (1, a_reply) ∷ []) [] sent roster 1
      listener sent-IsServing sent-IsReady.1 alive-listener refl sent-IsReady.2 sent-IsReady.3

-- A policy under which no client unsubscribes or leaves.
abbrev calm_policy : Policy
calm_policy = record policy { may_unsubscribe = λ k c. ⊥; may_leave = λ k. ⊥ }

no_leave : parser.send_body ("news", some (7 ∷ [])) ≡ none → ⊥
no_leave e = ground arith

-- The second message, once the first one is out of the way.
run-Delivers_example :
    (r : Roster) × Represents r
      ((cleared parser quote name calm_policy news 1 (sends 0 the_message ∷ []) sent).backends
        news).subscriptions
    × Delivers parser quote name calm_policy news 1
        ((1, a_reply) ∷ [])
        (cleared parser quote name calm_policy news 1 (sends 0 the_message ∷ []) sent)
        r
run-Delivers_example =
    run-Delivers parser quote name calm_policy news 1 sending ((1, a_reply) ∷ [])
      (sends 0 the_message ∷ []) []
      ((refl, refl, refl), (tt, (tt, (tt, (no_leave, (λ e. ground arith, tt)))))) (λ m. m.3)
      (λ m. m) sent-IsReady.1

-- A destination with one subscription, of client 1, from the start.
abbrev one : Backend frames
one = record {
  id = news;
  subscriptions =
      (
        from_str "u",
        record {
          id = from_str "u";
          subscriber_sub_id = some my_id;
          send_fn = to_send_fn (as_subscriber (proxy 1));
        },
      )
      ∷ [];
}

one-IsValid : IsValid one
unfolding HashMap.get
one-IsValid = record { distinct = (refl, tt); keyed = (refl, tt) }

handle_action-Refines_example :
    Refines news
      (broker name news (sends 0 the_message) roster start.shared)
      (handle_action (new_id name) one (action_of (sends 0 the_message)) start.shared)
handle_action-Refines_example =
    handle_action-Refines name news one roster refl (refl, (refl, refl), tt) (sends 0 the_message)
      start.shared one-IsValid
