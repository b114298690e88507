-- ===== src/Samples/Reached.antt =====
-- Two clients subscribe, and one of them sends messages.
use little_stomper.Prelude.{
  ◌⊎◌, true, false, ℕ, arith, ℕ_discrete, String-discrete, ◌≡◌, refl, some, none, List, [], ◌∷◌,
  ◌++◌, All,
}
use little_stomper.Prelude.HashMap
use little_stomper.Ids.{StringId-discrete, from_str}
use little_stomper.Stomp.{ClientFrame}
use little_stomper.InMemory.Backend
use little_stomper.InMemory.Handle
use little_stomper.AsyncDestinations.Registry
use little_stomper.Session.Events
use little_stomper.Session.Handler
use little_stomper.Session.Handler.{get_active}
use little_stomper.Session.Stream
use little_stomper.Timer.Resetter.{reset_timer}
use little_stomper.System.Moves.{Session, Move, begin, run, step}
use little_stomper.System.Reaching.{Reaches}
use little_stomper.System.Policy.{IsAllowedMove}
use little_stomper.System.Backing.{IsBacked, run-IsBacked}
use little_stomper.System.Known.{run-IsRegistered}
use little_stomper.System.Resting.{IsInner, IsAtRest, run-IsAtRest}
use little_stomper.System.Publishing.{run-Publishes}
use little_stomper.Samples.Protocol.{frames, parser}
use little_stomper.Samples.World.{news, my_id}
use little_stomper.Samples.Owners.{quote, name, name-AreDistinct, ask, both_subscribe, calm_policy}

-- Then client 2 sends two messages, which the destination has not served yet.
abbrev busy : List (Move frames)
busy =
    both_subscribe
    ++ (ask 2 (ClientFrame.send ("news", some (7 ∷ [])))
        ∷ ask 2 (ClientFrame.send ("news", some (8 ∷ [])))
        ∷ [])

no_leave : (b : ℕ) → parser.send_body ("news", some (b ∷ [])) ≡ none → ⊥
no_leave b e = ground arith

busy-IsAllowed : All (IsAllowedMove parser calm_policy) busy
busy-IsAllowed = (tt, (tt, (tt, (tt, (tt, (tt, (tt, (tt, (no_leave 7, (no_leave 8, tt))))))))))

-- The sessions of the two clients after that.
listener :
    (u : Session frames) × ((run parser quote name busy begin).sessions 1 ≡ some u)
    × (get_active my_id u.active_subscriptions_by_client_id ≡ some (news, from_str ""))
unfolding run begin step Handler.handle_event Stream.not_dead Registry.subscribe_task
    Handle.subscribe StringId-discrete Backend.handle_action Backend.add_subscription HashMap.get
    HashMap.insert HashMap.remove Events.subscribe_callback ℕ_discrete Events.send_event
    Backend.start Handler.handle Handler.subscribed reset_timer String-discrete Handler.client_frame
    Registry.send Handle.send
listener = (_, refl, refl)

sender : (t : Session frames) × ((run parser quote name busy begin).sessions 2 ≡ some t)
unfolding run begin step Handler.handle_event Stream.not_dead Registry.subscribe_task
    Handle.subscribe StringId-discrete Backend.handle_action Backend.add_subscription HashMap.get
    HashMap.insert HashMap.remove Events.subscribe_callback ℕ_discrete Events.send_event
    Backend.start Handler.handle Handler.subscribed reset_timer String-discrete Handler.client_frame
    Registry.send Handle.send
sender = (_, refl)

busy-is_closed : (run parser quote name busy begin).shared.is_closed news ≡ false
unfolding run begin step Handler.handle_event Stream.not_dead Registry.subscribe_task
    Handle.subscribe StringId-discrete Backend.handle_action Backend.add_subscription HashMap.get
    HashMap.insert HashMap.remove Events.subscribe_callback ℕ_discrete Events.send_event
    Backend.start Handler.handle Handler.subscribed reset_timer String-discrete Handler.client_frame
    Registry.send Handle.send
busy-is_closed = refl

run-IsBacked_example : IsBacked 1 news my_id (from_str "") (run parser quote name busy begin)
run-IsBacked_example =
    run-IsBacked parser quote name name-AreDistinct calm_policy 1 (λ may. may) (λ b may. may) busy
      listener.0 my_id news (from_str "") busy-IsAllowed listener.1 listener.2 busy-is_closed

run-Publishes_example :
    Reaches parser quote name calm_policy news 1 my_id
      ((run parser quote name busy begin).shared.posts news)
      (record { sender_message_id = none; body = 9 ∷ [] })
      (run parser quote name
        (ask 2 (ClientFrame.send ("news", some (9 ∷ []))) ∷ [])
        (run parser quote name busy begin))
run-Publishes_example =
    run-Publishes parser quote name name-AreDistinct calm_policy 1 (from_str "") my_id 2
      ("news", some (9 ∷ [])) (9 ∷ []) busy sender.0 listener.0 busy-IsAllowed (λ m. m.3)
      (λ may. may) (λ b may. may) refl listener.1 listener.2 sender.1

run-IsRegistered_example :
    ((run parser quote name both_subscribe begin).shared.made news ≡ true)
    ⊎ (((run parser quote name both_subscribe begin).shared.posts news ≡ [])
        × (((run parser quote name both_subscribe begin).backends news).subscriptions ≡ []))
run-IsRegistered_example = run-IsRegistered parser quote name both_subscribe news

run-IsAtRest_example :
    (ms : List (Move frames)) × All IsInner ms
    × IsAtRest parser quote name calm_policy
        (news ∷ [])
        (1 ∷ 2 ∷ [])
        (run parser quote name ms (run parser quote name busy begin))
run-IsAtRest_example =
    run-IsAtRest parser quote name calm_policy busy (news ∷ []) (1 ∷ 2 ∷ []) busy-IsAllowed
      ((λ m. m.3), tt) ((λ may. may), ((λ may. may), tt))
