-- ===== src/System/Moves.antt =====
-- One move of the system of sessions and destinations, and runs: any moves in any order. Which move
-- comes next is the choice of clients, of timers and of the executor.
use little_stomper.Prelude.{
  ◌≡◌, refl, ℕ, zero, suc, String, Option, none, some, List, [], ◌∷◌, ◌++◌, Bool, true, false,
  if◌then◌else◌, ℕ_discrete,
}
use little_stomper.Prelude.Effects.{Outcome, ok, done, panic}
use little_stomper.Client.{DefaultClient, default_client, default_client_methods}
use little_stomper.Ids.{DestinationId, StringId-discrete}
use little_stomper.Stomp.{Frames, StompParser}
use little_stomper.Tokio.{UnboundedSender}
use little_stomper.Timer.Resetter.{ResettableTimerCommand}
use little_stomper.InMemory.Backend.{InMemDestinationBackend, handle_action, start}
use little_stomper.Session.Events.{ClientEvent, Response, ServerMessage}
use little_stomper.Session.Handler
use little_stomper.Session.Handler.{ClientSession, handle_event}
use little_stomper.Session.Stream.{not_dead}
use little_stomper.System.Family.{update}
use little_stomper.System.Shared.{
  Shared, Post, SubscribeTask, proxy, destinations_of, run_task, action_of, new_id,
}

abbrev pub Session : Frames → Type 0
Session F = ClientSession (Shared F) DefaultClient F

abbrev pub Backend : Frames → Type 0
Backend F = InMemDestinationBackend (Shared F)

-- A session that is dead, or whose task panicked, is `none`.
pub record System (F : Frames) : Type 0 where
  pub shared : Shared F
  pub sessions : ℕ → Option (Session F)
  pub backends : DestinationId → Backend F
  -- What each client has been sent.
  pub written : ℕ → List (ServerMessage F)

pub data Move (F : Frames) : Type 0 where
  -- An event of the client's stream or of a timer reaches a session.
  arrives : ℕ → ClientEvent F → Move F
  -- A session takes the next event of its channel.
  receives : ℕ → Move F
  -- The executor runs one of the spawned tasks, by its place.
  runs : ℕ → Move F
  -- A backend takes the next action of its channel.
  serves : DestinationId → Move F

-- The events that do not come through a session's channel alone.
abbrev pub is_external : {F : Frames} → ClientEvent F → Bool
is_external (ClientEvent.server_message _ _) = false
is_external (ClientEvent.subscribed _ _ _) = false
is_external (ClientEvent.unsubscribed _ _) = false
is_external _ = true

abbrev pub put_back :
    SubscribeTask
    → Option (SubscribeTask × List SubscribeTask)
    → Option (SubscribeTask × List SubscribeTask)
put_back t none = none
put_back t (some (taken, rest)) = some (taken, t ∷ rest)

-- One of the tasks, and the others.
abbrev pub take_task : ℕ → List SubscribeTask → Option (SubscribeTask × List SubscribeTask)
take_task n [] = none
take_task zero (t ∷ ts) = some (t, ts)
take_task (suc n) (t ∷ ts) = put_back t (take_task n ts)

-- What a response gives the client.
abbrev pub output : {F : Frames} → Response F → List (ServerMessage F)
output (ok (_, some m)) = m ∷ []
output _ = []

module _ {F : Frames} where
  -- The timers are not part of the system: they take every reset.
  abbrev pub no_timer : UnboundedSender (Shared F) ResettableTimerCommand
  no_timer = record { send = λ command w. (ok tt, w) }

  -- At the start every session is connected and has done nothing, and there is no destination.
  abbrev pub session_of : ℕ → Session F
  session_of k =
      Handler.new (destinations_of k) (proxy k) (record { sender = no_timer })
        (record { sender = no_timer }) default_client

  -- A session that is as it was at the start, but for its map of active subscriptions.
  abbrev pub IsAsMade : ℕ → Session F → Type 0
  IsAsMade k s = s ≡ record (session_of k) {
    active_subscriptions_by_client_id = s.active_subscriptions_by_client_id;
  }

  unfoldable pub begin : System F
  begin = record {
    shared = record {
      queues = λ k. [];
      is_open = λ k. true;
      tasks = [];
      made = λ d. false;
      posts = λ d. [];
      is_closed = λ d. false;
      next = 0;
    };
    sessions = λ k. some (session_of k);
    backends = λ d. start d;
    written = λ k. [];
  }

  -- When the stream of a session ends, its channel is dropped. What is left in `queues` stands for
  -- nothing then, and no move takes it.
  abbrev pub ended : ℕ → Shared F → System F → System F
  ended k w sys = record sys {
    shared = record w { is_open = update ℕ_discrete k false w.is_open };
    sessions = update ℕ_discrete k none sys.sessions;
  }

  abbrev pub settle : ℕ → Outcome (Session F × Response F) → Shared F → System F → System F
  settle k (done (s, r)) w sys =
      if not_dead r
      then record sys {
        shared = w;
        sessions = update ℕ_discrete k (some s) sys.sessions;
        written = update ℕ_discrete k (sys.written k ++ output r) sys.written;
      }
      else ended k w sys
  settle k (panic why) w sys = ended k w sys

  -- When the task of a backend returns or panics, its channel is dropped, and the backend with its
  -- map: nothing is left of the subscriptions. What is left in `posts` stands for nothing then, and
  -- no move serves it.
  abbrev pub settle_backend :
      DestinationId → Outcome (Option (Backend F)) → Shared F → System F → System F
  settle_backend d (done (some b)) w sys = record sys {
    shared = w;
    backends = update StringId-discrete d b sys.backends;
  }
  settle_backend d _ w sys = record sys {
    shared = record w { is_closed = update StringId-discrete d true w.is_closed };
    backends = update StringId-discrete d (start d) sys.backends;
  }

  abbrev pub run_taken : Option (SubscribeTask × List SubscribeTask) → System F → System F
  run_taken none sys = sys
  run_taken (some (t, ts)) sys = record sys {
    shared = (run_task t (record sys.shared { tasks = ts })).1;
  }

module _ {F : Frames} (P : StompParser F) (quote : String → String) (name : ℕ → String) where
  abbrev pub act : ℕ → ClientEvent F → Shared F → Option (Session F) → System F → System F
  act k e w none sys = sys
  act k e w (some s) sys = let (o, w') = handle_event P quote s e w in settle k o w' sys

  abbrev pub receive : ℕ → List (ClientEvent F) → System F → System F
  receive k [] sys = sys
  receive k (e ∷ es) sys =
      let w = sys.shared in
      act k e (record w { queues = update ℕ_discrete k es w.queues }) (sys.sessions k) sys

  abbrev pub serve_next : DestinationId → List Post → System F → System F
  serve_next d [] sys = sys
  serve_next d (p ∷ ps) sys =
      let w = record sys.shared { posts = update StringId-discrete d ps sys.shared.posts } in
      let (o, w') = handle_action (new_id name) (sys.backends d) (action_of p) w in
      settle_backend d o w' sys

  -- A move that is not possible changes nothing.
  unfoldable pub step : Move F → System F → System F
  step (arrives k e) sys = if is_external e then act k e sys.shared (sys.sessions k) sys else sys
  step (receives k) sys = receive k (sys.shared.queues k) sys
  step (runs n) sys = run_taken (take_task n sys.shared.tasks) sys
  step (serves d) sys =
      if sys.shared.is_closed d then sys else serve_next d (sys.shared.posts d) sys

  unfoldable pub run : List (Move F) → System F → System F
  unfolding step
  run [] sys = sys
  run (m ∷ ms) sys = run ms (step m sys)

  pub run-append :
      (ms ns : List (Move F)) (sys : System F) → run (ms ++ ns) sys ≡ run ns (run ms sys)
  unfolding run
  run-append [] ns sys = refl
  run-append (m ∷ ms) ns sys = run-append ms ns (step m sys)
