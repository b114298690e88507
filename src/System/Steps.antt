-- ===== src/System/Steps.antt =====
-- What each part of a move leaves: the end of a session, a handler, a task, an action of a backend.

use little_stomper.Prelude.{
  true, false, ◌≡◌, refl, ℕ, String, Option, none, some, List, [], ◌∷◌, All, All-append, ℕ_discrete,
  Bool-cases, inl, inr,
}
use little_stomper.Prelude.Effects.{Outcome, done, panic, Ensures}
use little_stomper.Client.{default_client_methods}
use little_stomper.Ids.{DestinationId, StringId-discrete}
use little_stomper.Stomp.{Frames, StompParser}
use little_stomper.InMemory.Backend.{start, handle_action}
use little_stomper.InMemory.Validity
use little_stomper.InMemory.Validity.{IsValid, start-IsValid, handle_action-IsValid}
use little_stomper.Session.Events.{ClientEvent, Response}
use little_stomper.Session.Handler.{handle_event}
use little_stomper.Session.Stream.{not_dead}
use little_stomper.System.Family.{update, update-all}
use little_stomper.System.Shared.{Shared, SubscribeTask, Post, action_of, new_id}
use little_stomper.System.Moves.{
  System, Session, Backend, settle, ended, settle_backend, run_taken, act, receive, serve_next,
  output,
}
use little_stomper.System.Policy.{
  Ledger, IfGranted, Policy, IsAllowed, IsAllowedNotice, IsAllowedPost, IsAllowedBackend,
  IsAllowedShared, IsAllowedOutput, MayEnd, IfAlive, IsAllowedSystem,
}
use little_stomper.System.Sessions.{IsAllowedResult, handle_event-Safe, run_task-allowed}
use little_stomper.System.Leaving.{IfEnds, handle_event-IfEnds}
use little_stomper.System.Backends.{handle_action-Safe, IfGoesOn}
use little_stomper.System.Ends.{IfEnded, handle_action-IfEnded}
use little_stomper.System.Tasks.{Taken}

module _ {F : Frames} (P : StompParser F) (quote : String → String) (name : ℕ → String) (L : Policy)
    (H : Ledger) where
  ended-IsAllowed :
      (k : ℕ) (w : Shared F) (sys : System F)
      → L.may_leave k
      → IsAllowedShared P L H w
      → IsAllowedSystem P L H sys
      → IsAllowedSystem P L H (ended k w sys)
  ended-IsAllowed k w sys a h i = record {
    shared = record {
      queues = h.queues;
      tasks = h.tasks;
      posts = h.posts;
      closed = h.closed;
      heard =
          update-all ℕ_discrete (λ j x. x ≡ false → L.may_leave j) k false w.is_open (λ _. a)
            h.heard;
      grown = h.grown;
    };
    sessions = update-all ℕ_discrete (IfAlive P L H) k none sys.sessions a i.sessions;
    backends = i.backends;
    valid = i.valid;
    written = i.written;
  }

  settle-IsAllowed :
      (k : ℕ) (o : Outcome (Session F × Response F)) (w : Shared F) (sys : System F)
      → Ensures (IsAllowedResult P L H quote k) o
      → IfEnds L k o
      → IsAllowedShared P L H w
      → IsAllowedSystem P L H sys
      → IsAllowedSystem P L H (settle k o w sys)
  settle-IsAllowed k (panic why) w sys e a h i = ended-IsAllowed k w sys a h i
  settle-IsAllowed k (done (s, r)) w sys e a h i = elim (Bool-cases (not_dead r)) [
    | inl on ↦ rw on (record {
      shared = h;
      sessions = update-all ℕ_discrete (IfAlive P L H) k (some s) sys.sessions e.0 i.sessions;
      backends = i.backends;
      valid = i.valid;
      written =
          update-all ℕ_discrete (λ j. All (IsAllowedOutput P L j)) k _ sys.written
            (All-append (IsAllowedOutput P L k) (sys.written k) (output r) (i.written k) e.1)
            i.written;
    })
    | inr off ↦ rw off (ended-IsAllowed k w sys (a off) h i)
  ]

  pub act-IsAllowed :
      (k : ℕ) (e : ClientEvent F) (w : Shared F) (o : Option (Session F)) (sys : System F)
      → IsAllowed P L H k e
      → IfAlive P L H k o
      → IsAllowedShared P L H w
      → IsAllowedSystem P L H sys
      → IsAllowedSystem P L H (act P quote name k e w o sys)
  act-IsAllowed k e w none sys a same h i = i
  act-IsAllowed k e w (some s) sys a same h i =
      let (o, w') = handle_event P quote s e w in
      let (kept, post) = handle_event-Safe P L H quote k s e same a w h in
      settle-IsAllowed k o w' sys post (handle_event-IfEnds P L H quote k s e w same a) kept i

  pub receive-IsAllowed :
      (k : ℕ) (es : List (ClientEvent F)) (sys : System F)
      → All (IsAllowedNotice P L H k) es
      → IsAllowedSystem P L H sys
      → IsAllowedSystem P L H (receive P quote name k es sys)
  receive-IsAllowed k [] sys a i = i
  receive-IsAllowed k (e ∷ es) sys a i =
      let w = sys.shared in
      act-IsAllowed k e (record w { queues = update ℕ_discrete k es w.queues }) (sys.sessions k) sys
        a.0.0 (i.sessions k)
        (record {
          queues =
              update-all ℕ_discrete (λ j. All (IsAllowedNotice P L H j)) k es w.queues a.1
                i.shared.queues;
          tasks = i.shared.tasks;
          posts = i.shared.posts;
          closed = i.shared.closed;
          heard = i.shared.heard;
          grown = i.shared.grown;
        })
        i

  pub run_taken-IsAllowed :
      (o : Option (SubscribeTask × List SubscribeTask)) (sys : System F)
      → Taken L o
      → IsAllowedSystem P L H sys
      → IsAllowedSystem P L H (run_taken o sys)
  run_taken-IsAllowed none sys a i = i
  run_taken-IsAllowed (some (t, ts)) sys a i = record {
    shared =
        run_task-allowed P L H t (record sys.shared { tasks = ts }) a.0
          (record {
            queues = i.shared.queues;
            tasks = a.1;
            posts = i.shared.posts;
            closed = i.shared.closed;
            heard = i.shared.heard;
            grown = i.shared.grown;
          });
    sessions = i.sessions;
    backends = i.backends;
    valid = i.valid;
    written = i.written;
  }

  start-IsAllowed : (d : DestinationId) → IsAllowedBackend L H {F = F} d (start d)
  unfolding start
  start-IsAllowed d = record { id_kept = refl; subscriptions = tt }

  settle_backend-IsAllowed :
      (d : DestinationId) (b : Backend F) (h : IsAllowedBackend L H d b)
      (o : Outcome (Option (Backend F))) (w : Shared F) (sys : System F)
      → Ensures (IfGoesOn P L H name d b h) o
      → Ensures Validity.IfGoesOn o
      → IfEnded P L H name d b h o
      → IsAllowedShared P L H w
      → IsAllowedSystem P L H sys
      → IsAllowedSystem P L H (settle_backend d o w sys)
  settle_backend-IsAllowed d b h (done (some b')) w sys a v m k i = record {
    shared = k;
    sessions = i.sessions;
    backends = update-all StringId-discrete (IsAllowedBackend L H) d b' sys.backends a i.backends;
    valid = update-all StringId-discrete (λ d. IsValid) d b' sys.backends v i.valid;
    written = i.written;
  }
  settle_backend-IsAllowed d b h (done none) w sys a v m k i = absurd a
  settle_backend-IsAllowed d b h (panic why) w sys a v m k i = record {
    shared = record {
      queues = k.queues;
      tasks = k.tasks;
      posts = k.posts;
      closed =
          update-all StringId-discrete (λ d x. x ≡ true → MayEnd L d) d true w.is_closed (λ _. m)
            k.closed;
      heard = k.heard;
      grown = k.grown;
    };
    sessions = i.sessions;
    backends =
        update-all StringId-discrete (IsAllowedBackend L H) d (start d) sys.backends
          (start-IsAllowed d) i.backends;
    valid =
        update-all StringId-discrete (λ d. IsValid) d (start d) sys.backends (start-IsValid d)
          i.valid;
    written = i.written;
  }

  abbrev pub IfNextGranted : DestinationId → List Post → System F → Type 0
  IfNextGranted d [] sys = Unit
  IfNextGranted d (p ∷ ps) sys = IfGranted H name sys.shared.next d p

  pub serve_next-IsAllowed :
      (d : DestinationId) (ps : List Post) (sys : System F)
      → All (IsAllowedPost L H d) ps
      → IfNextGranted d ps sys
      → IsAllowedSystem P L H sys
      → IsAllowedSystem P L H (serve_next P quote name d ps sys)
  serve_next-IsAllowed d [] sys a g i = i
  serve_next-IsAllowed d (p ∷ ps) sys a g i =
      let b = sys.backends d in
      let w = record sys.shared { posts = update StringId-discrete d ps sys.shared.posts } in
      let (o, w') = handle_action (new_id name) b (action_of p) w in
      let h : IsAllowedShared P L H w = record {
        queues = i.shared.queues;
        tasks = i.shared.tasks;
        posts =
            update-all StringId-discrete (λ d. All (IsAllowedPost L H d)) d ps sys.shared.posts a.1
              i.shared.posts;
        closed = i.shared.closed;
        heard = i.shared.heard;
        grown = i.shared.grown;
      } in
      let (kept, post) = handle_action-Safe P L H name d b (i.backends d) p w a.0 g h in
      settle_backend-IsAllowed d b (i.backends d) o w' sys post
        (handle_action-IsValid (new_id name) b (action_of p) w (i.valid d))
        (handle_action-IfEnded P L H name d b (i.backends d) p w a.0 g h) kept i
