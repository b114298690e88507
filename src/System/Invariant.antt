-- ===== src/System/Invariant.antt =====
-- What the system holds goes back to what clients asked for: true at the start, kept by each move,
-- and so after any moves in any order.
use little_stomper.Prelude.HashMap
use little_stomper.Prelude.{
  ◌≤◌, ◌⊎◌, inl, inr, none, some, subst, false, true, arith, ◌≡◌, ℕ, String, refl, List, [], ◌∷◌,
  All, Bool-cases, inl, inr,
}
use little_stomper.Client.{default_client_methods}
use little_stomper.Ids.{DestinationId}
use little_stomper.Stomp.{Frames, StompParser}
use little_stomper.InMemory.Backend.{start}
use little_stomper.InMemory.Validity.{start-IsValid}
use little_stomper.System.Shared.{Post, subscribes}
use little_stomper.Session.Events.{ClientEvent}
use little_stomper.System.Moves.{
  System, Move, arrives, receives, runs, serves, begin, take_task, step, run, is_external,
}
use little_stomper.System.Policy.{
  Ledger, anyone, IsAllowed, IfAlive, Policy, IsAllowedMove, IsAllowedOutput, MayEnd,
  IsAllowedSystem,
}
use little_stomper.System.Tasks.{take_task-Taken}
use little_stomper.System.Steps.{
  act-IsAllowed, receive-IsAllowed, IfNextGranted, run_taken-IsAllowed, serve_next-IsAllowed,
}

module _ {F : Frames} (P : StompParser F) (quote : String → String) (name : ℕ → String) (L : Policy)
    (H : Ledger) where
  pub begin-IsAllowed : H.from ≤ 0 → IsAllowedSystem P L H begin
  unfolding begin start HashMap.get
  begin-IsAllowed h = record {
    shared = record {
      queues = λ k. tt;
      tasks = tt;
      posts = λ d. tt;
      heard = λ k e. ground arith;
      grown = h;
      closed = λ d e. ground arith;
    };
    sessions = λ k. (refl, λ c. tt);
    backends = λ d. record { id_kept = refl; subscriptions = tt };
    valid = start-IsValid;
    written = λ k. tt;
  }

  -- What comes from outside tells of no id.
  external-IsAllowed :
      (k : ℕ) (e : ClientEvent F)
      → is_external e ≡ true
      → IsAllowed P L anyone k e
      → IsAllowed P L H k e
  external-IsAllowed k (ClientEvent.subscribed d c r) outside a = ground arith
  external-IsAllowed k e outside a = a

  -- If the next move serves a request to subscribe, its session may hold the next id.
  abbrev pub IfMoveGranted : Move F → System F → Type 0
  IfMoveGranted (serves d) sys = IfNextGranted P quote name L H d (sys.shared.posts d) sys
  IfMoveGranted _ sys = Unit

  pub step-IsAllowed :
      (m : Move F) (sys : System F)
      → IsAllowedMove P L m
      → IfMoveGranted m sys
      → IsAllowedSystem P L H sys
      → IsAllowedSystem P L H (step P quote name m sys)
  unfolding step
  step-IsAllowed (arrives k e) sys a g i = elim (Bool-cases (is_external e)) [
    | inl yes_ ↦ rw yes_ (
        act-IsAllowed P quote name L H k e sys.shared (sys.sessions k) sys
          (external-IsAllowed k e yes_ a) (i.sessions k) i.shared i)
    | inr no_ ↦ rw no_ i
  ]
  step-IsAllowed (receives k) sys a g i =
      receive-IsAllowed P quote name L H k (sys.shared.queues k) sys (i.shared.queues k) i
  step-IsAllowed (runs n) sys a g i =
      run_taken-IsAllowed P quote name L H (take_task n sys.shared.tasks) sys
        (take_task-Taken L n sys.shared.tasks i.shared.tasks) i
  step-IsAllowed (serves d) sys a g i = elim (Bool-cases (sys.shared.is_closed d)) [
    | inl closed ↦ rw closed i
    | inr open_ ↦
        rw open_
          (serve_next-IsAllowed P quote name L H d (sys.shared.posts d) sys (i.shared.posts d) g i)
  ]

module _ {F : Frames} (P : StompParser F) (quote : String → String) (name : ℕ → String)
    (L : Policy) where
  granted_anyone : (m : Move F) (sys : System F) → IfMoveGranted P quote name L anyone m sys
  granted_anyone (serves d) sys = next d (sys.shared.posts d) sys
    where
      next :
          (d : DestinationId) (ps : List Post) (sys : System F)
          → IfNextGranted P quote name L anyone d ps sys
      next d [] sys = tt
      next d (subscribes k none ∷ ps) sys = tt
      next d (subscribes k (some c) ∷ ps) sys = tt
      next d (p ∷ ps) sys = tt
  granted_anyone m sys = tt

  pub run-IsAllowed :
      (ms : List (Move F)) (sys : System F)
      → All (IsAllowedMove P L) ms
      → IsAllowedSystem P L anyone sys
      → IsAllowedSystem P L anyone (run P quote name ms sys)
  unfolding run
  run-IsAllowed [] sys a i = i
  run-IsAllowed (m ∷ ms) sys a i =
      run-IsAllowed ms (step P quote name m sys) a.1
        (step-IsAllowed P quote name L anyone m sys a.0 (granted_anyone m sys) i)

  -- From the start, after any moves in any order that keep to the policy, each MESSAGE frame that a
  -- client has been sent is one that its session makes of a message of a destination under an id, and
  -- the policy lets that client subscribe to that destination under that id.
  pub run-IsAllowedOutput :
      (ms : List (Move F)) (k : ℕ)
      → All (IsAllowedMove P L) ms
      → All (IsAllowedOutput P L k) ((run P quote name ms begin).written k)
  run-IsAllowedOutput ms k a =
      (run-IsAllowed ms begin a (begin-IsAllowed P quote name L anyone (omega arith))).written k

  -- From the start, after any moves in any order that keep to the policy, the task of a destination
  -- has ended only if some client, who may ask for a subscription to it, may ask to unsubscribe the
  -- id of that subscription.
  pub run-MayEnd :
      (ms : List (Move F)) (d : DestinationId)
      → All (IsAllowedMove P L) ms
      → (run P quote name ms begin).shared.is_closed d ≡ true
      → MayEnd L d
  run-MayEnd ms d a =
      (run-IsAllowed ms begin a (begin-IsAllowed P quote name L anyone (omega arith))).shared.closed
        d

  -- From the start, after any moves in any order that keep to the policy, a session has ended, or its
  -- channel is closed, only if the policy lets its own client do what can end a session: send
  -- UNSUBSCRIBE, a frame other than SUBSCRIBE and SEND, a SEND without a body or what cannot be
  -- read, miss its heartbeats or close the connection. No other client can end it.
  pub run-may_leave :
      (ms : List (Move F)) (k : ℕ)
      → All (IsAllowedMove P L) ms
      → ((run P quote name ms begin).sessions k ≡ none)
        ⊎ ((run P quote name ms begin).shared.is_open k ≡ false)
      → L.may_leave k
  run-may_leave ms k a (inl ended) =
      subst (IfAlive P L anyone k) ended (
        (run-IsAllowed ms begin a (begin-IsAllowed P quote name L anyone (omega arith))).sessions k)
  run-may_leave ms k a (inr closed) =
      (run-IsAllowed ms begin a (begin-IsAllowed P quote name L anyone (omega arith))).shared.heard
        k closed
