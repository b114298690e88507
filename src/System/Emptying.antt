-- ===== src/System/Emptying.antt =====
-- Moves that run all spawned tasks, and moves that serve all actions of some destinations.
use little_stomper.Prelude.{
  ℕ, ◌≡◌, refl, sym, subst, ap, ◌∙◌, String, List, [], ◌∷◌, ◌++◌, All, ite, arith,
}
use little_stomper.Client.{default_client_methods}
use little_stomper.Ids.{DestinationId, StringId-discrete}
use little_stomper.Stomp.{Frames, StompParser}
use little_stomper.InMemory.Handle
use little_stomper.AsyncDestinations.Registry.{subscribe_task}
use little_stomper.Session.Events
use little_stomper.Session.Events.{ClientEvent}
use little_stomper.System.Family.{update}
use little_stomper.System.Shared.{Shared, Post, SubscribeTask, run_task}
use little_stomper.System.Moves.{System, Move, runs, serves, step, run, run-append}
use little_stomper.System.Policy.{Policy, anyone, MayEnd, IsAllowedSystem}
use little_stomper.System.Invariant.{run-IsAllowed}
use little_stomper.System.Broker.Untouched.{serve_next-Untouched}
use little_stomper.System.Service.{still_open}
use little_stomper.System.Draining.{serves_each_of, serves-IsAllowed, step-posts}

module _ {F : Frames} where
  -- A spawned task spawns no other.
  run_task-tasks : (t : SubscribeTask) (w : Shared F) → (run_task t w).1.tasks ≡ w.tasks
  unfolding subscribe_task Handle.subscribe Events.subscribe_callback
  run_task-tasks t w = ground arith

  -- The next task, once for each item of a list.
  abbrev pub runs_each : {A : Type 0} → List A → List (Move F)
  runs_each [] = []
  runs_each (x ∷ xs) = runs 0 ∷ runs_each xs

module _ {F : Frames} (P : StompParser F) (quote : String → String) (name : ℕ → String) where
  pub run-tasks :
      (ts : List SubscribeTask) (sys : System F)
      → sys.shared.tasks ≡ ts
      → (run P quote name (runs_each ts) sys).shared.tasks ≡ []
  unfolding run step
  run-tasks [] sys spawned = spawned
  run-tasks (t ∷ ts) sys spawned =
      run-tasks ts (step P quote name (runs 0) sys)
        (rw spawned (run_task-tasks t (record sys.shared { tasks = ts })))

  module _ (L : Policy) where
    -- Serving adds no task and no action.
    abbrev pub ServesOnly : System F → System F → Type 0
    ServesOnly sys sys' =
        (sys'.shared.tasks ≡ sys.shared.tasks)
        × ((e : DestinationId) → sys.shared.posts e ≡ [] → sys'.shared.posts e ≡ [])

    emptied :
        (d : DestinationId) (p : Post) (ps : List Post) (sys : System F)
        → sys.shared.posts d ≡ p ∷ ps
        → (e : DestinationId) → sys.shared.posts e ≡ []
        → update StringId-discrete d ps sys.shared.posts e ≡ []
    emptied d p ps sys posted e quiet =
        elim (StringId-discrete d e) as (λ x. ite x ps (sys.shared.posts e) ≡ []) [
          | yes same ↦
              let both : p ∷ ps ≡ [] = sym posted ∙ ap (λ d. sys.shared.posts d) same ∙ quiet in
              ground arith
          | no other ↦ quiet
        ]

    step-ServesOnly :
        (d : DestinationId) (p : Post) (ps : List Post) (sys : System F)
        → IsAllowedSystem P L anyone sys
        → ¬ MayEnd L d
        → sys.shared.posts d ≡ p ∷ ps
        → ServesOnly sys (step P quote name (serves d) sys)
    unfolding step
    step-ServesOnly d p ps sys i lasts posted =
        let now = serve_next-Untouched P quote name L anyone d sys i p ps in
        rw (still_open P quote name L d 0 sys i lasts, posted)
          (now.2, λ e quiet. ap (λ posts. posts e) now.0 ∙ emptied d p ps sys posted e quiet)

    -- All actions of one destination.
    run-ServesOnly :
        (d : DestinationId) (ps : List Post) (sys : System F)
        → IsAllowedSystem P L anyone sys
        → ¬ MayEnd L d
        → sys.shared.posts d ≡ ps
        → let sys' = run P quote name (serves_each_of d ps) sys in
          ServesOnly sys sys' × (sys'.shared.posts d ≡ [])
    unfolding run
    run-ServesOnly d [] sys i lasts posted = ((refl, (λ e quiet. quiet)), posted)
    run-ServesOnly d (p ∷ ps) sys i lasts posted =
        let first = step-ServesOnly d p ps sys i lasts posted in
        let (rest, quiet) =
          run-ServesOnly d ps (step P quote name (serves d) sys)
            (run-IsAllowed P quote name L (serves d ∷ []) sys (tt, tt) i) lasts
            (step-posts P quote name L d 0 sys i p ps lasts posted) in
        ((rest.0 ∙ first.0, (λ e none_there. rest.1 e (first.1 e none_there))), quiet)

    -- All actions of some destinations, one destination after the other.
    abbrev pub serves_out : List DestinationId → System F → List (Move F)
    serves_out [] sys = []
    serves_out (d ∷ ds) sys =
        let ms : List (Move F) = serves_each_of d (sys.shared.posts d) in
        ms ++ serves_out ds (run P quote name ms sys)

    abbrev pub AreServed : List DestinationId → System F → Type 0
    AreServed ds sys = All (λ d. sys.shared.posts d ≡ []) ds

    abbrev pub IsServed : List DestinationId → System F → System F → Type 0
    IsServed ds sys sys' = ServesOnly sys sys' × AreServed ds sys' × IsAllowedSystem P L anyone sys'

    pub serves_out-lem :
        (ds : List DestinationId) (sys : System F)
        → IsAllowedSystem P L anyone sys
        → All (λ d. ¬ MayEnd L d) ds
        → IsServed ds sys (run P quote name (serves_out ds sys) sys)
    unfolding run
    serves_out-lem [] sys i lasts = ((refl, (λ e quiet. quiet)), tt, i)
    serves_out-lem (d ∷ ds) sys i (last, lasts) =
        let ps = sys.shared.posts d in
        let ms : List (Move F) = serves_each_of d ps in
        let sys₁ = run P quote name ms sys in
        let (first, quiet) = run-ServesOnly d ps sys i last refl in
        let (rest, others, now) =
          serves_out-lem ds sys₁
            (run-IsAllowed P quote name L ms sys (serves-IsAllowed P quote name L d 0 ps) i)
            lasts in
        subst (IsServed (d ∷ ds) sys) (sym (run-append P quote name ms (serves_out ds sys₁) sys)) (
          (rest.0 ∙ first.0, (λ e none_there. rest.1 e (first.1 e none_there))),
          (rest.1 d quiet, others),
          now,
        )
