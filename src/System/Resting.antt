-- ===== src/System/Resting.antt =====
-- The system when nothing more comes from clients and timers.
use little_stomper.Prelude.{
  ℕ, ◌≡◌, refl, sym, subst, ap, ◌∙◌, String, List, [], ◌∷◌, ◌++◌, All, All-append, All-map, ite,
  ℕ_discrete, arith,
}
use little_stomper.Client.{default_client_methods}
use little_stomper.Ids.{DestinationId, from_str}
use little_stomper.Stomp.{Frames, StompParser}
use little_stomper.Session.Events.{ClientEvent}
use little_stomper.System.Family.{update, update_self}
use little_stomper.System.Moves.{System, Move, arrives, receives, begin, step, run, run-append}
use little_stomper.System.Policy.{
  Policy, anyone, MayEnd, IsAllowedMove, IsAllowedNotice, IsAllowedSystem,
}
use little_stomper.System.Invariant.{run-IsAllowed, begin-IsAllowed}
use little_stomper.System.Mail.{receives_each}
use little_stomper.System.Service.{still_alive}
use little_stomper.System.Draining.{serves_each_of, receives-IsAllowed, step-received}
use little_stomper.System.Emptying.{runs_each, run-tasks, serves_out, serves_out-lem}

-- Moves that the system makes of itself.
abbrev pub IsInner : {F : Frames} → Move F → Type 0
IsInner (arrives k e) = ⊥
IsInner _ = Unit

module _ {F : Frames} (P : StompParser F) (quote : String → String) (name : ℕ → String)
    (L : Policy) where
  -- Taking events changes no task and no action, and adds no event.
  abbrev TakesOnly : System F → System F → Type 0
  TakesOnly sys sys' =
      (sys'.shared.tasks ≡ sys.shared.tasks)
      × (sys'.shared.posts ≡ sys.shared.posts)
      × ((k : ℕ) → sys.shared.queues k ≡ [] → sys'.shared.queues k ≡ [])

  taken :
      (j : ℕ) (e : ClientEvent F) (es : List (ClientEvent F)) (sys : System F)
      → sys.shared.queues j ≡ e ∷ es
      → (k : ℕ) → sys.shared.queues k ≡ []
      → update ℕ_discrete j es sys.shared.queues k ≡ []
  taken j e es sys queued k quiet =
      elim (ℕ_discrete j k) as (λ x. ite x es (sys.shared.queues k) ≡ []) [
        | yes same ↦
            let both : e ∷ es ≡ [] = sym queued ∙ ap (λ j. sys.shared.queues j) same ∙ quiet in
            ground arith
        | no other ↦ quiet
      ]

  run-TakesOnly :
      (j : ℕ) (es : List (ClientEvent F)) (sys : System F)
      → IsAllowedSystem P L anyone sys
      → ¬ L.may_leave j
      → sys.shared.queues j ≡ es
      → let sys' = run P quote name (receives_each j es) sys in
        TakesOnly sys sys' × (sys'.shared.queues j ≡ [])
  unfolding run
  run-TakesOnly j [] sys i stays queued = ((refl, refl, (λ k quiet. quiet)), queued)
  run-TakesOnly j (e ∷ es) sys i stays queued =
      let d : DestinationId = from_str "" in
      let (s, alive, same) = still_alive P quote name L d j sys i stays in
      let a = subst (All (IsAllowedNotice P L anyone j)) queued (i.shared.queues j) in
      let now = step-received P quote name L d j sys i e es s stays a.0 queued alive same in
      let (rest, quiet) =
        run-TakesOnly j es (step P quote name (receives j) sys)
          (run-IsAllowed P quote name L (receives j ∷ []) sys (tt, tt) i) stays
          (ap (λ w. w.queues j) now ∙ update_self ℕ_discrete j es sys.shared.queues) in
      (
        (
          rest.0 ∙ ap (λ w. w.tasks) now,
          rest.1 ∙ ap (λ w. w.posts) now,
          λ k none_there.
              rest.2 k (ap (λ w. w.queues k) now ∙ taken j e es sys queued k none_there),
        ),
        quiet,
      )

  abbrev receives_out : List ℕ → System F → List (Move F)
  receives_out [] sys = []
  receives_out (j ∷ js) sys =
      let ms : List (Move F) = receives_each j (sys.shared.queues j) in
      ms ++ receives_out js (run P quote name ms sys)

  abbrev IsTaken : List ℕ → System F → System F → Type 0
  IsTaken js sys sys' = TakesOnly sys sys' × All (λ j. sys'.shared.queues j ≡ []) js

  receives_out-lem :
      (js : List ℕ) (sys : System F)
      → IsAllowedSystem P L anyone sys
      → All (λ j. ¬ L.may_leave j) js
      → IsTaken js sys (run P quote name (receives_out js sys) sys)
  unfolding run
  receives_out-lem [] sys i stays = ((refl, refl, (λ k quiet. quiet)), tt)
  receives_out-lem (j ∷ js) sys i (stay, stays) =
      let es = sys.shared.queues j in
      let ms : List (Move F) = receives_each j es in
      let sys₁ = run P quote name ms sys in
      let (first, quiet) = run-TakesOnly j es sys i stay refl in
      let (rest, others) =
        receives_out-lem js sys₁
          (run-IsAllowed P quote name L ms sys
            (receives-IsAllowed P quote name L (from_str "") j es) i)
          stays in
      subst (IsTaken (j ∷ js) sys) (sym (run-append P quote name ms (receives_out js sys₁) sys)) (
        (rest.0 ∙ first.0, rest.1 ∙ first.1, λ k none_there. rest.2 k (first.2 k none_there)),
        (rest.2 j quiet, others),
      )

  -- No task is left to run, no action of the destinations and no event of the sessions.
  abbrev pub IsAtRest : List DestinationId → List ℕ → System F → Type 0
  IsAtRest ds js sys =
      (sys.shared.tasks ≡ [])
      × All (λ d. sys.shared.posts d ≡ []) ds
      × All (λ j. sys.shared.queues j ≡ []) js

  runs_each-IsInner : {A : Type 0} (xs : List A) → All (IsInner {F = F}) (runs_each xs)
  runs_each-IsInner [] = tt
  runs_each-IsInner (x ∷ xs) = (tt, runs_each-IsInner xs)

  runs_each-IsAllowed : {A : Type 0} (xs : List A) → All (IsAllowedMove {F = F} P L) (runs_each xs)
  runs_each-IsAllowed [] = tt
  runs_each-IsAllowed (x ∷ xs) = (tt, runs_each-IsAllowed xs)

  serves_each_of-IsInner :
      {A : Type 0} (d : DestinationId) (xs : List A) → All (IsInner {F = F}) (serves_each_of d xs)
  serves_each_of-IsInner d [] = tt
  serves_each_of-IsInner d (x ∷ xs) = (tt, serves_each_of-IsInner d xs)

  receives_each-IsInner :
      {A : Type 0} (j : ℕ) (xs : List A) → All (IsInner {F = F}) (receives_each j xs)
  receives_each-IsInner j [] = tt
  receives_each-IsInner j (x ∷ xs) = (tt, receives_each-IsInner j xs)

  serves_out-IsInner :
      (ds : List DestinationId) (sys : System F)
      → All (IsInner {F = F}) (serves_out P quote name L ds sys)
  serves_out-IsInner [] sys = tt
  serves_out-IsInner (d ∷ ds) sys =
      let ms : List (Move F) = serves_each_of d (sys.shared.posts d) in
      let sys₁ = run P quote name ms sys in
      All-append IsInner ms (serves_out P quote name L ds sys₁)
        (serves_each_of-IsInner d (sys.shared.posts d)) (serves_out-IsInner ds sys₁)

  receives_out-IsInner :
      (js : List ℕ) (sys : System F) → All (IsInner {F = F}) (receives_out js sys)
  receives_out-IsInner [] sys = tt
  receives_out-IsInner (j ∷ js) sys =
      let ms : List (Move F) = receives_each j (sys.shared.queues j) in
      let sys₁ = run P quote name ms sys in
      All-append IsInner ms (receives_out js sys₁) (receives_each-IsInner j (sys.shared.queues j))
        (receives_out-IsInner js sys₁)

  -- What holds of all listed and is kept for each, holds still.
  kept_quiet :
      (ds : List DestinationId) (sys sys' : System F)
      → sys'.shared.posts ≡ sys.shared.posts
      → All (λ d. sys.shared.posts d ≡ []) ds
      → All (λ d. sys'.shared.posts d ≡ []) ds
  kept_quiet ds sys sys' same quiet =
      All-map (λ d none_there. ap (λ posts. posts d) same ∙ none_there) ds quiet

  -- From the start, after any moves in any order that keep to a policy: for any destinations that no
  -- client can end, and any sessions that their clients do not end, some moves that the system makes
  -- of itself, none of a client or a timer, leave no task to run, no action in the channels of the
  -- destinations and no event in those of the sessions.
  pub run-IsAtRest :
      (moves : List (Move F)) (ds : List DestinationId) (js : List ℕ)
      → All (IsAllowedMove P L) moves
      → All (λ d. ¬ MayEnd L d) ds
      → All (λ j. ¬ L.may_leave j) js
      → (ms : List (Move F)) × All IsInner ms
        × IsAtRest ds js (run P quote name ms (run P quote name moves begin))
  run-IsAtRest moves ds js h lasts stays =
      let sys = run P quote name moves begin in
      let i =
        run-IsAllowed P quote name L moves begin h
          (begin-IsAllowed P quote name L anyone (omega arith)) in
      let ts = sys.shared.tasks in
      let running : List (Move F) = runs_each ts in
      let sys₁ = run P quote name running sys in
      let serving = serves_out P quote name L ds sys₁ in
      let sys₂ = run P quote name serving sys₁ in
      let taking = receives_out js sys₂ in
      let (served, quiet, j) =
        serves_out-lem P quote name L ds sys₁
          (run-IsAllowed P quote name L running sys (runs_each-IsAllowed ts) i) lasts in
      let ((tasks, posts, _), empty) = receives_out-lem js sys₂ j stays in
      let joined =
        run-append P quote name running (serving ++ taking) sys
        ∙ run-append P quote name serving taking sys₁ in
      (
        running ++ (serving ++ taking),
        All-append IsInner running (serving ++ taking) (runs_each-IsInner ts) (
            All-append IsInner serving taking (serves_out-IsInner ds sys₁)
              (receives_out-IsInner js sys₂)),
        subst (IsAtRest ds js) (sym joined) (
          tasks ∙ served.0 ∙ run-tasks P quote name ts sys refl,
          kept_quiet ds sys₂ (run P quote name taking sys₂) posts quiet,
          empty,
        ),
      )
