-- ===== src/System/Ending.antt =====
-- Destinations of src/asynchronous/inmemory.rs whose tasks have ended, along a run.
use little_stomper.Prelude.{
  ◌≡◌, refl, sym, ap, ◌∙◌, ℕ, String, List, [], ◌∷◌, true, false, All, Bool-cases, inl, inr, arith,
}
use little_stomper.Ids.{DestinationId}
use little_stomper.Stomp.{Frames, StompParser}
use little_stomper.System.Moves.{
  System, Move, arrives, receives, runs, serves, step, run, is_external, take_task,
}
use little_stomper.System.Policy.{Policy, anyone, IsAllowedMove, IsAllowedSystem}
use little_stomper.System.Invariant.{run-IsAllowed}
use little_stomper.System.Broker.Untouched.{serve_next-is_closed}
use little_stomper.System.Known.{act-Registers, receive-Registers, run_taken-Registers}

module _ {F : Frames} (P : StompParser F) (quote : String → String) (name : ℕ → String) (L : Policy)
    (d : DestinationId) where
  step-is_closed :
      (m : Move F) (sys : System F)
      → IsAllowedSystem P L anyone sys
      → sys.shared.is_closed d ≡ true
      → (step P quote name m sys).shared.is_closed d ≡ true
  unfolding step
  step-is_closed (arrives k e) sys i closed = elim (Bool-cases (is_external e)) [
    | inl yes_ ↦ rw yes_ (
        let now =
          act-Registers P quote name L d k e sys.shared (sys.sessions k) sys (i.sessions k) refl
            refl refl in
        ap (λ c. c d) now.none_ends ∙ closed)
    | inr no_ ↦ rw no_ closed
  ]
  step-is_closed (receives k) sys i closed =
      let now = receive-Registers P quote name L d k (sys.shared.queues k) sys (i.sessions k) in
      ap (λ c. c d) now.none_ends ∙ closed
  step-is_closed (runs n) sys i closed =
      let now = run_taken-Registers P quote name L d (take_task n sys.shared.tasks) sys in
      ap (λ c. c d) now.none_ends ∙ closed
  step-is_closed (serves e) sys i closed = elim (Bool-cases (sys.shared.is_closed e)) [
    | inl ended ↦ rw ended closed
    | inr open_ ↦
        rw open_ (serve_next-is_closed P quote name L anyone e sys i (sys.shared.posts e) d closed)
  ]

  run-is_closed :
      (ms : List (Move F)) (sys : System F)
      → All (IsAllowedMove P L) ms
      → IsAllowedSystem P L anyone sys
      → sys.shared.is_closed d ≡ true
      → (run P quote name ms sys).shared.is_closed d ≡ true
  unfolding run
  run-is_closed [] sys a i closed = closed
  run-is_closed (m ∷ ms) sys a i closed =
      run-is_closed ms (step P quote name m sys) a.1
        (run-IsAllowed P quote name L (m ∷ []) sys (a.0, tt) i) (step-is_closed m sys i closed)

  -- A task that has not ended after a run had not ended before it.
  pub was_open :
      (ms : List (Move F)) (sys : System F)
      → All (IsAllowedMove P L) ms
      → IsAllowedSystem P L anyone sys
      → (run P quote name ms sys).shared.is_closed d ≡ false
      → sys.shared.is_closed d ≡ false
  was_open ms sys a i open_ = elim (Bool-cases (sys.shared.is_closed d)) [
    | inl closed ↦
        let both : true ≡ false = sym (run-is_closed ms sys a i closed) ∙ open_ in ground arith
    | inr still ↦ still
  ]
