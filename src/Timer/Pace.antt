-- ===== src/Timer/Pace.antt =====
-- When the timer of src/asynchronous/delayable_stream.rs can fire.
use little_stomper.Prelude.{
  some-injective, sym, ap, ◌∙◌, ℕ, zero, suc, ◌+◌, ◌≤◌, ◌<◌, ◌≡◌, refl, ◌↔◌, Option, none, some,
  List, [], ◌∷◌, Bool, true, false, arith,
}
use little_stomper.Timer.Resetter.{reset, change_period}
use little_stomper.Timer.Task.{
  TimerTask, awaiting_command, sleeping, sleeping_no_receiver, forever, Signal, elapsed, received,
  sender_dropped, create_task_with_receiver, step,
}

-- Signals, each with its time.
abbrev pub Trace : Type 0
Trace = List (ℕ × Signal)

-- Whether the task can take all the signals, one after the other.
abbrev pub and_next : (TimerTask → Bool) → Option (Bool × TimerTask) → Bool
and_next next none = false
and_next next (some (fired, t)) = next t

unfoldable pub can_take : TimerTask → Trace → Bool
can_take t [] = true
can_take t ((now, signal) ∷ rest) = and_next (λ t'. can_take t' rest) (step now t signal)

abbrev pub and_note : ℕ → Bool → Option (List ℕ) → Option (List ℕ)
and_note now fired none = none
and_note now true (some times) = some (now ∷ times)
and_note now false (some times) = some times

abbrev pub note_next :
    ℕ → (TimerTask → Option (List ℕ)) → Option (Bool × TimerTask) → Option (List ℕ)
note_next now next none = none
note_next now next (some (fired, t)) = and_note now fired (next t)

-- The times at which the steps of the task say that it fires; `none` if it cannot take all the
-- signals.
unfoldable pub firings : TimerTask → Trace → Option (List ℕ)
firings t [] = some []
firings t ((now, signal) ∷ rest) = note_next now (λ t'. firings t' rest) (step now t signal)

-- The times at which a sleep is over.
abbrev pub ends_of_sleep : Trace → List ℕ
ends_of_sleep [] = []
ends_of_sleep ((now, elapsed) ∷ rest) = now ∷ ends_of_sleep rest
ends_of_sleep ((now, received c) ∷ rest) = ends_of_sleep rest
ends_of_sleep ((now, sender_dropped) ∷ rest) = ends_of_sleep rest

-- The pace of a timer told by its history alone: its period, the time of its last start, command or
-- tick, and whether it still has a sender. A tick comes a whole period after that time at least,
-- and never at period 0; commands come while there is a sender.
abbrev pub InPace : Bool → ℕ → ℕ → Trace → Type 0
InPace connected period last [] = Unit
InPace connected period last ((now, elapsed) ∷ rest) =
    (0 < period) × (last + period ≤ now) × InPace connected period now rest
InPace connected period last ((now, received reset) ∷ rest) =
    (connected ≡ true) × InPace connected period now rest
InPace connected period last ((now, received (change_period p)) ∷ rest) =
    (connected ≡ true) × InPace connected p now rest
InPace connected period last ((now, sender_dropped) ∷ rest) =
    (connected ≡ true) × InPace false period now rest

-- The task that goes with a history.
abbrev task_of : Bool → ℕ → ℕ → TimerTask
task_of true zero last = awaiting_command
task_of true (suc p) last = sleeping (suc p) (last + suc p)
task_of false zero last = forever
task_of false (suc p) last = sleeping_no_receiver (suc p) (last + suc p)

task_of-start : (now period : ℕ) → create_task_with_receiver now period ≡ task_of true period now
unfolding create_task_with_receiver
task_of-start now zero = refl
task_of-start now (suc p) = ground arith

can_take-InPace :
    (connected : Bool) (period last : ℕ) (trace : Trace)
    → (can_take (task_of connected period last) trace ≡ true) ↔ InPace connected period last trace
unfolding can_take step
can_take-InPace connected period last [] = (λ _. tt, λ _. refl)
can_take-InPace true zero last ((now, elapsed) ∷ rest) = ground arith
can_take-InPace false zero last ((now, elapsed) ∷ rest) = ground arith
can_take-InPace true (suc p) last ((now, elapsed) ∷ rest) =
    ground (arith, can_take-InPace true (suc p) now rest)
can_take-InPace false (suc p) last ((now, elapsed) ∷ rest) =
    ground (arith, can_take-InPace false (suc p) now rest)
can_take-InPace true zero last ((now, received reset) ∷ rest) =
    ground (arith, can_take-InPace true zero now rest)
can_take-InPace true (suc p) last ((now, received reset) ∷ rest) =
    ground (arith, can_take-InPace true (suc p) now rest)
can_take-InPace true zero last ((now, received (change_period q)) ∷ rest) =
    rw (task_of-start now q) (ground (arith, can_take-InPace true q now rest))
can_take-InPace true (suc p) last ((now, received (change_period q)) ∷ rest) =
    rw (task_of-start now q) (ground (arith, can_take-InPace true q now rest))
can_take-InPace true zero last ((now, sender_dropped) ∷ rest) =
    ground (arith, can_take-InPace false zero now rest)
can_take-InPace true (suc p) last ((now, sender_dropped) ∷ rest) =
    ground (arith, can_take-InPace false (suc p) now rest)
can_take-InPace false zero last ((now, signal) ∷ rest) = ground arith
can_take-InPace false (suc p) last ((now, signal) ∷ rest) = ground arith

firings-InPace :
    (connected : Bool) (period last : ℕ) (trace : Trace)
    → InPace connected period last trace
    → firings (task_of connected period last) trace ≡ some (ends_of_sleep trace)
unfolding firings step
firings-InPace connected period last [] h = refl
firings-InPace true zero last ((now, elapsed) ∷ rest) h = ground arith
firings-InPace false zero last ((now, elapsed) ∷ rest) h = ground arith
firings-InPace true (suc p) last ((now, elapsed) ∷ rest) (q, le, h) =
    ground (arith, firings-InPace true (suc p) now rest h)
firings-InPace false (suc p) last ((now, elapsed) ∷ rest) (q, le, h) =
    ground (arith, firings-InPace false (suc p) now rest h)
firings-InPace true zero last ((now, received reset) ∷ rest) (q, h) =
    ground (arith, firings-InPace true zero now rest h)
firings-InPace true (suc p) last ((now, received reset) ∷ rest) (q, h) =
    ground (arith, firings-InPace true (suc p) now rest h)
firings-InPace true zero last ((now, received (change_period q)) ∷ rest) (r, h) =
    rw (task_of-start now q) (ground (arith, firings-InPace true q now rest h))
firings-InPace true (suc p) last ((now, received (change_period q)) ∷ rest) (r, h) =
    rw (task_of-start now q) (ground (arith, firings-InPace true q now rest h))
firings-InPace true zero last ((now, sender_dropped) ∷ rest) (q, h) =
    ground (arith, firings-InPace false zero now rest h)
firings-InPace true (suc p) last ((now, sender_dropped) ∷ rest) (q, h) =
    ground (arith, firings-InPace false (suc p) now rest h)
firings-InPace false zero last ((now, signal) ∷ rest) h = ground arith
firings-InPace false (suc p) last ((now, signal) ∷ rest) h = ground arith

note_next-can_take :
    (now : ℕ) (next : TimerTask → Option (List ℕ)) (takes : TimerTask → Bool)
    (o : Option (Bool × TimerTask)) (times : List ℕ)
    → ((t : TimerTask) (times : List ℕ) → next t ≡ some times → takes t ≡ true)
    → note_next now next o ≡ some times
    → and_next takes o ≡ true
note_next-can_take now next takes none times h e = ground arith
note_next-can_take now next takes (some (fired, t)) times h e = go (next t) fired refl e
  where
    go :
        (r : Option (List ℕ)) (b : Bool)
        → next t ≡ r
        → and_note now b r ≡ some times
        → takes t ≡ true
    go none b same e = ground arith
    go (some ts) b same e = h t ts same

firings-can_take :
    (trace : Trace) (t : TimerTask) (times : List ℕ)
    → firings t trace ≡ some times
    → can_take t trace ≡ true
unfolding firings can_take
firings-can_take [] t times e = refl
firings-can_take ((now, signal) ∷ rest) t times e =
    note_next-can_take now (λ u. firings u rest) (λ u. can_take u rest) (step now t signal) times
      (firings-can_take rest) e

-- A timer that starts at `start` can go through a sequence of signals, firing at the times `times`,
-- exactly if the sequence is in pace and those are the times at which a sleep is over: it fires a
-- period or more after its start, its last tick or its last command, and at such a time it can; it
-- does not fire on a command, nor when the resetter is gone, nor at period 0; a new period counts
-- from its command; and when the resetter is gone it starts over once and then keeps its period.
pub create_task-InPace :
    (start period : ℕ) (trace : Trace) (times : List ℕ)
    → (firings (create_task_with_receiver start period) trace ≡ some times)
      ↔ (InPace true period start trace × (times ≡ ends_of_sleep trace))
create_task-InPace start period trace times = rw (task_of-start start period) (
  (λ e.
      let pace =
        (can_take-InPace true period start trace).0
          (firings-can_take trace (task_of true period start) times e) in
      (pace, some-injective _ _ (sym e ∙ firings-InPace true period start trace pace))),
  λ h. firings-InPace true period start trace h.0 ∙ ap some (sym h.1),
)
