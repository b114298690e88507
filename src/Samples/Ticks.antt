-- ===== src/Samples/Ticks.antt =====
-- A timer whose tasks are numbered, on an executor that runs them.
use little_stomper.Prelude.{ℕ, ◌≡◌, refl, ap, Option, some, none, List, [], ◌∷◌, arith}
use little_stomper.Prelude.Effects.{Unit₀}
use little_stomper.Tokio.{Executor}
use little_stomper.Timer.Resetter.{ResettableTimer, change_period}
use little_stomper.Timer.Task.{
  Tasks, TimerTask, elapsed, received, create_task_with_receiver, stream_state,
}
use little_stomper.Timer.Pace.{Trace}
use little_stomper.Timer.Ticks.{
  IsRuntime, AllTake, GivesTicks, poll_all-GivesTicks, take_all, joined_state,
}

pub record Clock : Type 0 where
  pub now : ℕ
  pub tasks : Tasks

abbrev executor : Executor Clock Unit₀ ℕ
executor = record {
  spawn = λ period r w. (
    0,
    record w { tasks = record { fired = 0; running = create_task_with_receiver w.now period } },
  );
  poll_unpin = λ n w. (joined_state (λ n. n) (stream_state w.tasks n), w);
  abort = λ h w. w;
}

runtime : IsRuntime executor (λ w. w.now) (λ w. w.tasks) (λ n. n)
runtime = record { spawns = λ period r w. (refl, refl); polls = λ n w. refl }

abbrev tasks_or : Tasks → Option Tasks → Tasks
tasks_or t none = t
tasks_or t (some t') = t'

-- The tasks take signals.
abbrev take : Trace → Clock → Clock
take trace w = record w { tasks = tasks_or w.tasks (take_all trace w.tasks) }

-- A tick, a command that doubles the period at half of it, and a tick after that.
abbrev two_ticks : Trace
two_ticks = (100, elapsed) ∷ (150, received (change_period 200)) ∷ (350, elapsed) ∷ []

abbrev timer : ResettableTimer Unit₀ ℕ
timer = record { period = 100; receiver = some tt; task = none }

abbrev begun : Clock
begun = record { now = 0; tasks = record { fired = 0; running = TimerTask.forever } }

abbrev others : List (Clock → Clock)
others = take two_ticks ∷ take [] ∷ take [] ∷ []

abbrev traces : List Trace
traces = two_ticks ∷ [] ∷ [] ∷ []

taken :
    (trace : Trace) (w : Clock) (t : Tasks)
    → take_all trace w.tasks ≡ some t
    → (take trace w).tasks ≡ t
taken trace w t e = ap (tasks_or w.tasks) e

others-AllTake : AllTake executor (λ w. w.now) (λ w. w.tasks) (λ n. n) runtime others traces
others-AllTake = (taken two_ticks, (taken [], (taken [], tt)))

poll_all-GivesTicks_example :
    GivesTicks executor (λ w. w.now) (λ w. w.tasks) (λ n. n) runtime others two_ticks timer begun
poll_all-GivesTicks_example =
    poll_all-GivesTicks executor (λ w. w.now) (λ w. w.tasks) (λ n. n) runtime others traces timer tt
      begun refl refl others-AllTake
      (omega arith, omega arith, (refl, (omega arith, omega arith, tt)))
