-- ===== src/Timer/Task.antt =====
-- The task of a timer in src/asynchronous/delayable_stream.rs. `sleep` and `recv` belong to the
-- runtime: a signal says which of them completed, and when. Times are in milliseconds.
use little_stomper.Prelude.{
  suc, ℕ, ◌+◌, Option, none, some, Bool, true, false, ltb, ◌==◌, if◌then◌else◌,
}
use little_stomper.Timer.Resetter.{ResettableTimerCommand, reset, change_period}

-- Where a task waits. A sleep holds its deadline.
pub data TimerTask : Type 0 where
  -- `create_task_with_receiver` at period 0: only for a command.
  awaiting_command : TimerTask
  -- The `select!` of `create_task_with_receiver`, with its period.
  sleeping : ℕ → ℕ → TimerTask
  -- `create_task_no_receiver`, with its period.
  sleeping_no_receiver : ℕ → ℕ → TimerTask
  -- `pending()`.
  forever : TimerTask

pub data Signal : Type 0 where
  -- The sleep is over.
  elapsed : Signal
  -- `recv` returned a command, or `None` since the sender was dropped.
  received : ResettableTimerCommand → Signal
  sender_dropped : Signal

-- `command_to_new_period`.
command_to_new_period : ℕ → ResettableTimerCommand → ℕ
command_to_new_period period (change_period new_period) = new_period
command_to_new_period period reset = period

unfoldable pub create_task_with_receiver : ℕ → ℕ → TimerTask
create_task_with_receiver now period =
    if period == 0 then awaiting_command else sleeping period (now + period)

unfoldable pub create_task_no_receiver : ℕ → ℕ → TimerTask
create_task_no_receiver now period = sleeping_no_receiver period (now + period)

-- Whether the timer fires, and the task after a signal; `none` for a signal that cannot come. Where
-- a sleep is over and a command is there, `select!` may take either.
unfoldable pub step : ℕ → TimerTask → Signal → Option (Bool × TimerTask)
unfolding command_to_new_period create_task_with_receiver create_task_no_receiver
step now awaiting_command (received command) =
    some (false, create_task_with_receiver now (command_to_new_period 0 command))
step now awaiting_command sender_dropped = some (false, forever)
step now (sleeping period deadline) elapsed =
    if ltb now deadline then none else some (true, create_task_with_receiver now period)
step now (sleeping period deadline) (received command) =
    some (false, create_task_with_receiver now (command_to_new_period period command))
step now (sleeping period deadline) sender_dropped =
    some (false, create_task_no_receiver now period)
step now (sleeping_no_receiver period deadline) elapsed =
    if ltb now deadline then none else some (true, create_task_no_receiver now period)
step now _ _ = none

-- The tasks of a timer, numbered in the order of their spawns: `fired` of them have ended, each with
-- the handle of the next as its `StreamState::Fired`, and the next one runs.
pub record Tasks : Type 0 where
  pub fired : ℕ
  pub running : TimerTask

-- The `Fired(spawn(…))` of a task that fires ends it and spawns its successor; else it goes on.
unfoldable pub proceed : Tasks → Option (Bool × TimerTask) → Option Tasks
proceed t none = none
proceed t (some (true, next)) = some (record { fired = suc t.fired; running = next })
proceed t (some (false, next)) = some (record t { running = next })

-- The state that a task has returned: the number of its successor.
unfoldable pub stream_state : Tasks → ℕ → Option ℕ
stream_state t n = if ltb n t.fired then some (suc n) else none
