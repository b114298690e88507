-- ===== src/Timer/Resetter.antt =====
-- `ResettableTimerResetter` of src/asynchronous/delayable_stream.rs: the sending end of a timer.
-- Durations are in milliseconds.
use little_stomper.Prelude.{ℕ, String, Option, none, some}
use little_stomper.Prelude.Effects.{Act, Result, ok, err, Unit₀, done}
use little_stomper.Error
use little_stomper.Error.{StomperError}
use little_stomper.Tokio.{UnboundedSender}

pub data ResettableTimerCommand : Type 0 where
  reset : ResettableTimerCommand
  change_period : ℕ → ResettableTimerCommand

pub record ResettableTimerResetter (W : Type 0) : Type 0 where
  pub sender : UnboundedSender W ResettableTimerCommand

-- `.map(|_| ()).map_err(|_| StomperError::new(…))`
abbrev pub or_error : Result Unit₀ ResettableTimerCommand → String → Result Unit₀ StomperError
or_error (ok _) why = ok tt
or_error (err _) why = err (Error.new why)

module _ {W : Type 0} where
  unfoldable pub reset_timer : ResettableTimerResetter W → Act W (Result Unit₀ StomperError)
  reset_timer r w =
      let (sent, w') = r.sender.send ResettableTimerCommand.reset w in
      (done (or_error sent "Error resetting stream"), w')

  change_timer_period : ResettableTimerResetter W → ℕ → Act W (Result Unit₀ StomperError)
  change_timer_period r new_period w =
      let (sent, w') = r.sender.send (ResettableTimerCommand.change_period new_period) w in
      (done (or_error sent "Error updating stream period"), w')

-- `R` is the type of the channel's receiver, and `H` that of the handle of the timer's task.
pub record ResettableTimer (R H : Type 0) : Type 0 where
  pub period : ℕ
  pub receiver : Option R
  pub task : Option H

module _ {W R H : Type 0} where
  -- `create`, for the two ends of its new channel.
  unfoldable pub create :
      UnboundedSender W ResettableTimerCommand × R
      → ℕ
      → ResettableTimer R H × ResettableTimerResetter W
  create (sender, receiver) period = (
    record { period = period; receiver = some receiver; task = none },
    record { sender = sender },
  )

  -- `default`: period 0 stands for an infinite one.
  unfoldable pub default :
      UnboundedSender W ResettableTimerCommand × R → ResettableTimer R H × ResettableTimerResetter W
  unfolding create
  default channel = create channel 0
