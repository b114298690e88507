-- ===== src/Timer/Polling.antt =====
-- `ResettableTimer` of src/asynchronous/delayable_stream.rs as a stream: how it is polled and
-- dropped.
use little_stomper.Prelude.{Option, none, some}
use little_stomper.Prelude.Effects.{Act, Result, ok, err, Unit₀, panic, done}
use little_stomper.Tokio.{Poll, ready, pending, Executor}
use little_stomper.Timer.Resetter.{ResettableTimer}

module _ {W R H : Type 0} (e : Executor W R H) where
  -- `.map(|state| …)`: a task that fired leaves its successor in the timer.
  abbrev pub task_polled :
      ResettableTimer R H → Poll (Result H Unit₀) → Poll (Option Unit₀) × ResettableTimer R H
  task_polled t (ready (ok new_task)) = (ready (some tt), record t { task = some new_task })
  task_polled t (ready (err _)) = (ready none, t)
  task_polled t pending = (pending, t)

  -- `self.task.as_mut().unwrap()` on no task panics.
  unfoldable pub poll_existing_task :
      ResettableTimer R H → Option H → Act W (Poll (Option Unit₀) × ResettableTimer R H)
  poll_existing_task t none w = (panic "called `Option::unwrap()` on a `None` value", w)
  poll_existing_task t (some task) w =
      let (state, w') = e.poll_unpin task w in (done (task_polled t state), w')

  -- `.map(|_| None)`.
  abbrev pub first_polled : Poll (Result H Unit₀) → Poll (Option Unit₀)
  first_polled (ready _) = ready none
  first_polled pending = pending

  -- The receiver is taken, a task is spawned and polled once.
  unfoldable pub initialise :
      ResettableTimer R H → Option R → Act W (Poll (Option Unit₀) × ResettableTimer R H)
  initialise t none w = (panic "Bad state: neither remote not receiver present", w)
  initialise t (some receiver) w =
      let (task, w') = e.spawn t.period receiver w in
      let t' = record t { receiver = none; task = some task } in
      let (state, w'') = e.poll_unpin task w' in (done (first_polled state, t'), w'')

  poll_started : ResettableTimer R H → Option H → Act W (Poll (Option Unit₀) × ResettableTimer R H)
  unfolding poll_existing_task initialise
  poll_started t (some task) = poll_existing_task t t.task
  poll_started t none = initialise t t.receiver

  -- `poll_next`.
  unfoldable pub poll_next : ResettableTimer R H → Act W (Poll (Option Unit₀) × ResettableTimer R H)
  unfolding poll_started
  poll_next t = poll_started t t.task

  -- `drop`: a task that was spawned is aborted.
  abort_task : Option H → W → W
  abort_task none w = w
  abort_task (some task) w = e.abort task w

  unfoldable pub drop : ResettableTimer R H → W → W
  unfolding abort_task
  drop t = abort_task t.task
