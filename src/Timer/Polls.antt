-- ===== src/Timer/Polls.antt =====
-- A timer of src/asynchronous/delayable_stream.rs is started once, and its polls do not panic.
use little_stomper.Prelude.{ℕ, ◌≡◌, refl, ◌⊎◌, inl, inr, ◌↔◌, Option, none, some, arith}
use little_stomper.Prelude.Effects.{Result, ok, err, Unit₀, done}
use little_stomper.Tokio.{Poll, ready, pending, Executor, UnboundedSender}
use little_stomper.Timer.Resetter.{ResettableTimer, ResettableTimerCommand, create}
use little_stomper.Timer.Polling.{poll_next, first_polled, task_polled}

module _ {R H : Type 0} where
  -- The timer has the receiver until its first poll, and from then on a task.
  abbrev IsNew : ResettableTimer R H → Type 0
  IsNew t = (r : R) × (t.receiver ≡ some r) × (t.task ≡ none)

  abbrev IsStarted : ResettableTimer R H → Type 0
  IsStarted t = (h : H) × (t.receiver ≡ none) × (t.task ≡ some h)

  -- The task whose end makes the timer fire: none before the first poll.
  abbrev Fires : {W : Type 0} → Executor W R H → ResettableTimer R H → W → Type 0
  Fires e t w = (h : H) × (next : H) × (t.task ≡ some h) × ((e.poll_unpin h w).0 ≡ ready (ok next))

create-IsNew :
    {W R H : Type 0} (sender : UnboundedSender W ResettableTimerCommand) (r : R) (period : ℕ)
    → IsNew {R = R} {H = H} (create (sender, r) period).0
unfolding create
create-IsNew sender r period = (r, refl, refl)

module _ {W R H : Type 0} (e : Executor W R H) where
  -- What a poll gives: no panic, a started timer of the same period, and a tick exactly if the task
  -- that it had has fired.
  abbrev pub IsPolled : ResettableTimer R H → W → Type 0
  IsPolled t w =
      (x : Poll (Option Unit₀)) × (t' : ResettableTimer R H) × (w' : W) × (poll_next e t w
        ≡ (done (x, t'), w'))
      × IsStarted t'
      × (t'.period ≡ t.period)
      × ((x ≡ ready (some tt)) ↔ Fires e t w)

  poll_new : (t : ResettableTimer R H) (w : W) → IsNew t → IsPolled t w
  unfolding poll_next
  poll_new t w (r, there, no_task) =
      let (h, w') = e.spawn t.period r w in
      let (state, w'') = e.poll_unpin h w' in
      (
        first_polled e state,
        record t { receiver = none; task = some h },
        w'',
        ground arith,
        (h, refl, refl),
        refl,
        ground arith,
      )

  task_polled-IsStarted :
      (t : ResettableTimer R H) (s : Poll (Result H Unit₀))
      → IsStarted t
      → IsStarted (task_polled e t s).1 × ((task_polled e t s).1.period ≡ t.period)
  task_polled-IsStarted t (ready (ok next)) (h, gone, there) = ((next, gone, refl), refl)
  task_polled-IsStarted t (ready (err x)) started = (started, refl)
  task_polled-IsStarted t pending started = (started, refl)

  task_polled-Fires :
      (t : ResettableTimer R H) (h : H) (s : Poll (Result H Unit₀)) (w : W)
      → t.task ≡ some h
      → (e.poll_unpin h w).0 ≡ s
      → ((task_polled e t s).0 ≡ ready (some tt)) ↔ Fires e t w
  task_polled-Fires t h (ready (ok next)) w there polled =
      (λ _. (h, next, there, polled), λ _. refl)
  task_polled-Fires t h (ready (err x)) w there polled = ground arith
  task_polled-Fires t h pending w there polled = ground arith

  poll_started : (t : ResettableTimer R H) (w : W) → IsStarted t → IsPolled t w
  unfolding poll_next
  poll_started t w (h, gone, there) =
      let (state, w') = e.poll_unpin h w in
      let (x, t') = task_polled e t state in
      let (started, same) = task_polled-IsStarted t state (h, gone, there) in
      (x, t', w', ground arith, started, same, task_polled-Fires t h state w there refl)

  -- A poll of a timer that is new, or was polled before, does not panic. After it the timer has
  -- handed its receiver to a task, so that no later poll starts another, and it has the same period;
  -- and it ticks exactly if it already had a task, and that task has fired.
  pub poll_next-IsPolled : (t : ResettableTimer R H) (w : W) → IsNew t ⊎ IsStarted t → IsPolled t w
  poll_next-IsPolled t w (inl h) = poll_new t w h
  poll_next-IsPolled t w (inr h) = poll_started t w h
