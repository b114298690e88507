-- ===== src/Timer/Ticks.antt =====
-- The polls of a timer of src/asynchronous/delayable_stream.rs and the steps of its tasks together:
-- which ticks its stream yields.
use little_stomper.Prelude.{
  ℕ, suc, ◌+◌, ◌≤◌, ◌≡◌, refl, sym, subst, ap, ◌∙◌, Option, none, some, some-injective, List, [],
  ◌∷◌, ◌++◌, Bool, true, false, Bool-cases, inl, inr, ltb, length, arith,
}
use little_stomper.Prelude.Effects.{Act, Result, ok, Unit₀, done, pure, ◌>>=◌}
use little_stomper.Tokio.{Poll, ready, pending, Executor}
use little_stomper.Timer.Resetter.{ResettableTimer}
use little_stomper.Timer.Task.{
  TimerTask, Tasks, proceed, stream_state, step, create_task_with_receiver,
}
use little_stomper.Timer.Polling.{poll_next}
use little_stomper.Timer.Pace.{
  Trace, firings, and_note, note_next, ends_of_sleep, InPace, create_task-InPace,
}

abbrev and_then_all : (Tasks → Option Tasks) → Option Tasks → Option Tasks
and_then_all next none = none
and_then_all next (some t) = next t

-- The tasks after their signals, which go to the one that runs; `none` if one cannot come.
unfoldable pub take_all : Trace → Tasks → Option Tasks
take_all [] t = some t
take_all ((now, signal) ∷ rest) t =
    and_then_all (take_all rest) (proceed t (step now t.running signal))

-- They went through `first` and then through `rest`.
abbrev Splits : Trace → Trace → Tasks → Tasks → Type 0
Splits first rest t u =
    (v : Tasks) × (take_all first t ≡ some v) × (take_all rest v ≡ some u) × (t.fired ≤ v.fired)

proceed-fired :
    (t v : Tasks) (o : Option (Bool × TimerTask)) → proceed t o ≡ some v → t.fired ≤ v.fired
unfolding proceed
proceed-fired t v none e = ground arith
proceed-fired t v (some (true, next)) e = omega (arith, ap (λ t. t.fired) (some-injective _ _ e))
proceed-fired t v (some (false, next)) e = omega (arith, ap (λ t. t.fired) (some-injective _ _ e))

and_then_all-Splits :
    (first rest : Trace) (o : Option Tasks) (t u : Tasks)
    → ((v u : Tasks) → take_all (first ++ rest) v ≡ some u → Splits first rest v u)
    → ((v : Tasks) → o ≡ some v → t.fired ≤ v.fired)
    → and_then_all (take_all (first ++ rest)) o ≡ some u
    → (v : Tasks) × (and_then_all (take_all first) o ≡ some v)
      × (take_all rest v ≡ some u)
      × (t.fired ≤ v.fired)
and_then_all-Splits first rest none t u split more e = ground arith
and_then_all-Splits first rest (some y) t u split more e =
    let (v, e', e'', le) = split y u e in (v, e', e'', omega (arith, le, more y refl))

take_all-Splits :
    (first rest : Trace) (t u : Tasks) → take_all (first ++ rest) t ≡ some u → Splits first rest t u
unfolding take_all
take_all-Splits [] rest t u e = (t, refl, e, omega arith)
take_all-Splits ((now, signal) ∷ first) rest t u e =
    let o = step now t.running signal in
    and_then_all-Splits first rest (proceed t o) t u (take_all-Splits first rest)
      (λ v. proceed-fired t v o) e

-- What `firings` notes is what ends the tasks.
abbrev Counts : Trace → List ℕ → Tasks → Type 0
Counts trace times t =
    (u : Tasks) × (take_all trace t ≡ some u) × (u.fired ≡ t.fired + length times)

proceed-Counts :
    (now : ℕ) (rest : Trace) (o : Option (Bool × TimerTask)) (t : Tasks) (times : List ℕ)
    → ((v : Tasks) (times : List ℕ) → firings v.running rest ≡ some times → Counts rest times v)
    → note_next now (λ v. firings v rest) o ≡ some times
    → (u : Tasks) × (and_then_all (take_all rest) (proceed t o) ≡ some u)
      × (u.fired ≡ t.fired + length times)
unfolding proceed
proceed-Counts now rest none t times counts e = ground arith
proceed-Counts now rest (some (fired, next)) t times counts e = go (firings next rest) fired refl e
  where
    go :
        (r : Option (List ℕ)) (fired : Bool)
        → firings next rest ≡ r
        → and_note now fired r ≡ some times
        → (u : Tasks) × (and_then_all (take_all rest) (proceed t (some (fired, next))) ≡ some u)
          × (u.fired ≡ t.fired + length times)
    go none fired same e = ground arith
    go (some ts) true same e =
        let (u, e', n) = counts (record { fired = suc t.fired; running = next }) ts same in
        (u, e', omega (arith, n, ap length (some-injective _ _ e)))
    go (some ts) false same e =
        let (u, e', n) = counts (record t { running = next }) ts same in
        (u, e', omega (arith, n, ap length (some-injective _ _ e)))

take_all-Counts :
    (trace : Trace) (t : Tasks) (times : List ℕ)
    → firings t.running trace ≡ some times
    → Counts trace times t
unfolding take_all firings
take_all-Counts [] t times e = (t, refl, omega (arith, ap length (some-injective _ _ e)))
take_all-Counts ((now, signal) ∷ rest) t times e =
    proceed-Counts now rest (step now t.running signal) t times (take_all-Counts rest) e

-- All signals, in order.
abbrev pub joined : List Trace → Trace
joined [] = []
joined (trace ∷ traces) = trace ++ joined traces

-- The ticks among what polls yield.
abbrev pub given : List (Poll (Option Unit₀)) → ℕ
given [] = 0
given (ready (some u) ∷ xs) = suc (given xs)
given (x ∷ xs) = given xs

abbrev is_pending : Poll (Option Unit₀) → Bool
is_pending pending = true
is_pending _ = false

-- Whether the last poll found nothing; if there was no poll, the given answer.
abbrev pub ends_pending : Bool → List (Poll (Option Unit₀)) → Bool
ends_pending c [] = c
ends_pending c (x ∷ xs) = ends_pending (is_pending x) xs

-- All ticks were given, or some may be left.
abbrev pub IsGiven : Bool → ℕ → ℕ → Type 0
IsGiven true g ticks = g ≡ ticks
IsGiven false g ticks = g ≤ ticks

IsGiven-if : (all : Bool) (g ticks : ℕ) → g ≤ ticks → (all ≡ true → g ≡ ticks) → IsGiven all g ticks
IsGiven-if true g ticks le e = e refl
IsGiven-if false g ticks le e = le

given-cons :
    (x : Poll (Option Unit₀)) (xs : List (Poll (Option Unit₀)))
    → given (x ∷ xs) ≡ given (x ∷ []) + given xs
given-cons (ready (some u)) xs = omega arith
given-cons (ready none) xs = omega arith
given-cons pending xs = omega arith

module _ {W R H : Type 0} (e : Executor W R H) where
  -- Polls, with what the executor does before each.
  unfoldable pub poll_all :
      List (W → W) → ResettableTimer R H → Act W (List (Poll (Option Unit₀)) × ResettableTimer R H)
  unfolding poll_next
  poll_all [] t w = (done ([], t), w)
  poll_all (others ∷ rest) t w =
      (poll_next e t >>= λ r. poll_all rest r.1 >>= λ rs. pure (r.0 ∷ rs.0, rs.1)) (others w)

abbrev pub joined_state : {H : Type 0} → (ℕ → H) → Option ℕ → Poll (Result H Unit₀)
joined_state handle none = pending
joined_state handle (some n) = ready (ok (handle n))

-- An executor with the tasks of one timer in it, whose handles are numbered: a spawn starts its task
-- at once, and a handle is ready with what its task has returned, once it has returned.
pub record IsRuntime {W R H : Type 0} (e : Executor W R H) (now : W → ℕ) (tasks : W → Tasks)
    (handle : ℕ → H) : Type 0 where
  pub spawns :
      (period : ℕ) (r : R) (w : W)
      → ((e.spawn period r w).0 ≡ handle 0)
        × (tasks (e.spawn period r w).1
            ≡ record { fired = 0; running = create_task_with_receiver (now w) period })
  pub polls :
      (n : ℕ) (w : W)
      → e.poll_unpin (handle n) w ≡ (joined_state handle (stream_state (tasks w) n), w)

module _ {W R H : Type 0} (e : Executor W R H) (now : W → ℕ) (tasks : W → Tasks) (handle : ℕ → H)
    (law : IsRuntime e now tasks handle) where
  -- Between two polls the executor runs the tasks, with these signals.
  abbrev Takes : (W → W) → Trace → Type 0
  Takes others trace =
      (w : W) (t : Tasks) → take_all trace (tasks w) ≡ some t → tasks (others w) ≡ t

  abbrev pub AllTake : List (W → W) → List Trace → Type 0
  AllTake [] [] = Unit
  AllTake (others ∷ rest) (trace ∷ traces) = Takes others trace × AllTake rest traces
  AllTake _ _ = ⊥

  -- What a poll of a started timer gives: its task is that of number `n`.
  abbrev IsTicked : ResettableTimer R H → ℕ → W → Type 0
  IsTicked t n w =
      (x : Poll (Option Unit₀)) × (t' : ResettableTimer R H) × (poll_next e t w ≡ (done (x, t'), w))
      × (t'.task ≡ some (handle (n + given (x ∷ []))))
      × (n + given (x ∷ []) ≤ (tasks w).fired)
      × (is_pending x ≡ true → n + given (x ∷ []) ≡ (tasks w).fired)

  poll_next-IsTicked :
      (t : ResettableTimer R H) (n : ℕ) (w : W)
      → t.task ≡ some (handle n)
      → n ≤ (tasks w).fired
      → IsTicked t n w
  unfolding poll_next stream_state
  poll_next-IsTicked t n w there le = elim (Bool-cases (ltb n ((tasks w).fired))) [
    | inl more ↦ (
      ready (some tt),
      record t { task = some (handle (suc n)) },
      rw (there, law.polls n w, more) refl,
      ap (λ n. some (handle n)) (omega arith),
      ground arith,
      ground arith,
    )
    | inr none_ ↦ (
      pending,
      t,
      rw (there, law.polls n w, none_) refl,
      there ∙ ap (λ n. some (handle n)) (omega arith),
      ground arith,
      ground arith,
    )
  ]

  -- Polls from a started timer on: they return; what they gave is what fired, or less while ticks
  -- are left; and after a poll that found nothing, nothing is left.
  abbrev AreTicked : Bool → List (W → W) → ResettableTimer R H → ℕ → W → Tasks → Type 0
  AreTicked c others t n w u =
      (xs : List (Poll (Option Unit₀))) × (t' : ResettableTimer R H) × (w' : W) × (poll_all e others
          t w
        ≡ (done (xs, t'), w'))
      × (n + given xs ≤ u.fired)
      × (ends_pending c xs ≡ true → n + given xs ≡ u.fired)

  poll_all-AreTicked :
      (c : Bool) (others : List (W → W)) (traces : List Trace) (t : ResettableTimer R H) (n : ℕ)
      (w : W) (u : Tasks)
      → AllTake others traces
      → take_all (joined traces) (tasks w) ≡ some u
      → t.task ≡ some (handle n)
      → n ≤ (tasks w).fired
      → (c ≡ true → n ≡ (tasks w).fired)
      → AreTicked c others t n w u
  unfolding poll_all take_all
  poll_all-AreTicked c [] [] t n w u all run there le quiet =
      let same = ap (λ t. t.fired) (some-injective _ _ run) in
      ([], t, w, refl, omega (arith, le, same), λ h. omega (arith, quiet h, same))
  poll_all-AreTicked c (f ∷ others) (trace ∷ traces) t n w u (takes, all) run there le quiet =
      let (v, first, later, more) = take_all-Splits trace (joined traces) (tasks w) u run in
      let same : tasks (f w) ≡ v = takes w v first in
      let (x, t', e, next, got, none_left) =
        poll_next-IsTicked t n (f w) there (omega (arith, le, more, ap (λ t. t.fired) same)) in
      let (xs, t'', w', e', bound, all_given) =
        poll_all-AreTicked (is_pending x) others traces t' (n + given (x ∷ [])) (f w) u all
          (subst (λ v. take_all (joined traces) v ≡ some u) (sym same) later) next got none_left in
      (
        x ∷ xs,
        t'',
        w',
        rw (e, e') refl,
        omega (arith, bound, given-cons x xs),
        λ h. omega (arith, all_given h, given-cons x xs),
      )
  poll_all-AreTicked c [] (p ∷ ps) t n w u all run there le quiet = absurd all
  poll_all-AreTicked c (f ∷ others) [] t n w u all run there le quiet = absurd all

  -- What a new timer gives along polls between which its tasks take signals.
  abbrev pub GivesTicks : List (W → W) → Trace → ResettableTimer R H → W → Type 0
  GivesTicks others trace t w =
      (xs : List (Poll (Option Unit₀))) × (t' : ResettableTimer R H) × (w' : W) × (poll_all e
          ((λ v. v) ∷ others) t w
        ≡ (done (pending ∷ xs, t'), w'))
      × IsGiven (ends_pending false xs) (given xs) (length (ends_of_sleep trace))

  -- On an executor that runs the tasks of a timer, which is new: if between its polls the tasks take
  -- signals that are in pace, then no poll panics; the first starts the timer; and the others yield
  -- a tick for each time that the sleep of a task was over, once, but for those that are left when
  -- the polls end: if the last poll found nothing, none is left.
  pub poll_all-GivesTicks :
      (others : List (W → W)) (traces : List Trace) (t : ResettableTimer R H) (r : R) (w : W)
      → t.receiver ≡ some r
      → t.task ≡ none
      → AllTake others traces
      → InPace true t.period (now w) (joined traces)
      → GivesTicks others (joined traces) t w
  unfolding poll_all poll_next stream_state
  poll_all-GivesTicks others traces t r w there new all pace =
      let (h, w₁) = e.spawn t.period r w in
      let (first, begun) = law.spawns t.period r w in
      let zero_ : (tasks w₁).fired ≡ 0 = ap (λ t. t.fired) begun in
      let times = ends_of_sleep (joined traces) in
      let t₁ : ResettableTimer R H = record t { receiver = none; task = some h } in
      let (u, run, total) = take_all-Counts (joined traces) (tasks w₁) times (
        subst (λ v. firings v.running (joined traces) ≡ some times) (sym begun)
          ((create_task-InPace (now w) t.period (joined traces) times).1 (pace, refl))) in
      let polled : e.poll_unpin h w₁ ≡ (pending, w₁) = rw (first, law.polls 0 w₁, zero_) refl in
      let (xs, t', w', e', bound, all_given) =
        poll_all-AreTicked false others traces t₁ 0 w₁ u all run (ap some first) (omega arith)
          (λ b. ground arith) in
      (
        xs,
        t',
        w',
        rw (new, there, polled, e') refl,
        IsGiven-if (ends_pending false xs) (given xs) (length times)
            (omega (arith, bound, total, zero_)) (λ p. omega (arith, all_given p, total, zero_)),
      )
