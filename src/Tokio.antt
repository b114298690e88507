-- ===== src/Tokio.antt =====
-- What the program uses of the tokio and uuid crates, as parameters over the world `W` that all
-- tasks share, with the documented behaviour that the theorems rely on.
use little_stomper.Prelude.{ℕ, String, ◌≡◌, ◌⊎◌, Bool, true, false, List, [], ◌∷◌, ◌++◌}
use little_stomper.Prelude.Effects.{Act, Result, ok, err, Unit₀}

-- `mpsc::UnboundedSender<A>`: a refused value comes back in the error.
pub record UnboundedSender (W A : Type 0) : Type 0 where
  pub send : A → W → Result Unit₀ A × W

-- A send is accepted, or it is refused, hands the value back and changes nothing.
pub record IsSender {W A : Type 0} (s : UnboundedSender W A) : Type 0 where
  pub sends : (a : A) (w : W) → ((s.send a w).0 ≡ ok tt) ⊎ (s.send a w ≡ (err a, w))

-- A channel whose queue and state can be seen in the world: an accepted value goes to the end.
pub record IsChannel {W A : Type 0} (s : UnboundedSender W A) (queue : W → List A)
    (is_open : W → Bool) : Type 0 where
  pub send_open :
      (a : A) (w : W)
      → is_open w ≡ true
      → ((s.send a w).0 ≡ ok tt)
        × (queue (s.send a w).1 ≡ queue w ++ a ∷ [])
        × (is_open (s.send a w).1 ≡ true)
  pub send_closed : (a : A) (w : W) → is_open w ≡ false → s.send a w ≡ (err a, w)

-- `task::spawn`: the task runs apart from its parent.
abbrev pub Spawn : Type 0 → Type 0
Spawn W = Act W Unit₀ → W → W

-- `Uuid::new_v4().to_string()`.
abbrev pub NewUuid : Type 0 → Type 0
NewUuid W = W → String × W

-- A send on one channel leaves another alone.
pub record IsApart {W A B : Type 0} (s : UnboundedSender W A) (queue : W → List B)
    (is_open : W → Bool) : Type 0 where
  pub keeps :
      (a : A) (w : W) → (queue (s.send a w).1 ≡ queue w) × (is_open (s.send a w).1 ≡ is_open w)

-- `std::task::Poll<V>`.
pub data Poll (V : Type 0) : Type 0 where
  ready : V → Poll V
  pending : Poll V

-- The executor, as a timer uses it: `R` is its receiver and `H` the handle of its task.
pub record Executor (W R H : Type 0) : Type 0 where
  -- `task::spawn` of the timer's task for a period.
  pub spawn : ℕ → R → W → H × W
  -- The poll of a handle: the handle of the next task once the task has fired, and an error if it
  -- was aborted or panicked.
  pub poll_unpin : H → W → Poll (Result H Unit₀) × W
  pub abort : H → W → W
