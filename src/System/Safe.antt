-- ===== src/System/Safe.antt =====
-- Code that keeps an invariant of the world, whatever its outcome, and returns only values that a
-- postcondition admits.
use little_stomper.Prelude.Effects.{Act, Outcome, done, panic, pure, and_then, ◌>>=◌, ◌>>◌, Ensures}

-- No condition on the value.
abbrev pub Any : {A : Type 0} → A → Type 0
Any a = Unit

module _ {W : Type 0} (I : W → Type 0) where
  abbrev pub SafeAt : {A : Type 0} → (A → Type 0) → Act W A → W → Type 0
  SafeAt Q m w = I (m w).1 × Ensures Q (m w).0

  abbrev pub Safe : {A : Type 0} → (A → Type 0) → Act W A → Type 0
  Safe Q m = (w : W) → I w → SafeAt Q m w

  pub Safe-pure : {A : Type 0} (Q : A → Type 0) (a : A) → Q a → Safe Q (pure a)
  Safe-pure Q a q w i = (i, q)

  pub SafeAt-bind :
      {A B : Type 0} (P : A → Type 0) (Q : B → Type 0) (m : Act W A) (f : A → Act W B) (w : W)
      → SafeAt P m w
      → ((a : A) → P a → Safe Q (f a))
      → SafeAt Q (m >>= f) w
  SafeAt-bind {A} {B} P Q m f w h k = go (m w).0 h.1 h.0
    where
      go :
          (o : Outcome A)
          → Ensures P o
          → I (m w).1
          → I (and_then o f (m w).1).1 × Ensures Q (and_then o f (m w).1).0
      go (done a) p j = k a p (m w).1 j
      go (panic why) p j = (j, tt)

  pub Safe-bind :
      {A B : Type 0} (P : A → Type 0) (Q : B → Type 0) (m : Act W A) (f : A → Act W B)
      → Safe P m
      → ((a : A) → P a → Safe Q (f a))
      → Safe Q (m >>= f)
  Safe-bind P Q m f h k w i = SafeAt-bind P Q m f w (h w i) k

  -- The same for code that another call follows with no use of its value.
  pub Safe-then :
      {A B : Type 0} (Q : B → Type 0) (m : Act W A) (n : Act W B)
      → Safe Any m
      → Safe Q n
      → Safe Q (m >> n)
  Safe-then Q m n h k = Safe-bind Any Q m (λ _. n) h (λ _ _. k)
