-- ===== src/Prelude/Effects.antt =====
-- Code that changes the world that the tasks share. Rust code either returns or panics; what it
-- did to the world before a panic stays done, so the world stands beside both outcomes.
use Prim.Native.String.{String}

pub data Outcome {ℓ} (A : Type ℓ) : Type ℓ where
  done : A → Outcome A
  panic : String → Outcome A

-- `Result<A, E>`.
pub data Result {ℓ} (A E : Type ℓ) : Type ℓ where
  ok : A → Result A E
  err : E → Result A E

abbrev pub map_ok {ℓ} : {A B E : Type ℓ} → (A → B) → Result A E → Result B E
map_ok f (ok a) = ok (f a)
map_ok f (err e) = err e

abbrev pub Act {ℓ} : Type ℓ → Type ℓ → Type ℓ
Act W A = W → Outcome A × W

module _ {ℓ} {W A : Type ℓ} where
  abbrev pub pure : A → Act W A
  pure a w = (done a, w)

  abbrev pub panics : String → Act W A
  panics why w = (panic why, w)

module _ {ℓ} {W A B : Type ℓ} where
  -- What follows a call, unless the call panicked.
  abbrev pub and_then : Outcome A → (A → Act W B) → Act W B
  and_then (done a) f w = f a w
  and_then (panic why) f w = (panic why, w)

  infixl 10 ◌>>=◌ ◌>>◌
  abbrev pub ◌>>=◌ : Act W A → (A → Act W B) → Act W B
  ◌>>=◌ m f w = and_then (m w).0 f (m w).1

  abbrev pub ◌>>◌ : Act W A → Act W B → Act W B
  m >> n = m >>= λ _. n

abbrev pub Unit₀ : Type 0
Unit₀ = Unit {0}

-- What holds of the value that code returns, if it returns.
abbrev pub Ensures {ℓ κ} : {A : Type ℓ} → (A → Type κ) → Outcome A → Type κ
Ensures P (done a) = P a
Ensures P (panic why) = Unit

module _ {ℓ κ μ} {W A B : Type ℓ} (P : A → Type κ) (Q : B → Type μ) where
  pub Ensures-bind :
      (m : Act W A) (f : A → Act W B) (w : W)
      → Ensures P (m w).0
      → ((a : A) (v : W) → P a → Ensures Q (f a v).0)
      → Ensures Q ((m >>= f) w).0
  Ensures-bind m f w h k = go (m w).0 h
    where
      go : (o : Outcome A) → Ensures P o → Ensures Q (and_then o f (m w).1).0
      go (done a) p = k a (m w).1 p
      go (panic why) p = tt

pub Ensures-mono {ℓ κ μ} :
    {A : Type ℓ} (P : A → Type κ) (Q : A → Type μ) (o : Outcome A)
    → ((a : A) → P a → Q a)
    → Ensures P o
    → Ensures Q o
Ensures-mono P Q (done a) f h = f a h
Ensures-mono P Q (panic why) f h = tt

pub Ensures-both {ℓ κ μ} :
    {A : Type ℓ} (P : A → Type κ) (Q : A → Type μ) (o : Outcome A)
    → Ensures P o
    → Ensures Q o
    → Ensures (λ a. P a × Q a) o
Ensures-both P Q (done a) p q = (p, q)
Ensures-both P Q (panic why) p q = tt
