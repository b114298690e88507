-- ===== src/System/Family.antt =====
-- Families indexed by a session or by a destination, with an update at one index.
use little_stomper.Prelude.{◌≡◌, subst, ite, arith}

module _ {ℓ} {K : Type ℓ} (dec : Discrete K) where
  abbrev pub update {κ} : {V : Type κ} → K → V → (K → V) → K → V
  update k v f j = ite (dec k j) v (f j)

  -- What holds of the new value and of all old ones holds of the family.
  pub update-all {κ μ} :
      {V : Type κ} (P : K → V → Type μ) (k : K) (v : V) (f : K → V)
      → P k v
      → ((j : K) → P j (f j))
      → (j : K) → P j (update k v f j)
  update-all P k v f new old j = elim (dec k j) as (λ d. P j (ite d v (f j))) [
    | yes e ↦ subst (λ j. P j v) e new
    | no n ↦ old j
  ]

  pub update_self {κ} : {V : Type κ} (k : K) (v : V) (f : K → V) → update k v f k ≡ v
  update_self k v f = ground arith
