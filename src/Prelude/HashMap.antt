-- ===== src/Prelude/HashMap.antt =====
-- `std::collections::HashMap` as a list of entries. Its iteration order is unspecified; here it is
-- the order of the list, and the theorems about loops over `values` hold for every such list.
use mathlib.Core.Path.{◌≡◌, refl}
use mathlib.Core.Logic.{ite}
use mathlib.Core.Option.{Option, none, some}
use mathlib.Core.List.{List, [], ◌∷◌, map}
use native.Mathlib.Omega.{arith}
use little_stomper.Prelude.Lists.{All}

abbrev pub HashMap {ℓ} : Type ℓ → Type ℓ → Type ℓ
HashMap K V = List (K × V)

module _ {ℓ} {K V : Type ℓ} where
  abbrev pub values : HashMap K V → List V
  values = map (λ e. e.1)

module _ {ℓ} {K V : Type ℓ} (dec : Discrete K) where
  unfoldable pub get : K → HashMap K V → Option V
  get k [] = none
  get k ((j, v) ∷ m) = ite (dec j k) (some v) (get k m)

  unfoldable pub remove : K → HashMap K V → HashMap K V
  remove k [] = []
  remove k ((j, v) ∷ m) = let rest = remove k m in ite (dec j k) rest ((j, v) ∷ rest)

  unfoldable pub insert : K → V → HashMap K V → HashMap K V
  insert k v m = (k, v) ∷ remove k m

  pub get-remove : (k q : K) (m : HashMap K V) → get q (remove k m) ≡ ite (dec k q) none (get q m)
  unfolding get remove
  get-remove k q [] = ground arith
  get-remove k q ((j, v) ∷ m) = ground (arith, get-remove k q m)

  pub get-insert :
      (k q : K) (v : V) (m : HashMap K V) → get q (insert k v m) ≡ ite (dec k q) (some v) (get q m)
  unfolding get insert
  get-insert k q v m = ground (arith, get-remove k q m)

  pub get-insert_self : (k : K) (v : V) (m : HashMap K V) → get k (insert k v m) ≡ some v
  get-insert_self k v m = ground (arith, get-insert k k v m)

  -- What holds of every entry holds of those that a removal leaves.
  pub remove-All {κ} : (P : K × V → Type κ) (k : K) (m : HashMap K V) → All P m → All P (remove k m)
  unfolding remove
  remove-All P k [] h = tt
  remove-All P k ((j, v) ∷ m) h =
      let rest = remove-All P k m h.1 in
      elim (dec j k) as (λ d. All P (ite d (remove k m) ((j, v) ∷ remove k m))) [
        | yes e ↦ rest
        | no n ↦ (h.0, rest)
      ]

  -- What holds of every value holds of the one that is found.
  pub get-All {κ} :
      (P : V → Type κ) (k : K) (v : V) (m : HashMap K V)
      → All (λ e. P e.1) m
      → get k m ≡ some v
      → P v
  unfolding get
  get-All P k v [] h e = ground arith
  get-All P k v ((j, u) ∷ m) h e = ground (arith, get-All P k v m h.1, h.0)

  -- No key twice.
  abbrev pub Distinct : HashMap K V → Type ℓ
  Distinct [] = Unit
  Distinct ((k, v) ∷ m) = (get k m ≡ none) × Distinct m

  pub remove-Distinct : (k : K) (m : HashMap K V) → Distinct m → Distinct (remove k m)
  unfolding remove
  remove-Distinct k [] d = tt
  remove-Distinct k ((j, v) ∷ m) d = ground (arith, get-remove k j m, remove-Distinct k m d.1)

  pub insert-Distinct : (k : K) (v : V) (m : HashMap K V) → Distinct m → Distinct (insert k v m)
  unfolding insert
  insert-Distinct k v m d = ground (arith, get-remove k k m, remove-Distinct k m d)

  -- Removing an absent key changes nothing.
  pub remove_absent : (k : K) (m : HashMap K V) → get k m ≡ none → remove k m ≡ m
  unfolding get remove
  remove_absent k [] h = refl
  remove_absent k ((j, v) ∷ m) h = ground (arith, remove_absent k m)

  remove-remove_self : (k : K) (m : HashMap K V) → get k m ≡ none → remove k (remove k m) ≡ m
  unfolding get remove
  remove-remove_self k m h = rw (remove_absent k m h) (remove_absent k m h)

  -- Removing a new key again gives the map back.
  pub remove-insert_self :
      (k : K) (v : V) (m : HashMap K V) → get k m ≡ none → remove k (insert k v m) ≡ m
  unfolding insert remove
  remove-insert_self k v m h = ground (arith, remove-remove_self k m h)
