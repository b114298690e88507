-- ===== src/Prelude/Orders.antt =====
-- Lists and HashMaps with the same entries in different orders.
use mathlib.Core.Path.{◌≡◌, refl, sym, ◌∙◌, ap, subst}
use mathlib.Core.Logic.{ite}
use mathlib.Core.Option.{none, some}
use mathlib.Core.List.{List, [], ◌∷◌, ◌++◌, Perm, Permᴰ, perm_middle}
use mathlib.Core.List.Perm
use native.Mathlib.Omega.{arith}
use little_stomper.Prelude.HashMap.{HashMap, get, remove, Distinct}

module _ {ℓ κ} {A : Type ℓ} {B : Type κ} (f : List A → List B) (g : A → List B)
    (at_cons : (x : A) (xs : List A) → f (x ∷ xs) ≡ g x ++ f xs) where
  both_first : (xs ys zs : List B) → Perm (xs ++ (ys ++ zs)) (ys ++ (xs ++ zs))
  both_first [] ys zs = Perm.refl (ys ++ zs)
  both_first (x ∷ xs) ys zs =
      Perm.trans (Perm.cons x (both_first xs ys zs)) (Perm.symm (perm_middle ys (xs ++ zs)))

  -- A list that is made entry by entry.
  pub entries-Perm : {xs ys : List A} → Permᴰ xs ys → Perm (f xs) (f ys)
  entries-Perm Permᴰ.nil = Perm.refl (f [])
  entries-Perm (Permᴰ.cons {a} {b} {l₁ = xs} {l₂ = ys} e p) =
      subst (λ b. Perm (f (a ∷ xs)) (f (b ∷ ys))) e
        (rw (at_cons a xs, at_cons a ys) (Perm.append_left (g a) (entries-Perm p)))
  entries-Perm (Permᴰ.swap {a} {b} {a'} {b'} {l} e₁ e₂) =
      subst (λ a'. Perm (f (a ∷ b ∷ l)) (f (a' ∷ b' ∷ l))) e₂
        (subst (λ b'. Perm (f (a ∷ b ∷ l)) (f (b ∷ b' ∷ l))) e₁
          (rw (at_cons a (b ∷ l), at_cons b l, at_cons b (a ∷ l), at_cons a l)
            (both_first (g a) (g b) (f l))))
  entries-Perm (Permᴰ.trans p q) = Perm.trans (entries-Perm p) (entries-Perm q)

module _ {ℓ} {K V : Type ℓ} (dec : Discrete K) where
  -- Each key has the same value, and none is there twice.
  abbrev Agrees : HashMap K V → HashMap K V → Type ℓ
  Agrees m n = ((k : K) → get dec k m ≡ get dec k n) × Distinct dec n

  cons-Agrees :
      (k : K) (v : V) (m n : HashMap K V)
      → get dec k m ≡ none
      → Agrees m n
      → Agrees ((k, v) ∷ m) ((k, v) ∷ n)
  unfolding get
  cons-Agrees k v m n absent (same, d) =
      ((λ q. ap (λ o. ite (dec k q) (some v) o) (same q)), (sym (same k) ∙ absent, d))

  swap-Agrees :
      (k j : K) (v u : V) (m : HashMap K V)
      → Distinct dec ((k, v) ∷ (j, u) ∷ m)
      → Agrees ((k, v) ∷ (j, u) ∷ m) ((j, u) ∷ (k, v) ∷ m)
  unfolding get
  swap-Agrees k j v u m (k_absent, (j_absent, d)) =
      ((λ q. ground arith), (ground arith, (ground arith, d)))

  Perm-Agrees : {m n : HashMap K V} → Permᴰ m n → Distinct dec m → Agrees m n
  Perm-Agrees Permᴰ.nil d = ((λ k. refl), tt)
  Perm-Agrees (Permᴰ.cons {a = (k, v)} {b} {l₁ = m} {l₂ = n} e p) d =
      subst (λ b. Agrees ((k, v) ∷ m) (b ∷ n)) e (cons-Agrees k v m n d.0 (Perm-Agrees p d.1))
  Perm-Agrees (Permᴰ.swap {a = (k, v)} {b = (j, u)} {a'} {b'} {l} e₁ e₂) d =
      subst (λ a'. Agrees ((k, v) ∷ (j, u) ∷ l) (a' ∷ b' ∷ l)) e₂
        (subst (λ b'. Agrees ((k, v) ∷ (j, u) ∷ l) ((j, u) ∷ b' ∷ l)) e₁ (swap-Agrees k j v u l d))
  Perm-Agrees (Permᴰ.trans p q) d =
      let (same, d') = Perm-Agrees p d in
      let (again, d'') = Perm-Agrees q d' in ((λ k. same k ∙ again k), d'')

  pub get-Perm :
      (k : K) {m n : HashMap K V} → Permᴰ m n → Distinct dec m → get dec k m ≡ get dec k n
  get-Perm k p d = (Perm-Agrees p d).0 k

  abbrev remove_one : K → K × V → HashMap K V
  remove_one k (j, v) = ite (dec j k) [] ((j, v) ∷ [])

  pub remove-Perm : (k : K) {m n : HashMap K V} → Permᴰ m n → Perm (remove dec k m) (remove dec k n)
  unfolding remove
  remove-Perm k = entries-Perm (remove dec k) (remove_one k) (λ e m. by_entry e m)
    where
      by_entry :
          (e : K × V) (m : HashMap K V) → remove dec k (e ∷ m) ≡ remove_one k e ++ remove dec k m
      by_entry (j, v) m =
          elim (dec j k)
            as (λ x.
              ite x (remove dec k m) ((j, v) ∷ remove dec k m)
              ≡ ite x [] ((j, v) ∷ []) ++ remove dec k m) [ yes e ↦ refl | no n ↦ refl ]
