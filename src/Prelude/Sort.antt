-- ===== src/Prelude/Sort.antt =====
-- `slices.SortFunc`: the elements in the order of a comparison into `int`, as an insertion sort.
pub mod Order
use Prim.Native.Nat.{ℕ, ◌+◌, ◌≤◌}
use mathlib.Core.Path.{◌≡◌, refl, ap, ◌∙◌}
use mathlib.Core.Logic.{inl, inr}
use mathlib.Core.Bool.{Bool, true, false, ◌||◌}
use mathlib.Core.List.{List, [], ◌∷◌, map}
use native.Mathlib.Omega.{arith}
use opendkim_manage_go.Prelude.Tests.{if◌then◌else◌, Bool-cases}
use opendkim_manage_go.Prelude.Equality.{Eq, ◌==◌}
use opendkim_manage_go.Prelude.Lists.{length, contains, All, all}
use opendkim_manage_go.Prelude.Int.{ℤ, pos, ltb_ℤ, leb_ℤ}

module _ {ℓ} {A : Type ℓ} where
  unfoldable pub insert_by : (A → A → ℤ) → A → List A → List A
  insert_by cmp x [] = x ∷ []
  insert_by cmp x (y ∷ ys) =
      let rest = insert_by cmp x ys in if ltb_ℤ (pos 0) (cmp x y) then y ∷ rest else x ∷ y ∷ ys

  unfoldable pub sort_func : (A → A → ℤ) → List A → List A
  unfolding insert_by
  sort_func cmp [] = []
  sort_func cmp (x ∷ xs) = insert_by cmp x (sort_func cmp xs)

  length-insert_by :
      (cmp : A → A → ℤ) (x : A) (ys : List A) → length (insert_by cmp x ys) ≡ length ys + 1
  unfolding insert_by
  length-insert_by cmp x [] = omega arith
  length-insert_by cmp x (y ∷ ys) = ground (arith, length-insert_by cmp x ys)

  pub length-sort_func : (cmp : A → A → ℤ) (xs : List A) → length (sort_func cmp xs) ≡ length xs
  unfolding sort_func
  length-sort_func cmp [] = refl
  length-sort_func cmp (x ∷ xs) =
      omega (arith, length-insert_by cmp x (sort_func cmp xs), length-sort_func cmp xs)

  pub All-insert_by {κ} :
      (P : A → Type κ) (cmp : A → A → ℤ) (x : A) (ys : List A)
      → P x
      → All P ys
      → All P (insert_by cmp x ys)
  unfolding insert_by
  All-insert_by P cmp x [] h k = (h, tt)
  All-insert_by P cmp x (y ∷ ys) h k = elim (Bool-cases (ltb_ℤ (pos 0) (cmp x y))) [
    | inl t ↦ rw t (k.0, All-insert_by P cmp x ys h k.1)
    | inr f ↦ rw f (h, k)
  ]

  pub All-sort_func {κ} :
      (P : A → Type κ) (cmp : A → A → ℤ) (xs : List A) → All P xs → All P (sort_func cmp xs)
  unfolding sort_func
  All-sort_func P cmp [] h = tt
  All-sort_func P cmp (x ∷ xs) h =
      All-insert_by P cmp x (sort_func cmp xs) h.0 (All-sort_func P cmp xs h.1)

module _ {ℓ κ} {A : Type ℓ} {B : Type κ} ⦃e : Eq B⦄ where
  pub contains-insert_by :
      (f : A → B) (cmp : A → A → ℤ) (x : A) (ys : List A) (b : B)
      → contains (map f (insert_by cmp x ys)) b ≡ (f x == b || contains (map f ys) b)
  unfolding insert_by contains
  contains-insert_by f cmp x [] b = refl
  contains-insert_by f cmp x (y ∷ ys) b = elim (Bool-cases (ltb_ℤ (pos 0) (cmp x y))) [
    | inl t ↦ rw t (ground (arith, contains-insert_by f cmp x ys b))
    | inr n ↦ rw n refl
  ]

  -- Sorting keeps the keys.
  pub contains-sort_func :
      (f : A → B) (cmp : A → A → ℤ) (xs : List A) (b : B)
      → contains (map f (sort_func cmp xs)) b ≡ contains (map f xs) b
  unfolding sort_func contains
  contains-sort_func f cmp [] b = refl
  contains-sort_func f cmp (x ∷ xs) b =
      contains-insert_by f cmp x (sort_func cmp xs) b
      ∙ ap (λ c. f x == b || c) (contains-sort_func f cmp xs b)
