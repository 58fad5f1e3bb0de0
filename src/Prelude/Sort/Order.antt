-- ===== src/Prelude/Sort/Order.antt =====
-- `slices.SortFunc` with a comparison that is a total preorder yields an ordered list, and keeps
-- distinctness.
use opendkim_manage_go.Prelude.Sort.{
  insert_by, sort_func, All-insert_by, contains-insert_by, contains-sort_func,
}
use mathlib.Core.Path.{◌≡◌, refl}
use mathlib.Core.Logic.{inl, inr}
use mathlib.Core.Bool.{true, false}
use mathlib.Core.List.{List, [], ◌∷◌, map}
use native.Mathlib.Omega.{arith}
use opendkim_manage_go.Prelude.Tests.{Bool-cases}
use opendkim_manage_go.Prelude.Equality.{Eq, beq_sym}
use opendkim_manage_go.Prelude.Lists.{distinct, All, All-map}
use opendkim_manage_go.Prelude.Int.{ℤ, pos, ltb_ℤ}

module _ {ℓ} {A : Type ℓ} where
  -- `cmp(x, y) <= 0`
  abbrev pub NotAfter : (A → A → ℤ) → A → A → Type 0
  NotAfter cmp x y = ltb_ℤ (pos 0) (cmp x y) ≡ false

  -- Each element is not after any that follows it.
  abbrev pub IsOrdered : (A → A → ℤ) → List A → Type 0
  IsOrdered cmp [] = Unit
  IsOrdered cmp (x ∷ xs) = All (NotAfter cmp x) xs × IsOrdered cmp xs

  -- A comparison that orders any two elements, transitively.
  pub record IsComparison (cmp : A → A → ℤ) : Type ℓ where
    pub total : (x y : A) → ltb_ℤ (pos 0) (cmp x y) ≡ true → NotAfter cmp y x
    pub trans : (x y z : A) → NotAfter cmp x y → NotAfter cmp y z → NotAfter cmp x z

  insert_by-IsOrdered :
      (cmp : A → A → ℤ) (c : IsComparison cmp) (x : A) (ys : List A)
      → IsOrdered cmp ys
      → IsOrdered cmp (insert_by cmp x ys)
  unfolding insert_by
  insert_by-IsOrdered cmp c x [] h = (tt, tt)
  insert_by-IsOrdered cmp c x (y ∷ ys) h = elim (Bool-cases (ltb_ℤ (pos 0) (cmp x y))) [
    | inl t ↦ rw t (
      All-insert_by (NotAfter cmp y) cmp x ys (c.total x y t) h.0,
      insert_by-IsOrdered cmp c x ys h.1,
    )
    | inr f ↦
        rw f ((f, All-map (NotAfter cmp y) (NotAfter cmp x) ys (λ z k. c.trans x y z f k) h.0), h)
  ]

  pub sort_func-IsOrdered :
      (cmp : A → A → ℤ) (c : IsComparison cmp) (xs : List A) → IsOrdered cmp (sort_func cmp xs)
  unfolding sort_func
  sort_func-IsOrdered cmp c [] = tt
  sort_func-IsOrdered cmp c (x ∷ xs) =
      insert_by-IsOrdered cmp c x (sort_func cmp xs) (sort_func-IsOrdered cmp c xs)

  -- An ordered list is not changed by sorting.
  pub sort_func_of_IsOrdered :
      (cmp : A → A → ℤ) (xs : List A) → IsOrdered cmp xs → sort_func cmp xs ≡ xs
  unfolding sort_func insert_by
  sort_func_of_IsOrdered cmp [] h = refl
  sort_func_of_IsOrdered cmp (x ∷ []) h = refl
  sort_func_of_IsOrdered cmp (x ∷ y ∷ ys) h = rw (sort_func_of_IsOrdered cmp (y ∷ ys) h.1, h.0.0)

  pub sort_func_idem :
      (cmp : A → A → ℤ)
      → IsComparison cmp
      → (xs : List A) → sort_func cmp (sort_func cmp xs) ≡ sort_func cmp xs
  sort_func_idem cmp c xs =
      sort_func_of_IsOrdered cmp (sort_func cmp xs) (sort_func-IsOrdered cmp c xs)

module _ {ℓ κ} {A : Type ℓ} {B : Type κ} ⦃e : Eq B⦄ where
  distinct-insert_by :
      (f : A → B) (cmp : A → A → ℤ) (x : A) (ys : List A)
      → distinct (map f (insert_by cmp x ys)) ≡ distinct (map f (x ∷ ys))
  unfolding insert_by distinct
  distinct-insert_by f cmp x [] = refl
  distinct-insert_by f cmp x (y ∷ ys) = elim (Bool-cases (ltb_ℤ (pos 0) (cmp x y))) [
    | inl t ↦
        rw (t, contains-insert_by f cmp x ys (f y), distinct-insert_by f cmp x ys)
          (ground (arith, beq_sym (f x) (f y)))
    | inr n ↦ rw n
  ]

  -- Sorting keeps the keys distinct, or not.
  pub distinct-sort_func :
      (f : A → B) (cmp : A → A → ℤ) (xs : List A)
      → distinct (map f (sort_func cmp xs)) ≡ distinct (map f xs)
  unfolding sort_func distinct
  distinct-sort_func f cmp [] = refl
  distinct-sort_func f cmp (x ∷ xs) = rw (
    distinct-insert_by f cmp x (sort_func cmp xs),
    contains-sort_func f cmp xs (f x),
    distinct-sort_func f cmp xs,
  )
