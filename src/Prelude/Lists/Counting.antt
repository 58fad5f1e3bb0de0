-- ===== src/Prelude/Lists/Counting.antt =====
-- Distinct elements of a list of equal length fill it, and lookups by distinct keys.
use Prim.Native.Nat.{◌+◌, ◌≤◌}
use mathlib.Core.Path.{◌≡◌, subst}
use mathlib.Core.Logic.{inl, inr}
use mathlib.Core.Bool.{Bool, true, false}
use mathlib.Core.List.{List, [], ◌∷◌, map}
use mathlib.Core.Option.{some}
use native.Mathlib.Omega.{arith}
use opendkim_manage_go.Prelude.Tests.{Bool-cases}
use opendkim_manage_go.Prelude.Equality.{Eq, ◌==◌, eq_of_beq, beq_self, beq_sym}
use opendkim_manage_go.Prelude.Lists.{length, contains, distinct, remove, All, find_first}

module _ {ℓ} {A : Type ℓ} ⦃e : Eq A⦄ where
  contains-remove_ne :
      (a b : A) (xs : List A)
      → (a == b) ≡ false
      → contains xs b ≡ true
      → contains (remove a xs) b ≡ true
  unfolding contains remove
  contains-remove_ne a b [] n h = cc
  contains-remove_ne a b (x ∷ xs) n h = elim (Bool-cases (x == a)) [
    | inl t ↦ let p : (x == b) ≡ false = rw (eq_of_beq x a t) n in rw t (ground (arith, h, p))
    | inr f ↦ elim (Bool-cases (x == b)) [
      | inl u ↦ rw (f, u)
      | inr v ↦ rw (f, v) (contains-remove_ne a b xs n (ground (arith, h, v)))
    ]
  ]

  length-remove :
      (a : A) (xs : List A) → contains xs a ≡ true → length (remove a xs) + 1 ≡ length xs
  unfolding contains remove
  length-remove a [] h = cc
  length-remove a (x ∷ xs) h = elim (Bool-cases (x == a)) [
    | inl t ↦ rw t (omega arith)
    | inr f ↦ let k = length-remove a xs (ground (arith, h, f)) in rw f (omega arith)
  ]

  inside :
      (x : A) (ys zs : List A)
      → contains zs x ≡ false
      → All (λ z. contains ys z ≡ true) zs
      → All (λ z. contains (remove x ys) z ≡ true) zs
  unfolding contains
  inside x ys [] n k = tt
  inside x ys (z ∷ zs) n k = (
    contains-remove_ne x z ys (rw (beq_sym x z) (ground (arith, n))) k.0,
    inside x ys zs (ground (arith, n)) k.1,
  )

  -- A distinct list inside another is no longer.
  pub length-le_of_subset :
      (xs ys : List A)
      → distinct xs ≡ true
      → All (λ x. contains ys x ≡ true) xs
      → length xs ≤ length ys
  unfolding distinct
  length-le_of_subset [] ys d h = omega arith
  length-le_of_subset (x ∷ xs) ys d h =
      let rest =
        length-le_of_subset xs (remove x ys) (ground (arith, d))
          (inside x ys xs (ground (arith, d)) h.1) in
      let k = length-remove x ys h.0 in omega arith

  -- A distinct list inside another of the same length has all its elements.
  pub contains_of_full :
      (xs ys : List A)
      → distinct xs ≡ true
      → All (λ x. contains ys x ≡ true) xs
      → length xs ≡ length ys
      → (y : A) → contains ys y ≡ true
      → contains xs y ≡ true
  contains_of_full xs ys d h n y m = elim (Bool-cases (contains xs y)) [
    | inl t ↦ t
    | inr f ↦ absurd (
        let k = length-le_of_subset (y ∷ xs) ys (unfold distinct in rw (f, d)) (m, h) in
        omega arith)
  ]

module _ {ℓ κ} {A : Type ℓ} {B : Type κ} ⦃e : Eq B⦄ where
  ne_of_not-contains :
      (key : A → B) (x : A) (xs : List A)
      → contains (map key xs) (key x) ≡ false
      → All (λ y. (key x == key y) ≡ false) xs
  unfolding contains
  ne_of_not-contains key x [] h = tt
  ne_of_not-contains key x (y ∷ xs) h = (
    rw (beq_sym (key x) (key y)) (ground (arith, h)),
    ne_of_not-contains key x xs (ground (arith, h)),
  )

  -- Where keys are distinct, each element is found by its key.
  pub find_first_of_distinct :
      (key : A → B) (xs : List A)
      → distinct (map key xs) ≡ true
      → All (λ x. find_first (λ y. key y == key x) xs ≡ some x) xs
  unfolding distinct find_first
  find_first_of_distinct key [] d = tt
  find_first_of_distinct key (x ∷ xs) d = (
    rw (beq_self (key x)),
    later xs (find_first_of_distinct key xs (ground (arith, d)))
        (ne_of_not-contains key x xs (ground (arith, d))),
  )
    where
      later :
          (ys : List A)
          → All (λ y. find_first (λ z. key z == key y) xs ≡ some y) ys
          → All (λ y. (key x == key y) ≡ false) ys
          → All (λ y. find_first (λ z. key z == key y) (x ∷ xs) ≡ some y) ys
      later [] f n = tt
      later (y ∷ ys) f n = (rw (n.0) f.0, later ys f.1 n.1)

  -- A key that is there is found.
  pub find_first_of_contains :
      (key : A → B) (xs : List A) (b : B)
      → contains (map key xs) b ≡ true
      → (x : A) × (find_first (λ y. key y == b) xs ≡ some x) × (key x ≡ b)
  unfolding contains find_first
  find_first_of_contains key [] b h = cc
  find_first_of_contains key (x ∷ xs) b h = elim (Bool-cases (key x == b)) [
    | inl t ↦ (x, rw t, eq_of_beq (key x) b t)
    | inr f ↦
        let (y, e, k) = find_first_of_contains key xs b (ground (arith, h, f)) in (y, rw f e, k)
  ]

module _ {ℓ} {A : Type ℓ} where
  -- What holds of all holds of what is found.
  pub find_first-All {κ} :
      (P : A → Type κ) (p : A → Bool) (xs : List A) (x : A)
      → All P xs
      → find_first p xs ≡ some x
      → P x
  unfolding find_first
  find_first-All P p [] x h e = absurd (ground (arith, e))
  find_first-All P p (y ∷ xs) x h e = elim (Bool-cases (p y)) [
    | inl t ↦ let q : y ≡ x = ground (arith, e, t) in subst P q h.0
    | inr f ↦ find_first-All P p xs x h.1 (ground (arith, e, f))
  ]

  pub All-both {κ μ} :
      (P : A → Type κ) (Q : A → Type μ) (xs : List A)
      → All P xs
      → All Q xs
      → All (λ x. P x × Q x) xs
  All-both P Q [] h k = tt
  All-both P Q (x ∷ xs) h k = ((h.0, k.0), All-both P Q xs h.1 k.1)

  pub All-map_list {κ μ} :
      {B : Type κ} (P : B → Type μ) (f : A → B) (xs : List A)
      → All (λ x. P (f x)) xs
      → All P (map f xs)
  All-map_list P f [] h = tt
  All-map_list P f (x ∷ xs) h = (h.0, All-map_list P f xs h.1)
