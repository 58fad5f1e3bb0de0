-- ===== src/Model/Generation/Loops.antt =====
-- A loop that admits records one by one, each against those before it, as `validate` of
-- `internal/dkim2model/generation.go` does.
use opendkim_manage_go.Prelude.{
  ◌≡◌, refl, Bool, true, false, ◌||◌, List, [], ◌∷◌, map, contains, distinct, All, All-map, keep,
  Eq, ◌==◌, beq_sym, arith, if◌then◌else◌, Bool-cases, inl, inr,
}

module _ {ℓ} {A : Type ℓ} where
  -- The latest record admitted stands first in `seen`.
  unfoldable pub admit_all : (List A → A → Bool) → List A → List A → Bool
  admit_all round seen [] = true
  admit_all round seen (x ∷ xs) =
      let rest = admit_all round (x ∷ seen) xs in if round seen x then rest else false

module _ {ℓ} {A : Type ℓ} where
  -- What each round checks holds of all.
  pub admit_all-All {κ} :
      (P : A → Type κ) (round : List A → A → Bool) (seen xs : List A)
      → ((s : List A) (x : A) → round s x ≡ true → P x)
      → admit_all round seen xs ≡ true
      → All P xs
  unfolding admit_all
  admit_all-All P round seen [] f h = tt
  admit_all-All P round seen (x ∷ xs) f h =
      (f seen x (ground (arith, h)), admit_all-All P round (x ∷ seen) xs f (ground (arith, h)))

module _ {ℓ κ} {A : Type ℓ} {B : Type κ} ⦃e : Eq B⦄ where
  not-contains_of_ne :
      (key : A → B) (x : A) (xs : List A)
      → All (λ y. (key x == key y) ≡ false) xs
      → contains (map key xs) (key x) ≡ false
  unfolding contains
  not-contains_of_ne key x [] h = refl
  not-contains_of_ne key x (y ∷ xs) h =
      rw (beq_sym (key y) (key x), h.0, not-contains_of_ne key x xs h.1)

  -- If each round refuses a key that was seen, the admitted keys are new and distinct.
  pub admit_all-distinct :
      (key : A → B) (round : List A → A → Bool) (seen xs : List A)
      → ((s : List A) (x : A) → round s x ≡ true → contains (map key s) (key x) ≡ false)
      → admit_all round seen xs ≡ true
      → (distinct (map key xs) ≡ true) × All (λ y. contains (map key seen) (key y) ≡ false) xs
  unfolding admit_all distinct contains
  admit_all-distinct key round seen [] f h = (refl, tt)
  admit_all-distinct key round seen (x ∷ xs) f h =
      let r = admit_all-distinct key round (x ∷ seen) xs f (ground (arith, h)) in
      let new = f seen x (ground (arith, h)) in
      let apart =
        All-map (λ y. (key x == key y || contains (map key seen) (key y)) ≡ false)
          (λ y. (key x == key y) ≡ false) xs (λ y k. ground (arith, k)) r.1 in
      (
        rw (not-contains_of_ne key x xs apart, r.0),
        (
          new,
          All-map (λ y. (key x == key y || contains (map key seen) (key y)) ≡ false)
              (λ y. contains (map key seen) (key y) ≡ false) xs (λ y k. ground (arith, k)) r.1,
        ),
      )

  -- The same for the records that pass a filter, if each round refuses a key seen among those.
  pub admit_all-distinct-keep :
      (key : A → B) (q : A → Bool) (round : List A → A → Bool) (seen xs : List A)
      → ((s : List A) (x : A)
          → round s x ≡ true
          → q x ≡ true
          → contains (map key (keep q s)) (key x) ≡ false)
      → admit_all round seen xs ≡ true
      → (distinct (map key (keep q xs)) ≡ true)
        × All (λ y. contains (map key (keep q seen)) (key y) ≡ false) (keep q xs)
  unfolding admit_all distinct contains keep
  admit_all-distinct-keep key q round seen [] f h = (refl, tt)
  admit_all-distinct-keep key q round seen (x ∷ xs) f h = elim (Bool-cases (q x)) [
    | inl t ↦
        let r = rw t at (admit_all-distinct-keep key q round (x ∷ seen) xs f (ground (arith, h))) in
        let new = f seen x (ground (arith, h)) t in
        let apart =
          All-map (λ y. (key x == key y || contains (map key (keep q seen)) (key y)) ≡ false)
            (λ y. (key x == key y) ≡ false) (keep q xs) (λ y k. ground (arith, k)) r.1 in
        rw t (
          rw (not-contains_of_ne key x (keep q xs) apart, r.0),
          (
            new,
            All-map (λ y. (key x == key y || contains (map key (keep q seen)) (key y)) ≡ false)
                (λ y. contains (map key (keep q seen)) (key y) ≡ false) (keep q xs)
                (λ y k. ground (arith, k)) r.1,
          ),
        )
    | inr n ↦
        let r = rw n at (admit_all-distinct-keep key q round (x ∷ seen) xs f (ground (arith, h))) in
        rw n r
  ]

module _ {A B : Type 0} (f : A → B) where
  -- A loop over mapped records admits what the loop over the records does.
  pub admit_all_of_rounds :
      (round : List A → A → Bool) (round' : List B → B → Bool) (seen xs : List A)
      → ((s : List A) (x : A) → round s x ≡ true → round' (map f s) (f x) ≡ true)
      → admit_all round seen xs ≡ true
      → admit_all round' (map f seen) (map f xs) ≡ true
  unfolding admit_all
  admit_all_of_rounds round round' seen [] e h = refl
  admit_all_of_rounds round round' seen (x ∷ xs) e h =
      let r = e seen x (ground (arith, h)) in
      let k = admit_all_of_rounds round round' (x ∷ seen) xs e (ground (arith, h)) in rw (r, k) refl
