-- ===== src/Prelude/Lists/Seen.antt =====
-- A loop that refuses what it has seen, against distinctness.
use mathlib.Core.Path.{◌≡◌, refl}
use mathlib.Core.Bool.{Bool, true, not, ◌&&◌}
use mathlib.Core.List.{List, [], ◌∷◌}
use native.Mathlib.Omega.{arith}
use opendkim_manage_go.Prelude.Equality.{Eq, beq_sym}
use opendkim_manage_go.Prelude.Lists.{contains, distinct, all}

module _ {ℓ} {A : Type ℓ} ⦃e : Eq A⦄ where
  unfoldable pub new_among : List A → List A → Bool
  new_among seen [] = true
  new_among seen (x ∷ xs) = not (contains seen x) && new_among (x ∷ seen) xs

  all-fresh :
      (seen : List A) (x : A) (xs : List A)
      → all (λ y. not (contains (x ∷ seen) y)) xs
        ≡ (not (contains xs x) && all (λ y. not (contains seen y)) xs)
  unfolding all contains
  all-fresh seen x [] = refl
  all-fresh seen x (y ∷ ys) =
      let rest = all-fresh seen x ys in let s = beq_sym x y in ground (arith, rest, s)

  pub new_among_lem :
      (seen xs : List A) → new_among seen xs ≡ (all (λ y. not (contains seen y)) xs && distinct xs)
  unfolding new_among all distinct
  new_among_lem seen [] = refl
  new_among_lem seen (x ∷ xs) =
      let rest = new_among_lem (x ∷ seen) xs in
      let f = all-fresh seen x xs in ground (arith, rest, f)

  all-nothing : (xs : List A) → all (λ y. not (contains [] y)) xs ≡ true
  unfolding all contains
  all-nothing [] = refl
  all-nothing (x ∷ xs) = all-nothing xs

  pub new_among-nil : (xs : List A) → new_among [] xs ≡ distinct xs
  new_among-nil xs =
      let whole = new_among_lem [] xs in
      let nothing = all-nothing xs in ground (arith, whole, nothing)
