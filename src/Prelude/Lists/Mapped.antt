-- ===== src/Prelude/Lists/Mapped.antt =====
-- Lookups and tests in a mapped list, where the map keeps what they read.
use mathlib.Core.Path.{◌≡◌, refl}
use mathlib.Core.Logic.{inl, inr}
use mathlib.Core.Bool.{Bool}
use mathlib.Core.List.{List, [], ◌∷◌, map}
use mathlib.Core.Option.{Option, none, some}
use opendkim_manage_go.Prelude.Tests.{Bool-cases}
use opendkim_manage_go.Prelude.Lists.{find_first, keep}

module _ {A B : Type 0} (f : A → B) where
  pub map-map :
      {C : Type 0} (key : B → C) (key' : A → C) (xs : List A)
      → ((x : A) → key (f x) ≡ key' x)
      → map key (map f xs) ≡ map key' xs
  map-map key key' [] e = refl
  map-map key key' (x ∷ xs) e = rw (e x, map-map key key' xs e) refl

abbrev pub map_option : {A B : Type 0} → (A → B) → Option A → Option B
map_option f none = none
map_option f (some a) = some (f a)

module _ {A : Type 0} (f : A → A) (p : A → Bool) (e : (x : A) → p (f x) ≡ p x) where
  pub find_first-map : (xs : List A) → find_first p (map f xs) ≡ map_option f (find_first p xs)
  unfolding find_first
  find_first-map [] = refl
  find_first-map (x ∷ xs) = elim (Bool-cases (p x)) [
    | inl t ↦ rw (e x, t) refl
    | inr n ↦ rw (e x, n) (find_first-map xs)
  ]

  pub keep-map : (xs : List A) → keep p (map f xs) ≡ map f (keep p xs)
  unfolding keep
  keep-map [] = refl
  keep-map (x ∷ xs) = elim (Bool-cases (p x)) [
    | inl t ↦ rw (e x, t, keep-map xs) refl
    | inr n ↦ rw (e x, n) (keep-map xs)
  ]
