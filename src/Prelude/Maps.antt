-- ===== src/Prelude/Maps.antt =====
-- A Go map as the list of its entries, in the order of their first insertion.
use mathlib.Core.Path.{◌≡◌, refl, ap, ◌∙◌}
use mathlib.Core.Logic.{inl, inr}
use mathlib.Core.Bool.{Bool, true, false}
use mathlib.Core.List.{List, [], ◌∷◌, ◌++◌, map}
use mathlib.Core.Option.{Option, none, some}
use native.Mathlib.Omega.{arith}
use opendkim_manage_go.Prelude.Tests.{Bool-cases, if◌then◌else◌}
use opendkim_manage_go.Prelude.Equality.{Eq, ◌==◌, beq_sym}
use opendkim_manage_go.Prelude.Lists.{contains, distinct, keep, find_first, contains-append}
use opendkim_manage_go.Prelude.Lists.Keep.{append-nil}

module _ {ℓ κ} {K : Type ℓ} {V : Type κ} ⦃e : Eq K⦄ where
  -- `entries[key] = value`
  unfoldable pub put : K → V → List (K × V) → List (K × V)
  put key value [] = (key, value) ∷ []
  put key value (entry ∷ rest) =
      let others = put key value rest in
      if entry.0 == key then (key, value) ∷ rest else entry ∷ others

  -- `value, found := entries[key]`
  unfoldable pub get : K → List (K × V) → Option V
  get key [] = none
  get key (entry ∷ rest) =
      let other = get key rest in if entry.0 == key then some entry.1 else other

  -- A loop that stores every element that passes.
  unfoldable pub store_all {μ} :
      {A : Type μ} → (A → Bool) → (A → K) → (A → V) → List (K × V) → List A → List (K × V)
  store_all passes key value entries [] = entries
  store_all passes key value entries (a ∷ rest) =
      let stored = store_all passes key value (put (key a) (value a) entries) rest in
      let skipped = store_all passes key value entries rest in if passes a then stored else skipped

  put_new :
      (key : K) (value : V) (entries : List (K × V))
      → contains (map (λ x. x.0) entries) key ≡ false
      → put key value entries ≡ entries ++ ((key, value) ∷ [])
  unfolding put contains
  put_new key value [] n = refl
  put_new key value (entry ∷ rest) n = ground (arith, put_new key value rest (ground (arith, n)), n)

pub append_one {ℓ} :
    {A : Type ℓ} (xs : List A) (y : A) (ys : List A) → (xs ++ (y ∷ [])) ++ ys ≡ xs ++ (y ∷ ys)
append_one [] y ys = refl
append_one (x ∷ xs) y ys = ap (λ zs. x ∷ zs) (append_one xs y ys)

map_append_one {ℓ κ} :
    {A : Type ℓ} {B : Type κ} (f : A → B) (xs : List A) (y : A)
    → map f (xs ++ (y ∷ [])) ≡ map f xs ++ (f y ∷ [])
map_append_one f [] y = refl
map_append_one f (x ∷ xs) y = ap (λ zs. f x ∷ zs) (map_append_one f xs y)

distinct_middle {ℓ} :
    {A : Type ℓ} ⦃e : Eq A⦄ (xs : List A) (y : A) (ys : List A)
    → distinct (xs ++ (y ∷ ys)) ≡ true
    → contains xs y ≡ false
unfolding distinct contains
distinct_middle [] y ys d = refl
distinct_middle (x ∷ xs) y ys d =
    let rest = distinct_middle xs y ys (ground (arith, d)) in
    let outside = contains-append xs (y ∷ ys) x in
    let other = beq_sym x y in ground (arith, rest, outside, other, d)

module _ {ℓ κ μ} {K : Type ℓ} {V : Type κ} {A : Type μ} ⦃e : Eq K⦄ (passes : A → Bool) (key : A → K)
    (value : A → V) where
  -- Under distinct keys the map has an entry for each element that passes, in order.
  store_all-distinct :
      (entries : List (K × V)) (xs : List A)
      → distinct (map (λ x. x.0) entries ++ map key (keep passes xs)) ≡ true
      → store_all passes key value entries xs
        ≡ entries ++ map (λ x. (key x, value x)) (keep passes xs)
  unfolding store_all keep
  store_all-distinct entries [] d = rw (append-nil entries) refl
  store_all-distinct entries (x ∷ xs) d = elim (Bool-cases (passes x)) [
    | inr f ↦ rw f (store_all-distinct entries xs (rw f at d))
    | inl t ↦
        let d' : distinct (map (λ x. x.0) entries ++ (key x ∷ map key (keep passes xs))) ≡ true =
          rw t at d in
        let n = distinct_middle (map (λ x. x.0) entries) (key x) _ d' in
        let entry : K × V = (key x, value x) in
        rw (t, put_new (key x) (value x) entries n)
          (store_all-distinct (entries ++ (entry ∷ [])) xs (
              rw
                (
                  map_append_one (λ (x : K × V). x.0) entries entry,
                  append_one (map (λ x. x.0) entries) (key x) _,
                )
                d')
            ∙ append_one entries entry _)
  ]

  pub store_all_of_distinct :
      (xs : List A)
      → distinct (map key (keep passes xs)) ≡ true
      → store_all passes key value [] xs ≡ map (λ x. (key x, value x)) (keep passes xs)
  store_all_of_distinct xs d = store_all-distinct [] xs d

-- A lookup among elements under their own keys.
pub get-map {ℓ κ} :
    {K : Type ℓ} {A : Type κ} ⦃e : Eq K⦄ (key : A → K) (k : K) (xs : List A)
    → get k (map (λ x. (key x, x)) xs) ≡ find_first (λ x. key x == k) xs
unfolding get find_first
get-map key k [] = refl
get-map key k (x ∷ xs) = rw (get-map key k xs) refl
