-- ===== src/Prelude/Results.antt =====
-- A Go result `(A, error)`: a value or the error, with `do` for early returns.
use mathlib.Core.Path.{◌≡◌, refl}
use mathlib.Core.Logic.{◌⊎◌, inl, inr}
use native.Mathlib.Omega.{arith}
use mathlib.Core.Bool.{Bool, true, false}

pub data Result {ℓ} (E : Type 0) (A : Type ℓ) : Type ℓ where
  ok : A → Result E A
  err : E → Result E A

infixl 5 ◌>>=◌ ◌>>◌
abbrev pub ◌>>=◌ {ℓ κ} :
    {E : Type 0} {A : Type ℓ} {B : Type κ} → Result E A → (A → Result E B) → Result E B
ok value >>= next = next value
err e >>= next = err e

abbrev pub ◌>>◌ {ℓ} : {E : Type 0} {B : Type ℓ} → Result E (Unit {0}) → Result E B → Result E B
first >> second = first >>= λ _. second

-- `if test { return err }`
abbrev pub fail_if : {E : Type 0} → Bool → E → Result E (Unit {0})
fail_if true e = err e
fail_if false e = ok tt

-- The same error for every failure: `if err != nil { return ErrInvalid }`.
abbrev pub or_fail {ℓ} : {E F : Type 0} {A : Type ℓ} → Result E A → F → Result F A
or_fail (ok a) f = ok a
or_fail (err _) f = err f

abbrev pub is_err {ℓ} : {E : Type 0} {A : Type ℓ} → Result E A → Bool
is_err (ok _) = false
is_err (err _) = true

pub Result-cases {ℓ} :
    {E : Type 0} {A : Type ℓ} (r : Result E A) → ((e : E) × (r ≡ err e)) ⊎ ((a : A) × (r ≡ ok a))
Result-cases (err e) = inl (e, refl)
Result-cases (ok a) = inr (a, refl)

module _ {ℓ κ} {E : Type 0} {A : Type ℓ} {B : Type κ} where
  -- A chain that succeeds has a value of its first part.
  pub >>=-eq-ok :
      (first : Result E A) (next : A → Result E B) {last : B}
      → (first >>= next) ≡ ok last
      → (value : A) × (first ≡ ok value) × (next value ≡ ok last)
  >>=-eq-ok (err e) next h = cc
  >>=-eq-ok (ok value) next h = (value, refl, h)

module _ {ℓ} {E : Type 0} {B : Type ℓ} where
  pub fail_if->>-eq-ok :
      (t : Bool) (e : E) (k : Result E B) {b : B}
      → (fail_if t e >> k) ≡ ok b
      → (t ≡ false) × (k ≡ ok b)
  fail_if->>-eq-ok true e k h = cc
  fail_if->>-eq-ok false e k h = (refl, h)

  pub or_fail-eq_ok : {F : Type 0} (r : Result E B) (f : F) {b : B} → or_fail r f ≡ ok b → r ≡ ok b
  or_fail-eq_ok (ok _) f h = ground (arith, h)
  or_fail-eq_ok (err _) f h = cc
