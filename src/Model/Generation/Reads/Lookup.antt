-- ===== src/Model/Generation/Reads/Lookup.antt =====
-- Lookups by domain and selector, and of key material, in a generation that `validate`
-- (`internal/dkim2model/generation.go`) accepts.
use opendkim_manage_go.Prelude.{
  ℕ, ◌+◌, ◌≤◌, ◌≡◌, ◌⊎◌, refl, ap, Bool, true, false, ◌&&◌, List, [], ◌∷◌, map, Option, none, some,
  some-injective, contains, distinct, find_first, keep, All, All-map, Eq, ◌==◌, nat_eq, text_eq,
  eq_of_beq, beq_self, Bool-cases, inl, inr, arith,
}
use opendkim_manage_go.Prelude.Lists.Counting.{find_first_of_distinct, All-both}
use opendkim_manage_go.Model.Records.{Profile, Credential}
use opendkim_manage_go.Model.Generation.{Generation, validate, profile_by_id}
use opendkim_manage_go.Model.Generation.WellFormed.{IsWellFormed, OwnsCredential}
use opendkim_manage_go.Model.Generation.Validate.{validate-IsWellFormed}
use opendkim_manage_go.Model.Generation.Reads.{
  scan, only_match, is_of_domain, credential_by_domain_selector,
}

module _ {ℓ} {A : Type ℓ} where
  -- The loop at elements that all match.
  abbrev take_all : Option A × ℕ → List A → Option A × ℕ
  take_all found [] = found
  take_all found (x ∷ rest) = take_all (some x, found.1 + 1) rest

  scan-keep :
      (p : A → Bool) (found : Option A × ℕ) (xs : List A)
      → scan p found xs ≡ take_all found (keep p xs)
  unfolding scan keep
  scan-keep p found [] = refl
  scan-keep p found (x ∷ xs) = elim (Bool-cases (p x)) [
    | inl t ↦ rw (t) (scan-keep p (some x, found.1 + 1) xs)
    | inr f ↦ rw (f) (scan-keep p found xs)
  ]

  only_match_of_keep :
      (p : A → Bool) (x : A) (xs : List A) → keep p xs ≡ x ∷ [] → only_match p xs ≡ some x
  unfolding only_match
  only_match_of_keep p x xs h = rw (scan-keep p (none, 0) xs, h) refl

  scan-passes :
      (p : A → Bool) (found : Option A × ℕ) (xs : List A) (x : A)
      → (scan p found xs).0 ≡ some x
      → (found.0 ≡ some x) ⊎ (p x ≡ true)
  unfolding scan
  scan-passes p found [] x h = inl h
  scan-passes p found (y ∷ ys) x h = elim (Bool-cases (p y)) [
    | inl t ↦ elim (scan-passes p (some y, found.1 + 1) ys x (rw (t) at h)) [
      | inl same ↦ inr (rw (← some-injective _ _ same) t)
      | inr q ↦ inr q
    ]
    | inr f ↦ scan-passes p found ys x (rw (f) at h)
  ]

  -- A lone match is a match.
  pub only_match-passes :
      (p : A → Bool) (xs : List A) (x : A) → only_match p xs ≡ some x → p x ≡ true
  unfolding only_match
  only_match-passes p xs x h = elim (Bool-cases ((scan p (none, 0) xs).1 == 1)) [
    | inl t ↦ elim (scan-passes p (none, 0) xs x (rw (t) at h)) [ inl n ↦ cc | inr q ↦ q ]
    | inr f ↦ cc (rw (f) at h)
  ]

  take_all-count : (found : Option A × ℕ) (xs : List A) → found.1 ≤ (take_all found xs).1
  take_all-count found [] = omega arith
  take_all-count found (x ∷ xs) =
      let k = take_all-count (some x, found.1 + 1) xs in omega (arith, k)

  take_all-alone :
      (xs : List A) (x : A)
      → (take_all (none, 0) xs).1 ≡ 1
      → (take_all (none, 0) xs).0 ≡ some x
      → xs ≡ x ∷ []
  take_all-alone [] x n h = cc
  take_all-alone (y ∷ []) x n h = ap (λ z. z ∷ []) (some-injective _ _ h)
  take_all-alone (y ∷ z ∷ rest) x n h =
      let k = take_all-count (some z, 2) rest in absurd (omega (arith, k, n))

  -- A lone match is all that the test keeps.
  pub only_match-alone :
      (p : A → Bool) (xs : List A) (x : A) → only_match p xs ≡ some x → keep p xs ≡ x ∷ []
  unfolding only_match
  only_match-alone p xs x h = elim (Bool-cases ((scan p (none, 0) xs).1 == 1)) [
    | inl t ↦
        let e = scan-keep p (none, 0) xs in
        take_all-alone (keep p xs) x (rw (← e) (ground (arith, t))) (rw (← e) (rw (t) at h))
    | inr f ↦ cc (rw (f) at h)
  ]

module _ {ℓ κ} {A : Type ℓ} {B : Type κ} ⦃e : Eq B⦄ where
  keep-nothing :
      (key : A → B) (p : A → Bool) (k : B) (xs : List A)
      → ((x : A) → p x ≡ true → (key x == k) ≡ true)
      → contains (map key xs) k ≡ false
      → keep p xs ≡ []
  unfolding keep contains
  keep-nothing key p k [] h n = refl
  keep-nothing key p k (x ∷ xs) h n = elim (Bool-cases (p x)) [
    | inl t ↦ absurd (let q = h x t in ground (arith, q, n))
    | inr f ↦ rw (f) (keep-nothing key p k xs h (ground (arith, n)))
  ]

  -- The one element with a key of its own is all that a test keeps that only this key passes.
  keep-single :
      (key : A → B) (p : A → Bool) (c : A) (xs : List A)
      → ((x : A) → p x ≡ true → (key x == key c) ≡ true)
      → p c ≡ true
      → distinct (map key xs) ≡ true
      → find_first (λ x. key x == key c) xs ≡ some c
      → keep p xs ≡ c ∷ []
  unfolding keep distinct find_first
  keep-single key p c [] h pc d f = cc
  keep-single key p c (x ∷ xs) h pc d f = elim (Bool-cases (key x == key c)) [
    | inl t ↦
        let same : x ≡ c = some-injective _ _ (rw (t) at f) in
        rw
          (
            same,
            pc,
            keep-nothing key p (key c) xs h
                (rw (← eq_of_beq (key x) (key c) t) (ground (arith, d))),
          )
          refl
    | inr n ↦ elim (Bool-cases (p x)) [
      | inl t ↦ absurd (let q = h x t in ground (arith, q, n))
      | inr f' ↦ rw (f') (keep-single key p c xs h pc (ground (arith, d)) (rw (n) at f))
    ]
  ]

module _ (g : Generation) where
  -- A credential is found under the domain of its profile and its own selector.
  abbrev pub IsFound : Credential → Type 0
  IsFound c =
      (profile : Profile) × (profile_by_id g.profiles c.profile_id ≡ some profile)
      × (credential_by_domain_selector g profile.domain c.selector ≡ some c)

  IsFound-of_selector :
      (w : IsWellFormed g) (c : Credential)
      → OwnsCredential g c
      → find_first (λ x. x.selector == c.selector) g.credentials ≡ some c
      → IsFound c
  unfolding credential_by_domain_selector is_of_domain
  IsFound-of_selector w c o self = (
    o.profile,
    o.found,
    only_match_of_keep _ c g.credentials (
        keep-single (λ (x : Credential). x.selector)
          (λ x.
            is_of_domain (profile_by_id g.profiles x.profile_id) o.profile.domain
            && x.selector == c.selector)
          c g.credentials (λ x h. ground (arith, h))
          (rw (o.found, beq_self o.profile.domain, beq_self c.selector) refl) w.unique_selectors
          self),
  )

  -- In a generation that `validate` accepts, `CredentialByDomainSelector` finds each credential under
  -- the domain of its profile and its own selector, which no second credential has.
  pub credential_by_domain_selector-IsFound : validate g ≡ true → All IsFound g.credentials
  credential_by_domain_selector-IsFound h =
      let w = validate-IsWellFormed g h in
      All-map _ _ g.credentials (λ c p. IsFound-of_selector w c p.0 p.1)
        (All-both _ _ g.credentials w.credentials (
          find_first_of_distinct (λ (c : Credential). c.selector) g.credentials w.unique_selectors))
