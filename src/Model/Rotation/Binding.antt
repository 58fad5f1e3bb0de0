-- ===== src/Model/Rotation/Binding.antt =====
-- The identifiers and keys that `PlanRotation` (`internal/dkim2model/rotation.go`) makes.
use opendkim_manage_go.Prelude.{
  ℕ, ◌+◌, ◌≡◌, refl, false, ◌||◌, List, [], ◌∷◌, map, Option, none, some, Text, codes, length,
  contains, All, All-map, Result, ok, err, is_err, or_fail, >>=-eq-ok, fail_if->>-eq-ok, ◌==◌,
  nat_eq, text_eq, ltb, arith, ◌*◌, ◌^◌, not,
}
use opendkim_manage_go.Model.Error.{Error, invalid}
use opendkim_manage_go.Model.Names.{validate_identifier, validate_canonical_dns_name}
use opendkim_manage_go.Model.Values.{Algorithm, is_known_algorithm}
use opendkim_manage_go.Model.Crypto.{Codecs, canonical_dns_public_bytes}
use opendkim_manage_go.Model.Allocation.{Allocated, allocate_historical_id_bounded}
use opendkim_manage_go.Model.Allocation.Freshness.{IsFresh, allocate_historical_id_bounded-IsFresh}
use opendkim_manage_go.Model.KeyPair.{KeyPair, pair_public}
use opendkim_manage_go.Model.KeyMaterial.{KeyMaterial, new_key_material}
use opendkim_manage_go.Model.Records.{Credential, new_credential}
use opendkim_manage_go.Model.Rotation.{
  RotationPlan, RotationSources, Identifiers, allocate_ids, make_key, make_keys,
}

or_fail-eq-ok : {A : Type 0} (r : Result Error A) {a : A} → or_fail r invalid ≡ ok a → r ≡ ok a
or_fail-eq-ok (ok a) h = h
or_fail-eq-ok (err e) h = cc

module _ {S : Type 0} (sources : RotationSources S) where
  -- A selector and a handle that neither the given sets nor the history have.
  pub record IsNew (selectors handles : List Text) (selector handle : Text) : Type 0 where
    pub unused_selector : contains selectors selector ≡ false
    pub unused_handle : contains handles handle ≡ false
    pub unhistorical_selector : sources.selector_used selector ≡ some false
    pub unhistorical_handle : sources.handle_used handle ≡ some false

  pub IsNew-of_more :
      (s h : Text) (selectors handles : List Text) (selector handle : Text)
      → IsNew (s ∷ selectors) (h ∷ handles) selector handle
      → IsNew selectors handles selector handle
  unfolding contains
  IsNew-of_more s h selectors handles selector handle n =
      let u = n.unused_selector in
      let v = n.unused_handle in
      record {
        unused_selector = ground (arith, u);
        unused_handle = ground (arith, v);
        unhistorical_selector = n.unhistorical_selector;
        unhistorical_handle = n.unhistorical_handle;
      }

  module _ (plan : RotationPlan) where
    allocated_cons :
        (selectors handles : List Text) (reader reader' : S) (s k : Allocated S)
        (o ids : List Identifiers × S) (n : ℕ)
        → IsFresh sources.read_full sources.selector_used (codes "dkim2") selectors reader s
        → IsFresh sources.read_full sources.handle_used (codes "key") handles reader' k
        → (length o.0 ≡ n) × All (λ i. IsNew s.used k.used i.selector i.handle) o.0
        → ids.0 ≡ record { selector = s.identifier; handle = k.identifier } ∷ o.0
        → (length ids.0 ≡ n + 1) × All (λ i. IsNew selectors handles i.selector i.handle) ids.0
    allocated_cons selectors handles reader reader' s k o ids n fs fk r e = rw (e) (
      omega (arith, r.0),
      (
        record {
          unused_selector = fs.unused;
          unused_handle = fk.unused;
          unhistorical_selector = fs.unhistorical;
          unhistorical_handle = fk.unhistorical;
        },
        All-map _ _ o.0
            (λ i t.
              IsNew-of_more s.identifier k.identifier selectors handles i.selector i.handle
                (rw (fs.now_used, fk.now_used) at t))
            r.1,
      ),
    )

    pub allocate_ids-IsNew :
        (algorithms : List Algorithm) (selectors handles : List Text) (reader : S)
        (ids : List Identifiers × S)
        → allocate_ids sources plan algorithms selectors handles reader ≡ ok ids
        → (length ids.0 ≡ length algorithms)
          × All (λ i. IsNew selectors handles i.selector i.handle) ids.0
    unfolding allocate_ids
    allocate_ids-IsNew [] selectors handles reader ids h =
        let e : ids ≡ ([], reader) = ground (arith, h) in rw (e) (refl, tt)
    allocate_ids-IsNew (x ∷ rest) selectors handles reader ids h =
        let (s, es, h1) =
          >>=-eq-ok
            (allocate_historical_id_bounded sources.read_full sources.selector_used (codes "dkim2")
              reader selectors plan.allocation_attempts)
            _ h in
        let (k, ek, h2) =
          >>=-eq-ok
            (allocate_historical_id_bounded sources.read_full sources.handle_used (codes "key")
              s.reader handles plan.allocation_attempts)
            _ h1 in
        let (o, eo, h3) = >>=-eq-ok (allocate_ids sources plan rest s.used k.used k.reader) _ h2 in
        let fs =
          allocate_historical_id_bounded-IsFresh sources.read_full sources.selector_used
            (codes "dkim2") reader selectors plan.allocation_attempts s es in
        let fk =
          allocate_historical_id_bounded-IsFresh sources.read_full sources.handle_used (codes "key")
            s.reader handles plan.allocation_attempts k ek in
        let r = allocate_ids-IsNew rest s.used k.used k.reader o eo in
        let a =
          allocated_cons selectors handles reader s.reader s k o ids (length rest) fs fk r
            (ground (arith, h3)) in
        (omega (arith, a.0), a.1)

  pub new_credential-fields :
      (codecs : Codecs) (generation : ℕ) (id selector : Text) (algorithm : Algorithm)
      (public handle : Text) (c : Credential)
      → new_credential codecs generation id selector algorithm public handle ≡ ok c
      → (c.profile_id ≡ id)
        × (c.selector ≡ selector)
        × (c.handle_id ≡ handle)
        × (c.algorithm ≡ algorithm)
  unfolding new_credential
  new_credential-fields codecs generation id selector algorithm public handle c h =
      let (_, h1) =
        fail_if->>-eq-ok
          (generation == 0
            || (is_err (validate_identifier id)
                || (is_err (validate_canonical_dns_name selector)
                    || (not (is_known_algorithm algorithm)
                        || (is_err (validate_identifier handle)
                            || (length public == 0 || ltb (2 * 2 ^ 10) (length public)))))))
          invalid _ h in
      let (_, _, h2) = >>=-eq-ok (canonical_dns_public_bytes codecs algorithm public) _ h1 in
      (ground (arith, h2), ground (arith, h2), ground (arith, h2), ground (arith, h2))

  module _ (plan : RotationPlan) (id tenant : Text) where
    make_key-fields :
        (algorithm : Algorithm) (ids : Identifiers) (generated : Option KeyPair)
        (one : Credential × KeyMaterial)
        → make_key sources plan id tenant algorithm ids generated ≡ ok one
        → (one.0.profile_id ≡ id)
          × (one.0.selector ≡ ids.selector)
          × (one.0.handle_id ≡ ids.handle)
          × (one.0.algorithm ≡ algorithm)
    unfolding make_key
    make_key-fields algorithm ids none one h = cc
    make_key-fields algorithm ids (some pair) one h =
        let (c, ec, h1) =
          >>=-eq-ok
            (or_fail
              (new_credential sources.codecs plan.next_generation id ids.selector algorithm
                (pair_public pair) ids.handle)
              invalid)
            _ h in
        let (m, em, h2) =
          >>=-eq-ok
            (or_fail
              (new_key_material plan.next_generation tenant plan.domain plan.profile_use ids.handle
                (some pair))
              invalid)
            _ h1 in
        let e : one.0 ≡ c = ground (arith, h2) in
        rw (e) (
          new_credential-fields sources.codecs plan.next_generation id ids.selector algorithm
            (pair_public pair) ids.handle c
            (or_fail-eq-ok
              (new_credential sources.codecs plan.next_generation id ids.selector algorithm
                (pair_public pair) ids.handle)
              ec))

    keys_cons :
        (P : Text → Text → Type 0) (a : Algorithm) (algorithms : List Algorithm) (i : Identifiers)
        (c : Credential) (cs keys : List Credential)
        → (c.profile_id ≡ id)
          × (c.selector ≡ i.selector)
          × (c.handle_id ≡ i.handle)
          × (c.algorithm ≡ a)
        → P i.selector i.handle
        → (map (λ c. c.algorithm) cs ≡ algorithms)
          × All (λ c. (c.profile_id ≡ id) × P c.selector c.handle_id) cs
        → keys ≡ c ∷ cs
        → (map (λ c. c.algorithm) keys ≡ a ∷ algorithms)
          × All (λ c. (c.profile_id ≡ id) × P c.selector c.handle_id) keys
    keys_cons P a algorithms i c cs keys f p g e =
        rw (e) (rw (f.3, g.0) refl, ((f.0, rw (f.1, f.2) p), g.1))

    -- The new credentials have the requested algorithms, and the identifiers that were allocated.
    pub make_keys-fields :
        (P : Text → Text → Type 0) (algorithms : List Algorithm) (ids : List Identifiers)
        (reader : S) (keys : List Credential × List KeyMaterial)
        → length ids ≡ length algorithms
        → All (λ i. P i.selector i.handle) ids
        → make_keys sources plan id tenant algorithms ids reader ≡ ok keys
        → (map (λ c. c.algorithm) keys.0 ≡ algorithms)
          × All (λ c. (c.profile_id ≡ id) × P c.selector c.handle_id) keys.0
    unfolding make_keys
    make_keys-fields P [] [] reader keys l new h =
        let e : keys.0 ≡ [] = ground (arith, h) in rw (e) (refl, tt)
    make_keys-fields P (a ∷ algorithms) [] reader keys l new h = absurd (omega (arith, l))
    make_keys-fields P [] (i ∷ ids) reader keys l new h = absurd (omega (arith, l))
    make_keys-fields P (a ∷ algorithms) (i ∷ ids) reader keys l new h =
        let r = sources.generate a plan.rsa_bits reader in
        let (one, e1, h1) = >>=-eq-ok (make_key sources plan id tenant a i r.0) _ h in
        let (others, e2, h2) =
          >>=-eq-ok (make_keys sources plan id tenant algorithms ids r.1) _ h1 in
        let f = make_key-fields a i r.0 one e1 in
        let g = make_keys-fields P algorithms ids r.1 others (omega (arith, l)) new.1 e2 in
        keys_cons P a algorithms i one.0 others.0 keys.0 f new.0 g (ground (arith, h2))
