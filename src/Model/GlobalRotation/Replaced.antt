-- ===== src/Model/GlobalRotation/Replaced.antt =====
-- What `campaignKeyReplacer.replace` of `internal/dkim2model/rotation.go` does to a builder.
use opendkim_manage_go.Prelude.{
  ℕ, ◌≡◌, refl, sym, ap, ◌∙◌, true, false, not, Bool, List, [], ◌∷◌, map, Option, none, some, Text,
  codes, contains, keep, All, All-map, ok, or_fail, or_fail-eq_ok, >>=-eq-ok, ◌==◌, nat_eq, text_eq,
  eq_of_beq, beq_sym, contains-All, Bool-cases, inl, inr, arith,
}
use opendkim_manage_go.Model.Error.{Error, invalid}
use opendkim_manage_go.Model.Values.{Algorithm}
use opendkim_manage_go.Model.Allocation.{allocate_historical_id_bounded}
use opendkim_manage_go.Model.Allocation.Freshness.{allocate_historical_id_bounded-IsFresh}
use opendkim_manage_go.Model.KeyPair.{KeyPair, pair_public}
use opendkim_manage_go.Model.KeyMaterial.{KeyMaterial, new_key_material}
use opendkim_manage_go.Model.Records.{Credential, new_credential}
use opendkim_manage_go.Model.Generation.{of_profile}
use opendkim_manage_go.Model.Builder.{Builder, replace_profile_keys}
use opendkim_manage_go.Model.Builder.Replacement.{replace_profile_keys-IsReplaced}
use opendkim_manage_go.Model.Rotation.{RotationSources}
use opendkim_manage_go.Model.Rotation.Binding.{IsNew, IsNew-of_more, new_credential-fields}
use opendkim_manage_go.Model.Eligibility.{RotationLimits}
use opendkim_manage_go.Model.GlobalRotation.{
  Replacer, Replacement, make_pair, fresh_keys, replaced_keys, replace, replace_all,
}

module _ {S : Type 0} (sources : RotationSources S) (next : ℕ) (limits : RotationLimits) where
  -- What is new behind the second state is new behind the first.
  abbrev pub IsLater : Replacer S → Replacer S → Type 0
  IsLater state state' =
      (selector handle : Text)
      → IsNew sources state'.used_selectors state'.used_handles selector handle
      → IsNew sources state.used_selectors state.used_handles selector handle

  -- A new credential of a profile.
  abbrev pub IsFreshFor : Text → Replacer S → Credential → Type 0
  IsFreshFor id state c =
      (c.profile_id ≡ id)
      × IsNew sources state.used_selectors state.used_handles c.selector c.handle_id

  make_pair-fields :
      (r : Replacement) (algorithm : Algorithm) (selector handle : Text)
      (generated : Option KeyPair) (one : Credential × KeyMaterial)
      → make_pair sources next limits r algorithm selector handle generated ≡ ok one
      → (one.0.profile_id ≡ r.profile.id)
        × (one.0.selector ≡ selector)
        × (one.0.handle_id ≡ handle)
        × (one.0.algorithm ≡ algorithm)
  unfolding make_pair
  make_pair-fields r algorithm selector handle none one h = cc
  make_pair-fields r algorithm selector handle (some pair) one h =
      let made =
        new_credential sources.codecs next r.profile.id selector algorithm (pair_public pair)
          handle in
      let (c, ec, h1) = >>=-eq-ok (or_fail made invalid) _ h in
      let (m, em, h2) =
        >>=-eq-ok
          (or_fail (new_key_material next r.tenant r.domain r.profile_use handle (some pair))
            invalid)
          _ h1 in
      let e : one.0 ≡ c = ground (arith, h2) in
      rw (e) (
        new_credential-fields sources sources.codecs next r.profile.id selector algorithm
          (pair_public pair) handle c (or_fail-eq_ok made invalid ec))

  fresh_keys-fields :
      (r : Replacement) (state : Replacer S) (algorithms : List Algorithm)
      (keys : (List Credential × List KeyMaterial) × Replacer S)
      → fresh_keys sources next limits r state algorithms ≡ ok keys
      → (map (λ c. c.algorithm) keys.0.0 ≡ algorithms)
        × All (IsFreshFor r.profile.id state) keys.0.0
        × IsLater state keys.1
  unfolding fresh_keys
  fresh_keys-fields r state [] keys h =
      let e : (([], []), state) ≡ keys = ground (arith, h) in rw (← e) (refl, tt, λ s k n. n)
  fresh_keys-fields r state (a ∷ rest) keys h =
      let (s, es, h1) =
        >>=-eq-ok
          (allocate_historical_id_bounded sources.read_full sources.selector_used (codes "dkim2")
            state.reader state.used_selectors limits.allocation_attempts)
          _ h in
      let (k, ek, h2) =
        >>=-eq-ok
          (allocate_historical_id_bounded sources.read_full sources.handle_used (codes "key")
            s.reader state.used_handles limits.allocation_attempts)
          _ h1 in
      let g = sources.generate a limits.rsa_bits k.reader in
      let (one, e1, h3) =
        >>=-eq-ok (make_pair sources next limits r a s.identifier k.identifier g.0) _ h2 in
      let state' : Replacer S = record {
        used_selectors = s.used;
        used_handles = k.used;
        reader = g.1;
      } in
      let (others, e2, h4) = >>=-eq-ok (fresh_keys sources next limits r state' rest) _ h3 in
      let fs =
        allocate_historical_id_bounded-IsFresh sources.read_full sources.selector_used
          (codes "dkim2") state.reader state.used_selectors limits.allocation_attempts s es in
      let fk =
        allocate_historical_id_bounded-IsFresh sources.read_full sources.handle_used (codes "key")
          s.reader state.used_handles limits.allocation_attempts k ek in
      let (f0, f1, f2, f3) = make_pair-fields r a s.identifier k.identifier g.0 one e1 in
      let (algs, fresh, later) = fresh_keys-fields r state' rest others e2 in
      let before : IsLater state state' = λ x y n.
        IsNew-of_more sources s.identifier k.identifier state.used_selectors state.used_handles x y
          (rw (fs.now_used, fk.now_used) at n) in
      let here : IsFreshFor r.profile.id state one.0 = (
        f0,
        rw (f1, f2)
            (record {
              unused_selector = fs.unused;
              unused_handle = fk.unused;
              unhistorical_selector = fs.unhistorical;
              unhistorical_handle = fk.unhistorical;
            }),
      ) in
      let e : ((one.0 ∷ others.0.0, one.1 ∷ others.0.1), others.1) ≡ keys = ground (arith, h4) in
      rw (← e) (
        ground (arith, f3, algs),
        (here, All-map _ _ others.0.0 (λ c (p, n). (p, before c.selector c.handle_id n)) fresh),
        λ x y n. before x y (later x y n),
      )

  -- A builder in which one profile has new keys.
  pub record IsStep (r : Replacement) (state : Replacer S) (b b' : Builder) (state' : Replacer S)
      : Type 0 where
    pub algorithms : map (λ c. c.algorithm) (of_profile r.profile.id b'.credentials) ≡ r.algorithms
    pub fresh : All (IsFreshFor r.profile.id state) (of_profile r.profile.id b'.credentials)
    pub others :
        keep (λ c. not (c.profile_id == r.profile.id)) b'.credentials
        ≡ keep (λ c. not (c.profile_id == r.profile.id)) b.credentials
    pub same_profiles : b'.profiles ≡ b.profiles
    pub same_policies : b'.policies ≡ b.policies
    pub same_number : b'.number ≡ b.number
    pub same_state : b'.state ≡ b.state
    pub later : IsLater state state'

  replaced_keys-eq_ok :
      (x : Builder × Option Error) (state : Replacer S) (one : Builder × Replacer S)
      → replaced_keys sources next limits x state ≡ ok one
      → (x ≡ (one.0, none)) × (state ≡ one.1)
  unfolding replaced_keys
  replaced_keys-eq_ok (b, none) state one h = (ground (arith, h), ground (arith, h))
  replaced_keys-eq_ok (b, some e) state one h = cc

  pub replace-IsStep :
      (r : Replacement) (state : Replacer S) (b : Builder) (one : Builder × Replacer S)
      → replace sources next limits r state b ≡ ok one
      → IsStep r state b one.0 one.1
  unfolding replace
  replace-IsStep r state b one h =
      let (keys, e, h1) = >>=-eq-ok (fresh_keys sources next limits r state r.algorithms) _ h in
      let (algs, fresh, later) = fresh_keys-fields r state r.algorithms keys e in
      let (done, moved) =
        replaced_keys-eq_ok (replace_profile_keys b r.profile.id keys.0.0 (map some keys.0.1))
          keys.1 one h1 in
      let i =
        replace_profile_keys-IsReplaced b r.profile.id keys.0.0 (map some keys.0.1) one.0 done in
      record {
        algorithms = ap (map (λ c. c.algorithm)) i.own ∙ algs;
        fresh = rw (i.own) fresh;
        others = i.others;
        same_profiles = i.same_profiles;
        same_policies = i.same_policies;
        same_number = i.same_number;
        same_state = i.same_state;
        later = λ x y n. later x y (rw (moved) n);
      }

  keep-within :
      (p q : Credential → Bool) (cs : List Credential)
      → ((c : Credential) → p c ≡ true → q c ≡ true)
      → keep p (keep q cs) ≡ keep p cs
  unfolding keep
  keep-within p q [] i = refl
  keep-within p q (c ∷ cs) i = elim (Bool-cases (p c)) [
    | inl t ↦ let k = i c t in rw (k, t, keep-within p q cs i) refl
    | inr f ↦ elim (Bool-cases (q c)) [
      | inl u ↦ rw (u, f) (keep-within p q cs i)
      | inr v ↦ rw (v, f) (keep-within p q cs i)
    ]
  ]

  -- The credentials of another profile stand behind a step.
  IsStep-other :
      (r : Replacement) (state : Replacer S) (b b' : Builder) (state' : Replacer S) (id : Text)
      → (r.profile.id == id) ≡ false
      → IsStep r state b b' state'
      → of_profile id b'.credentials ≡ of_profile id b.credentials
  unfolding of_profile
  IsStep-other r state b b' state' id n s =
      let other : (c : Credential)
          → (c.profile_id == id) ≡ true
          → not (c.profile_id == r.profile.id) ≡ true =
        λ c t.
          let e = eq_of_beq c.profile_id id t in
          let m = beq_sym id r.profile.id in rw (e, m, n) refl in
      sym (
        keep-within (λ c. c.profile_id == id) (λ c. not (c.profile_id == r.profile.id))
          b'.credentials other)
      ∙ ap (keep (λ c. c.profile_id == id)) s.others
      ∙ keep-within (λ c. c.profile_id == id) (λ c. not (c.profile_id == r.profile.id))
          b.credentials other

  module _ (P : Text → List Credential → Type 0) (base : Replacer S) where
    -- What new keys for a replacement must satisfy.
    abbrev pub IsMade : Replacement → Type 0
    IsMade r =
        (cs : List Credential)
        → map (λ c. c.algorithm) cs ≡ r.algorithms
        → All (IsFreshFor r.profile.id base) cs
        → P r.profile.id cs

    -- The listed profiles have new keys, the others their old ones; the rest is the same.
    pub record IsReplacedAll (ids : List Text) (b b' : Builder) : Type 0 where
      pub listed : All (λ id. P id (of_profile id b'.credentials)) ids
      pub others :
          (id : Text)
          → contains ids id ≡ false
          → of_profile id b'.credentials ≡ of_profile id b.credentials
      pub same_profiles : b'.profiles ≡ b.profiles
      pub same_policies : b'.policies ≡ b.policies
      pub same_number : b'.number ≡ b.number
      pub same_state : b'.state ≡ b.state

    pub nothing_replaced : (b b' : Builder) → b ≡ b' → IsReplacedAll [] b b'
    nothing_replaced b b' e = record {
      listed = tt;
      others = λ id n. ap (λ x. of_profile id x.credentials) (sym e);
      same_profiles = ap (λ x. x.profiles) (sym e);
      same_policies = ap (λ x. x.policies) (sym e);
      same_number = ap (λ x. x.number) (sym e);
      same_state = ap (λ x. x.state) (sym e);
    }

    -- One more replacement before the others.
    pub IsStep-all :
        (r : Replacement) (ids : List Text) (state state' : Replacer S) (b b1 last : Builder)
        → IsMade r
        → IsLater base state
        → IsStep r state b b1 state'
        → IsReplacedAll ids b1 last
        → IsReplacedAll (r.profile.id ∷ ids) b last
    unfolding contains
    IsStep-all r ids state state' b b1 last made later s rest =
        let id = r.profile.id in
        let now : P id (of_profile id b1.credentials) =
          made (of_profile id b1.credentials) s.algorithms (
            All-map _ _ (of_profile id b1.credentials)
              (λ c (p, n). (p, later c.selector c.handle_id n)) s.fresh) in
        record {
          listed = (
            elim (Bool-cases (contains ids id)) [
              | inl t ↦ contains-All (λ x. P x (of_profile x last.credentials)) ids id rest.listed t
              | inr f ↦ rw (rest.others id f) now
            ],
            rest.listed,
          );
          others = λ x n.
              rest.others x (ground (arith, n))
              ∙ IsStep-other r state b b1 state' x (ground (arith, n)) s;
          same_profiles = rest.same_profiles ∙ s.same_profiles;
          same_policies = rest.same_policies ∙ s.same_policies;
          same_number = rest.same_number ∙ s.same_number;
          same_state = rest.same_state ∙ s.same_state;
        }

    pub replace_all-IsReplacedAll :
        (rs : List Replacement) (state : Replacer S) (b last : Builder)
        → All IsMade rs
        → IsLater base state
        → replace_all sources next limits rs state b ≡ ok last
        → IsReplacedAll (map (λ r. r.profile.id) rs) b last
    unfolding replace_all
    replace_all-IsReplacedAll [] state b last made later h =
        nothing_replaced b last (ground (arith, h))
    replace_all-IsReplacedAll (r ∷ rs) state b last made later h =
        let (one, e, h1) = >>=-eq-ok (replace sources next limits r state b) _ h in
        let s = replace-IsStep r state b one e in
        IsStep-all r (map (λ r. r.profile.id) rs) state one.1 b one.0 last made.0 later s (
          replace_all-IsReplacedAll rs one.1 one.0 last made.1 (λ x y n. later x y (s.later x y n))
            h1)
