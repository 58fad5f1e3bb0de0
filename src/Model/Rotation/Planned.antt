-- ===== src/Model/Rotation/Planned.antt =====
-- What a generation planned by `PlanRotation` (`internal/dkim2model/rotation.go`) is.
use opendkim_manage_go.Prelude.{
  ℕ, ◌+◌, ◌%◌, ◌&&◌, ◌!=◌, contains, ◌≡◌, refl, ap, ◌∙◌, true, not, ◌||◌, List, ◌++◌, map, Option,
  none, some, keep, leb, All, ok, or_fail, or_fail-eq_ok, is_empty, if◌then◌else◌, >>=-eq-ok,
  fail_if->>-eq-ok, ◌==◌, nat_eq, text_eq, arith,
}
use opendkim_manage_go.Prelude.Sort.{sort_func}
use opendkim_manage_go.Model.Error.{Error, invalid}
use opendkim_manage_go.Model.Values.{
  Algorithm, rsa_sha256, DatasetState, state_staging, is_known_state, compare_algorithms,
}
use opendkim_manage_go.Model.AlgorithmSet.{canonical_algorithm_set, contains_every_algorithm}
use opendkim_manage_go.Model.Crypto.{min_rsa_bits, max_rsa_bits}
use opendkim_manage_go.Prelude.Int.{pos, pos_part, ltb_ℤ}
use opendkim_manage_go.Model.Records.{
  Profile, Credential, Policy, rebase_profile, rebase_credential, rebase_policy,
}
use opendkim_manage_go.Model.Generation.{Generation, sort_records}
use opendkim_manage_go.Model.Generation.Order.{
  compare_profiles, compare_credentials, compare_policies,
}
use opendkim_manage_go.Model.Generation.WellFormed.{IsWellFormed}
use opendkim_manage_go.Model.Generation.Validate.{
  new_generation_with_state-IsBuilt, new_generation_with_state-IsWellFormed,
}
use opendkim_manage_go.Model.Builder.{
  Builder, next_builder, rebase_materials, build, replace_profile_keys,
}
use opendkim_manage_go.Model.Builder.Replacement.{replace_profile_keys-IsReplaced}
use opendkim_manage_go.Model.Rotation.{
  RotationPlan, RotationSources, admits_plan, exact_active_binding, requested_algorithms,
  allocate_ids, make_keys, build_replaced, rotate_binding, plan_rotation,
}
use opendkim_manage_go.Model.Rotation.Binding.{IsNew, allocate_ids-IsNew, make_keys-fields}

-- The records of a built generation are those of the builder, sorted.
pub record IsBuiltFrom (b : Builder) (g : Generation) : Type 0 where
  pub well_formed : IsWellFormed g
  pub number : g.number ≡ b.number
  pub state : g.state ≡ b.state
  pub profiles : g.profiles ≡ sort_func compare_profiles b.profiles
  pub credentials : g.credentials ≡ sort_func compare_credentials b.credentials
  pub policies : g.policies ≡ sort_func compare_policies b.policies

pub build-IsBuiltFrom : (b : Builder) (g : Generation) → build b ≡ ok g → IsBuiltFrom b g
unfolding build sort_records
build-IsBuiltFrom b g h =
    let i =
      new_generation_with_state-IsBuilt b.number b.state b.handles b.profiles b.credentials
        b.policies (map some b.materials) g h in
    record {
      well_formed =
          new_generation_with_state-IsWellFormed b.number b.state b.handles b.profiles b.credentials
            b.policies (map some b.materials) g h;
      number = ap (λ x. x.number) i.sorted;
      state = ap (λ x. x.state) i.sorted;
      profiles = ap (λ x. x.profiles) i.sorted;
      credentials = ap (λ x. x.credentials) i.sorted;
      policies = ap (λ x. x.policies) i.sorted;
    }

-- The records of the builder that `NextBuilder` returns are those of the generation, renumbered.
pub record IsNext (g : Generation) (number : ℕ) (state : DatasetState) (b : Builder) : Type 0 where
  pub same_number : b.number ≡ number
  pub same_state : b.state ≡ state
  pub profiles : b.profiles ≡ map (rebase_profile number) g.profiles
  pub credentials : b.credentials ≡ map (rebase_credential number) g.credentials
  pub policies : b.policies ≡ map (rebase_policy number) g.policies

pub next_builder-IsNext :
    (g : Generation) (number : ℕ) (state : DatasetState) (b : Builder)
    → next_builder g number state ≡ ok b
    → IsNext g number state b
unfolding next_builder
next_builder-IsNext g number state b h =
    let (_, h1) =
      fail_if->>-eq-ok (leb number g.number || not (is_known_state state)) invalid _ h in
    let (ms, _, h2) = >>=-eq-ok (rebase_materials number g.materials) _ h1 in
    record {
      same_number = ground (arith, h2);
      same_state = ground (arith, h2);
      profiles = ground (arith, h2);
      credentials = ground (arith, h2);
      policies = ground (arith, h2);
    }

build_replaced-eq-ok :
    (r : Builder × Option Error) (g : Generation)
    → build_replaced r ≡ ok g
    → (r ≡ (r.0, none)) × (build r.0 ≡ ok g)
unfolding build_replaced
build_replaced-eq-ok (b, some e) g h = cc
build_replaced-eq-ok (b, none) g h = (refl, h)

module _ {S : Type 0} (sources : RotationSources S) (plan : RotationPlan) (reader : S)
    (g : Generation) where
  -- A successor in which one active binding has new keys.
  pub record IsRotated : Type 0 where
    pub policy : Policy
    pub profile : Profile
    pub old : List Credential
    -- The one active binding of the plan, in the current generation.
    pub bound :
        exact_active_binding plan.current plan.tenant_id plan.domain plan.profile_use
        ≡ ok (policy, profile, old)
    pub requested : List Algorithm
    pub asked : requested_algorithms plan old ≡ ok requested
    -- All algorithms of the plan, or those of the binding where the plan names none.
    pub canonical :
        canonical_algorithm_set (
          if is_empty plan.algorithms
          then sort_func compare_algorithms (map (λ c. c.algorithm) old)
          else plan.algorithms)
        ≡ ok requested
    -- Its new credentials: one for each algorithm, with selectors and handles that neither the
    -- current generation nor the history has.
    pub new : List Credential
    pub algorithms : map (λ c. c.algorithm) new ≡ requested
    pub fresh :
        All
          (λ c.
            (c.profile_id ≡ profile.id)
            × IsNew sources
                (map (λ x. x.selector) plan.current.credentials)
                (map (λ x. x.id) plan.current.handles)
                c.selector
                c.handle_id)
          new
    -- The rest of the successor: the current records, renumbered, in canonical order.
    pub credentials :
        g.credentials
        ≡ sort_func compare_credentials (
            keep
              (λ c. not (c.profile_id == profile.id))
              (map (rebase_credential plan.next_generation) plan.current.credentials)
            ++ new)
    pub profiles :
        g.profiles
        ≡ sort_func compare_profiles
            (map (rebase_profile plan.next_generation) plan.current.profiles)
    pub policies :
        g.policies
        ≡ sort_func compare_policies
            (map (rebase_policy plan.next_generation) plan.current.policies)
    pub number : g.number ≡ plan.current.number + 1
    pub state : g.state ≡ state_staging
    pub well_formed : IsWellFormed g

  next_number : admits_plan plan ≡ true → plan.next_generation ≡ plan.current.number + 1
  unfolding admits_plan
  next_number h = ground (arith, h)

  requested_algorithms-canonical :
      (cs : List Credential) (requested : List Algorithm)
      → requested_algorithms plan cs ≡ ok requested
      → canonical_algorithm_set (
          if is_empty plan.algorithms
          then sort_func compare_algorithms (map (λ c. c.algorithm) cs)
          else plan.algorithms)
        ≡ ok requested
  unfolding requested_algorithms
  requested_algorithms-canonical cs requested h =
      let set = canonical_algorithm_set (
        if is_empty plan.algorithms
        then sort_func compare_algorithms (map (λ c. c.algorithm) cs)
        else plan.algorithms) in
      let (found, e, h1) = >>=-eq-ok (or_fail set invalid) _ h in
      let current = sort_func compare_algorithms (map (λ (c : Credential). c.algorithm) cs) in
      let (_, h2) = fail_if->>-eq-ok (not (contains_every_algorithm found current)) invalid _ h1 in
      let (_, h3) =
        fail_if->>-eq-ok
          (contains found rsa_sha256
            && (ltb_ℤ plan.rsa_bits (pos min_rsa_bits)
                || (ltb_ℤ (pos max_rsa_bits) plan.rsa_bits || pos_part plan.rsa_bits % 8 != 0)))
          invalid _ h2 in
      let same : found ≡ requested = ground (arith, h3) in or_fail-eq_ok set invalid e ∙ ap ok same

  rotate_binding-IsRotated :
      (policy : Policy) (profile : Profile) (old : List Credential)
      → exact_active_binding plan.current plan.tenant_id plan.domain plan.profile_use
        ≡ ok (policy, profile, old)
      → admits_plan plan ≡ true
      → rotate_binding sources plan reader (policy, profile, old) ≡ ok g
      → IsRotated
  unfolding rotate_binding
  rotate_binding-IsRotated policy profile old bound admitted h =
      let selectors = map (λ (c : Credential). c.selector) plan.current.credentials in
      let handles = map (λ h. h.id) plan.current.handles in
      let (requested, asked, h1) = >>=-eq-ok (requested_algorithms plan old) _ h in
      let (ids, e_ids, h2) =
        >>=-eq-ok (allocate_ids sources plan requested selectors handles reader) _ h1 in
      let (keys, e_keys, h3) =
        >>=-eq-ok (make_keys sources plan profile.id policy.tenant_id requested ids.0 ids.1) _ h2 in
      let (b, e_b, h4) =
        >>=-eq-ok (next_builder plan.current plan.next_generation state_staging) _ h3 in
      let replaced = replace_profile_keys b profile.id keys.0 (map some keys.1) in
      let (e_r, e_g) = build_replaced-eq-ok replaced g h4 in
      let (n, new) = allocate_ids-IsNew sources plan requested selectors handles reader ids e_ids in
      let k =
        make_keys-fields sources plan profile.id policy.tenant_id (IsNew sources selectors handles)
          requested ids.0 ids.1 keys n new e_keys in
      let next = next_builder-IsNext plan.current plan.next_generation state_staging b e_b in
      let r =
        replace_profile_keys-IsReplaced b profile.id keys.0 (map some keys.1) replaced.0 e_r in
      let f = build-IsBuiltFrom replaced.0 g e_g in
      record {
        policy = policy;
        profile = profile;
        old = old;
        bound = bound;
        requested = requested;
        asked = asked;
        canonical = requested_algorithms-canonical old requested asked;
        new = keys.0;
        algorithms = k.0;
        fresh = k.1;
        credentials =
            f.credentials
            ∙ ap (sort_func compare_credentials) (
                r.now_credentials
                ∙ ap (λ x. keep (λ c. not (c.profile_id == profile.id)) x ++ keys.0)
                    next.credentials);
        profiles = f.profiles ∙ ap (sort_func compare_profiles) (r.same_profiles ∙ next.profiles);
        policies = f.policies ∙ ap (sort_func compare_policies) (r.same_policies ∙ next.policies);
        number = f.number ∙ r.same_number ∙ next.same_number ∙ next_number admitted;
        state = f.state ∙ r.same_state ∙ next.same_state;
        well_formed = f.well_formed;
      }

  -- A generation that `PlanRotation` returns is the staged successor of the current one, complete and
  -- consistent. The one active binding of the plan has one new credential for each requested algorithm,
  -- with selectors and handles that neither the current generation nor the history has; the profiles,
  -- the policies and the credentials of other profiles are those of the current one, renumbered.
  pub plan_rotation-IsRotated : plan_rotation sources plan reader ≡ ok g → IsRotated
  unfolding plan_rotation
  plan_rotation-IsRotated h =
      let (admitted, h1) = fail_if->>-eq-ok (not (admits_plan plan)) invalid _ h in
      let (binding, e, h2) =
        >>=-eq-ok (exact_active_binding plan.current plan.tenant_id plan.domain plan.profile_use) _
          h1 in
      rotate_binding-IsRotated binding.0 binding.1 binding.2 e (ground (arith, admitted)) h2
