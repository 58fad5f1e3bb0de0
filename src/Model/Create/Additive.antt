-- ===== src/Model/Create/Additive.antt =====
-- What `ValidateCreateCandidateIntent` of `internal/dkim2model/create.go` proves of a candidate.
use opendkim_manage_go.Prelude.{
  ◌+◌, ◌≡◌, ap, subst, ◌∙◌, true, not, List, [], ◌++◌, map, ltb, all, All, ok, or_fail,
  or_fail-eq_ok, >>=-eq-ok, fail_if->>-eq-ok, nat_eq, text_eq, arith,
}
use opendkim_manage_go.Prelude.Sort.{sort_func}
use opendkim_manage_go.Model.Error.{invalid}
use opendkim_manage_go.Model.Crypto.{Codecs}
use opendkim_manage_go.Model.Records.{rebase_profile, rebase_credential, rebase_policy}
use opendkim_manage_go.Model.Generation.{Generation}
use opendkim_manage_go.Model.Generation.Order.{
  compare_profiles, compare_credentials, compare_policies,
}
use opendkim_manage_go.Model.Generation.WellFormed.{IsWellFormed, ok_of_is_err}
use opendkim_manage_go.Model.Generation.Reads.{equivalent_generations}
use opendkim_manage_go.Model.Builder.{next_builder, build}
use opendkim_manage_go.Model.Rotation.Planned.{build-IsBuiltFrom, next_builder-IsNext}
use opendkim_manage_go.Model.Lifecycle.Lineage.{
  Clock, LineageFact, LineageHistory, clone_history, validate_generation_lineage_projection,
}
use opendkim_manage_go.Model.Lifecycle.Lineage.Fresh.{clone_history-same}
use opendkim_manage_go.Model.Campaign.{BindingIdentity}
use opendkim_manage_go.Model.Create.{
  CreateCandidateIntent, validate_create, append_all, refuses_create,
  validate_create_candidate_intent,
}
use opendkim_manage_go.Model.Create.Additions.{
  Addition, all_credentials, IsNew, append_all-IsAddedAll,
}

module _ (codecs : Codecs) (i : CreateCandidateIntent) (source candidate : Generation)
    (facts : List LineageFact) where
  -- A successor that has the source's records, renumbered, and one inactive binding for each domain.
  pub record IsCreated (bindings : List BindingIdentity) : Type 0 where
    pub next : candidate.number ≡ source.number + 1
    pub valid_intent : validate_create i ≡ ok tt
    pub listed :
        bindings
        ≡ map
            (λ d. record { tenant = i.tenant_id; domain = d; profile_use = i.profile_use })
            i.domains
    pub additions : List Addition
    pub for_domains : map (λ a. a.domain) additions ≡ i.domains
    pub new : All (IsNew codecs i source candidate facts) additions
    -- The candidate agrees in every record and key with this generation.
    pub expected : Generation
    pub equivalent : equivalent_generations expected candidate ≡ true
    pub well_formed : IsWellFormed expected
    pub profiles :
        expected.profiles
        ≡ sort_func compare_profiles (
            map (rebase_profile candidate.number) source.profiles ++ map (λ a. a.profile) additions)
    pub credentials :
        expected.credentials
        ≡ sort_func compare_credentials (
            map (rebase_credential candidate.number) source.credentials
            ++ all_credentials additions)
    pub policies :
        expected.policies
        ≡ sort_func compare_policies
            (map (rebase_policy candidate.number) source.policies ++ map (λ a. a.policy) additions)

-- A candidate that `ValidateCreateCandidateIntent` accepts is equivalent to a complete and consistent
-- generation of the next number that has all profiles, credentials and policies of the source,
-- renumbered, and for each requested domain, in order, one new disabled profile with a disabled policy
-- whose rollout is off. No policy of the source has one of these bindings; the credentials of a new
-- profile are as many as the requested algorithms, each of a requested algorithm and size, and no fact
-- of an earlier generation shares a selector, a handle, or the public key of an algorithm with them.
pub validate_create_candidate_intent-IsCreated :
    (clock : Clock) (codecs : Codecs) (source candidate : Generation) (history : LineageHistory)
    (i : CreateCandidateIntent) (bindings : List BindingIdentity)
    → validate_create_candidate_intent clock codecs source candidate history i ≡ ok bindings
    → IsCreated codecs i source candidate history.facts bindings
unfolding validate_create_candidate_intent refuses_create
validate_create_candidate_intent-IsCreated clock codecs source candidate history i bindings h =
    let (n, h1) = fail_if->>-eq-ok (refuses_create source candidate history i) invalid _ h in
    let (lineage, e1, h2) = >>=-eq-ok (or_fail (clone_history clock codecs history) invalid) _ h1 in
    let before = validate_generation_lineage_projection source lineage source.number in
    let (_, _, h3) = >>=-eq-ok (or_fail before invalid) _ h2 in
    let after = validate_generation_lineage_projection candidate lineage candidate.number in
    let (_, _, h4) = >>=-eq-ok (or_fail after invalid) _ h3 in
    let (_, h5) =
      fail_if->>-eq-ok (not (all (λ f. not (ltb candidate.number f.generation)) lineage.facts))
        invalid _ h4 in
    let first = next_builder source candidate.number candidate.state in
    let (b, e2, h6) = >>=-eq-ok (or_fail first invalid) _ h5 in
    let (last, e3, h7) =
      >>=-eq-ok (append_all codecs i source candidate lineage.facts b [] i.domains) _ h6 in
    let (expected, e4, h8) = >>=-eq-ok (or_fail (build last) invalid) _ h7 in
    let (q, h9) = fail_if->>-eq-ok (not (equivalent_generations expected candidate)) invalid _ h8 in
    let same =
      clone_history-same clock codecs history lineage
        (or_fail-eq_ok (clone_history clock codecs history) invalid e1) in
    let nb =
      next_builder-IsNext source candidate.number candidate.state b
        (or_fail-eq_ok first invalid e2) in
    let x = append_all-IsAddedAll codecs i source candidate lineage.facts b [] i.domains last e3 in
    let f = build-IsBuiltFrom last expected (or_fail-eq_ok (build last) invalid e4) in
    record {
      next = ground (arith, n);
      valid_intent = ok_of_is_err (validate_create i) (ground (arith, n));
      listed = ground (arith, h9);
      additions = x.additions;
      for_domains = x.for_domains;
      new =
          subst (λ fs. All (IsNew codecs i source candidate fs) x.additions)
            (ap (λ t. t.facts) same) x.new;
      expected = expected;
      equivalent = ground (arith, q);
      well_formed = f.well_formed;
      profiles =
          f.profiles
          ∙ ap (sort_func compare_profiles)
              (x.profiles ∙ ap (λ t. t ++ map (λ a. a.profile) x.additions) nb.profiles);
      credentials =
          f.credentials
          ∙ ap (sort_func compare_credentials)
              (x.credentials ∙ ap (λ t. t ++ all_credentials x.additions) nb.credentials);
      policies =
          f.policies
          ∙ ap (sort_func compare_policies)
              (x.policies ∙ ap (λ t. t ++ map (λ a. a.policy) x.additions) nb.policies);
    }
