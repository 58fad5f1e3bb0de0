-- ===== src/Model/Campaign/Extended.antt =====
-- What `ValidateExtensionCandidate` of `internal/dkim2model/campaign.go` proves of a candidate.
use opendkim_manage_go.Prelude.{
  ◌≡◌, refl, ap₂, ◌∙◌, subst, true, not, List, [], ◌∷◌, map, length, length-map, contains, distinct,
  all→All, All, All_of_contains, ok, or_fail, or_fail-eq_ok, >>=-eq-ok, fail_if->>-eq-ok, ◌!=◌,
  nat_eq, text_eq, eq_of_beq, arith,
}
use opendkim_manage_go.Prelude.Int.{ℤ}
use opendkim_manage_go.Prelude.Lists.Counting.{contains_of_full, All-map_list}
use opendkim_manage_go.Model.Error.{invalid}
use opendkim_manage_go.Model.Values.{Algorithm}
use opendkim_manage_go.Model.AlgorithmSet.{canonical_algorithm_set}
use opendkim_manage_go.Model.Records.{Profile, Credential, Policy}
use opendkim_manage_go.Model.Generation.{Generation, validate}
use opendkim_manage_go.Model.Generation.WellFormed.{IsWellFormed}
use opendkim_manage_go.Model.Generation.Validate.{validate-IsWellFormed}
use opendkim_manage_go.Model.Rotation.{exact_active_binding}
use opendkim_manage_go.Model.Rotation.Exact.{exact_active_binding-IsBound}
use opendkim_manage_go.Model.Campaign.{
  BindingIdentity, same_identities, carries_set, extension_loop, active_bindings,
  changed_active_bindings, validate_extension_candidate,
}
use opendkim_manage_go.Model.Campaign.Changed.{IsCampaign, changed_active_bindings-IsCampaign}

same_identities-eq : (a b : BindingIdentity) → same_identities a b ≡ true → a ≡ b
unfolding same_identities
same_identities-eq a b h =
    let e1 = eq_of_beq a.tenant b.tenant (ground (arith, h)) in
    let e2 = eq_of_beq a.domain b.domain (ground (arith, h)) in
    let e3 = eq_of_beq a.profile_use b.profile_use (ground (arith, h)) in ground (arith, e1, e2, e3)

module _ (candidate : Generation) (w : IsWellFormed candidate) (requested : List Algorithm) where
  -- The binding's active profile in the candidate has one credential for each requested algorithm and
  -- no other.
  pub record CarriesSet (b : BindingIdentity) : Type 0 where
    pub bound : Policy × Profile × List Credential
    pub exact : exact_active_binding candidate b.tenant b.domain b.profile_use ≡ ok bound
    pub only : All (λ c. contains requested c.algorithm ≡ true) bound.2
    pub count : length bound.2 ≡ length requested
    pub every : All (λ a. contains (map (λ c. c.algorithm) bound.2) a ≡ true) requested

  carries_set-CarriesSet :
      (b : BindingIdentity) (bound : Policy × Profile × List Credential)
      → exact_active_binding candidate b.tenant b.domain b.profile_use ≡ ok bound
      → carries_set requested bound.2 ≡ true
      → CarriesSet b
  unfolding carries_set
  carries_set-CarriesSet b bound e h =
      let (_, _, _, its) =
        exact_active_binding-IsBound candidate b.tenant b.domain b.profile_use bound e in
      let algorithms = map (λ (c : Credential). c.algorithm) bound.2 in
      let own : distinct algorithms ≡ true =
        rw its.all_credentials (w.unique_algorithms bound.1.id) in
      let inside = all→All (λ c. contains requested c.algorithm) bound.2 (ground (arith, h)) in
      let count : length bound.2 ≡ length requested = ground (arith, h) in
      record {
        bound = bound;
        exact = e;
        only = inside;
        count = count;
        every =
            All_of_contains (λ a. contains algorithms a ≡ true) requested
              (λ a m.
                contains_of_full algorithms requested own
                  (All-map_list (λ a. contains requested a ≡ true) (λ c. c.algorithm) bound.2
                    inside)
                  (length-map (λ (c : Credential). c.algorithm) bound.2 ∙ count) a m);
      }

  extension_loop-all :
      (bs active : List BindingIdentity)
      → length bs ≡ length active
      → extension_loop candidate requested bs active ≡ ok tt
      → (bs ≡ active) × All CarriesSet active
  unfolding extension_loop
  extension_loop-all [] [] n h = (refl, tt)
  extension_loop-all [] (a ∷ active) n h = absurd (omega (arith, n))
  extension_loop-all (b ∷ bs) [] n h = absurd (omega (arith, n))
  extension_loop-all (b ∷ bs) (a ∷ active) n h =
      let (s, h1) = fail_if->>-eq-ok (not (same_identities b a)) invalid _ h in
      let found = exact_active_binding candidate b.tenant b.domain b.profile_use in
      let (bound, e, h2) = >>=-eq-ok (or_fail found invalid) _ h1 in
      let (c, h3) = fail_if->>-eq-ok (not (carries_set requested bound.2)) invalid _ h2 in
      let (same, rest) = extension_loop-all bs active (omega (arith, n)) h3 in
      let one = same_identities-eq b a (ground (arith, s)) in
      let here =
        carries_set-CarriesSet b bound (or_fail-eq_ok found invalid e) (ground (arith, c)) in
      (ap₂ (λ x y. x ∷ y) one same, (subst CarriesSet one here, rest))

module _ (source candidate : Generation) (algorithms : List Algorithm) (maximum : ℤ)
    (valid : validate candidate ≡ true) where
  -- A campaign over all active bindings that gives each the requested set.
  pub record IsExtension : Type 0 where
    pub requested : List Algorithm
    pub canonical : canonical_algorithm_set algorithms ≡ ok requested
    pub active : List BindingIdentity
    pub all_active : active_bindings source maximum ≡ ok active
    pub campaign : IsCampaign source candidate active
    pub carried :
        All (CarriesSet candidate (validate-IsWellFormed candidate valid) requested) active

  -- An extension candidate that `ValidateExtensionCandidate` accepts, itself accepted by `validate`,
  -- replaces the keys of just the active bindings of the source, all of them, and gives each one
  -- credential for every requested algorithm and no other.
  pub validate_extension_candidate-IsExtension :
      validate_extension_candidate source candidate algorithms maximum ≡ ok tt → IsExtension
  unfolding validate_extension_candidate
  validate_extension_candidate-IsExtension h =
      let w = validate-IsWellFormed candidate valid in
      let (requested, canonical, h1) = >>=-eq-ok (canonical_algorithm_set algorithms) _ h in
      let (active, all_active, h2) = >>=-eq-ok (active_bindings source maximum) _ h1 in
      let listed = changed_active_bindings source candidate maximum in
      let (changed, e, h3) = >>=-eq-ok (or_fail listed invalid) _ h2 in
      let (n, h4) = fail_if->>-eq-ok (length changed != length active) invalid _ h3 in
      let (same, carried) =
        extension_loop-all candidate w requested changed active (ground (arith, n)) h4 in
      record {
        requested = requested;
        canonical = canonical;
        active = active;
        all_active = all_active;
        campaign = subst (IsCampaign source candidate) same (
            changed_active_bindings-IsCampaign source candidate maximum changed
              (or_fail-eq_ok listed invalid e));
        carried = carried;
      }
