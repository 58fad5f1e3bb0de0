-- ===== src/Model/Campaign.antt =====
-- The bindings that a campaign changes: `ActiveBindings`, `ChangedActiveBindings` and
-- `ValidateExtensionCandidate` of `internal/dkim2model/campaign.go`. Nil generations are not
-- modelled; a loop over a Go map visits the entries in the order of their first insertion.
pub mod Active
pub mod Changed
pub mod Extended
use opendkim_manage_go.Prelude.{
  ℕ, ◌+◌, Bool, true, false, not, ◌&&◌, ◌||◌, List, [], ◌∷◌, ◌++◌, map, Option, none, some, Text,
  length, is_empty, ltb, contains, all, keep, Result, ok, err, fail_if, or_fail, ◌>>=◌, ◌>>◌, ◌==◌,
  ◌!=◌, nat_eq, text_eq, if◌then◌else◌,
}
use opendkim_manage_go.Prelude.Int.{ℤ, pos, leb_ℤ, ltb_ℤ}
use opendkim_manage_go.Prelude.Maps.{get, store_all}
use opendkim_manage_go.Prelude.Sort.{sort_func}
use opendkim_manage_go.Model.Error.{Error, invalid}
use opendkim_manage_go.Model.Values.{
  Algorithm, ProfileUse, status_active, state_staging, state_committed, max_credentials_per_profile,
  supports_native_key_custody,
}
use opendkim_manage_go.Model.AlgorithmSet.{canonical_algorithm_set}
use opendkim_manage_go.Model.KeyMaterial.{
  KeyMaterial, material_tenant, material_domain, material_use, material_handle, material_algorithm,
  material_private,
}
use opendkim_manage_go.Model.Records.{Profile, Credential, Policy, validity_window}
use opendkim_manage_go.Model.Generation.{Generation, profile_by_id, of_profile}
use opendkim_manage_go.Model.Generation.Order.{strings_compare}
use opendkim_manage_go.Model.Generation.Reads.{only_match, all_same, key_material_by_handle}
use opendkim_manage_go.Model.Rotation.{max_number, exact_active_binding}
use opendkim_manage_go.Model.Lifecycle.Logical.{same_windows}
use opendkim_manage_go.Model.Lifecycle.Difference.{is_found, validate_extended_credentials}

pub record BindingIdentity : Type 0 where
  pub tenant : Text
  pub domain : Text
  pub profile_use : ProfileUse

-- `tenant + "\x00" + domain + "\x00" + string(use)`
unfoldable pub identity_key : BindingIdentity → Text
identity_key b = b.tenant ++ (0 ∷ (b.domain ++ (0 ∷ b.profile_use)))

abbrev pub identity_of : Policy → BindingIdentity
identity_of p = record { tenant = p.tenant_id; domain = p.domain; profile_use = p.profile_use }

-- The order of the two calls of `slices.SortFunc`.
unfoldable pub compare_identities : BindingIdentity → BindingIdentity → ℤ
compare_identities a b = strings_compare (identity_key a) (identity_key b)

-- The test of the loop of `ActiveBindings` on an active policy and its profile.
unfoldable pub is_usable : Option Profile → Policy → Bool
is_usable none policy = false
is_usable (some profile) policy = not (
    profile.status != status_active
    || (profile.domain != policy.domain || not (supports_native_key_custody policy.profile_use)))

-- The loop of `ActiveBindings`, with the keys `seen` and the bindings found.
unfoldable pub active_loop :
    Generation
    → ℤ
    → List Text
    → List BindingIdentity
    → List Policy
    → Result Error (List BindingIdentity)
active_loop g maximum seen found [] = ok found
active_loop g maximum seen found (policy ∷ rest) =
    let key = identity_key (identity_of policy) in
    let skipped = active_loop g maximum seen found rest in
    let taken = active_loop g maximum (key ∷ seen) (found ++ (identity_of policy ∷ [])) rest in
    if policy.status != status_active
    then skipped
    else if not (is_usable (profile_by_id g.profiles policy.profile_id) policy)
    then err invalid
    else if contains seen key
    then err invalid
    else if ltb_ℤ maximum (pos (length found + 1))
    then err invalid
    else taken

-- `ActiveBindings`
unfoldable pub active_bindings : Generation → ℤ → Result Error (List BindingIdentity)
active_bindings g maximum = do
  fail_if (g.state != state_committed || leb_ℤ maximum (pos 0)) invalid
  bindings ← active_loop g maximum [] [] g.policies
  fail_if (length bindings == 0) invalid
  ok (sort_func compare_identities bindings)

-- `sameProfileFacts`
unfoldable pub same_profile_facts : Profile → Profile → Bool
same_profile_facts a b =
    not (a.id != b.id || (a.domain != b.domain || a.status != b.status))
    && same_windows (validity_window a) (validity_window b)

-- `samePolicyFacts`
unfoldable pub same_policy_facts : Policy → Policy → Bool
same_policy_facts a b =
    a.tenant_id == b.tenant_id
    && (a.domain == b.domain
        && (a.profile_use == b.profile_use
            && (a.profile_id == b.profile_id
                && (a.status == b.status
                    && (a.rollout == b.rollout
                        && (a.compatibility == b.compatibility
                            && a.feedback_route_id == b.feedback_route_id))))))

-- `compareCredentialAlgorithm`
unfoldable pub compare_credential_algorithm : Credential → Credential → ℤ
compare_credential_algorithm a b = strings_compare a.algorithm b.algorithm

-- The part of `sameCredentialAndMaterial` behind the two lookups.
unfoldable pub same_materials : Option KeyMaterial → Option KeyMaterial → Bool
same_materials (some lm) (some rm) =
    material_tenant lm == material_tenant rm
    && (material_domain lm == material_domain rm
        && (material_use lm == material_use rm
            && (material_handle lm == material_handle rm
                && (material_algorithm lm == material_algorithm rm
                    && material_private lm == material_private rm))))
same_materials _ _ = false

-- `sameCredentialAndMaterial`
unfoldable pub same_credential_and_material :
    Generation → Credential → Generation → Credential → Bool
same_credential_and_material left lc right rc =
    not (
      lc.profile_id != rc.profile_id
      || (lc.selector != rc.selector
          || (lc.algorithm != rc.algorithm
              || (lc.handle_id != rc.handle_id || lc.public_spki != rc.public_spki))))
    && same_materials (key_material_by_handle left lc.handle_id)
        (key_material_by_handle right rc.handle_id)

-- The loop of `campaignProfileUnchanged` over two sorted slices of equal length.
unfoldable pub unchanged_loop :
    Generation → Generation → List Credential → List Credential → Result Error Bool
unchanged_loop source candidate (s ∷ ss) (c ∷ cs) = do
  fail_if (s.algorithm != c.algorithm) invalid
  rest ← unchanged_loop source candidate ss cs
  ok (same_credential_and_material source s candidate c && rest)
unchanged_loop source candidate _ _ = ok true

abbrev pub by_algorithm : List Credential → List (Algorithm × Credential)
by_algorithm cs = store_all (λ _. true) (λ c. c.algorithm) (λ c. c) [] cs

-- The part of `campaignProfileUnchanged` on an extended set.
unfoldable pub extended_profile :
    Generation → List Credential → Generation → List Credential → Result Error Bool
extended_profile source ss candidate cs = do
  let source_by_algorithm = by_algorithm ss
  let candidate_by_algorithm = by_algorithm cs
  fail_if (length source_by_algorithm != length ss || length candidate_by_algorithm != length cs)
      invalid
  fail_if (not (all (λ e. is_found (get e.0 candidate_by_algorithm)) source_by_algorithm)) invalid
  _ ← validate_extended_credentials source candidate source_by_algorithm candidate_by_algorithm
  ok false

-- `campaignProfileUnchanged`
unfoldable pub campaign_profile_unchanged :
    Generation → List Credential → Generation → List Credential → Result Error Bool
campaign_profile_unchanged source source_credentials candidate candidate_credentials = do
  fail_if
      (ltb (length candidate_credentials) (length source_credentials)
        || ltb max_credentials_per_profile (length candidate_credentials))
      invalid
  let ss = sort_func compare_credential_algorithm source_credentials
  let cs = sort_func compare_credential_algorithm candidate_credentials
  if length cs == length ss
      then unchanged_loop source candidate ss cs
      else extended_profile source ss candidate cs

-- The test of the two inner loops of `ChangedActiveBindings`.
unfoldable pub is_disjoint : List Credential → List Credential → Bool
is_disjoint ss cs =
    all
      (λ s.
        all
          (λ c. not (
            s.selector == c.selector
            || (s.handle_id == c.handle_id || s.public_spki == c.public_spki)))
          cs)
      ss

-- The part of a round of `ChangedActiveBindings` for a changed profile.
unfoldable pub changed_identity :
    Profile → Option Policy → List Credential → List Credential → Result Error BindingIdentity
changed_identity profile none ss cs = err invalid
changed_identity profile (some policy) ss cs = do
  fail_if
      (policy.status != status_active
        || (profile.status != status_active
            || not (supports_native_key_custody policy.profile_use)))
      invalid
  fail_if (not (is_disjoint ss cs)) invalid
  ok (identity_of policy)

-- The loop of `ChangedActiveBindings` over the source's profiles.
unfoldable pub changed_loop :
    Generation
    → Generation
    → ℤ
    → List BindingIdentity
    → List Profile
    → Result Error (List BindingIdentity)
changed_loop source candidate maximum changed [] = ok changed
changed_loop source candidate maximum changed (profile ∷ rest) = do
  fail_if (not (is_found (profile_by_id candidate.profiles profile.id))) invalid
  let ss = of_profile profile.id source.credentials
  let cs = of_profile profile.id candidate.credentials
  unchanged ← campaign_profile_unchanged source ss candidate cs
  let skipped = changed_loop source candidate maximum changed rest
  if unchanged then skipped else (do
    one ←
        changed_identity profile (only_match (λ p. p.profile_id == profile.id) source.policies) ss
          cs
    fail_if (ltb_ℤ maximum (pos (length changed + 1))) invalid
    changed_loop source candidate maximum (changed ++ (one ∷ [])) rest)

-- The checks of `ChangedActiveBindings` before that loop.
unfoldable pub is_successor : Generation → Generation → ℤ → Bool
is_successor source candidate maximum =
    not (
      source.number == max_number
      || (candidate.number != source.number + 1
          || (leb_ℤ maximum (pos 0)
              || (candidate.state != state_staging && candidate.state != state_committed
                  || (length source.profiles != length candidate.profiles
                      || length source.policies != length candidate.policies)))))
    && (all_same same_profile_facts source.profiles candidate.profiles
        && all_same same_policy_facts source.policies candidate.policies)

-- `ChangedActiveBindings`
unfoldable pub changed_active_bindings :
    Generation → Generation → ℤ → Result Error (List BindingIdentity)
changed_active_bindings source candidate maximum = do
  fail_if (not (is_successor source candidate maximum)) invalid
  changed ← changed_loop source candidate maximum [] source.profiles
  ok (sort_func compare_identities changed)

-- `binding != active[index]`, negated.
unfoldable pub same_identities : BindingIdentity → BindingIdentity → Bool
same_identities a b =
    a.tenant == b.tenant && (a.domain == b.domain && a.profile_use == b.profile_use)

-- The last checks of a round of `ValidateExtensionCandidate`.
unfoldable pub carries_set : List Algorithm → List Credential → Bool
carries_set requested credentials =
    not (length credentials != length requested)
    && all (λ c. contains requested c.algorithm) credentials

-- The loop of `ValidateExtensionCandidate` over two slices of equal length.
unfoldable pub extension_loop :
    Generation
    → List Algorithm
    → List BindingIdentity
    → List BindingIdentity
    → Result Error (Unit {0})
extension_loop candidate requested (b ∷ bs) (a ∷ as') = do
  fail_if (not (same_identities b a)) invalid
  bound ← or_fail (exact_active_binding candidate b.tenant b.domain b.profile_use) invalid
  fail_if (not (carries_set requested bound.2)) invalid
  extension_loop candidate requested bs as'
extension_loop candidate requested _ _ = ok tt

-- `ValidateExtensionCandidate`
unfoldable pub validate_extension_candidate :
    Generation → Generation → List Algorithm → ℤ → Result Error (Unit {0})
validate_extension_candidate source candidate algorithms maximum = do
  requested ← canonical_algorithm_set algorithms
  active ← active_bindings source maximum
  changed ← or_fail (changed_active_bindings source candidate maximum) invalid
  fail_if (length changed != length active) invalid
  extension_loop candidate requested changed active
