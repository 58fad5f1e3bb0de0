-- ===== src/Model/Create.antt =====
-- `CreateCandidateIntent` and `ValidateCreateCandidateIntent` of `internal/dkim2model/create.go`. Nil
-- generations are not modelled; the key codecs and the `time` package are parameters.
pub mod Additions
pub mod Additive
use opendkim_manage_go.Prelude.{
  ℕ, ◌+◌, ◌%◌, Bool, true, false, not, ◌&&◌, ◌||◌, List, [], ◌∷◌, ◌++◌, map, Option, none, some,
  Text, length, is_empty, ltb, contains, all, Result, ok, err, is_err, or_fail, fail_if, ◌>>=◌,
  ◌>>◌, ◌==◌, ◌!=◌, nat_eq, text_eq, if◌then◌else◌,
}
use opendkim_manage_go.Prelude.Int.{ℤ, pos, leb_ℤ, ltb_ℤ, pos_part}
use opendkim_manage_go.Model.Error.{Error, invalid}
use opendkim_manage_go.Model.Instant.{zero_time}
use opendkim_manage_go.Model.Names.{validate_identifier, validate_canonical_dns_name}
use opendkim_manage_go.Model.Values.{
  Algorithm, ProfileUse, rsa_sha256, is_known_algorithm, supports_native_key_custody,
  status_disabled, rollout_off, compatibility_strict, state_staging, state_committed,
  max_credentials_per_profile,
}
use opendkim_manage_go.Model.Crypto.{PublicKey, Codecs, bit_len, min_rsa_bits, max_rsa_bits}
use opendkim_manage_go.Model.KeyMaterial.{KeyMaterial}
use opendkim_manage_go.Model.Records.{Profile, Credential, Policy, new_profile, new_policy}
use opendkim_manage_go.Model.Generation.{Generation, profile_by_id, of_profile}
use opendkim_manage_go.Model.Generation.Reads.{key_material_by_handle, equivalent_generations}
use opendkim_manage_go.Model.Builder.{Builder, next_builder, add_profile_with_keys, build}
use opendkim_manage_go.Model.Rotation.{max_number}
use opendkim_manage_go.Model.Lifecycle.Difference.{is_found}
use opendkim_manage_go.Model.Lifecycle.Lineage.{
  Clock, LineageFact, LineageHistory, clone_history, validate_generation_lineage_projection,
  reuses_fact,
}
use opendkim_manage_go.Model.Campaign.{BindingIdentity}

pub record CreateCandidateIntent : Type 0 where
  pub tenant_id : Text
  pub domains : List Text
  pub profile_use : ProfileUse
  pub algorithms : List Algorithm
  pub rsa_bits : ℤ
  pub selectors : List Text
  pub feedback_route_id : Text
  pub maximum_bindings : ℤ

-- The loop of `validate` over the domains, with `seen`.
unfoldable pub admits_domains : List Text → List Text → Bool
admits_domains seen [] = true
admits_domains seen (d ∷ rest) =
    not (is_err (validate_canonical_dns_name d))
    && (not (contains seen d) && admits_domains (d ∷ seen) rest)

-- The loop of `validate` over the algorithms, with those before.
unfoldable pub admits_algorithms : ℤ → List Algorithm → List Algorithm → Bool
admits_algorithms bits seen [] = true
admits_algorithms bits seen (a ∷ rest) =
    not (
      not (is_known_algorithm a)
      || (contains seen a
          || (a == rsa_sha256
              && (ltb_ℤ bits (pos min_rsa_bits)
                  || (ltb_ℤ (pos max_rsa_bits) bits || pos_part bits % 8 != 0)))))
    && admits_algorithms bits (a ∷ seen) rest

-- `CreateCandidateIntent.validate`
unfoldable pub validate_create : CreateCandidateIntent → Result Error (Unit {0})
validate_create i = do
  fail_if
      (is_err (validate_identifier i.tenant_id)
        || (not (supports_native_key_custody i.profile_use)
            || (leb_ℤ i.maximum_bindings (pos 0)
                || (length i.domains == 0
                    || (ltb_ℤ i.maximum_bindings (pos (length i.domains))
                        || (length i.algorithms == 0
                            || (ltb max_credentials_per_profile (length i.algorithms)
                                || (not (is_empty i.selectors)
                                    && (length i.domains != 1
                                        || length i.selectors != length i.algorithms)))))))))
      invalid
  fail_if (not (admits_domains [] i.domains)) invalid
  fail_if (not (admits_algorithms i.rsa_bits [] i.algorithms)) invalid
  fail_if (not (all (λ s. not (is_err (validate_canonical_dns_name s))) i.selectors)) invalid

-- `policy.TenantID() == i.TenantID && …`
unfoldable pub names_binding : CreateCandidateIntent → Text → Policy → Bool
names_binding i domain p =
    p.tenant_id == i.tenant_id && (p.domain == domain && p.profile_use == i.profile_use)

-- The loop of `appendStoredBinding` over the candidate's policies, with `profileID`.
unfoldable pub stored_profile :
    CreateCandidateIntent → Text → Text → List Policy → Result Error Text
stored_profile i domain found [] = ok found
stored_profile i domain found (p ∷ rest) =
    let taken = stored_profile i domain p.profile_id rest in
    let skipped = stored_profile i domain found rest in
    if names_binding i domain p
    then (if not (is_empty found) then err invalid else taken)
    else skipped

-- `i.Selectors[slices.Index(i.Algorithms, algorithm)] == selector`, of two slices of equal length.
unfoldable pub selects : List Algorithm → List Text → Algorithm → Text → Bool
selects (a ∷ algorithms) (s ∷ selectors) algorithm selector =
    let rest = selects algorithms selectors algorithm selector in
    if a == algorithm then s == selector else rest
selects _ _ algorithm selector = false

-- The modulus of `createCredentialSizeMatches`.
unfoldable pub has_bits : Option PublicKey → ℤ → Bool
has_bits (some (PublicKey.rsa_public modulus exponent)) bits =
    leb_ℤ (pos (bit_len modulus)) bits && leb_ℤ bits (pos (bit_len modulus))
has_bits _ bits = false

-- `createCredentialSizeMatches`
unfoldable pub create_credential_size_matches : Codecs → Credential → ℤ → Bool
create_credential_size_matches codecs c bits =
    c.algorithm != rsa_sha256 || has_bits (codecs.parse_pkix c.public_spki) bits

-- `string(credential.Algorithm()) + "\x00" + string(credential.publicSPKI)`
unfoldable pub key_identity : Credential → Text
key_identity c = c.algorithm ++ (0 ∷ c.public_spki)

module _ (codecs : Codecs) (i : CreateCandidateIntent) (source candidate : Generation)
    (facts : List LineageFact) where
  -- The checks of a round of the loop over the stored credentials.
  unfoldable pub admits_stored : List Text → Credential → Bool
  admits_stored allocated c =
      contains i.algorithms c.algorithm
      && (not (
            not (is_empty i.selectors)
            && not (selects i.algorithms i.selectors c.algorithm c.selector))
          && (create_credential_size_matches codecs c i.rsa_bits
              && (not (contains allocated (key_identity c))
                  && all (λ f. not (ltb f.generation candidate.number) || not (reuses_fact c f))
                      facts)))

  -- The loop over the stored credentials: their materials, and `allocatedPublicKeys`.
  unfoldable pub stored_materials :
      List Text → List Credential → Result Error (List (Option KeyMaterial) × List Text)
  stored_materials allocated [] = ok ([], allocated)
  stored_materials allocated (c ∷ rest) = do
    fail_if (not (admits_stored allocated c)) invalid
    let material = key_material_by_handle candidate c.handle_id
    fail_if (not (is_found material)) invalid
    others ← stored_materials (key_identity c ∷ allocated) rest
    ok (material ∷ others.0, others.1)

  -- `return builder.AddProfileWithKeys(…)`, and the keys allocated by then.
  unfoldable pub added : Builder × Option Error → List Text → Result Error (Builder × List Text)
  added (b, none) allocated = ok (b, allocated)
  added (b, some e) allocated = err e

  -- `appendStoredBinding`
  unfoldable pub append_stored_binding :
      Builder → Text → List Text → Result Error (Builder × List Text)
  append_stored_binding builder domain allocated = do
    fail_if (not (all (λ p. not (names_binding i domain p)) source.policies)) invalid
    id ← stored_profile i domain [] candidate.policies
    fail_if (is_empty id) invalid
    fail_if (is_found (profile_by_id source.profiles id)) invalid
    profile ←
        or_fail (new_profile candidate.number id domain status_disabled zero_time zero_time) invalid
    policy ←
        or_fail
          (new_policy candidate.number i.tenant_id domain i.profile_use id status_disabled
            rollout_off compatibility_strict i.feedback_route_id)
          invalid
    let credentials = of_profile id candidate.credentials
    fail_if (length credentials != length i.algorithms) invalid
    materials ← stored_materials allocated credentials
    added (add_profile_with_keys builder profile credentials policy materials.0) materials.1

  -- The loop of `ValidateCreateCandidateIntent` over the domains.
  unfoldable pub append_all : Builder → List Text → List Text → Result Error Builder
  append_all builder allocated [] = ok builder
  append_all builder allocated (domain ∷ rest) = do
    one ← or_fail (append_stored_binding builder domain allocated) invalid
    append_all one.0 one.1 rest

-- The first test of `ValidateCreateCandidateIntent`.
unfoldable pub refuses_create :
    Generation → Generation → LineageHistory → CreateCandidateIntent → Bool
refuses_create source candidate history i =
    source.state != state_committed
    || (source.number == max_number
        || (candidate.number != source.number + 1
            || (candidate.state != state_staging && candidate.state != state_committed
                || (not history.is_whole
                    || (is_err (validate_create i)
                        || (length candidate.profiles != length source.profiles + length i.domains
                            || length candidate.policies
                              != length source.policies + length i.domains))))))

-- `ValidateCreateCandidateIntent`
unfoldable pub validate_create_candidate_intent :
    Clock
    → Codecs
    → Generation
    → Generation
    → LineageHistory
    → CreateCandidateIntent
    → Result Error (List BindingIdentity)
validate_create_candidate_intent clock codecs source candidate history i = do
  fail_if (refuses_create source candidate history i) invalid
  lineage ← or_fail (clone_history clock codecs history) invalid
  _ ← or_fail (validate_generation_lineage_projection source lineage source.number) invalid
  _ ← or_fail (validate_generation_lineage_projection candidate lineage candidate.number) invalid
  fail_if (not (all (λ f. not (ltb candidate.number f.generation)) lineage.facts)) invalid
  builder ← or_fail (next_builder source candidate.number candidate.state) invalid
  changed ← append_all codecs i source candidate lineage.facts builder [] i.domains
  expected ← or_fail (build changed) invalid
  fail_if (not (equivalent_generations expected candidate)) invalid
  ok (map (λ d. record { tenant = i.tenant_id; domain = d; profile_use = i.profile_use }) i.domains)
