-- ===== src/Tests/Lifecycle.antt =====
-- The theorems on `internal/dkim2model/lifecycle.go` at concrete inputs: two generations of one
-- Ed25519 key each, the later of which has another key.
use opendkim_manage_go.Prelude.{
  ℕ, ◌≡◌, ◌↔◌, refl, true, false, [], ◌∷◌, map, List, some, Text, codes, all, contains, keep,
  find_first, text_beq, text_ltb, ok, err, arith, text_eq, if◌then◌else◌,
}
use opendkim_manage_go.Prelude.Int.{pos}
use opendkim_manage_go.Prelude.Maps.{put, get, store_all}
use opendkim_manage_go.Prelude.Sort.{sort_func, insert_by}
use opendkim_manage_go.Model.Error.{invalid}
use opendkim_manage_go.Model.Instant.{is_zero, same_instant}
use opendkim_manage_go.Model.Names.{
  validate_identifier, identifier_byte, identifier_edge, dns_edge, split_on, lower, valid_label,
  drop_last, count_byte, canonical_dns_name, is_canonical, validate_canonical_dns_name,
  validate_domain_selector,
}
use opendkim_manage_go.Model.Values.{
  ed25519_sha256, originator, state_committed, state_staging, is_known_algorithm, is_known_state,
  rank_in, algorithm_rank, supports_native_key_custody,
}
use opendkim_manage_go.Model.Crypto.{
  dns_bytes_of_key, is_canonical_key, dns_bytes_of_parsed, canonical_dns_public_bytes,
}
use opendkim_manage_go.Model.KeyPair.{pair_algorithm, pair_public, pair_private, clone_pair}
use opendkim_manage_go.Model.KeyMaterial.{
  read_string, pair_snapshot, clone_material, rebase_key_material, material_generation,
  material_tenant, material_domain, material_use, material_handle, material_algorithm,
  material_public, material_private,
}
use opendkim_manage_go.Model.Records.{
  policy_key, rebase_handle, rebase_profile, rebase_credential, rebase_policy, validity_window,
}
use opendkim_manage_go.Model.Generation.{
  Generation, validate, handle_round, profile_round, selector_fits, profile_by_id, policy_by_key,
  credential_by_handle, material_by_handle, of_profile, credential_round, policy_fits, policy_round,
  material_fits, material_round, has_credential, sort_records, clone_materials, is_incomplete,
  validated, new_generation_with_state,
}
use opendkim_manage_go.Model.Generation.Loops.{admit_all}
use opendkim_manage_go.Model.Generation.Order.{
  strings_compare, compare_handles, compare_profiles, compare_credentials, compare_policies,
  compare_materials,
}
use opendkim_manage_go.Model.Generation.Reads.{scan, only_match}
use opendkim_manage_go.Model.Builder.{rebase_materials}
use opendkim_manage_go.Model.Rotation.{binding_of_profile, exact_active_binding}
use opendkim_manage_go.Model.Lifecycle.{
  LifecycleBinding, intent_retirement, intent_forward_rollback, lifecycle_binding,
  lifecycle_credentials, compare_lifecycle,
}
use opendkim_manage_go.Model.Lifecycle.Observation.{
  ObservationCredential, describes_observation, new_lifecycle_observation,
  new_lifecycle_observation_lem,
}
use opendkim_manage_go.Model.Lifecycle.Evidence.{
  RetirementEvidence, IsProof, validate_retirement_evidence, validate_retirement_evidence-IsProof,
}
use opendkim_manage_go.Model.Lifecycle.Logical.{
  same_windows, profiles_logical_equal, policies_logical_record_equal, credentials_logical_equal,
  material_bindings_equal, materials_logical_equal, profiles_by_id, credentials_by_algorithm,
  exclusive_policy_for_profile, has_equal, policies_logical_equal, predecessor_uses_selector,
}
use opendkim_manage_go.Model.Lifecycle.Difference.{
  compare_keys, compare_entry, compare_all, reference_material, extends_reference, extension_round,
  validate_extended_credentials, decide_difference, refuses_numbers, difference_round,
  difference_loop, has_successor, same_logical_records, refuses_totals, admits_policies,
  bind_difference, unique_rotated_binding,
}
use opendkim_manage_go.Model.Lifecycle.Retirement.{
  RetirementTransition, refuses_retirement, plan_retirement,
}
use opendkim_manage_go.Model.Lifecycle.Retirement.Proven.{
  IsRetirement, plan_retirement-IsRetirement,
}
use opendkim_manage_go.Model.Lifecycle.Lineage.{
  Clock, LineageFact, LineageHistory, canonical_time, parse_generalized_time, refuses_fact,
  new_lineage_fact, clone_facts, clone_history, records_credential, projects_credential,
  validate_generation_lineage_projection, reuses_fact, all_new, refuses_candidate,
  validate_rotation_candidate_intent,
}
use opendkim_manage_go.Model.Lifecycle.Lineage.Fresh.{
  IsFreshRotation, validate_rotation_candidate_intent-IsFreshRotation,
}
use opendkim_manage_go.Model.Lifecycle.Rollback.{
  ForwardRollbackPlan, ForwardRollbackTransition, found_equal, equal_by_algorithm, bindings_equal,
  rebase_source, removed_handles, rebase_source_binding, refuses_rollback, plan_forward_rollback,
}
use opendkim_manage_go.Model.Lifecycle.Rollback.Rebased.{
  IsRollback, plan_forward_rollback-IsRollback,
}
use opendkim_manage_go.Tests.Data.{copies_32, codecs, generation_at}

abbrev first : Generation
first = generation_at 1 state_committed (codes "s1") (codes "h1") 1

abbrev second : Generation
second = generation_at 2 state_committed (codes "s2") (codes "h2") 2

abbrev third : Generation
third = generation_at 3 state_staging (codes "s1") (codes "h1") 1

abbrev binding : LifecycleBinding
binding = record {
  tenant = codes "t1";
  domain = codes "example.org";
  profile_use = originator;
  profile_id = codes "p1";
}

abbrev retirement : RetirementTransition
retirement = record {
  intent = intent_retirement;
  predecessor = 1;
  current = 2;
  binding = binding;
  retiring =
      record { selector = codes "s1"; algorithm = ed25519_sha256; public_spki = copies_32 1 } ∷ [];
  active =
      record { selector = codes "s2"; algorithm = ed25519_sha256; public_spki = copies_32 2 } ∷ [];
  is_closed = false;
}

abbrev rollback_plan : ForwardRollbackPlan
rollback_plan = record {
  current = second;
  source = first;
  next_generation = 3;
  tenant_id = codes "t1";
  domain = codes "example.org";
  profile_use = originator;
}

abbrev rollback : ForwardRollbackTransition
rollback = record {
  intent = intent_forward_rollback;
  expected_current = 2;
  source = 1;
  binding = binding;
  candidate = some third;
  is_closed = false;
}

abbrev clock : Clock
clock = record {
  parse_time = λ value. some (record { instant = 5; utc = true });
  format_time = λ t. codes "20260102030405Z";
}

abbrev fact_of : ℕ → Text → Text → ℕ → LineageFact
fact_of number selector handle key = record {
  generation = number;
  created = codes "20260102030405Z";
  tenant = codes "t1";
  domain = codes "example.org";
  profile_use = originator;
  selector = selector;
  algorithm = ed25519_sha256;
  public_spki = copies_32 key;
  handle = handle;
}

abbrev history : LineageHistory
history = record {
  is_whole = true;
  facts = fact_of 1 (codes "s1") (codes "h1") 1 ∷ fact_of 2 (codes "s2") (codes "h2") 2 ∷ [];
}

abbrev evidence : RetirementEvidence
evidence = record {
  current_generation = 2;
  activated_at = record { instant = 10; utc = true };
  observed_at = record { instant = 17; utc = true };
  minimum_overlap = pos 7;
  attestations = record {
    runtime_reload = true;
    repeated_readiness = true;
    queues = true;
    emitted_signatures = true;
    external_verify = true;
    backup = true;
    rollback_authority = true;
  };
}

abbrev observed : List ObservationCredential
observed = record { selector = codes "s1"; algorithm = ed25519_sha256 } ∷ []

validate_retirement_evidence_example :
    (validate_retirement_evidence 2 evidence ≡ ok tt) ↔ IsProof 2 evidence
validate_retirement_evidence_example = validate_retirement_evidence-IsProof 2 evidence (omega arith)

new_lifecycle_observation_example : new_lifecycle_observation 1 6 (codes "example.org") observed ≡ (
    if describes_observation 1 6 (codes "example.org") observed
    then ok
        (record { generation = 1; phase = 6; domain = codes "example.org"; credentials = observed })
    else err invalid)
new_lifecycle_observation_example = new_lifecycle_observation_lem 1 6 (codes "example.org") observed

first-valid : validate first ≡ true
unfolding validate admit_all handle_round profile_round credential_round policy_round material_round
    has_credential all contains keep find_first selector_fits profile_by_id policy_by_key
    credential_by_handle of_profile policy_fits material_fits validate_identifier identifier_byte
    identifier_edge validate_domain_selector validate_canonical_dns_name canonical_dns_name
    is_canonical split_on valid_label drop_last dns_edge lower count_byte is_known_algorithm
    is_known_state policy_key material_generation read_string material_tenant material_domain
    material_use material_handle material_algorithm material_public pair_snapshot pair_algorithm
    pair_public text_beq
first-valid = refl

second-valid : validate second ≡ true
unfolding validate admit_all handle_round profile_round credential_round policy_round material_round
    has_credential all contains keep find_first selector_fits profile_by_id policy_by_key
    credential_by_handle of_profile policy_fits material_fits validate_identifier identifier_byte
    identifier_edge validate_domain_selector validate_canonical_dns_name canonical_dns_name
    is_canonical split_on valid_label drop_last dns_edge lower count_byte is_known_algorithm
    is_known_state policy_key material_generation read_string material_tenant material_domain
    material_use material_handle material_algorithm material_public pair_snapshot pair_algorithm
    pair_public text_beq
second-valid = refl

first-named : contains (map (λ p. p.id) first.profiles) [] ≡ false
unfolding contains text_beq
first-named = refl

second-retires : plan_retirement second first ≡ ok retirement
unfolding plan_retirement refuses_retirement compare_keys compare_entry compare_all
    reference_material extends_reference extension_round validate_extended_credentials
    decide_difference refuses_numbers difference_round difference_loop has_successor
    same_logical_records refuses_totals admits_policies bind_difference unique_rotated_binding
    lifecycle_binding lifecycle_credentials compare_lifecycle sort_func insert_by algorithm_rank
    rank_in supports_native_key_custody same_windows profiles_logical_equal
    policies_logical_record_equal credentials_logical_equal material_bindings_equal
    materials_logical_equal profiles_by_id credentials_by_algorithm exclusive_policy_for_profile
    has_equal policies_logical_equal predecessor_uses_selector put get store_all validity_window
    is_zero same_instant only_match scan material_by_handle policy_key read_string material_tenant
    material_domain material_use material_handle material_algorithm material_public material_private
    pair_snapshot pair_algorithm pair_public pair_private text_beq contains keep find_first all
second-retires = refl

plan_retirement-IsRetirement_example : IsRetirement second first retirement
plan_retirement-IsRetirement_example =
    plan_retirement-IsRetirement second first retirement second-valid first-valid first-named
      second-retires

second-intended : validate_rotation_candidate_intent clock codecs first second history ≡ ok binding
unfolding canonical_time parse_generalized_time refuses_fact new_lineage_fact clone_facts
    clone_history records_credential projects_credential validate_generation_lineage_projection
    reuses_fact all_new refuses_candidate validate_rotation_candidate_intent exact_active_binding
    binding_of_profile profile_by_id of_profile is_known_algorithm canonical_dns_public_bytes
    dns_bytes_of_parsed is_canonical_key dns_bytes_of_key compare_keys compare_entry compare_all
    reference_material extends_reference extension_round validate_extended_credentials
    decide_difference refuses_numbers difference_round difference_loop has_successor
    same_logical_records refuses_totals admits_policies bind_difference unique_rotated_binding
    lifecycle_binding lifecycle_credentials compare_lifecycle sort_func insert_by algorithm_rank
    rank_in supports_native_key_custody same_windows profiles_logical_equal
    policies_logical_record_equal credentials_logical_equal material_bindings_equal
    materials_logical_equal profiles_by_id credentials_by_algorithm exclusive_policy_for_profile
    has_equal policies_logical_equal predecessor_uses_selector put get store_all validity_window
    is_zero same_instant only_match scan material_by_handle policy_key read_string material_tenant
    material_domain material_use material_handle material_algorithm material_public material_private
    pair_snapshot pair_algorithm pair_public pair_private text_beq contains keep find_first
    validate_identifier identifier_byte identifier_edge validate_canonical_dns_name
    canonical_dns_name is_canonical split_on valid_label drop_last dns_edge lower count_byte all
second-intended = refl

validate_rotation_candidate_intent-IsFreshRotation_example :
    IsFreshRotation clock codecs first second history binding
validate_rotation_candidate_intent-IsFreshRotation_example =
    validate_rotation_candidate_intent-IsFreshRotation clock codecs first second history binding
      first-valid second-valid first-named second-intended

second-rolls : plan_forward_rollback rollback_plan ≡ ok rollback
unfolding found_equal equal_by_algorithm bindings_equal rebase_source removed_handles
    rebase_source_binding refuses_rollback plan_forward_rollback exact_active_binding
    binding_of_profile rebase_materials rebase_key_material rebase_handle rebase_profile
    rebase_credential rebase_policy new_generation_with_state is_incomplete clone_materials
    clone_material clone_pair validated sort_records sort_func insert_by compare_handles
    compare_profiles compare_credentials compare_policies compare_materials strings_compare
    algorithm_rank rank_in text_ltb material_private pair_private lifecycle_binding
    supports_native_key_custody same_windows profiles_logical_equal policies_logical_record_equal
    credentials_logical_equal material_bindings_equal materials_logical_equal profiles_by_id
    credentials_by_algorithm exclusive_policy_for_profile has_equal policies_logical_equal
    predecessor_uses_selector put get store_all validity_window is_zero same_instant only_match scan
    material_by_handle validate admit_all handle_round profile_round credential_round policy_round
    material_round has_credential all contains keep find_first selector_fits profile_by_id
    policy_by_key credential_by_handle of_profile policy_fits material_fits validate_identifier
    identifier_byte identifier_edge validate_domain_selector validate_canonical_dns_name
    canonical_dns_name is_canonical split_on valid_label drop_last dns_edge lower count_byte
    is_known_algorithm is_known_state policy_key material_generation read_string material_tenant
    material_domain material_use material_handle material_algorithm material_public pair_snapshot
    pair_algorithm pair_public text_beq
second-rolls = refl

plan_forward_rollback-IsRollback_example : IsRollback rollback_plan rollback
plan_forward_rollback-IsRollback_example =
    plan_forward_rollback-IsRollback rollback_plan rollback second-rolls
