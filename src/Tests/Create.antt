-- ===== src/Tests/Create.antt =====
-- The theorems on created bindings (`internal/dkim2model/create.go`, `Builder.AddProfileWithKeys`) at a
-- generation of one key, to which the binding of a second domain is added.
use opendkim_manage_go.Prelude.{
  ℕ, ◌≡◌, refl, [], ◌∷◌, some, codes, all, contains, keep, find_first, text_beq, text_ltb, ok, true,
  List, Text, text_eq, none,
}
use opendkim_manage_go.Prelude.Int.{pos}
use opendkim_manage_go.Prelude.Sort.{sort_func, insert_by}
use opendkim_manage_go.Model.Names.{
  validate_identifier, identifier_byte, identifier_edge, dns_edge, split_on, lower, valid_label,
  drop_last, count_byte, canonical_dns_name, is_canonical, validate_canonical_dns_name,
  validate_domain_selector,
}
use opendkim_manage_go.Model.Values.{
  originator, state_committed, state_staging, is_known_algorithm, is_known_state, rank_in,
  algorithm_rank, compare_algorithms, supports_native_key_custody, ed25519_sha256, status_disabled,
  rollout_off,
}
use opendkim_manage_go.Model.Allocation.{
  hex_text, choose, allocate_within, allocate_historical_id_bounded,
}
use opendkim_manage_go.Model.Crypto.{
  dns_bytes_of_key, is_canonical_key, dns_bytes_of_parsed, canonical_dns_public_bytes,
}
use opendkim_manage_go.Model.KeyPair.{pair_algorithm, pair_public, clone_pair, pair_private}
use opendkim_manage_go.Model.KeyMaterial.{
  new_key_material, read_string, pair_snapshot, clone_material, rebase_key_material,
  material_generation, material_tenant, material_domain, material_use, material_handle,
  material_algorithm, material_public, material_private, KeyMaterial, equivalent_materials,
}
use opendkim_manage_go.Model.Records.{
  new_handle, new_credential, policy_key, rebase_handle, rebase_profile, rebase_credential,
  rebase_policy, validity_window, Credential, Policy, Profile, new_profile, new_policy,
}
use opendkim_manage_go.Model.Generation.{
  Generation, validate, handle_round, profile_round, selector_fits, profile_by_id, policy_by_key,
  credential_by_handle, of_profile, credential_round, policy_fits, policy_round, material_fits,
  material_round, has_credential, sort_records, clone_materials, is_incomplete, validated,
  new_generation_with_state, material_by_handle,
}
use opendkim_manage_go.Model.Generation.Loops.{admit_all}
use opendkim_manage_go.Model.Generation.Order.{
  strings_compare, compare_handles, compare_profiles, compare_credentials, compare_policies,
  compare_materials,
}
use opendkim_manage_go.Model.Generation.Reads.{
  scan, only_match, all_same, key_material_by_handle, equivalent_generations, same_handles,
  same_profiles, same_times, same_credentials, same_policies,
}
use opendkim_manage_go.Model.Builder.{
  next_builder, rebase_materials, build, replace_profile_keys, admits_replacement, pair_keys,
  pairs_with, take_material, swap_keys, Builder, add_profile, add_profile_with_keys, admits_profile,
  clone_owned, add_handles, append_profile, append_policy,
}
use opendkim_manage_go.Model.Rotation.{binding_of_profile, exact_active_binding}
use opendkim_manage_go.Tests.Data.{
  handle_of, credential_at, material_at, generation_at, copies_32, codecs, policy_of, profile_of,
}
use opendkim_manage_go.Prelude.Maps.{put, get, store_all}
use opendkim_manage_go.Model.Instant.{is_zero, same_instant, before, after, add}
use opendkim_manage_go.Model.Lifecycle.{lifecycle_binding, lifecycle_credentials, compare_lifecycle}
use opendkim_manage_go.Model.Lifecycle.Logical.{
  same_windows, profiles_logical_equal, policies_logical_record_equal, credentials_logical_equal,
  material_bindings_equal, materials_logical_equal, profiles_by_id, credentials_by_algorithm,
  exclusive_policy_for_profile, has_equal, policies_logical_equal, predecessor_uses_selector,
}
use opendkim_manage_go.Model.Lifecycle.Difference.{
  compare_keys, compare_entry, compare_all, reference_material, extends_reference, extension_round,
  validate_extended_credentials, decide_difference, refuses_numbers, difference_round,
  difference_loop, has_successor, same_logical_records, refuses_totals, admits_policies,
  bind_difference, unique_rotated_binding,
}
use opendkim_manage_go.Model.Lifecycle.Lineage.{
  Clock, LineageFact, LineageHistory, canonical_time, parse_generalized_time, refuses_fact,
  new_lineage_fact, clone_facts, clone_history, records_credential, projects_credential,
  validate_generation_lineage_projection, reuses_fact, all_new, refuses_candidate,
  validate_rotation_candidate_intent,
}
use opendkim_manage_go.Model.Campaign.{BindingIdentity}
use opendkim_manage_go.Model.Eligibility.{
  refuses_limits, validate_rotation_limits, concerns, refuses_created, earlier, fact_loop,
  credential_loop, binding_since, policy_loop, compare_decisions, eligible_bindings,
}
use opendkim_manage_go.Model.GlobalRotation.{
  new_campaign_key_replacer, make_pair, fresh_keys, replaced_keys, replace, rotation_of,
  rotation_loop, refuses_global, rotate_due, plan_global_rotation,
}
use opendkim_manage_go.Model.Builder.Added.{IsAdded, add_profile_with_keys-IsAdded}
use opendkim_manage_go.Model.Create.{
  CreateCandidateIntent, admits_domains, admits_algorithms, validate_create, names_binding,
  stored_profile, selects, has_bits, create_credential_size_matches, key_identity, admits_stored,
  stored_materials, added, append_stored_binding, append_all, refuses_create,
  validate_create_candidate_intent,
}
use opendkim_manage_go.Model.Create.Additive.{IsCreated, validate_create_candidate_intent-IsCreated}

abbrev clock : Clock
clock = record {
  parse_time = λ value. some (record { instant = 5; utc = true });
  format_time = λ t. codes "20260102030405Z";
}

abbrev fact_of : ℕ → Text → Text → Text → ℕ → LineageFact
fact_of number domain selector handle key = record {
  generation = number;
  created = codes "20260102030405Z";
  tenant = codes "t1";
  domain = domain;
  profile_use = originator;
  selector = selector;
  algorithm = ed25519_sha256;
  public_spki = copies_32 key;
  handle = handle;
}

abbrev first : Generation
first = generation_at 1 state_committed (codes "s1") (codes "h1") 9

abbrev second_profile : Profile
second_profile = record (profile_of 2) {
  id = codes "p2";
  domain = codes "example.net";
  status = status_disabled;
}

abbrev second_credential : Credential
second_credential = record (credential_at 2 (codes "s2") (codes "h2") 8) { profile_id = codes "p2" }

abbrev second_policy : Policy
second_policy = record (policy_of 2) {
  domain = codes "example.net";
  profile_id = codes "p2";
  status = status_disabled;
  rollout = rollout_off;
}

abbrev second_material : KeyMaterial
second_material = record (material_at 2 (codes "h2") 8) { domain = codes "example.net" }

-- The first generation with the new number, and the binding of the second domain.
abbrev second : Generation
second = record {
  number = 2;
  state = state_staging;
  handles = handle_of 2 (codes "h1") ∷ handle_of 2 (codes "h2") ∷ [];
  profiles = profile_of 2 ∷ second_profile ∷ [];
  credentials = credential_at 2 (codes "s1") (codes "h1") 9 ∷ second_credential ∷ [];
  policies = second_policy ∷ policy_of 2 ∷ [];
  materials = material_at 2 (codes "h1") 9 ∷ second_material ∷ [];
}

abbrev history : LineageHistory
history = record {
  is_whole = true;
  facts =
      fact_of 1 (codes "example.org") (codes "s1") (codes "h1") 9
      ∷ fact_of 2 (codes "example.org") (codes "s1") (codes "h1") 9
      ∷ fact_of 2 (codes "example.net") (codes "s2") (codes "h2") 8
      ∷ [];
}

abbrev intent : CreateCandidateIntent
intent = record {
  tenant_id = codes "t1";
  domains = codes "example.net" ∷ [];
  profile_use = originator;
  algorithms = ed25519_sha256 ∷ [];
  rsa_bits = pos 2048;
  selectors = [];
  feedback_route_id = [];
  maximum_bindings = pos 2;
}

abbrev created : List BindingIdentity
created =
    record { tenant = codes "t1"; domain = codes "example.net"; profile_use = originator } ∷ []

second-accepted :
    validate_create_candidate_intent clock codecs first second history intent ≡ ok created
unfolding plan_global_rotation exact_active_binding only_match scan binding_of_profile
    compare_algorithms supports_native_key_custody allocate_historical_id_bounded allocate_within
    choose hex_text new_credential canonical_dns_public_bytes dns_bytes_of_parsed is_canonical_key
    dns_bytes_of_key new_key_material next_builder rebase_materials rebase_key_material
    rebase_handle rebase_profile rebase_credential rebase_policy replace_profile_keys
    admits_replacement pair_keys pairs_with take_material swap_keys new_handle build
    new_generation_with_state is_incomplete clone_materials clone_material clone_pair validated
    sort_records sort_func insert_by compare_handles compare_profiles compare_credentials
    compare_policies compare_materials strings_compare algorithm_rank rank_in text_ltb validate
    admit_all handle_round profile_round credential_round policy_round material_round has_credential
    all contains keep find_first selector_fits profile_by_id policy_by_key credential_by_handle
    of_profile policy_fits material_fits validate_identifier identifier_byte identifier_edge
    validate_domain_selector validate_canonical_dns_name canonical_dns_name is_canonical split_on
    valid_label drop_last dns_edge lower count_byte is_known_algorithm is_known_state policy_key
    material_generation read_string material_tenant material_domain material_use material_handle
    material_algorithm material_public pair_snapshot pair_algorithm pair_public text_beq
    refuses_limits validate_rotation_limits concerns refuses_created earlier fact_loop
    credential_loop binding_since policy_loop compare_decisions eligible_bindings
    new_campaign_key_replacer make_pair fresh_keys replaced_keys replace rotation_of rotation_loop
    refuses_global rotate_due canonical_time parse_generalized_time is_zero before after add
    refuses_fact new_lineage_fact clone_facts clone_history records_credential projects_credential
    validate_generation_lineage_projection reuses_fact all_new refuses_candidate
    validate_rotation_candidate_intent compare_keys compare_entry compare_all reference_material
    extends_reference extension_round validate_extended_credentials decide_difference
    refuses_numbers difference_round difference_loop has_successor same_logical_records
    refuses_totals admits_policies bind_difference unique_rotated_binding lifecycle_binding
    lifecycle_credentials compare_lifecycle same_windows profiles_logical_equal
    policies_logical_record_equal credentials_logical_equal material_bindings_equal
    materials_logical_equal profiles_by_id credentials_by_algorithm exclusive_policy_for_profile
    has_equal policies_logical_equal predecessor_uses_selector put get store_all validity_window
    same_instant material_by_handle material_private pair_private validate_create admits_domains
    admits_algorithms names_binding stored_profile selects has_bits create_credential_size_matches
    key_identity admits_stored stored_materials added append_stored_binding append_all
    refuses_create validate_create_candidate_intent add_profile_with_keys append_policy add_profile
    admits_profile clone_owned append_profile add_handles equivalent_generations all_same
    key_material_by_handle new_profile new_policy same_handles same_profiles same_times
    same_credentials same_policies equivalent_materials
second-accepted = refl

validate_create_candidate_intent-IsCreated_example :
    IsCreated codecs intent first second history.facts created
validate_create_candidate_intent-IsCreated_example =
    validate_create_candidate_intent-IsCreated clock codecs first second history intent created
      second-accepted

-- The first generation renumbered, and with the second binding behind it.
abbrev before_second : Builder
before_second = record {
  number = 2;
  state = state_staging;
  handles = handle_of 2 (codes "h1") ∷ [];
  profiles = profile_of 2 ∷ [];
  credentials = credential_at 2 (codes "s1") (codes "h1") 9 ∷ [];
  policies = policy_of 2 ∷ [];
  materials = material_at 2 (codes "h1") 9 ∷ [];
}

abbrev with_second : Builder
with_second = record {
  number = 2;
  state = state_staging;
  handles = handle_of 2 (codes "h1") ∷ handle_of 2 (codes "h2") ∷ [];
  profiles = profile_of 2 ∷ second_profile ∷ [];
  credentials = credential_at 2 (codes "s1") (codes "h1") 9 ∷ second_credential ∷ [];
  policies = policy_of 2 ∷ second_policy ∷ [];
  materials = material_at 2 (codes "h1") 9 ∷ second_material ∷ [];
}

second-added :
    add_profile_with_keys before_second second_profile
      (second_credential ∷ [])
      second_policy
      (some second_material ∷ [])
    ≡ (with_second, none)
unfolding add_profile_with_keys append_policy add_profile admits_profile all text_beq clone_owned
    material_generation clone_material append_profile add_handles new_handle material_handle
second-added = refl

add_profile_with_keys-IsAdded_example :
    IsAdded before_second second_profile
      (second_credential ∷ [])
      second_policy
      (some second_material ∷ [])
      with_second
add_profile_with_keys-IsAdded_example =
    add_profile_with_keys-IsAdded before_second second_profile (second_credential ∷ [])
      second_policy (some second_material ∷ []) with_second second-added
