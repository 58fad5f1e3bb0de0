-- ===== src/Tests/Campaign.antt =====
-- The theorems on eligibility, global plans and campaigns (`internal/dkim2model/rotation.go` and
-- `campaign.go`) at concrete inputs: a generation of one Ed25519 key and a counting reader.
use opendkim_manage_go.Prelude.{
  ℕ, ◌≡◌, refl, [], ◌∷◌, some, codes, all, contains, keep, find_first, text_beq, text_ltb, ok, true,
  map, List, Text, err, text_eq, if◌then◌else◌,
}
use opendkim_manage_go.Prelude.Int.{pos}
use opendkim_manage_go.Prelude.Sort.{sort_func, insert_by}
use opendkim_manage_go.Model.Names.{
  validate_identifier, identifier_byte, identifier_edge, dns_edge, split_on, lower, valid_label,
  drop_last, count_byte, canonical_dns_name, is_canonical, validate_canonical_dns_name,
  validate_domain_selector,
}
use opendkim_manage_go.Model.Values.{
  originator, state_committed, state_staging, is_known_algorithm, is_known_state, rank_in,
  algorithm_rank, compare_algorithms, supports_native_key_custody, ed25519_sha256,
  mldsa44_ed25519_sha512,
}
use opendkim_manage_go.Model.AlgorithmSet.{
  all_fresh, canonical_algorithm_set, contains_every_algorithm,
}
use opendkim_manage_go.Model.Allocation.{
  hex_text, choose, allocate_within, allocate_historical_id_bounded, candidate_of,
}
use opendkim_manage_go.Model.Crypto.{
  dns_bytes_of_key, is_canonical_key, dns_bytes_of_parsed, canonical_dns_public_bytes,
  composite_dns_public_bytes, take, drop, has_prefix,
}
use opendkim_manage_go.Model.KeyPair.{pair_algorithm, pair_public, clone_pair, pair_private}
use opendkim_manage_go.Model.KeyMaterial.{
  new_key_material, read_string, pair_snapshot, clone_material, rebase_key_material,
  material_generation, material_tenant, material_domain, material_use, material_handle,
  material_algorithm, material_public, material_private,
}
use opendkim_manage_go.Model.Records.{
  new_handle, new_credential, policy_key, rebase_handle, rebase_profile, rebase_credential,
  rebase_policy, validity_window,
}
use opendkim_manage_go.Model.Generation.{
  Generation, validate, handle_round, profile_round, selector_fits, profile_by_id, policy_by_key,
  credential_by_handle, of_profile, credential_round, policy_fits, policy_round, material_fits,
  material_round, has_credential, sort_records, clone_materials, is_incomplete, validated,
  new_generation_with_state, material_by_handle,
}
use opendkim_manage_go.Model.Generation.Loops.{admit_all}
use opendkim_manage_go.Model.Generation.Order.{
  strings_compare, compare_handles, compare_profiles, compare_credentials, compare_policies,
  compare_materials,
}
use opendkim_manage_go.Model.Generation.Reads.{scan, only_match, all_same, key_material_by_handle}
use opendkim_manage_go.Model.Builder.{
  next_builder, rebase_materials, build, replace_profile_keys, admits_replacement, pair_keys,
  pairs_with, take_material, swap_keys,
}
use opendkim_manage_go.Model.Rotation.{binding_of_profile, exact_active_binding}
use opendkim_manage_go.Tests.Data.{
  handle_of, credential_at, material_at, copies_12, sources, generation_at, copies_32, both_sources,
  composite_key,
}
use opendkim_manage_go.Prelude.Maps.{put, get, store_all}
use opendkim_manage_go.Model.Error.{invalid}
use opendkim_manage_go.Model.Instant.{Time, is_zero, same_instant, before, after, add}
use opendkim_manage_go.Model.Lifecycle.{lifecycle_binding, lifecycle_credentials, compare_lifecycle}
use opendkim_manage_go.Model.Lifecycle.Logical.{
  same_windows, profiles_logical_equal, policies_logical_record_equal, credentials_logical_equal,
  material_bindings_equal, materials_logical_equal, profiles_by_id, credentials_by_algorithm,
  exclusive_policy_for_profile, has_equal, policies_logical_equal, predecessor_uses_selector,
}
use opendkim_manage_go.Model.Lifecycle.Difference.{
  compare_keys, compare_entry, compare_all, reference_material, extends_reference, extension_round,
  validate_extended_credentials, decide_difference, refuses_numbers, difference_round,
  difference_loop, has_successor, same_logical_records, refuses_totals, admits_policies,
  bind_difference, unique_rotated_binding,
}
use opendkim_manage_go.Model.Lifecycle.Lineage.{
  Clock, LineageFact, LineageHistory, canonical_time, parse_generalized_time,
}
use opendkim_manage_go.Model.Campaign.{
  BindingIdentity, identity_of, identity_key, compare_identities, is_usable, active_loop,
  active_bindings, same_profile_facts, same_policy_facts, same_materials,
  same_credential_and_material, compare_credential_algorithm, unchanged_loop, extended_profile,
  campaign_profile_unchanged, is_disjoint, changed_identity, changed_loop, is_successor,
  changed_active_bindings, same_identities, carries_set, extension_loop,
  validate_extension_candidate,
}
use opendkim_manage_go.Model.Campaign.Active.{active_policies, lists_bindings, active_bindings_lem}
use opendkim_manage_go.Model.Campaign.Changed.{IsCampaign, changed_active_bindings-IsCampaign}
use opendkim_manage_go.Model.Campaign.Extended.{
  IsExtension, validate_extension_candidate-IsExtension,
}
use opendkim_manage_go.Model.Eligibility.Due.{Decides, eligible_bindings-Decides}
use opendkim_manage_go.Model.Eligibility.{
  RotationLimits, refuses_limits, validate_rotation_limits, EligibilityDecision, concerns,
  refuses_created, earlier, fact_loop, credential_loop, binding_since, policy_loop,
  compare_decisions, eligible_bindings,
}
use opendkim_manage_go.Model.GlobalRotation.{
  new_campaign_key_replacer, make_pair, fresh_keys, replaced_keys, replace, replace_all,
  rotation_of, rotation_loop, extensions, refuses_global, rotate_due, plan_global_rotation,
  extend_all, plan_global_extension,
}
use opendkim_manage_go.Model.GlobalRotation.Planned.{
  IsGlobalRotation, plan_global_rotation-IsGlobalRotation, IsGlobalExtension,
  plan_global_extension-IsGlobalExtension,
}

abbrev clock : Clock
clock = record {
  parse_time = λ value. some (record { instant = 5; utc = true });
  format_time = λ t. codes "20260102030405Z";
}

abbrev fact_of : ℕ → Text → Text → ℕ → LineageFact
fact_of number selector handle key = record {
  generation = number;
  created = codes "20260102030405Z";
  tenant = codes "t1";
  domain = codes "example.org";
  profile_use = originator;
  selector = selector;
  algorithm = ed25519_sha256;
  public_spki = copies_32 key;
  handle = handle;
}

abbrev first : Generation
first = generation_at 1 state_committed (codes "s1") (codes "h1") 9

abbrev history : LineageHistory
history = record { is_whole = true; facts = fact_of 1 (codes "s1") (codes "h1") 9 ∷ [] }

abbrev now : Time
now = record { instant = 9; utc = true }

abbrev limits : RotationLimits
limits = record {
  rotate_after = pos 4;
  maximum_clock_skew = pos 0;
  allocation_attempts = pos 3;
  rsa_bits = pos 2048;
  maximum_bindings = pos 2;
}

-- The first selector of the reader is in the history, so the second is taken.
abbrev rotated : Generation
rotated =
    generation_at 2 state_staging (candidate_of (codes "dkim2") (copies_12 2))
      (candidate_of (codes "key") (copies_12 3)) 4

abbrev decisions : List EligibilityDecision
decisions =
    record {
      due = true;
      domain = codes "example.org";
      tenant = codes "t1";
      profile_use = originator;
      since = record { instant = 5; utc = true };
    }
    ∷ []

first-rotated :
    plan_global_rotation sources first 2 limits 1 clock now history ≡ ok (some (rotated, decisions))
unfolding plan_global_rotation exact_active_binding only_match scan binding_of_profile
    compare_algorithms supports_native_key_custody allocate_historical_id_bounded allocate_within
    choose hex_text new_credential canonical_dns_public_bytes dns_bytes_of_parsed is_canonical_key
    dns_bytes_of_key new_key_material next_builder rebase_materials rebase_key_material
    rebase_handle rebase_profile rebase_credential rebase_policy replace_profile_keys
    admits_replacement pair_keys pairs_with take_material swap_keys new_handle build
    new_generation_with_state is_incomplete clone_materials clone_material clone_pair validated
    sort_records sort_func insert_by compare_handles compare_profiles compare_credentials
    compare_policies compare_materials strings_compare algorithm_rank rank_in text_ltb validate
    admit_all handle_round profile_round credential_round policy_round material_round has_credential
    all contains keep find_first selector_fits profile_by_id policy_by_key credential_by_handle
    of_profile policy_fits material_fits validate_identifier identifier_byte identifier_edge
    validate_domain_selector validate_canonical_dns_name canonical_dns_name is_canonical split_on
    valid_label drop_last dns_edge lower count_byte is_known_algorithm is_known_state policy_key
    material_generation read_string material_tenant material_domain material_use material_handle
    material_algorithm material_public pair_snapshot pair_algorithm pair_public text_beq
    refuses_limits validate_rotation_limits concerns refuses_created earlier fact_loop
    credential_loop binding_since policy_loop compare_decisions eligible_bindings
    new_campaign_key_replacer make_pair fresh_keys replaced_keys replace rotation_of rotation_loop
    refuses_global rotate_due canonical_time parse_generalized_time is_zero before after add
first-rotated = refl

plan_global_rotation-IsGlobalRotation_example :
    IsGlobalRotation sources first 2 limits 1 clock now history decisions rotated
plan_global_rotation-IsGlobalRotation_example =
    plan_global_rotation-IsGlobalRotation sources first 2 limits 1 clock now history decisions
      rotated first-rotated

abbrev both : List Text
both = mldsa44_ed25519_sha512 ∷ ed25519_sha256 ∷ []

abbrev active : List BindingIdentity
active = record { tenant = codes "t1"; domain = codes "example.org"; profile_use = originator } ∷ []

abbrev extended : Generation
extended =
    let selector : ℕ → Text = λ c. candidate_of (codes "dkim2") (copies_12 c) in
    let handle : ℕ → Text = λ c. candidate_of (codes "key") (copies_12 c) in
    record (generation_at 2 state_staging (selector 2) (handle 3) 4) {
      handles = handle_of 2 (handle 3) ∷ handle_of 2 (handle 6) ∷ [];
      credentials =
          credential_at 2 (selector 2) (handle 3) 4
          ∷ record (credential_at 2 (selector 5) (handle 6) 7) {
            algorithm = mldsa44_ed25519_sha512;
            public_spki = (composite_key 7).public_spki;
          }
          ∷ [];
      materials =
          material_at 2 (handle 3) 4
          ∷ record (material_at 2 (handle 6) 7) { pair = some (composite_key 7) }
          ∷ [];
    }

first-extended :
    plan_global_extension both_sources first 2 limits 1 both ≡ ok (some (extended, active))
unfolding plan_global_extension exact_active_binding only_match scan binding_of_profile
    compare_algorithms supports_native_key_custody allocate_historical_id_bounded allocate_within
    choose hex_text new_credential canonical_dns_public_bytes dns_bytes_of_parsed is_canonical_key
    dns_bytes_of_key new_key_material next_builder rebase_materials rebase_key_material
    rebase_handle rebase_profile rebase_credential rebase_policy replace_profile_keys
    admits_replacement pair_keys pairs_with take_material swap_keys new_handle build
    new_generation_with_state is_incomplete clone_materials clone_material clone_pair validated
    sort_records sort_func insert_by compare_handles compare_profiles compare_credentials
    compare_policies compare_materials strings_compare algorithm_rank rank_in text_ltb validate
    admit_all handle_round profile_round credential_round policy_round material_round has_credential
    all contains keep find_first selector_fits profile_by_id policy_by_key credential_by_handle
    of_profile policy_fits material_fits validate_identifier identifier_byte identifier_edge
    validate_domain_selector validate_canonical_dns_name canonical_dns_name is_canonical split_on
    valid_label drop_last dns_edge lower count_byte is_known_algorithm is_known_state policy_key
    material_generation read_string material_tenant material_domain material_use material_handle
    material_algorithm material_public pair_snapshot pair_algorithm pair_public text_beq
    refuses_limits validate_rotation_limits new_campaign_key_replacer make_pair fresh_keys
    replaced_keys replace replace_all extensions extend_all canonical_algorithm_set all_fresh
    contains_every_algorithm active_bindings active_loop is_usable identity_key compare_identities
    composite_dns_public_bytes take drop has_prefix refuses_global is_zero
first-extended = refl

plan_global_extension-IsGlobalExtension_example :
    IsGlobalExtension both_sources first 2 limits 1 both active extended
plan_global_extension-IsGlobalExtension_example =
    plan_global_extension-IsGlobalExtension both_sources first 2 limits 1 both active extended
      first-extended

first-eligible : eligible_bindings clock now limits first history ≡ ok decisions
unfolding refuses_limits validate_rotation_limits concerns refuses_created earlier fact_loop
    credential_loop binding_since policy_loop compare_decisions eligible_bindings canonical_time
    parse_generalized_time is_zero before after add of_profile profile_by_id keep find_first
    contains text_beq sort_func insert_by
first-eligible = refl

eligible_bindings-Decides_example :
    (ds : List EligibilityDecision) × (decisions
      ≡ sort_func (compare_decisions clock now limits) ds)
    × Decides clock now limits first history.facts first.policies ds
eligible_bindings-Decides_example =
    eligible_bindings-Decides clock now limits first history decisions first-eligible

active_bindings_example : active_bindings first (pos 2) ≡ (
    if lists_bindings first (pos 2)
    then ok (sort_func compare_identities (map identity_of (active_policies first.policies)))
    else err invalid)
active_bindings_example = active_bindings_lem first (pos 2)

rotated-changed : changed_active_bindings first rotated (pos 2) ≡ ok active
unfolding compare_keys compare_entry compare_all reference_material extends_reference
    extension_round validate_extended_credentials decide_difference refuses_numbers difference_round
    difference_loop has_successor same_logical_records refuses_totals admits_policies
    bind_difference unique_rotated_binding lifecycle_binding lifecycle_credentials compare_lifecycle
    sort_func insert_by algorithm_rank rank_in supports_native_key_custody same_windows
    profiles_logical_equal policies_logical_record_equal credentials_logical_equal
    material_bindings_equal materials_logical_equal profiles_by_id credentials_by_algorithm
    exclusive_policy_for_profile has_equal policies_logical_equal predecessor_uses_selector put get
    store_all validity_window is_zero same_instant only_match scan material_by_handle policy_key
    read_string material_tenant material_domain material_use material_handle material_algorithm
    material_public material_private pair_snapshot pair_algorithm pair_public pair_private text_beq
    contains keep find_first all active_bindings active_loop is_usable identity_key
    compare_identities same_profile_facts same_policy_facts same_materials
    same_credential_and_material compare_credential_algorithm unchanged_loop extended_profile
    campaign_profile_unchanged is_disjoint changed_identity changed_loop is_successor
    changed_active_bindings all_same key_material_by_handle clone_material clone_pair
    strings_compare text_ltb of_profile profile_by_id
rotated-changed = refl

changed_active_bindings-IsCampaign_example : IsCampaign first rotated active
changed_active_bindings-IsCampaign_example =
    changed_active_bindings-IsCampaign first rotated (pos 2) active rotated-changed

extended-valid : validate extended ≡ true
unfolding validate admit_all handle_round profile_round credential_round policy_round material_round
    has_credential all contains keep find_first selector_fits profile_by_id policy_by_key
    credential_by_handle of_profile policy_fits material_fits validate_identifier identifier_byte
    identifier_edge validate_domain_selector validate_canonical_dns_name canonical_dns_name
    is_canonical split_on valid_label drop_last dns_edge lower count_byte is_known_algorithm
    is_known_state policy_key material_generation read_string material_tenant material_domain
    material_use material_handle material_algorithm material_public pair_snapshot pair_algorithm
    pair_public text_beq hex_text
extended-valid = refl

extended-accepted : validate_extension_candidate first extended both (pos 2) ≡ ok tt
unfolding compare_keys compare_entry compare_all reference_material extends_reference
    extension_round validate_extended_credentials decide_difference refuses_numbers difference_round
    difference_loop has_successor same_logical_records refuses_totals admits_policies
    bind_difference unique_rotated_binding lifecycle_binding lifecycle_credentials compare_lifecycle
    sort_func insert_by algorithm_rank rank_in supports_native_key_custody same_windows
    profiles_logical_equal policies_logical_record_equal credentials_logical_equal
    material_bindings_equal materials_logical_equal profiles_by_id credentials_by_algorithm
    exclusive_policy_for_profile has_equal policies_logical_equal predecessor_uses_selector put get
    store_all validity_window is_zero same_instant only_match scan material_by_handle policy_key
    read_string material_tenant material_domain material_use material_handle material_algorithm
    material_public material_private pair_snapshot pair_algorithm pair_public pair_private text_beq
    contains keep find_first all active_bindings active_loop is_usable identity_key
    compare_identities same_profile_facts same_policy_facts same_materials
    same_credential_and_material compare_credential_algorithm unchanged_loop extended_profile
    campaign_profile_unchanged is_disjoint changed_identity changed_loop is_successor
    changed_active_bindings all_same key_material_by_handle clone_material clone_pair
    strings_compare text_ltb of_profile profile_by_id validate_extension_candidate same_identities
    carries_set extension_loop canonical_algorithm_set all_fresh compare_algorithms
    is_known_algorithm exact_active_binding binding_of_profile hex_text
extended-accepted = refl

validate_extension_candidate-IsExtension_example :
    IsExtension first extended both (pos 2) extended-valid
validate_extension_candidate-IsExtension_example =
    validate_extension_candidate-IsExtension first extended both (pos 2) extended-valid
      extended-accepted
