-- ===== src/Tests/Rotation.antt =====
-- The theorems on identifier allocation and rotation of `internal/dkim2model/rotation.go`, at
-- concrete inputs: a generation with one Ed25519 key and a counting reader.
use opendkim_manage_go.Prelude.{
  ◌↔◌, ℕ, ◌≡◌, refl, [], ◌∷◌, codes, all, contains, keep, find_first, text_beq, text_ltb, ok,
}
use opendkim_manage_go.Prelude.Int.{pos}
use opendkim_manage_go.Prelude.Sort.{sort_func, insert_by}
use opendkim_manage_go.Model.Names.{
  validate_identifier, identifier_byte, identifier_edge, dns_edge, split_on, lower, valid_label,
  drop_last, count_byte, canonical_dns_name, is_canonical, validate_canonical_dns_name,
  validate_domain_selector,
}
use opendkim_manage_go.Model.Values.{
  originator, state_committed, state_staging, is_known_algorithm, is_known_state, rank_in,
  algorithm_rank, compare_algorithms, supports_native_key_custody,
}
use opendkim_manage_go.Model.AlgorithmSet.{
  all_fresh, canonical_algorithm_set, contains_every_algorithm,
}
use opendkim_manage_go.Model.Allocation.{
  Allocated, hex_text, choose, allocate_within, allocate_historical_id_bounded, candidate_of,
}
use opendkim_manage_go.Model.Allocation.Success.{Finds, allocate_historical_id_bounded_iff}
use opendkim_manage_go.Model.Allocation.Freshness.{IsFresh, allocate_historical_id_bounded-IsFresh}
use opendkim_manage_go.Model.Crypto.{
  dns_bytes_of_key, is_canonical_key, dns_bytes_of_parsed, canonical_dns_public_bytes,
}
use opendkim_manage_go.Model.KeyPair.{pair_algorithm, pair_public, clone_pair}
use opendkim_manage_go.Model.KeyMaterial.{
  new_key_material, read_string, pair_snapshot, clone_material, rebase_key_material,
  material_generation, material_tenant, material_domain, material_use, material_handle,
  material_algorithm, material_public,
}
use opendkim_manage_go.Model.Records.{
  new_handle, new_credential, policy_key, rebase_handle, rebase_profile, rebase_credential,
  rebase_policy,
}
use opendkim_manage_go.Model.Generation.{
  Generation, validate, handle_round, profile_round, selector_fits, profile_by_id, policy_by_key,
  credential_by_handle, of_profile, credential_round, policy_fits, policy_round, material_fits,
  material_round, has_credential, sort_records, clone_materials, is_incomplete, validated,
  new_generation_with_state,
}
use opendkim_manage_go.Model.Generation.Loops.{admit_all}
use opendkim_manage_go.Model.Generation.Order.{
  strings_compare, compare_handles, compare_profiles, compare_credentials, compare_policies,
  compare_materials,
}
use opendkim_manage_go.Model.Generation.Reads.{scan, only_match}
use opendkim_manage_go.Model.Builder.{
  next_builder, rebase_materials, build, replace_profile_keys, admits_replacement, pair_keys,
  pairs_with, take_material, swap_keys,
}
use opendkim_manage_go.Model.Rotation.{
  RotationPlan, binding_of_profile, exact_active_binding, admits_plan, requested_algorithms,
  allocate_ids, make_key, make_keys, build_replaced, rotate_binding, plan_rotation,
}
use opendkim_manage_go.Model.Rotation.Planned.{IsRotated, plan_rotation-IsRotated}
use opendkim_manage_go.Tests.Data.{copies_12, sources, generation_at}

abbrev plan : RotationPlan
plan = record {
  current = generation_at 1 state_committed (codes "s1") (codes "h1") 9;
  next_generation = 2;
  tenant_id = codes "t1";
  domain = codes "example.org";
  profile_use = originator;
  algorithms = [];
  rsa_bits = pos 2048;
  allocation_attempts = pos 3;
}

-- The first selector of the reader is in the history, so the second is taken.
abbrev rotated : Generation
rotated =
    generation_at 2 state_staging (candidate_of (codes "dkim2") (copies_12 2))
      (candidate_of (codes "key") (copies_12 3)) 4

abbrev second_selector : Allocated ℕ
second_selector = record {
  identifier = candidate_of (codes "dkim2") (copies_12 2);
  used = candidate_of (codes "dkim2") (copies_12 2) ∷ codes "s1" ∷ [];
  reader = 3;
}

second-allocated :
    allocate_historical_id_bounded sources.read_full sources.selector_used
      (codes "dkim2")
      1
      (codes "s1" ∷ [])
      (pos 3)
    ≡ ok second_selector
unfolding allocate_historical_id_bounded allocate_within choose contains hex_text text_beq
second-allocated = refl

allocate_historical_id_bounded-IsFresh_example :
    IsFresh sources.read_full sources.selector_used
      (codes "dkim2")
      (codes "s1" ∷ [])
      1
      second_selector
allocate_historical_id_bounded-IsFresh_example =
    allocate_historical_id_bounded-IsFresh sources.read_full sources.selector_used (codes "dkim2") 1
      (codes "s1" ∷ []) (pos 3) second_selector second-allocated

allocate_historical_id_bounded_example :
    ((a : Allocated ℕ) × (allocate_historical_id_bounded sources.read_full sources.selector_used
          (codes "dkim2")
          1
          (codes "s1" ∷ [])
          (pos 3)
        ≡ ok a))
    ↔ Finds sources.read_full sources.selector_used (codes "dkim2") (codes "s1" ∷ []) 3 1
allocate_historical_id_bounded_example =
    allocate_historical_id_bounded_iff sources.read_full sources.selector_used (codes "dkim2")
      (codes "s1" ∷ []) (pos 3) 1

plan-rotated : plan_rotation sources plan 1 ≡ ok rotated
unfolding plan_rotation admits_plan exact_active_binding only_match scan binding_of_profile
    rotate_binding requested_algorithms canonical_algorithm_set all_fresh contains_every_algorithm
    compare_algorithms supports_native_key_custody allocate_ids allocate_historical_id_bounded
    allocate_within choose hex_text make_keys make_key new_credential canonical_dns_public_bytes
    dns_bytes_of_parsed is_canonical_key dns_bytes_of_key new_key_material next_builder
    rebase_materials rebase_key_material rebase_handle rebase_profile rebase_credential
    rebase_policy replace_profile_keys admits_replacement pair_keys pairs_with take_material
    swap_keys new_handle build_replaced build new_generation_with_state is_incomplete
    clone_materials clone_material clone_pair validated sort_records sort_func insert_by
    compare_handles compare_profiles compare_credentials compare_policies compare_materials
    strings_compare algorithm_rank rank_in text_ltb validate admit_all handle_round profile_round
    credential_round policy_round material_round has_credential all contains keep find_first
    selector_fits profile_by_id policy_by_key credential_by_handle of_profile policy_fits
    material_fits validate_identifier identifier_byte identifier_edge validate_domain_selector
    validate_canonical_dns_name canonical_dns_name is_canonical split_on valid_label drop_last
    dns_edge lower count_byte is_known_algorithm is_known_state policy_key material_generation
    read_string material_tenant material_domain material_use material_handle material_algorithm
    material_public pair_snapshot pair_algorithm pair_public text_beq
plan-rotated = refl

plan_rotation-IsRotated_example : IsRotated sources plan 1 rotated
plan_rotation-IsRotated_example = plan_rotation-IsRotated sources plan 1 rotated plan-rotated
