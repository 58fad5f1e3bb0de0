-- ===== src/Tests/Model.antt =====
-- The theorems on generations, names and algorithm sets of `internal/dkim2model` and on record names
-- of `internal/selector`, at concrete inputs.
use opendkim_manage_go.Prelude.{
  arith, ◌≡◌, ◌≤◌, ◌↔◌, refl, true, List, [], ◌∷◌, map, some, Text, codes, text_eq, length, All,
  all, contains, distinct, keep, find_first, ok, err, text_beq, text_ltb,
}
use opendkim_manage_go.Prelude.Sort.{sort_func, insert_by}
use opendkim_manage_go.Model.Error.{closed}
use opendkim_manage_go.Model.Names.{
  validate_identifier, identifier_byte, identifier_edge, dns_edge, split_on, lower, valid_label,
  drop_last, count_byte, canonical_dns_name, is_canonical, validate_canonical_dns_name,
  validate_domain_selector, presentation,
}
use opendkim_manage_go.Model.Names.Canonical.{canonical_dns_name_idem}
use opendkim_manage_go.Model.Names.Grammar.{
  IsCanonicalName, validate_canonical_dns_name-IsCanonicalName,
}
use opendkim_manage_go.Model.Names.Owner.{IsOwner, validate_domain_selector-IsOwner}
use opendkim_manage_go.Model.Values.{
  rsa_sha256, ed25519_sha256, originator, state_committed, state_staging, is_known_algorithm,
  is_known_state, rank_in, algorithm_rank, compare_algorithms,
}
use opendkim_manage_go.Model.AlgorithmSet.{all_fresh, canonical_algorithm_set}
use opendkim_manage_go.Model.AlgorithmSet.Laws.{
  IsCanonical, canonical_algorithm_set-IsCanonical, canonical_algorithm_set_iff,
}
use opendkim_manage_go.Model.KeyPair.{pair_algorithm, pair_public, clone_pair}
use opendkim_manage_go.Model.KeyMaterial.{
  KeyMaterial, read_string, pair_snapshot, clone_material, close_material, rebase_key_material,
  material_generation, material_tenant, material_domain, material_use, material_handle,
  material_algorithm, material_public,
}
use opendkim_manage_go.Model.KeyMaterial.Ownership.{
  facts, no_facts, is_readable, close_material-no_facts, rebase_key_material-facts,
}
use opendkim_manage_go.Model.Records.{policy_key}
use opendkim_manage_go.Model.Records.PolicyKey.{policy_key-injective}
use opendkim_manage_go.Model.Generation.{
  validate, handle_round, profile_round, selector_fits, profile_by_id, policy_by_key,
  credential_by_handle, of_profile, credential_round, policy_fits, policy_round, material_fits,
  material_round, has_credential, sort_records, clone_materials, is_incomplete, validated,
  new_generation_with_state,
}
use opendkim_manage_go.Model.Generation.Loops.{admit_all}
use opendkim_manage_go.Model.Generation.Order.{
  strings_compare, compare_handles, compare_profiles, compare_credentials, compare_policies,
  compare_materials,
}
use opendkim_manage_go.Model.Generation.WellFormed.{IsWellFormed}
use opendkim_manage_go.Model.Generation.Validate.{new_generation_with_state-IsWellFormed}
use opendkim_manage_go.Model.Generation.Custody.{HasKey, validate-HasKey}
use opendkim_manage_go.Model.Generation.Reads.Lookup.{
  IsFound, credential_by_domain_selector-IsFound,
}
use opendkim_manage_go.Model.Builder.{Builder, next_builder, build, clone_generation}
use opendkim_manage_go.Model.Builder.Succession.{build-next_builder}
use opendkim_manage_go.Model.Generation.Renumbered.{renumbered}
use opendkim_manage_go.Model.Builder.Cloned.{clone_generation_of_built}
use opendkim_manage_go.Selector.{validate_record_name}
use opendkim_manage_go.Selector.RecordName.{
  validate_record_name_iff, validate_record_name_of_domain_selector,
}
use opendkim_manage_go.Tests.Data.{
  handles, profiles, credentials, policies, materials, generation, material_of,
}

generation-valid : validate generation ≡ true
unfolding validate admit_all handle_round profile_round credential_round policy_round material_round
    has_credential all contains keep find_first selector_fits profile_by_id policy_by_key
    credential_by_handle of_profile policy_fits material_fits validate_identifier identifier_byte
    identifier_edge validate_domain_selector validate_canonical_dns_name canonical_dns_name
    is_canonical split_on valid_label drop_last dns_edge lower count_byte is_known_algorithm
    is_known_state policy_key material_generation read_string material_tenant material_domain
    material_use material_handle material_algorithm material_public pair_snapshot pair_algorithm
    pair_public text_beq
generation-valid = refl

generation-built :
    new_generation_with_state 1 state_committed handles profiles credentials policies
      (map some materials)
    ≡ ok generation
unfolding new_generation_with_state is_incomplete clone_materials clone_material clone_pair
    validated sort_records sort_func insert_by compare_handles compare_profiles compare_credentials
    compare_policies compare_materials strings_compare algorithm_rank rank_in text_ltb validate
    admit_all handle_round profile_round credential_round policy_round material_round has_credential
    all contains keep find_first selector_fits profile_by_id policy_by_key credential_by_handle
    of_profile policy_fits material_fits validate_identifier identifier_byte identifier_edge
    validate_domain_selector validate_canonical_dns_name canonical_dns_name is_canonical split_on
    valid_label drop_last dns_edge lower count_byte is_known_algorithm is_known_state policy_key
    material_generation read_string material_tenant material_domain material_use material_handle
    material_algorithm material_public pair_snapshot pair_algorithm pair_public text_beq
generation-built = refl

new_generation_with_state-IsWellFormed_example : IsWellFormed generation
new_generation_with_state-IsWellFormed_example =
    new_generation_with_state-IsWellFormed 1 state_committed handles profiles credentials policies
      (map some materials) generation generation-built

clone_generation_of_built_example : clone_generation generation ≡ ok generation
clone_generation_of_built_example =
    clone_generation_of_built 1 state_committed handles profiles credentials policies
      (map some materials) generation generation-built

staging-known : is_known_state state_staging ≡ true
unfolding is_known_state text_beq
staging-known = refl

build-next_builder_example :
    (b : Builder) × (next_builder generation 5 state_staging ≡ ok b)
    × (build b ≡ ok (renumbered generation 5 state_staging))
build-next_builder_example =
    build-next_builder 1 state_committed handles profiles credentials policies (map some materials)
      generation 5 state_staging generation-built (omega arith) staging-known

validate-HasKey_example : All (HasKey generation) credentials
validate-HasKey_example = validate-HasKey generation generation-valid

credential_by_domain_selector-IsFound_example : All (IsFound generation) credentials
credential_by_domain_selector-IsFound_example =
    credential_by_domain_selector-IsFound generation generation-valid

two_algorithms-canonical :
    canonical_algorithm_set (ed25519_sha256 ∷ rsa_sha256 ∷ [])
    ≡ ok (rsa_sha256 ∷ ed25519_sha256 ∷ [])
unfolding canonical_algorithm_set all_fresh sort_func insert_by compare_algorithms algorithm_rank
    rank_in is_known_algorithm contains text_beq
two_algorithms-canonical = refl

canonical_algorithm_set-IsCanonical_example :
    IsCanonical (ed25519_sha256 ∷ rsa_sha256 ∷ []) (rsa_sha256 ∷ ed25519_sha256 ∷ [])
canonical_algorithm_set-IsCanonical_example =
    canonical_algorithm_set-IsCanonical (ed25519_sha256 ∷ rsa_sha256 ∷ [])
      (rsa_sha256 ∷ ed25519_sha256 ∷ []) two_algorithms-canonical

canonical_algorithm_set_example :
    ((result : List Text) × (canonical_algorithm_set (ed25519_sha256 ∷ rsa_sha256 ∷ [])
        ≡ ok result))
    ↔ ((1 ≤ 2)
        × (2 ≤ 3)
        × All (λ a. is_known_algorithm a ≡ true) (ed25519_sha256 ∷ rsa_sha256 ∷ [])
        × (distinct (ed25519_sha256 ∷ rsa_sha256 ∷ []) ≡ true))
canonical_algorithm_set_example = canonical_algorithm_set_iff (ed25519_sha256 ∷ rsa_sha256 ∷ [])

mixed_case-canonical : canonical_dns_name (codes "Example.ORG") ≡ ok (codes "example.org")
unfolding canonical_dns_name split_on valid_label drop_last dns_edge lower all
mixed_case-canonical = refl

canonical_dns_name_idem_example :
    canonical_dns_name (codes "example.org") ≡ ok (codes "example.org")
canonical_dns_name_idem_example =
    canonical_dns_name_idem (codes "Example.ORG") (codes "example.org") mixed_case-canonical

validate_canonical_dns_name-IsCanonicalName_example :
    (validate_canonical_dns_name (codes "a.b") ≡ ok tt) ↔ IsCanonicalName (codes "a.b")
validate_canonical_dns_name-IsCanonicalName_example =
    validate_canonical_dns_name-IsCanonicalName (codes "a.b")

selector-valid : validate_domain_selector (codes "example.org") (codes "s1") ≡ ok tt
unfolding validate_domain_selector validate_canonical_dns_name canonical_dns_name is_canonical
    split_on valid_label drop_last dns_edge lower count_byte all text_beq
selector-valid = refl

validate_domain_selector-IsOwner_example : IsOwner (codes "s1._domainkey.example.org")
validate_domain_selector-IsOwner_example =
    validate_domain_selector-IsOwner (codes "example.org") (codes "s1") selector-valid

validate_record_name_example : (validate_record_name (codes "s1") (codes "example.org") ≡ ok tt) ↔ (
    All (λ l. length l ≤ 63) (split_on b'.' (presentation (codes "example.org") (codes "s1")))
    × (length (presentation (codes "example.org") (codes "s1")) ≤ 253))
validate_record_name_example = validate_record_name_iff (codes "s1") (codes "example.org")

validate_record_name_of_domain_selector_example :
    validate_record_name (codes "s1") (codes "example.org") ≡ ok tt
validate_record_name_of_domain_selector_example =
    validate_record_name_of_domain_selector (codes "example.org") (codes "s1") selector-valid

tenant-valid : validate_identifier (codes "t1") ≡ ok tt
unfolding validate_identifier identifier_byte identifier_edge all
tenant-valid = refl

domain-valid : validate_canonical_dns_name (codes "a.b") ≡ ok tt
unfolding validate_canonical_dns_name canonical_dns_name is_canonical split_on valid_label drop_last
    dns_edge lower all text_beq
domain-valid = refl

policy_key-injective_example :
    (codes "t1" ≡ codes "t1") × (codes "a.b" ≡ codes "a.b") × (originator ≡ originator)
policy_key-injective_example =
    policy_key-injective (codes "t1") (codes "t1") (codes "a.b") (codes "a.b") originator originator
      tenant-valid tenant-valid domain-valid domain-valid refl

close_material-no_facts_example :
    let m = material_of 1 (codes "h1") rsa_sha256 in
    (facts (close_material m) ≡ no_facts)
    × (material_generation (close_material m) ≡ 0)
    × (clone_material (close_material m) ≡ err closed)
close_material-no_facts_example =
    close_material-no_facts (material_of 1 (codes "h1") rsa_sha256) refl

material-readable : is_readable (material_of 1 (codes "h1") rsa_sha256) ≡ true
unfolding is_readable
material-readable = refl

rebase_key_material-facts_example :
    let m = material_of 1 (codes "h1") rsa_sha256 in
    (n : KeyMaterial) × (rebase_key_material m 2 ≡ ok n)
    × (n ≡ record m { generation = 2 })
    × (facts n ≡ facts m)
    × (is_readable n ≡ true)
rebase_key_material-facts_example =
    rebase_key_material-facts (material_of 1 (codes "h1") rsa_sha256) 2 material-readable
