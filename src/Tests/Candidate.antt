-- ===== src/Tests/Candidate.antt =====
-- The theorems on candidate digests (`internal/dkim2model/candidate.go`) at a generation of one key.
use opendkim_manage_go.Prelude.{
  ℕ, ◌+◌, ◌++◌, ◌≡◌, refl, [], ◌∷◌, some, codes, Text, ok, length, all, arith, text_beq,
}
use opendkim_manage_go.Prelude.Sort.{sort_func, insert_by}
use opendkim_manage_go.Model.Values.{state_committed, state_staging}
use opendkim_manage_go.Model.KeyPair.{pair_algorithm, pair_public, pair_private, clone_pair}
use opendkim_manage_go.Model.KeyMaterial.{
  read_string, pair_snapshot, clone_material, material_tenant, material_domain, material_use,
  material_handle, material_algorithm, material_public, material_private,
}
use opendkim_manage_go.Model.Records.{validity_window}
use opendkim_manage_go.Model.Instant.{is_zero}
use opendkim_manage_go.Model.Generation.{Generation}
use opendkim_manage_go.Model.Generation.Reads.{key_materials, clone_each}
use opendkim_manage_go.Model.Candidate.{
  DigestSources, CandidateMetadata, all_zero, put_uint32, write_count, write_uint64, write_framed,
  write_nullable, write_each, write_rows, window_texts, write_profile, write_credential,
  write_policy, write_material, write_candidate_generation, decodes_operation, valid_operation_id,
  candidate_content, new_candidate_metadata,
}
use opendkim_manage_go.Model.Candidate.Digest.{IsCommitment, new_candidate_metadata-IsCommitment}
use opendkim_manage_go.Model.Candidate.Content.{
  IsEncodable, facts_of, generation_code, candidate_content-injective,
}
use opendkim_manage_go.Tests.Data.{generation_at, copies}

abbrev digests : DigestSources
digests = record {
  sha256 = λ t. copies 31 0 ++ ((length t + 1) ∷ []);
  encode_base32 = λ t. copies 26 97;
  decode_base32 = λ t. some (copies 16 7);
  to_lower = λ t. t;
  to_upper = λ t. t;
  format_time = λ t. codes "2026-01-02T03:04:05Z";
}

abbrev operation : Text
operation = copies 26 97

abbrev first : Generation
first = generation_at 2 state_committed (codes "s1") (codes "h1") 9

-- The same content in the other state.
abbrev staged : Generation
staged = generation_at 2 state_staging (codes "s1") (codes "h1") 9

abbrev first_source : ℕ
first_source = 1

abbrev content : Text
content = generation_code.write (facts_of digests first)

first-content : write_candidate_generation digests first ≡ ok content
unfolding write_candidate_generation all write_rows write_each write_count put_uint32 write_framed
    write_profile write_credential write_policy write_material write_nullable sort_func insert_by
    window_texts text_beq key_materials validity_window is_zero clone_each clone_material clone_pair
    read_string pair_snapshot pair_algorithm pair_public pair_private material_tenant
    material_domain material_use material_handle material_algorithm material_public material_private
first-content = refl

staged-content : write_candidate_generation digests staged ≡ ok content
unfolding write_candidate_generation all write_rows write_each write_count put_uint32 write_framed
    write_profile write_credential write_policy write_material write_nullable sort_func insert_by
    window_texts text_beq key_materials validity_window is_zero clone_each clone_material clone_pair
    read_string pair_snapshot pair_algorithm pair_public pair_private material_tenant
    material_domain material_use material_handle material_algorithm material_public material_private
staged-content = refl

first-IsEncodable : IsEncodable digests operation 1 first
unfolding sort_func insert_by window_texts text_beq key_materials validity_window is_zero clone_each
    clone_material clone_pair read_string pair_snapshot pair_algorithm pair_public pair_private
    material_tenant material_domain material_use material_handle material_algorithm material_public
    material_private
first-IsEncodable = record {
  short_operation = omega arith;
  small_source = omega arith;
  small_number = omega arith;
  small_facts = omega arith;
}

staged-IsEncodable : IsEncodable digests operation 1 staged
unfolding sort_func insert_by window_texts text_beq key_materials validity_window is_zero clone_each
    clone_material clone_pair read_string pair_snapshot pair_algorithm pair_public pair_private
    material_tenant material_domain material_use material_handle material_algorithm material_public
    material_private
staged-IsEncodable = record {
  short_operation = omega arith;
  small_source = omega arith;
  small_number = omega arith;
  small_facts = omega arith;
}

candidate_content-injective_example :
    (operation ≡ operation)
    × (first_source ≡ first_source)
    × (first.number ≡ staged.number)
    × (facts_of digests first ≡ facts_of digests staged)
candidate_content-injective_example =
    candidate_content-injective digests operation operation first_source first_source first staged
      content content first-IsEncodable staged-IsEncodable first-content staged-content refl

abbrev committed : CandidateMetadata
committed = record {
  operation = operation;
  source = 1;
  generation = 2;
  digest = digests.sha256 (candidate_content operation 1 2 content);
}

sized : (t : Text) → length (digests.sha256 t) ≡ 32
sized t = refl

first-committed : new_candidate_metadata digests operation 1 first ≡ ok committed
unfolding new_candidate_metadata valid_operation_id decodes_operation all_zero candidate_content
    write_uint64 write_candidate_generation all write_rows write_each write_count put_uint32
    write_framed write_profile write_credential write_policy write_material write_nullable sort_func
    insert_by window_texts text_beq key_materials validity_window is_zero clone_each clone_material
    clone_pair read_string pair_snapshot pair_algorithm pair_public pair_private material_tenant
    material_domain material_use material_handle material_algorithm material_public material_private
first-committed = refl

new_candidate_metadata-IsCommitment_example : IsCommitment digests first committed
new_candidate_metadata-IsCommitment_example =
    new_candidate_metadata-IsCommitment digests operation 1 first committed sized first-committed
