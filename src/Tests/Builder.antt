-- ===== src/Tests/Builder.antt =====
-- The theorems on the `Builder` of `internal/dkim2model/generation.go`, at concrete inputs.
use opendkim_manage_go.Prelude.{
  ◌≡◌, ◌≢◌, refl, List, [], ◌∷◌, Option, none, some, Text, codes, all, contains, keep, text_beq,
}
use opendkim_manage_go.Model.Error.{invalid}
use opendkim_manage_go.Model.Names.{validate_identifier, identifier_byte, identifier_edge}
use opendkim_manage_go.Model.Values.{rollout_observe, state_staging, mldsa44_ed25519_sha512}
use opendkim_manage_go.Model.KeyPair.{pair_algorithm, pair_public, clone_pair}
use opendkim_manage_go.Model.KeyMaterial.{
  KeyMaterial, read_string, pair_snapshot, clone_material, material_generation, material_handle,
  material_algorithm, material_public,
}
use opendkim_manage_go.Model.Records.{Credential, Policy, new_handle, policy_key}
use opendkim_manage_go.Model.Generation.{key_of_policy, policy_by_key}
use opendkim_manage_go.Model.Builder.{
  Builder, admits_replacement, pairs_with, take_material, pair_keys, swap_keys,
  replace_profile_keys, upsert_in, upsert_policy,
}
use opendkim_manage_go.Model.Builder.Replacement.{
  IsReplaced, replace_profile_keys-IsReplaced, replace_profile_keys-unchanged,
}
use opendkim_manage_go.Model.Builder.Upsert.{upsert_policy-lookup}
use opendkim_manage_go.Tests.Data.{
  handles, handle_of, profiles, credentials, credential_of, policies, policy_of, materials,
  material_of,
}

abbrev old_keys : Builder
old_keys = record {
  number = 1;
  state = state_staging;
  handles = handles;
  profiles = profiles;
  credentials = credentials;
  policies = policies;
  materials = materials;
}

abbrev new_credentials : List Credential
new_credentials = credential_of 1 (codes "s3") (codes "h3") mldsa44_ed25519_sha512 ∷ []

abbrev new_materials : List (Option KeyMaterial)
new_materials = some (material_of 1 (codes "h3") mldsa44_ed25519_sha512) ∷ []

abbrev new_keys : Builder
new_keys = record old_keys {
  handles = handle_of 1 (codes "h3") ∷ [];
  credentials = new_credentials;
  materials = material_of 1 (codes "h3") mldsa44_ed25519_sha512 ∷ [];
}

old_keys-replaced :
    replace_profile_keys old_keys (codes "p1") new_credentials new_materials ≡ (new_keys, none)
unfolding replace_profile_keys admits_replacement pair_keys pairs_with take_material swap_keys
    contains keep all validate_identifier identifier_byte identifier_edge new_handle clone_material
    clone_pair read_string pair_snapshot material_generation material_handle material_algorithm
    material_public pair_algorithm pair_public text_beq
old_keys-replaced = refl

replace_profile_keys-IsReplaced_example :
    IsReplaced old_keys (codes "p1") new_credentials new_materials new_keys
replace_profile_keys-IsReplaced_example =
    replace_profile_keys-IsReplaced old_keys (codes "p1") new_credentials new_materials new_keys
      old_keys-replaced

unpaired-refused :
    replace_profile_keys old_keys (codes "p1") new_credentials (none ∷ [])
    ≡ (old_keys, some invalid)
unfolding replace_profile_keys admits_replacement pair_keys pairs_with contains all
    validate_identifier identifier_byte identifier_edge text_beq
unpaired-refused = refl

replace_profile_keys-unchanged_example : old_keys ≡ old_keys
replace_profile_keys-unchanged_example =
    replace_profile_keys-unchanged old_keys (codes "p1") new_credentials (none ∷ []) old_keys
      invalid unpaired-refused

abbrev observed : Policy
observed = record (policy_of 1) { rollout = rollout_observe }

abbrev observing : Builder
observing = record old_keys { policies = observed ∷ [] }

policy-upserted : upsert_policy old_keys observed ≡ (observing, none)
unfolding upsert_policy upsert_in policy_key text_beq
policy-upserted = refl

upsert_policy-lookup_example :
    (observed.generation ≡ old_keys.number)
    × (policy_by_key observing.policies (key_of_policy observed) ≡ some observed)
    × ((key : Text)
        → key ≢ key_of_policy observed
        → policy_by_key observing.policies key ≡ policy_by_key old_keys.policies key)
upsert_policy-lookup_example = upsert_policy-lookup observed old_keys observing policy-upserted
