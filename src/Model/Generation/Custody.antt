-- ===== src/Model/Generation/Custody.antt =====
-- Key custody in a generation that `validate` (`internal/dkim2model/generation.go`) accepts.
use opendkim_manage_go.Prelude.{
  ◌≡◌, sym, ap, ◌∙◌, true, map, some, some-injective, Text, contains, find_first, All, All-map,
  length-map, arith, ◌==◌, text_eq,
}
use opendkim_manage_go.Prelude.Lists.Counting.{
  contains_of_full, find_first_of_distinct, find_first_of_contains, find_first-All, All-both,
  All-map_list,
}
use opendkim_manage_go.Model.KeyMaterial.{
  KeyMaterial, material_handle, material_algorithm, material_public,
}
use opendkim_manage_go.Model.Records.{Handle, Credential, Policy}
use opendkim_manage_go.Model.Generation.{
  Generation, validate, credential_by_handle, policy_by_key, key_of_material, material_by_handle,
}
use opendkim_manage_go.Model.Generation.WellFormed.{IsWellFormed, OwnsCredential, OwnsMaterial}
use opendkim_manage_go.Model.Generation.Validate.{validate-IsWellFormed}

-- The private key of a credential: the material under its handle agrees with it in algorithm and
-- public key, and the policy of that material has the credential's profile.
pub record HasKey (g : Generation) (c : Credential) : Type 0 where
  pub material : KeyMaterial
  pub found : material_by_handle g.materials c.handle_id ≡ some material
  pub same_algorithm : material_algorithm material ≡ c.algorithm
  pub same_public : material_public material ≡ c.public_spki
  pub policy : Policy
  pub found_policy : policy_by_key g.policies (key_of_material material) ≡ some policy
  pub same_profile : policy.profile_id ≡ c.profile_id

module _ (g : Generation) (w : IsWellFormed g) where
  -- There are as many materials as handles, each under a handle of its own.
  material_of_handle :
      (handle : Text)
      → contains (map (λ h. h.id) g.handles) handle ≡ true
      → contains (map material_handle g.materials) handle ≡ true
  material_of_handle handle h =
      contains_of_full (map material_handle g.materials) (map (λ x. x.id) g.handles)
        w.unique_material_handles
        (All-map_list _ material_handle g.materials
          (All-map (OwnsMaterial g) _ g.materials (λ m o. o.handle) w.materials))
        (let a = length-map material_handle g.materials in
          let b = length-map (λ (x : Handle). x.id) g.handles in
          let c = w.material_count in let d = w.handle_count in omega arith)
        handle h

  key_of_credential :
      (c : Credential)
      → OwnsCredential g c
      → find_first (λ x. x.handle_id == c.handle_id) g.credentials ≡ some c
      → HasKey g c
  unfolding material_by_handle credential_by_handle
  key_of_credential c o self =
      let (m, e, k) =
        find_first_of_contains material_handle g.materials c.handle_id
          (material_of_handle c.handle_id o.handle) in
      let own : OwnsMaterial g m = find_first-All (OwnsMaterial g) _ g.materials m w.materials e in
      let same : own.credential ≡ c = some-injective _ _ (
        sym own.found_credential
        ∙ ap (λ t. find_first (λ x. x.handle_id == t) g.credentials) k
        ∙ self) in
      record {
        material = m;
        found = e;
        same_algorithm = own.same_algorithm ∙ ap (λ x. x.algorithm) same;
        same_public = own.same_public ∙ ap (λ x. x.public_spki) same;
        policy = own.policy;
        found_policy = own.found_policy;
        same_profile = own.same_profile ∙ ap (λ x. x.profile_id) same;
      }

-- In a generation that `validate` accepts, every credential has its private key: the material that is
-- found under the credential's handle has its algorithm and public key, and is bound by a policy to
-- the credential's profile. The code compares only the counts of handles, materials and credentials.
pub validate-HasKey : (g : Generation) → validate g ≡ true → All (HasKey g) g.credentials
validate-HasKey g h =
    let w = validate-IsWellFormed g h in
    All-map _ _ g.credentials (λ c p. key_of_credential g w c p.0 p.1)
      (All-both _ _ g.credentials w.credentials (
        find_first_of_distinct (λ (c : Credential). c.handle_id) g.credentials
          w.unique_credential_handles))
