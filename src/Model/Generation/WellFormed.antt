-- ===== src/Model/Generation/WellFormed.antt =====
-- What `validate` of `internal/dkim2model/generation.go` guarantees of a generation.
use opendkim_manage_go.Prelude.{
  ℕ, ◌≡◌, ◌≢◌, refl, true, false, map, some, Text, length, contains, distinct, All, Result, ok, err,
  is_err, nat_eq, text_eq,
}
use opendkim_manage_go.Model.Error.{Error}
use opendkim_manage_go.Model.Names.{validate_identifier, validate_domain_selector}
use opendkim_manage_go.Model.Values.{
  is_known_state, is_known_algorithm, status_active, rollout_enforce,
}
use opendkim_manage_go.Model.KeyMaterial.{
  KeyMaterial, material_generation, material_handle, material_algorithm, material_public,
}
use opendkim_manage_go.Model.Records.{Handle, Profile, Credential, Policy}
use opendkim_manage_go.Model.Generation.{
  Generation, profile_by_id, policy_by_key, credential_by_handle, of_profile, key_of_policy,
  key_of_material, selection_key,
}

pub ok_of_is_err : (r : Result Error (Unit {0})) → is_err r ≡ false → r ≡ ok tt
ok_of_is_err (ok tt) h = refl
ok_of_is_err (err e) h = cc

-- A handle of the generation.
pub record OwnsHandle (number : ℕ) (h : Handle) : Type 0 where
  pub generation : h.generation ≡ number
  pub identifier : validate_identifier h.id ≡ ok tt

-- A credential of the generation: it names one of its handles and one of its profiles, under whose
-- domain its selector is a DNS owner name.
pub record OwnsCredential (g : Generation) (c : Credential) : Type 0 where
  pub generation : c.generation ≡ g.number
  pub known : is_known_algorithm c.algorithm ≡ true
  pub profile : Profile
  pub found : profile_by_id g.profiles c.profile_id ≡ some profile
  pub owner : validate_domain_selector profile.domain c.selector ≡ ok tt
  pub handle : contains (map (λ h. h.id) g.handles) c.handle_id ≡ true

-- A policy of the generation: its profile has its domain, only an active profile has an active or
-- enforced policy, and only an active policy is enforced.
pub record OwnsPolicy (g : Generation) (p : Policy) : Type 0 where
  pub generation : p.generation ≡ g.number
  pub profile : Profile
  pub found : profile_by_id g.profiles p.profile_id ≡ some profile
  pub domain : profile.domain ≡ p.domain
  pub active : p.status ≡ status_active → profile.status ≡ status_active
  pub enforced :
      p.rollout ≡ rollout_enforce → (profile.status ≡ status_active) × (p.status ≡ status_active)

-- A material of the generation: it belongs to one of its policies and one of its credentials, both
-- of one profile, and agrees with the credential in algorithm and public key.
pub record OwnsMaterial (g : Generation) (m : KeyMaterial) : Type 0 where
  pub generation : material_generation m ≡ g.number
  pub handle : contains (map (λ h. h.id) g.handles) (material_handle m) ≡ true
  pub policy : Policy
  pub credential : Credential
  pub found_policy : policy_by_key g.policies (key_of_material m) ≡ some policy
  pub found_credential : credential_by_handle g.credentials (material_handle m) ≡ some credential
  pub same_profile : policy.profile_id ≡ credential.profile_id
  pub same_algorithm : material_algorithm m ≡ credential.algorithm
  pub same_public : material_public m ≡ credential.public_spki

-- A complete generation: every record belongs to it and refers to records that are there, every
-- identifying key is unique, every profile has a credential, and there are as many handles and
-- materials as credentials.
pub record IsWellFormed (g : Generation) : Type 0 where
  pub numbered : g.number ≢ 0
  pub known_state : is_known_state g.state ≡ true
  pub handles : All (OwnsHandle g.number) g.handles
  pub unique_handles : distinct (map (λ h. h.id) g.handles) ≡ true
  pub profiles : All (λ p. p.generation ≡ g.number) g.profiles
  pub unique_profiles : distinct (map (λ p. p.id) g.profiles) ≡ true
  pub credentials : All (OwnsCredential g) g.credentials
  pub unique_credential_handles : distinct (map (λ c. c.handle_id) g.credentials) ≡ true
  pub unique_selectors : distinct (map (λ c. c.selector) g.credentials) ≡ true
  pub unique_algorithms :
      (id : Text) → distinct (map (λ c. c.algorithm) (of_profile id g.credentials)) ≡ true
  pub covered : All (λ p. length (of_profile p.id g.credentials) ≢ 0) g.profiles
  pub policies : All (OwnsPolicy g) g.policies
  pub unique_policies : distinct (map key_of_policy g.policies) ≡ true
  pub materials : All (OwnsMaterial g) g.materials
  pub unique_material_handles : distinct (map material_handle g.materials) ≡ true
  pub unique_selections : distinct (map selection_key g.materials) ≡ true
  pub material_count : length g.materials ≡ length g.credentials
  pub handle_count : length g.handles ≡ length g.credentials
