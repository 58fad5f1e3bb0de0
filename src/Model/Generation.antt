-- ===== src/Model/Generation.antt =====
-- A complete generation, `Generation` of `internal/dkim2model/generation.go`: its construction and
-- the whole-snapshot validation. Go maps that a loop fills are read here from the records that the
-- loop has passed; a lookup by a key finds the record that was stored under it.
pub mod Loops
pub mod Order
pub mod WellFormed
pub mod Rounds
pub mod Validate
pub mod Custody
pub mod Sorted
pub mod Renumbered
pub mod Reads
use opendkim_manage_go.Prelude.{
  ℕ, Bool, true, false, not, ◌&&◌, ◌||◌, List, [], ◌∷◌, ◌++◌, map, Option, none, some, Text, length,
  is_empty, ltb, contains, find_first, keep, all, Result, ok, err, fail_if, is_err, ◌>>=◌, ◌>>◌,
  ◌==◌, ◌!=◌, nat_eq, text_eq, if◌then◌else◌,
}
use opendkim_manage_go.Prelude.Sort.{sort_func}
use opendkim_manage_go.Model.Error.{Error, invalid}
use opendkim_manage_go.Model.Names.{validate_identifier, validate_domain_selector}
use opendkim_manage_go.Model.Values.{
  DatasetState, is_known_state, state_committed, is_known_algorithm, status_active, rollout_enforce,
  max_credentials_per_profile,
}
use opendkim_manage_go.Model.KeyMaterial.{
  KeyMaterial, clone_material, material_generation, material_tenant, material_domain, material_use,
  material_handle, material_algorithm, material_public,
}
use opendkim_manage_go.Model.Records.{Handle, Profile, Credential, Policy, policy_key}
use opendkim_manage_go.Model.Generation.Loops.{admit_all}
use opendkim_manage_go.Model.Generation.Order.{
  compare_handles, compare_profiles, compare_credentials, compare_policies, compare_materials,
}

pub record Generation : Type 0 where
  pub number : ℕ
  pub state : DatasetState
  pub handles : List Handle
  pub profiles : List Profile
  pub credentials : List Credential
  pub policies : List Policy
  pub materials : List KeyMaterial

-- The key of a policy, and of a material's policy.
abbrev pub key_of_policy : Policy → Text
unfolding policy_key
key_of_policy p = policy_key p.tenant_id p.domain p.profile_use

abbrev pub key_of_material : KeyMaterial → Text
unfolding policy_key material_tenant material_domain material_use
key_of_material m = policy_key (material_tenant m) (material_domain m) (material_use m)

-- `selectionKey`
abbrev pub selection_key : KeyMaterial → Text
unfolding key_of_material material_algorithm
selection_key m = key_of_material m ++ (0 ∷ material_algorithm m)

-- The lookups in the maps that are keyed by a record's identifier, handle or policy tuple.
unfoldable pub profile_by_id : List Profile → Text → Option Profile
profile_by_id profiles id = find_first (λ p. p.id == id) profiles

unfoldable pub policy_by_key : List Policy → Text → Option Policy
policy_by_key policies key = find_first (λ p. key_of_policy p == key) policies

unfoldable pub credential_by_handle : List Credential → Text → Option Credential
credential_by_handle credentials handle = find_first (λ c. c.handle_id == handle) credentials

-- `materialByHandle`, in `lifecycle.go`
unfoldable pub material_by_handle : List KeyMaterial → Text → Option KeyMaterial
material_by_handle materials handle = find_first (λ m. material_handle m == handle) materials

-- One round of each loop of `validate`: whether it passes, behind the records `seen` before.
unfoldable pub handle_round : ℕ → List Handle → Handle → Bool
handle_round number seen h =
    not (h.generation != number || is_err (validate_identifier h.id))
    && not (contains (map (λ s. s.id) seen) h.id)

unfoldable pub profile_round : ℕ → List Profile → Profile → Bool
profile_round number seen p = p.generation == number && not (contains (map (λ s. s.id) seen) p.id)

-- `!found || ValidateDomainSelector(…) != nil`, negated.
unfoldable pub selector_fits : Option Profile → Credential → Bool
selector_fits none c = false
selector_fits (some p) c = not (is_err (validate_domain_selector p.domain c.selector))

-- The credentials of one profile.
unfoldable pub of_profile : Text → List Credential → List Credential
of_profile id credentials = keep (λ c. c.profile_id == id) credentials

unfoldable pub credential_round : ℕ → List Text → List Profile → List Credential → Credential → Bool
credential_round number handles profiles seen c =
    not (c.generation != number || not (is_known_algorithm c.algorithm))
    && (selector_fits (profile_by_id profiles c.profile_id) c
        && (contains handles c.handle_id
            && (not (contains (map (λ s. s.handle_id) seen) c.handle_id)
                && (not (contains (map (λ s. s.selector) seen) c.selector)
                    && (not (
                          contains (map (λ s. s.algorithm) (of_profile c.profile_id seen))
                            c.algorithm)
                        && not (
                            ltb max_credentials_per_profile
                              (length (of_profile c.profile_id (c ∷ seen)))))))))

-- The checks of the policy loop against the policy's profile.
unfoldable pub policy_fits : ℕ → Option Profile → Policy → Bool
policy_fits number none p = false
policy_fits number (some profile) p =
    not (p.generation != number || profile.domain != p.domain)
    && (not (
          (p.status == status_active || p.rollout == rollout_enforce)
          && profile.status != status_active)
        && not (p.rollout == rollout_enforce && p.status != status_active))

unfoldable pub policy_round : ℕ → List Profile → List Policy → Policy → Bool
policy_round number profiles seen p =
    policy_fits number (profile_by_id profiles p.profile_id) p
    && not (contains (map key_of_policy seen) (key_of_policy p))

-- The checks of the material loop against the policy and the credential of the material.
unfoldable pub material_fits : Option Policy → Option Credential → KeyMaterial → Bool
material_fits none credential m = false
material_fits (some p) none m = false
material_fits (some p) (some c) m =
    p.profile_id == c.profile_id
    && (material_algorithm m == c.algorithm && material_public m == c.public_spki)

unfoldable pub material_round :
    ℕ → List Text → List Policy → List Credential → List KeyMaterial → KeyMaterial → Bool
material_round number handles policies credentials seen m =
    not (material_generation m != number || not (is_known_algorithm (material_algorithm m)))
    && (contains handles (material_handle m)
        && (not (contains (map material_handle seen) (material_handle m))
            && (not (contains (map selection_key seen) (selection_key m))
                && material_fits (policy_by_key policies (key_of_material m))
                    (credential_by_handle credentials (material_handle m)) m)))

-- `profileCredentialCount[profileID] == 0`, negated.
unfoldable pub has_credential : List Credential → Profile → Bool
has_credential credentials p = not (length (of_profile p.id credentials) == 0)

-- `Generation.validate`
unfoldable pub validate : Generation → Bool
validate g =
    not (g.number == 0 || not (is_known_state g.state))
    && (admit_all (handle_round g.number) [] g.handles
        && (admit_all (profile_round g.number) [] g.profiles
            && (admit_all (credential_round g.number (map (λ h. h.id) g.handles) g.profiles) []
                  g.credentials
                && (all (has_credential g.credentials) g.profiles
                    && (admit_all (policy_round g.number g.profiles) [] g.policies
                        && (admit_all
                              (material_round g.number (map (λ h. h.id) g.handles) g.policies
                                g.credentials)
                              [] g.materials
                            && not (
                                length g.materials != length g.credentials
                                || length g.handles != length g.credentials)))))))

-- `sortRecords`
unfoldable pub sort_records : Generation → Generation
sort_records g = record g {
  handles = sort_func compare_handles g.handles;
  profiles = sort_func compare_profiles g.profiles;
  credentials = sort_func compare_credentials g.credentials;
  policies = sort_func compare_policies g.policies;
  materials = sort_func compare_materials g.materials;
}

-- The loop of `NewGenerationWithState` over the materials, nil pointers among them.
unfoldable pub clone_materials : List (Option KeyMaterial) → Result Error (List KeyMaterial)
clone_materials [] = ok []
clone_materials (none ∷ rest) = err invalid
clone_materials (some m ∷ rest) = elim (clone_material m) [
  | err _ ↦ err invalid
  | ok clone ↦ do clones ← clone_materials rest; ok (clone ∷ clones)
]

-- The first test of `NewGenerationWithState`.
unfoldable pub is_incomplete :
    ℕ
    → DatasetState
    → List Handle
    → List Profile
    → List Credential
    → List Policy
    → List (Option KeyMaterial)
    → Bool
is_incomplete number state handles profiles credentials policies materials =
    number == 0
    || (not (is_known_state state)
        || (is_empty handles
            || (is_empty profiles
                || (is_empty credentials
                    || (is_empty policies
                        || (is_empty materials || length materials != length handles))))))

-- `if err := result.validate(); err != nil { … return nil, err }; return result, nil`
unfoldable pub validated : Generation → Result Error Generation
validated result = if validate result then ok result else err invalid

-- `NewGenerationWithState`
unfoldable pub new_generation_with_state :
    ℕ
    → DatasetState
    → List Handle
    → List Profile
    → List Credential
    → List Policy
    → List (Option KeyMaterial)
    → Result Error Generation
new_generation_with_state number state handles profiles credentials policies materials = do
  fail_if (is_incomplete number state handles profiles credentials policies materials) invalid
  clones ← clone_materials materials
  validated (
      sort_records (record {
        number = number;
        state = state;
        handles = handles;
        profiles = profiles;
        credentials = credentials;
        policies = policies;
        materials = clones;
      }))

-- `NewGeneration`
unfoldable pub new_generation :
    ℕ
    → List Handle
    → List Profile
    → List Credential
    → List Policy
    → List (Option KeyMaterial)
    → Result Error Generation
new_generation number = new_generation_with_state number state_committed
