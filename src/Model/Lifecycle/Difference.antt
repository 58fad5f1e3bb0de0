-- ===== src/Model/Lifecycle/Difference.antt =====
-- `uniqueRotatedBinding` of `internal/dkim2model/lifecycle.go`, with `validateExtendedCredentials`.
pub mod Compared
pub mod Pairs
pub mod Meaning
use opendkim_manage_go.Prelude.{
  ℕ, ◌+◌, ◌-◌, Bool, true, false, not, ◌&&◌, ◌||◌, List, [], ◌∷◌, map, Option, none, some, Text,
  length, ltb, is_empty, all, Result, ok, err, fail_if, ◌>>=◌, ◌>>◌, ◌==◌, ◌!=◌, nat_eq, text_eq,
  if◌then◌else◌,
}
use opendkim_manage_go.Prelude.Maps.{get}
use opendkim_manage_go.Model.Error.{Error, invalid}
use opendkim_manage_go.Model.Values.{
  Algorithm, status_active, rollout_enforce, max_credentials_per_profile,
  supports_native_key_custody,
}
use opendkim_manage_go.Model.KeyMaterial.{
  KeyMaterial, material_tenant, material_domain, material_use, material_algorithm,
}
use opendkim_manage_go.Model.Records.{Profile, Credential, Policy}
use opendkim_manage_go.Model.Generation.{Generation, material_by_handle}
use opendkim_manage_go.Model.Lifecycle.{
  LifecycleBinding, LifecycleCredential, lifecycle_binding, lifecycle_credentials,
}
use opendkim_manage_go.Model.Lifecycle.Logical.{
  profiles_logical_equal, policies_logical_record_equal, credentials_logical_equal,
  material_bindings_equal, materials_logical_equal, profiles_by_id, credentials_by_algorithm,
  exclusive_policy_for_profile, policies_logical_equal, predecessor_uses_selector,
}

-- `allEqual` and `allReplaced` for one algorithm, behind the two materials.
unfoldable pub compare_keys :
    Credential → Credential → Option KeyMaterial → Option KeyMaterial → Result Error (Bool × Bool)
compare_keys old new (some old_material) (some new_material) =
    let credential_equal = credentials_logical_equal old new in
    let material_equal = materials_logical_equal old_material new_material in
    ok (
      credential_equal && material_equal,
      not credential_equal
          && (not material_equal
              && (old.selector != new.selector
                  && (old.handle_id != new.handle_id
                      && (old.public_spki != new.public_spki
                          && material_bindings_equal old_material new_material)))),
    )
compare_keys old new _ _ = err invalid

-- One round of the loop over the old credentials.
unfoldable pub compare_entry :
    Generation → Generation → Credential → Option Credential → Result Error (Bool × Bool)
compare_entry current predecessor old none = err invalid
compare_entry current predecessor old (some new) =
    compare_keys old new (material_by_handle predecessor.materials old.handle_id)
      (material_by_handle current.materials new.handle_id)

-- The loop over the old credentials.
unfoldable pub compare_all :
    Generation
    → Generation
    → List (Algorithm × Credential)
    → List (Algorithm × Credential)
    → Result Error (Bool × Bool)
compare_all current predecessor new [] = ok (true, true)
compare_all current predecessor new (entry ∷ rest) = do
  one ← compare_entry current predecessor entry.1 (get entry.0 new)
  others ← compare_all current predecessor new rest
  ok (one.0 && others.0, one.1 && others.1)

-- The material of one old credential, `reference`.
unfoldable pub reference_material :
    Generation → List (Algorithm × Credential) → Result Error (Option KeyMaterial)
reference_material predecessor [] = ok none
reference_material predecessor (entry ∷ _) =
    elim (material_by_handle predecessor.materials entry.1.handle_id) [
      | none ↦ err invalid
      | some material ↦ ok (some material)
    ]

-- The checks of a material under a new algorithm.
unfoldable pub extends_reference : Algorithm → Option KeyMaterial → Option KeyMaterial → Bool
extends_reference algorithm (some reference) (some material) =
    material_algorithm material == algorithm
    && (material_tenant material == material_tenant reference
        && (material_domain material == material_domain reference
            && material_use material == material_use reference))
extends_reference algorithm _ _ = false

abbrev pub is_found {ℓ} : {A : Type ℓ} → Option A → Bool
is_found none = false
is_found (some _) = true

-- One round of the loop over the new credentials.
unfoldable pub extension_round :
    Generation
    → Generation
    → List (Algorithm × Credential)
    → Option KeyMaterial
    → Algorithm × Credential
    → Bool
extension_round predecessor current old reference entry =
    is_found (get entry.0 old)
    || (extends_reference entry.0 reference (material_by_handle current.materials entry.1.handle_id)
        && not (
            is_found (material_by_handle predecessor.materials entry.1.handle_id)
            || predecessor_uses_selector predecessor entry.1.selector))

-- `validateExtendedCredentials`
unfoldable pub validate_extended_credentials :
    Generation
    → Generation
    → List (Algorithm × Credential)
    → List (Algorithm × Credential)
    → Result Error (Unit {0})
validate_extended_credentials predecessor current old new = do
  reference ← reference_material predecessor old
  fail_if (not (all (extension_round predecessor current old reference) new)) invalid

-- What the loop of `uniqueRotatedBinding` over the profiles keeps.
pub record Difference : Type 0 where
  pub changed_profile : Text
  pub added : ℕ
  pub retiring : List LifecycleCredential
  pub active : List LifecycleCredential

abbrev pub no_difference : Difference
no_difference = record { changed_profile = []; added = 0; retiring = []; active = [] }

-- The `switch` of a round, on `allEqual` and `allReplaced`.
unfoldable pub decide_difference :
    Text
    → List (Algorithm × Credential)
    → List (Algorithm × Credential)
    → Bool × Bool
    → Difference
    → Result Error Difference
decide_difference profile_id old new (all_equal, all_replaced) found =
    if all_equal && length new - length old == 0
    then ok found
    else if all_equal || (not all_replaced || not (is_empty found.changed_profile))
    then err invalid
    else ok (record {
      changed_profile = profile_id;
      added = length new - length old;
      retiring = lifecycle_credentials old;
      active = lifecycle_credentials new;
    })

-- The test of a round on the numbers of credentials.
unfoldable pub refuses_numbers :
    List (Algorithm × Credential) → List (Algorithm × Credential) → Bool
refuses_numbers old new =
    length old == 0
    || (ltb (length new) (length old) || ltb max_credentials_per_profile (length new))

-- One round of the loop over the profiles; `new` has at least as many entries as `old`.
unfoldable pub difference_round :
    Generation → Generation → Text → Difference → Result Error Difference
difference_round current predecessor profile_id found = do
  let old = credentials_by_algorithm predecessor profile_id
  let new = credentials_by_algorithm current profile_id
  fail_if (refuses_numbers old new) invalid
  both ← compare_all current predecessor new old
  _ ← validate_extended_credentials predecessor current old new
  decide_difference profile_id old new both found

-- The loop over the profiles.
unfoldable pub difference_loop :
    Generation → Generation → List Text → Difference → Result Error Difference
difference_loop current predecessor [] found = ok found
difference_loop current predecessor (profile_id ∷ rest) found = do
  next ← difference_round current predecessor profile_id found
  difference_loop current predecessor rest next

-- `!found || !profilesLogicalEqual(previous, next)`, negated.
unfoldable pub has_successor : Option Profile → Profile → Bool
has_successor none previous = false
has_successor (some next) previous = profiles_logical_equal previous next

-- The checks of profiles and policies before the loop.
unfoldable pub same_logical_records : Generation → Generation → Bool
same_logical_records current predecessor =
    not (
      length current.profiles != length predecessor.profiles
      || length current.policies != length predecessor.policies)
    && (not (
          length (profiles_by_id current) != length current.profiles
          || length (profiles_by_id predecessor) != length predecessor.profiles)
        && (all (λ e. has_successor (get e.0 (profiles_by_id current)) e.1)
              (profiles_by_id predecessor)
            && policies_logical_equal current predecessor))

-- The checks of the numbers of records behind the loop.
unfoldable pub refuses_totals : Generation → Generation → Difference → Bool
refuses_totals current predecessor found =
    is_empty found.changed_profile
    || (length current.credentials != length predecessor.credentials + found.added
        || (length current.handles != length predecessor.handles + found.added
            || length current.materials != length predecessor.materials + found.added))

-- The checks of the changed profile's two policies.
unfoldable pub admits_policies : Option Policy → Option Policy → Bool
admits_policies (some previous) (some now) =
    policies_logical_record_equal previous now
    && (previous.status == status_active
        && (previous.rollout == rollout_enforce
            && supports_native_key_custody previous.profile_use))
admits_policies _ _ = false

-- The last part of `uniqueRotatedBinding`.
unfoldable pub bind_difference :
    Option Policy
    → Option Policy
    → Difference
    → Result Error (LifecycleBinding × List LifecycleCredential × List LifecycleCredential)
bind_difference previous (some now) found =
    if admits_policies previous (some now)
    then ok (lifecycle_binding now, found.retiring, found.active)
    else err invalid
bind_difference previous none found = err invalid

-- `uniqueRotatedBinding`
unfoldable pub unique_rotated_binding :
    Generation
    → Generation
    → Result Error (LifecycleBinding × List LifecycleCredential × List LifecycleCredential)
unique_rotated_binding current predecessor = do
  fail_if (not (same_logical_records current predecessor)) invalid
  found ←
      difference_loop current predecessor (map (λ e. e.0) (profiles_by_id predecessor))
        no_difference
  fail_if (refuses_totals current predecessor found) invalid
  bind_difference (exclusive_policy_for_profile predecessor found.changed_profile)
      (exclusive_policy_for_profile current found.changed_profile) found
