-- ===== src/Model/Lifecycle/Logical.antt =====
-- The comparisons of records of two generations that leave the generation number aside, and the maps
-- of a generation, in `internal/dkim2model/lifecycle.go`.
use opendkim_manage_go.Prelude.{
  Bool, true, false, not, ◌&&◌, ◌||◌, List, [], map, Option, none, some, Text, length, contains,
  all, ◌==◌, ◌!=◌, nat_eq, text_eq,
}
use opendkim_manage_go.Prelude.Maps.{get, store_all}
use opendkim_manage_go.Model.Instant.{Time, same_instant}
use opendkim_manage_go.Model.Values.{Algorithm}
use opendkim_manage_go.Model.KeyMaterial.{
  KeyMaterial, material_tenant, material_domain, material_use, material_handle, material_algorithm,
  material_private, material_public,
}
use opendkim_manage_go.Model.Records.{Profile, Credential, Policy, validity_window}
use opendkim_manage_go.Model.Generation.{Generation, key_of_policy}
use opendkim_manage_go.Model.Generation.Reads.{only_match}

-- `leftWindow == rightWindow && (!leftWindow || …)`
unfoldable pub same_windows : Option (Time × Time) → Option (Time × Time) → Bool
same_windows none none = true
same_windows none (some _) = false
same_windows (some _) none = false
same_windows (some left) (some right) = same_instant left.0 right.0 && same_instant left.1 right.1

-- `profilesLogicalEqual`
unfoldable pub profiles_logical_equal : Profile → Profile → Bool
profiles_logical_equal left right =
    left.id == right.id
    && (left.domain == right.domain
        && (left.status == right.status
            && same_windows (validity_window left) (validity_window right)))

-- `policiesLogicalRecordEqual`
unfoldable pub policies_logical_record_equal : Policy → Policy → Bool
policies_logical_record_equal left right =
    left.tenant_id == right.tenant_id
    && (left.domain == right.domain
        && (left.profile_use == right.profile_use
            && (left.profile_id == right.profile_id
                && (left.status == right.status
                    && (left.rollout == right.rollout
                        && (left.compatibility == right.compatibility
                            && left.feedback_route_id == right.feedback_route_id))))))

-- `credentialsLogicalEqual`
unfoldable pub credentials_logical_equal : Credential → Credential → Bool
credentials_logical_equal left right =
    left.profile_id == right.profile_id
    && (left.selector == right.selector
        && (left.algorithm == right.algorithm
            && (left.handle_id == right.handle_id && left.public_spki == right.public_spki)))

-- `materialBindingsEqual`
unfoldable pub material_bindings_equal : KeyMaterial → KeyMaterial → Bool
material_bindings_equal left right =
    material_tenant left == material_tenant right
    && (material_domain left == material_domain right
        && (material_use left == material_use right
            && material_algorithm left == material_algorithm right))

-- `materialsLogicalEqual`
unfoldable pub materials_logical_equal : KeyMaterial → KeyMaterial → Bool
materials_logical_equal left right =
    not (not (material_bindings_equal left right) || material_handle left != material_handle right)
    && (material_private left == material_private right
        && material_public left == material_public right)

-- `profilesByID`
unfoldable pub profiles_by_id : Generation → List (Text × Profile)
profiles_by_id g = store_all (λ _. true) (λ p. p.id) (λ p. p) [] g.profiles

-- `credentialsByAlgorithm`
unfoldable pub credentials_by_algorithm : Generation → Text → List (Algorithm × Credential)
credentials_by_algorithm g profile_id =
    store_all (λ c. c.profile_id == profile_id) (λ c. c.algorithm) (λ c. c) [] g.credentials

-- `exclusivePolicyForProfile`; `none` where the second result is `false`.
unfoldable pub exclusive_policy_for_profile : Generation → Text → Option Policy
exclusive_policy_for_profile g profile_id = only_match (λ p. p.profile_id == profile_id) g.policies

-- `!found || !policiesLogicalRecordEqual(policy, other)`, negated.
unfoldable pub has_equal : Option Policy → Policy → Bool
has_equal none policy = false
has_equal (some other) policy = policies_logical_record_equal policy other

-- `policiesLogicalEqual`
unfoldable pub policies_logical_equal : Generation → Generation → Bool
policies_logical_equal left right =
    let right_by_key = store_all (λ _. true) key_of_policy (λ p. p) [] right.policies in
    not (length left.policies != length right.policies)
    && all (λ p. has_equal (get (key_of_policy p) right_by_key) p) left.policies

-- `predecessorUsesSelector`
unfoldable pub predecessor_uses_selector : Generation → Text → Bool
predecessor_uses_selector predecessor selector =
    contains (map (λ c. c.selector) predecessor.credentials) selector
