-- ===== src/Model/Generation/Order.antt =====
-- The comparisons of `sortRecords` in `internal/dkim2model/generation.go`.
use opendkim_manage_go.Prelude.{Bool, true, Text, text_ltb, text_eq, nat_eq, ◌!=◌, if◌then◌else◌}
use opendkim_manage_go.Prelude.Int.{ℤ, pos, negsuc, sub_ℕ}
use opendkim_manage_go.Model.Values.{algorithm_rank}
use opendkim_manage_go.Model.KeyMaterial.{KeyMaterial, material_handle}
use opendkim_manage_go.Model.Records.{Handle, Profile, Credential, Policy, policy_key}

-- `stringsCompare`
unfoldable pub strings_compare : Text → Text → ℤ
unfolding text_ltb
strings_compare left right =
    if text_ltb left right then negsuc 0 else if text_ltb right left then pos 1 else pos 0

-- `compared != 0`
abbrev pub is_nonzero : ℤ → Bool
is_nonzero (pos n) = n != 0
is_nonzero (negsuc n) = true

unfoldable pub compare_handles : Handle → Handle → ℤ
unfolding strings_compare
compare_handles left right = strings_compare left.id right.id

unfoldable pub compare_profiles : Profile → Profile → ℤ
unfolding strings_compare
compare_profiles left right = strings_compare left.id right.id

unfoldable pub compare_credentials : Credential → Credential → ℤ
unfolding strings_compare algorithm_rank
compare_credentials left right =
    let by_profile = strings_compare left.profile_id right.profile_id in
    let by_rank = sub_ℕ (algorithm_rank left.algorithm) (algorithm_rank right.algorithm) in
    if is_nonzero by_profile
    then by_profile
    else if is_nonzero by_rank
    then by_rank
    else strings_compare left.selector right.selector

unfoldable pub compare_policies : Policy → Policy → ℤ
unfolding strings_compare policy_key
compare_policies left right =
    strings_compare (policy_key left.tenant_id left.domain left.profile_use)
      (policy_key right.tenant_id right.domain right.profile_use)

unfoldable pub compare_materials : KeyMaterial → KeyMaterial → ℤ
unfolding strings_compare material_handle
compare_materials left right = strings_compare (material_handle left) (material_handle right)
