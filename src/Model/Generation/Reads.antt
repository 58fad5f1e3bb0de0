-- ===== src/Model/Generation/Reads.antt =====
-- The read accessors of `Generation` in `internal/dkim2model/generation.go`, with `Equivalent` and
-- `Close`. A lookup whose second result is `false` is `none` here.
pub mod Lookup
use opendkim_manage_go.Prelude.{
  ℕ, ◌+◌, Bool, true, false, not, ◌&&◌, ◌||◌, List, [], ◌∷◌, map, Option, none, some, Text, length,
  find_first, Result, ok, err, ◌>>=◌, ◌==◌, ◌!=◌, nat_eq, text_eq, if◌then◌else◌,
}
use opendkim_manage_go.Model.Error.{Error}
use opendkim_manage_go.Model.Instant.{Time}
use opendkim_manage_go.Model.KeyMaterial.{
  KeyMaterial, clone_material, close_material, equivalent_materials, material_handle,
}
use opendkim_manage_go.Model.Records.{Handle, Profile, Credential, Policy}
use opendkim_manage_go.Model.Generation.{Generation, profile_by_id}

-- The loop of `KeyMaterials`; `[]` where a clone fails.
unfoldable pub clone_each : List KeyMaterial → Result Error (List KeyMaterial)
clone_each [] = ok []
clone_each (m ∷ rest) = do clone ← clone_material m; clones ← clone_each rest; ok (clone ∷ clones)

-- `Generation.KeyMaterials`
unfoldable pub key_materials : Generation → List KeyMaterial
key_materials g = elim (clone_each g.materials) [ ok clones ↦ clones | err _ ↦ [] ]

module _ {ℓ} {A : Type ℓ} where
  -- A loop that keeps the last match and counts the matches.
  unfoldable pub scan : (A → Bool) → Option A × ℕ → List A → Option A × ℕ
  scan matches found [] = found
  scan matches found (x ∷ rest) =
      let next = scan matches (some x, found.1 + 1) rest in
      let same = scan matches found rest in if matches x then next else same

  -- `return result, count == 1`
  unfoldable pub only_match : (A → Bool) → List A → Option A
  only_match matches xs =
      let found = scan matches (none, 0) xs in if found.1 == 1 then found.0 else none

-- `Generation.ProfileByDomain`
unfoldable pub profile_by_domain : Generation → Text → Option Profile
profile_by_domain g domain = only_match (λ p. p.domain == domain) g.profiles

-- `found && profile.SigningDomain() == domain`
unfoldable pub is_of_domain : Option Profile → Text → Bool
is_of_domain none domain = false
is_of_domain (some p) domain = p.domain == domain

-- `Generation.CredentialByDomainSelector`
unfoldable pub credential_by_domain_selector : Generation → Text → Text → Option Credential
credential_by_domain_selector g domain selector =
    only_match
      (λ c. is_of_domain (profile_by_id g.profiles c.profile_id) domain && c.selector == selector)
      g.credentials

-- `Generation.KeyMaterialByHandle`
unfoldable pub key_material_by_handle : Generation → Text → Option KeyMaterial
key_material_by_handle g handle_id =
    elim (find_first (λ m. material_handle m == handle_id) g.materials) [
      | none ↦ none
      | some m ↦ elim (clone_material m) [ ok clone ↦ some clone | err _ ↦ none ]
    ]

-- The comparisons of records by `!=` and by fields in `Equivalent`. A time of the model has its instant
-- and location, which is what `!=` compares of a time without a monotonic reading.
unfoldable pub same_handles : Handle → Handle → Bool
same_handles left right = left.generation == right.generation && left.id == right.id

unfoldable pub same_times : Time → Time → Bool
same_times left right =
    left.instant == right.instant && (if left.utc then right.utc else not right.utc)

unfoldable pub same_profiles : Profile → Profile → Bool
same_profiles left right =
    left.generation == right.generation
    && (left.id == right.id
        && (left.domain == right.domain
            && (left.status == right.status
                && (same_times left.not_before right.not_before
                    && same_times left.not_after right.not_after))))

unfoldable pub same_credentials : Credential → Credential → Bool
same_credentials left right = not (
    left.generation != right.generation
    || (left.profile_id != right.profile_id
        || (left.selector != right.selector
            || (left.algorithm != right.algorithm
                || (left.handle_id != right.handle_id || left.public_spki != right.public_spki)))))

unfoldable pub same_policies : Policy → Policy → Bool
same_policies left right =
    left.generation == right.generation
    && (left.tenant_id == right.tenant_id
        && (left.domain == right.domain
            && (left.profile_use == right.profile_use
                && (left.profile_id == right.profile_id
                    && (left.status == right.status
                        && (left.rollout == right.rollout
                            && (left.compatibility == right.compatibility
                                && left.feedback_route_id == right.feedback_route_id)))))))

module _ {ℓ} {A : Type ℓ} where
  -- A loop over the indices of two slices of equal length.
  unfoldable pub all_same : (A → A → Bool) → List A → List A → Bool
  all_same same [] ys = true
  all_same same (x ∷ xs) [] = false
  all_same same (x ∷ xs) (y ∷ ys) = same x y && all_same same xs ys

-- `Generation.Equivalent`
unfoldable pub equivalent_generations : Generation → Generation → Bool
equivalent_generations g other =
    not (
      g.number != other.number
      || (g.state != other.state
          || (length g.handles != length other.handles
              || (length g.profiles != length other.profiles
                  || (length g.credentials != length other.credentials
                      || (length g.policies != length other.policies
                          || length g.materials != length other.materials))))))
    && (all_same same_handles g.handles other.handles
        && (all_same same_profiles g.profiles other.profiles
            && (all_same same_credentials g.credentials other.credentials
                && (all_same same_policies g.policies other.policies
                    && all_same equivalent_materials g.materials other.materials))))

-- `Generation.Close`: the generation, and the owners that it held.
unfoldable pub close_generation : Generation → Generation × List KeyMaterial
close_generation g = (
  record {
    number = 0;
    state = [];
    handles = [];
    profiles = [];
    credentials = [];
    policies = [];
    materials = [];
  },
  map close_material g.materials,
)
