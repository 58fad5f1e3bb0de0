-- ===== src/Model/GlobalRotation.antt =====
-- `PlanGlobalRotation`, `PlanGlobalExtension` and `campaignKeyReplacer` of
-- `internal/dkim2model/rotation.go`. Random bytes, history lookups, the key generator and the key
-- codecs are parameters; the plans' own nil tests have nothing to test here.
pub mod Replaced
pub mod Planned
use opendkim_manage_go.Prelude.{
  ℕ, ◌+◌, Bool, true, false, not, ◌&&◌, ◌||◌, List, [], ◌∷◌, map, Option, none, some, Text, codes,
  length, ltb, Result, ok, err, is_err, or_fail, fail_if, ◌>>=◌, ◌>>◌, ◌==◌, ◌!=◌, nat_eq,
  if◌then◌else◌,
}
use opendkim_manage_go.Prelude.Sort.{sort_func}
use opendkim_manage_go.Model.Error.{Error, invalid, message}
use opendkim_manage_go.Model.Instant.{Time}
use opendkim_manage_go.Model.Values.{Algorithm, ProfileUse, state_staging, compare_algorithms}
use opendkim_manage_go.Model.AlgorithmSet.{canonical_algorithm_set, contains_every_algorithm}
use opendkim_manage_go.Model.Allocation.{allocate_historical_id_bounded}
use opendkim_manage_go.Model.KeyPair.{KeyPair, pair_public}
use opendkim_manage_go.Model.KeyMaterial.{KeyMaterial, new_key_material}
use opendkim_manage_go.Model.Records.{Profile, Credential, Policy, new_credential}
use opendkim_manage_go.Model.Generation.{Generation}
use opendkim_manage_go.Model.Builder.{Builder, next_builder, replace_profile_keys, build}
use opendkim_manage_go.Model.Rotation.{RotationSources, max_number, exact_active_binding}
use opendkim_manage_go.Model.Lifecycle.Lineage.{Clock, LineageHistory}
use opendkim_manage_go.Model.Campaign.{BindingIdentity, active_bindings}
use opendkim_manage_go.Model.Eligibility.{
  RotationLimits, validate_rotation_limits, EligibilityDecision, eligible_bindings,
}

-- The state of a `campaignKeyReplacer`, with the reader.
pub record Replacer (S : Type 0) : Type 0 where
  pub used_selectors : List Text
  pub used_handles : List Text
  pub reader : S

-- A binding to replace, with its profile and its requested algorithms.
pub record Replacement : Type 0 where
  pub profile : Profile
  pub tenant : Text
  pub domain : Text
  pub profile_use : ProfileUse
  pub algorithms : List Algorithm

module _ {S : Type 0} (sources : RotationSources S) (next : ℕ) (limits : RotationLimits) where
  -- `newCampaignKeyReplacer`
  unfoldable pub new_campaign_key_replacer : Generation → S → Replacer S
  new_campaign_key_replacer current reader = record {
    used_selectors = map (λ c. c.selector) current.credentials;
    used_handles = map (λ h. h.id) current.handles;
    reader = reader;
  }

  -- The part of a round of `replace` behind `generate`.
  unfoldable pub make_pair :
      Replacement
      → Algorithm
      → Text
      → Text
      → Option KeyPair
      → Result Error (Credential × KeyMaterial)
  make_pair r algorithm selector handle none =
      err (message (codes "generate protected DKIM2 rotation key"))
  make_pair r algorithm selector handle (some pair) = do
    credential ←
        or_fail
          (new_credential sources.codecs next r.profile.id selector algorithm (pair_public pair)
            handle)
          invalid
    material ←
        or_fail (new_key_material next r.tenant r.domain r.profile_use handle (some pair)) invalid
    ok (credential, material)

  -- The loop of `replace` over the algorithms.
  unfoldable pub fresh_keys :
      Replacement
      → Replacer S
      → List Algorithm
      → Result Error ((List Credential × List KeyMaterial) × Replacer S)
  fresh_keys r state [] = ok (([], []), state)
  fresh_keys r state (algorithm ∷ rest) = do
    selector ←
        allocate_historical_id_bounded sources.read_full sources.selector_used (codes "dkim2")
          state.reader state.used_selectors limits.allocation_attempts
    handle ←
        allocate_historical_id_bounded sources.read_full sources.handle_used (codes "key")
          selector.reader state.used_handles limits.allocation_attempts
    let (generated, reader) = sources.generate algorithm limits.rsa_bits handle.reader
    one ← make_pair r algorithm selector.identifier handle.identifier generated
    others ←
        fresh_keys r
          (record { used_selectors = selector.used; used_handles = handle.used; reader = reader })
          rest
    ok ((one.0 ∷ others.0.0, one.1 ∷ others.0.1), others.1)

  -- `return builder.ReplaceProfileKeys(…)`
  unfoldable pub replaced_keys :
      Builder × Option Error → Replacer S → Result Error (Builder × Replacer S)
  replaced_keys (b, none) state = ok (b, state)
  replaced_keys (b, some e) state = err e

  -- `campaignKeyReplacer.replace`
  unfoldable pub replace : Replacement → Replacer S → Builder → Result Error (Builder × Replacer S)
  replace r state builder = do
    keys ← fresh_keys r state r.algorithms
    replaced_keys (replace_profile_keys builder r.profile.id keys.0.0 (map some keys.0.1)) keys.1

  -- The last loop of `PlanGlobalExtension`.
  unfoldable pub replace_all : List Replacement → Replacer S → Builder → Result Error Builder
  replace_all [] state builder = ok builder
  replace_all (r ∷ rest) state builder = do
    one ← replace r state builder
    replace_all rest one.1 one.0

  -- The binding of a decision with its sorted algorithms.
  unfoldable pub rotation_of :
      EligibilityDecision → Policy × Profile × List Credential → Replacement
  rotation_of d (policy, profile, credentials) = record {
    profile = profile;
    tenant = d.tenant;
    domain = d.domain;
    profile_use = d.profile_use;
    algorithms = sort_func compare_algorithms (map (λ c. c.algorithm) credentials);
  }

  -- The loop of `PlanGlobalRotation`.
  unfoldable pub rotation_loop :
      Generation → List EligibilityDecision → Replacer S → Builder → Result Error Builder
  rotation_loop current [] state builder = ok builder
  rotation_loop current (d ∷ rest) state builder = do
    bound ← exact_active_binding current d.tenant d.domain d.profile_use
    one ← replace (rotation_of d bound) state builder
    rotation_loop current rest one.1 one.0

-- The first loop of `PlanGlobalExtension`: the replacements, and whether one of them extends its
-- binding.
unfoldable pub extensions :
    Generation → List Algorithm → List BindingIdentity → Result Error (List Replacement × Bool)
extensions current requested [] = ok ([], false)
extensions current requested (b ∷ rest) = do
  bound ← exact_active_binding current b.tenant b.domain b.profile_use
  fail_if (not (contains_every_algorithm requested (map (λ c. c.algorithm) bound.2))) invalid
  others ← extensions current requested rest
  ok (
    record {
      profile = bound.1;
      tenant = b.tenant;
      domain = b.domain;
      profile_use = b.profile_use;
      algorithms = requested;
    }
        ∷ others.0,
    ltb (length bound.2) (length requested) || others.1,
  )

-- `PlanGlobalRotation` and `PlanGlobalExtension`; `none` where there is no candidate and no error.
module _ {S : Type 0} (sources : RotationSources S) (current : Generation) (next : ℕ)
    (limits : RotationLimits) (reader : S) where
  -- The tests on numbers and limits that both plans begin with.
  unfoldable pub refuses_global : Bool
  refuses_global =
      current.number == max_number
      || (next != current.number + 1 || is_err (validate_rotation_limits limits))

  -- The part of `PlanGlobalRotation` behind the decisions.
  unfoldable pub rotate_due :
      List EligibilityDecision → Result Error (Option (Generation × List EligibilityDecision))
  rotate_due [] = ok none
  rotate_due (d ∷ rest) = do
    builder ← next_builder current next state_staging
    changed ←
        rotation_loop sources next limits current (d ∷ rest)
          (new_campaign_key_replacer sources next limits current reader) builder
    candidate ← build changed
    ok (some (candidate, d ∷ rest))

  -- `PlanGlobalRotation`
  unfoldable pub plan_global_rotation :
      Clock → Time → LineageHistory → Result Error (Option (Generation × List EligibilityDecision))
  plan_global_rotation clock now history = do
    fail_if (refuses_global || (not now.utc || not history.is_whole)) invalid
    decisions ← eligible_bindings clock now limits current history
    rotate_due decisions

  -- The part of `PlanGlobalExtension` behind the first loop.
  unfoldable pub extend_all :
      List BindingIdentity
      → List Replacement × Bool
      → Result Error (Option (Generation × List BindingIdentity))
  extend_all bindings (replacements, false) = ok none
  extend_all bindings (replacements, true) = do
    builder ← next_builder current next state_staging
    changed ←
        replace_all sources next limits replacements
          (new_campaign_key_replacer sources next limits current reader) builder
    candidate ← build changed
    ok (some (candidate, bindings))

  -- `PlanGlobalExtension`
  unfoldable pub plan_global_extension :
      List Algorithm → Result Error (Option (Generation × List BindingIdentity))
  plan_global_extension algorithms = do
    fail_if refuses_global invalid
    requested ← canonical_algorithm_set algorithms
    bindings ← active_bindings current limits.maximum_bindings
    found ← extensions current requested bindings
    extend_all bindings found
