-- ===== src/Model/Rotation.antt =====
-- `PlanRotation` of `internal/dkim2model/rotation.go`: the keys of one active binding are replaced in
-- a complete successor. The random reader, the history, the key generator and the key codecs are
-- parameters; the plan's own nil tests have nothing to test here.
pub mod Exact
pub mod Binding
pub mod Planned
use opendkim_manage_go.Prelude.{
  ℕ, ◌+◌, ◌-◌, ◌%◌, ◌^◌, Bool, true, false, not, ◌&&◌, ◌||◌, List, [], ◌∷◌, map, Option, none, some,
  Text, codes, length, is_empty, contains, keep, Result, ok, err, is_err, or_fail, fail_if, ◌>>=◌,
  ◌>>◌, ◌==◌, ◌!=◌, nat_eq, text_eq, if◌then◌else◌,
}
use opendkim_manage_go.Prelude.Int.{ℤ, pos, leb_ℤ, ltb_ℤ, pos_part}
use opendkim_manage_go.Prelude.Sort.{sort_func}
use opendkim_manage_go.Model.Error.{Error, invalid, message}
use opendkim_manage_go.Model.Names.{validate_identifier, validate_canonical_dns_name}
use opendkim_manage_go.Model.Values.{
  Algorithm, ProfileUse, rsa_sha256, status_active, state_staging, compare_algorithms,
  supports_native_key_custody,
}
use opendkim_manage_go.Model.AlgorithmSet.{canonical_algorithm_set, contains_every_algorithm}
use opendkim_manage_go.Model.Allocation.{Allocated, allocate_historical_id_bounded}
use opendkim_manage_go.Model.Crypto.{Codecs, min_rsa_bits, max_rsa_bits}
use opendkim_manage_go.Model.KeyPair.{KeyPair, pair_public}
use opendkim_manage_go.Model.KeyMaterial.{KeyMaterial, new_key_material}
use opendkim_manage_go.Model.Records.{Profile, Credential, Policy, new_credential}
use opendkim_manage_go.Model.Generation.{Generation, profile_by_id, of_profile}
use opendkim_manage_go.Model.Generation.Reads.{only_match}
use opendkim_manage_go.Model.Builder.{Builder, next_builder, replace_profile_keys, build}

-- `^uint64(0)`, in `PlanRotation`
abbrev pub max_number : ℕ
max_number = 2 ^ 64 - 1

pub record RotationPlan : Type 0 where
  pub current : Generation
  pub next_generation : ℕ
  pub tenant_id : Text
  pub domain : Text
  pub profile_use : ProfileUse
  pub algorithms : List Algorithm
  pub rsa_bits : ℤ
  pub allocation_attempts : ℤ

-- What a plan takes from outside: `Random`, the two lookups of `History` (`none` for an error), and
-- `Generate`, whose result is `none` where it fails or returns a nil key.
pub record RotationSources (S : Type 0) : Type 0 where
  pub read_full : ℕ → S → Option (Text × S)
  pub selector_used : Text → Option Bool
  pub handle_used : Text → Option Bool
  pub generate : Algorithm → ℤ → S → Option KeyPair × S
  pub codecs : Codecs

-- The part of `exactActiveBinding` behind its policy.
unfoldable pub binding_of_profile :
    Generation → Policy → Option Profile → Result Error (Policy × Profile × List Credential)
binding_of_profile g policy none = err invalid
binding_of_profile g policy (some profile) = do
  fail_if (profile.status != status_active) invalid
  fail_if (length (keep (λ q. q.profile_id == profile.id) g.policies) != 1) invalid
  let credentials = of_profile profile.id g.credentials
  fail_if (length credentials == 0) invalid
  ok (policy, profile, credentials)

-- `exactActiveBinding`
unfoldable pub exact_active_binding :
    Generation → Text → Text → ProfileUse → Result Error (Policy × Profile × List Credential)
exact_active_binding g tenant domain profile_use =
    elim (only_match
      (λ q. q.tenant_id == tenant && (q.domain == domain && q.profile_use == profile_use))
      g.policies) [
        | none ↦ err invalid
        | some policy ↦
            if policy.status != status_active
            then err invalid
            else binding_of_profile g policy (profile_by_id g.profiles policy.profile_id)
      ]

-- The first test of `PlanRotation`.
unfoldable pub admits_plan : RotationPlan → Bool
admits_plan plan = not (
    plan.current.number == max_number
    || (plan.next_generation != plan.current.number + 1
        || (leb_ℤ plan.allocation_attempts (pos 0)
            || (is_err (validate_identifier plan.tenant_id)
                || (is_err (validate_canonical_dns_name plan.domain)
                    || not (supports_native_key_custody plan.profile_use))))))

-- The algorithms that the rotation gives the binding.
unfoldable pub requested_algorithms : RotationPlan → List Credential → Result Error (List Algorithm)
requested_algorithms plan credentials = do
  let current = sort_func compare_algorithms (map (λ c. c.algorithm) credentials)
  requested ←
      or_fail
        (canonical_algorithm_set (if is_empty plan.algorithms then current else plan.algorithms))
        invalid
  fail_if (not (contains_every_algorithm requested current)) invalid
  fail_if
      (contains requested rsa_sha256
        && (ltb_ℤ plan.rsa_bits (pos min_rsa_bits)
            || (ltb_ℤ (pos max_rsa_bits) plan.rsa_bits || pos_part plan.rsa_bits % 8 != 0)))
      invalid
  ok requested

-- The selector and the handle of a new credential.
pub record Identifiers : Type 0 where
  pub selector : Text
  pub handle : Text

-- `if err := …; err != nil { return nil, err }; return builder.Build()`
unfoldable pub build_replaced : Builder × Option Error → Result Error Generation
build_replaced (b, some e) = err e
build_replaced (b, none) = build b

module _ {S : Type 0} (sources : RotationSources S) (plan : RotationPlan) where
  -- The loop that allocates, with the two maps of used identifiers.
  unfoldable pub allocate_ids :
      List Algorithm → List Text → List Text → S → Result Error (List Identifiers × S)
  allocate_ids [] selectors handles reader = ok ([], reader)
  allocate_ids (_ ∷ rest) selectors handles reader = do
    selector ←
        allocate_historical_id_bounded sources.read_full sources.selector_used (codes "dkim2")
          reader selectors plan.allocation_attempts
    handle ←
        allocate_historical_id_bounded sources.read_full sources.handle_used (codes "key")
          selector.reader handles plan.allocation_attempts
    others ← allocate_ids rest selector.used handle.used handle.reader
    ok (record { selector = selector.identifier; handle = handle.identifier } ∷ others.0, others.1)

  -- One round of the loop that makes keys, behind `generate`.
  unfoldable pub make_key :
      Text
      → Text
      → Algorithm
      → Identifiers
      → Option KeyPair
      → Result Error (Credential × KeyMaterial)
  make_key profile_id tenant algorithm ids none =
      err (message (codes "generate protected DKIM2 rotation key"))
  make_key profile_id tenant algorithm ids (some pair) = do
    credential ←
        or_fail
          (new_credential sources.codecs plan.next_generation profile_id ids.selector algorithm
            (pair_public pair) ids.handle)
          invalid
    material ←
        or_fail
          (new_key_material plan.next_generation tenant plan.domain plan.profile_use ids.handle
            (some pair))
          invalid
    ok (credential, material)

  -- The loop that makes keys; the identifiers are as many as the algorithms.
  unfoldable pub make_keys :
      Text
      → Text
      → List Algorithm
      → List Identifiers
      → S
      → Result Error (List Credential × List KeyMaterial)
  make_keys profile_id tenant (algorithm ∷ algorithms) (ids ∷ rest) reader = do
    let (generated, reader') = sources.generate algorithm plan.rsa_bits reader
    one ← make_key profile_id tenant algorithm ids generated
    others ← make_keys profile_id tenant algorithms rest reader'
    ok (one.0 ∷ others.0, one.1 ∷ others.1)
  make_keys profile_id tenant _ _ reader = ok ([], [])

  -- The part of `PlanRotation` behind the binding.
  unfoldable pub rotate_binding : S → Policy × Profile × List Credential → Result Error Generation
  rotate_binding reader (policy, profile, credentials) = do
    requested ← requested_algorithms plan credentials
    ids ←
        allocate_ids requested (map (λ c. c.selector) plan.current.credentials)
          (map (λ h. h.id) plan.current.handles) reader
    keys ← make_keys profile.id policy.tenant_id requested ids.0 ids.1
    builder ← next_builder plan.current plan.next_generation state_staging
    build_replaced (replace_profile_keys builder profile.id keys.0 (map some keys.1))

  -- `PlanRotation`
  unfoldable pub plan_rotation : S → Result Error Generation
  plan_rotation reader = do
    fail_if (not (admits_plan plan)) invalid
    binding ← exact_active_binding plan.current plan.tenant_id plan.domain plan.profile_use
    rotate_binding reader binding
