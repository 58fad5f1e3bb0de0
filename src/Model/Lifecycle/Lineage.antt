-- ===== src/Model/Lifecycle/Lineage.antt =====
-- `LineageFact` and `LineageHistory` of `internal/dkim2model/rotation.go`, and
-- `validateGenerationLineageProjection` and `ValidateRotationCandidateIntent` of
-- `internal/dkim2model/lifecycle.go`. The codecs of keys and the two calls of the `time` package are
-- parameters.
pub mod Fresh
use opendkim_manage_go.Prelude.{
  ℕ, ◌+◌, Bool, true, false, not, ◌&&◌, ◌||◌, List, [], ◌∷◌, map, Option, none, some, Text, codes,
  length, ltb, keep, all, Result, ok, err, or_fail, fail_if, is_err, ◌>>=◌, ◌>>◌, ◌==◌, ◌!=◌,
  nat_eq, text_eq, if◌then◌else◌,
}
use opendkim_manage_go.Model.Error.{Error, invalid}
use opendkim_manage_go.Model.Instant.{Time, zero_time, is_zero}
use opendkim_manage_go.Model.Names.{validate_identifier, validate_canonical_dns_name}
use opendkim_manage_go.Model.Values.{
  Algorithm, ProfileUse, is_known_algorithm, supports_native_key_custody, state_staging,
  state_committed,
}
use opendkim_manage_go.Model.Crypto.{Codecs, canonical_dns_public_bytes}
use opendkim_manage_go.Model.Records.{Profile, Credential, Policy}
use opendkim_manage_go.Model.Generation.{Generation, profile_by_id}
use opendkim_manage_go.Model.Rotation.{max_number, exact_active_binding}
use opendkim_manage_go.Model.Lifecycle.{LifecycleBinding}
use opendkim_manage_go.Model.Lifecycle.Logical.{exclusive_policy_for_profile}
use opendkim_manage_go.Model.Lifecycle.Difference.{unique_rotated_binding}

-- `time.Parse("20060102150405Z", value)`, `none` for an error, and `Format` with that layout.
pub record Clock : Type 0 where
  pub parse_time : Text → Option Time
  pub format_time : Time → Text

-- The test behind `time.Parse`.
unfoldable pub canonical_time : Clock → Text → Option Time → Time
canonical_time clock value none = zero_time
canonical_time clock value (some parsed) =
    if not parsed.utc || clock.format_time parsed != value then zero_time else parsed

-- `parseGeneralizedTime`
unfoldable pub parse_generalized_time : Clock → Text → Time
parse_generalized_time clock value =
    if length value != 15 then zero_time else canonical_time clock value (clock.parse_time value)

pub record LineageFact : Type 0 where
  pub generation : ℕ
  pub created : Text
  pub tenant : Text
  pub domain : Text
  pub profile_use : ProfileUse
  pub selector : Text
  pub algorithm : Algorithm
  pub public_spki : Text
  pub handle : Text

pub record LineageHistory : Type 0 where
  pub is_whole : Bool
  pub facts : List LineageFact

module _ (clock : Clock) (codecs : Codecs) where
  -- The first test of `NewLineageFact`.
  unfoldable pub refuses_fact : LineageFact → Bool
  refuses_fact f =
      f.generation == 0
      || (is_err (validate_identifier f.tenant)
          || (is_err (validate_canonical_dns_name f.domain)
              || (not (supports_native_key_custody f.profile_use)
                  || (is_err (validate_canonical_dns_name f.selector)
                      || (not (is_known_algorithm f.algorithm)
                          || (is_err (validate_identifier f.handle)
                              || is_zero (parse_generalized_time clock f.created)))))))

  -- `NewLineageFact`, on the fields of the fact.
  unfoldable pub new_lineage_fact : LineageFact → Result Error LineageFact
  new_lineage_fact f = do
    fail_if (refuses_fact f) invalid
    _ ← or_fail (canonical_dns_public_bytes codecs f.algorithm f.public_spki) invalid
    ok f

  -- The loop of `LineageHistory.Clone`.
  unfoldable pub clone_facts : List LineageFact → Result Error (List LineageFact)
  clone_facts [] = ok []
  clone_facts (fact ∷ rest) = do
    clone ← or_fail (new_lineage_fact fact) invalid
    clones ← clone_facts rest
    ok (clone ∷ clones)

  -- `LineageHistory.Clone`
  unfoldable pub clone_history : LineageHistory → Result Error LineageHistory
  clone_history h = do
    facts ← clone_facts h.facts
    ok (record { is_whole = h.is_whole; facts = facts })

-- The condition on a fact in `validateGenerationLineageProjection`.
unfoldable pub records_credential : ℕ → Policy → Profile → Credential → LineageFact → Bool
records_credential number policy profile c fact =
    fact.generation == number
    && (fact.tenant == policy.tenant_id
        && (fact.domain == profile.domain
            && (fact.profile_use == policy.profile_use
                && (fact.selector == c.selector
                    && (fact.algorithm == c.algorithm
                        && (fact.handle == c.handle_id && fact.public_spki == c.public_spki))))))

-- One round of the loop over the credentials, on their profile and policy.
unfoldable pub projects_credential :
    ℕ → List LineageFact → Option Profile → Option Policy → Credential → Bool
projects_credential number facts (some profile) (some policy) c =
    length (keep (records_credential number policy profile c) facts) == 1
projects_credential number facts _ _ c = false

-- `validateGenerationLineageProjection`
unfoldable pub validate_generation_lineage_projection :
    Generation → LineageHistory → ℕ → Result Error (Unit {0})
validate_generation_lineage_projection g history number = do
  fail_if (g.number != number) invalid
  fail_if (length (keep (λ f. f.generation == number) history.facts) != length g.credentials)
      invalid
  fail_if
      (not (
        all
          (λ c.
            projects_credential number history.facts (profile_by_id g.profiles c.profile_id)
              (exclusive_policy_for_profile g c.profile_id) c)
          g.credentials))
      invalid

-- The condition on an earlier fact that a new credential must not meet.
unfoldable pub reuses_fact : Credential → LineageFact → Bool
reuses_fact c fact =
    fact.selector == c.selector
    || (fact.handle == c.handle_id
        || (fact.algorithm == c.algorithm && fact.public_spki == c.public_spki))

-- The loop over the candidate's new credentials.
unfoldable pub all_new : ℕ → List LineageFact → List Credential → Bool
all_new number facts credentials =
    all (λ c. all (λ f. not (ltb f.generation number) || not (reuses_fact c f)) facts) credentials

-- The first test of `ValidateRotationCandidateIntent`.
unfoldable pub refuses_candidate : Generation → Generation → LineageHistory → Bool
refuses_candidate current candidate history =
    current.state != state_committed
    || (candidate.state != state_staging && candidate.state != state_committed
        || (current.number == max_number
            || (candidate.number != current.number + 1 || not history.is_whole)))

-- `ValidateRotationCandidateIntent`
unfoldable pub validate_rotation_candidate_intent :
    Clock → Codecs → Generation → Generation → LineageHistory → Result Error LifecycleBinding
validate_rotation_candidate_intent clock codecs current candidate history = do
  fail_if (refuses_candidate current candidate history) invalid
  cloned ← or_fail (clone_history clock codecs history) invalid
  fail_if (not cloned.is_whole) invalid
  fail_if (not (all (λ f. not (ltb candidate.number f.generation)) cloned.facts)) invalid
  difference ← unique_rotated_binding candidate current
  _ ← validate_generation_lineage_projection current cloned current.number
  _ ← validate_generation_lineage_projection candidate cloned candidate.number
  let binding = difference.0
  bound ←
      or_fail (exact_active_binding candidate binding.tenant binding.domain binding.profile_use)
        invalid
  fail_if (bound.1.id != binding.profile_id) invalid
  fail_if (not (all_new candidate.number cloned.facts bound.2)) invalid
  ok binding
