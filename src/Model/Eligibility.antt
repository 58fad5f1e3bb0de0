-- ===== src/Model/Eligibility.antt =====
-- `RotationLimits` and `EligibleBindings` of `internal/dkim2model/rotation.go`. The `time` package is
-- the parameter `Clock`.
pub mod Since
pub mod Due
use opendkim_manage_go.Prelude.{
  ℕ, ◌+◌, ◌%◌, Bool, true, false, not, ◌&&◌, ◌||◌, List, [], ◌∷◌, ◌++◌, map, Option, none, some,
  Text, length, contains, Result, ok, err, fail_if, is_err, ◌>>=◌, ◌>>◌, ◌==◌, ◌!=◌, nat_eq,
  text_eq, if◌then◌else◌,
}
use opendkim_manage_go.Prelude.Int.{ℤ, pos, leb_ℤ, ltb_ℤ, pos_part}
use opendkim_manage_go.Prelude.Sort.{sort_func}
use opendkim_manage_go.Model.Error.{Error, invalid}
use opendkim_manage_go.Model.Instant.{Time, zero_time, is_zero, before, after, add}
use opendkim_manage_go.Model.Values.{ProfileUse, status_active}
use opendkim_manage_go.Model.Crypto.{min_rsa_bits, max_rsa_bits}
use opendkim_manage_go.Model.Records.{Profile, Credential, Policy}
use opendkim_manage_go.Model.Generation.{Generation, profile_by_id, of_profile}
use opendkim_manage_go.Model.Generation.Order.{strings_compare}
use opendkim_manage_go.Model.Lifecycle.Lineage.{
  Clock, parse_generalized_time, LineageFact, LineageHistory,
}

pub record RotationLimits : Type 0 where
  pub rotate_after : ℤ
  pub maximum_clock_skew : ℤ
  pub allocation_attempts : ℤ
  pub rsa_bits : ℤ
  pub maximum_bindings : ℤ

-- The test of `RotationLimits.Validate`.
unfoldable pub refuses_limits : RotationLimits → Bool
refuses_limits l =
    leb_ℤ l.rotate_after (pos 0)
    || (ltb_ℤ l.maximum_clock_skew (pos 0)
        || (leb_ℤ l.allocation_attempts (pos 0)
            || (ltb_ℤ l.rsa_bits (pos min_rsa_bits)
                || (ltb_ℤ (pos max_rsa_bits) l.rsa_bits
                    || (pos_part l.rsa_bits % 8 != 0 || leb_ℤ l.maximum_bindings (pos 0))))))

-- `RotationLimits.Validate`
unfoldable pub validate_rotation_limits : RotationLimits → Result Error (Unit {0})
validate_rotation_limits l = fail_if (refuses_limits l) invalid

pub record EligibilityDecision : Type 0 where
  pub due : Bool
  pub domain : Text
  pub tenant : Text
  pub profile_use : ProfileUse
  pub since : Time

-- The condition on a fact in `EligibleBindings`, negated.
unfoldable pub concerns : Policy → Credential → LineageFact → Bool
concerns policy c fact = not (
    fact.tenant != policy.tenant_id
    || (fact.domain != policy.domain
        || (fact.profile_use != policy.profile_use
            || (fact.selector != c.selector
                || (fact.algorithm != c.algorithm
                    || (fact.handle != c.handle_id || fact.public_spki != c.public_spki))))))

module _ (clock : Clock) (now : Time) (limits : RotationLimits) where
  -- `created.IsZero() || created.After(now.Add(limits.MaximumClockSkew))`
  unfoldable pub refuses_created : Time → Bool
  refuses_created created = is_zero created || after created (add now limits.maximum_clock_skew)

  -- `if earliest.IsZero() || created.Before(earliest) { earliest = created }`
  unfoldable pub earlier : Time → Time → Time
  earlier earliest created =
      if is_zero earliest || before created earliest then created else earliest

  -- The loop over the facts for one credential.
  unfoldable pub fact_loop :
      Policy → Credential → Time → List ℕ → List LineageFact → Result Error Time
  fact_loop policy c earliest seen [] = ok earliest
  fact_loop policy c earliest seen (fact ∷ rest) =
      let created = parse_generalized_time clock fact.created in
      let skipped = fact_loop policy c earliest seen rest in
      let taken = fact_loop policy c (earlier earliest created) (fact.generation ∷ seen) rest in
      if not (concerns policy c fact)
      then skipped
      else if contains seen fact.generation
      then err invalid
      else if refuses_created created
      then err invalid
      else taken

  -- The loop over the credentials of a binding.
  unfoldable pub credential_loop :
      Policy → List LineageFact → Time → List Credential → Result Error Time
  credential_loop policy facts since [] = ok since
  credential_loop policy facts since (c ∷ rest) = do
    earliest ← fact_loop policy c zero_time [] facts
    fail_if (is_zero earliest) invalid
    credential_loop policy facts (earlier since earliest) rest

  -- The checks of an active policy, and the time since which its binding has its keys.
  unfoldable pub binding_since :
      Generation → List LineageFact → Policy → Option Profile → Result Error Time
  binding_since g facts policy none = err invalid
  binding_since g facts policy (some profile) = do
    fail_if (profile.status != status_active) invalid
    let credentials = of_profile profile.id g.credentials
    fail_if (length credentials == 0) invalid
    credential_loop policy facts zero_time credentials

  abbrev pub decision_of : Policy → Time → EligibilityDecision
  decision_of policy since = record {
    due = true;
    domain = policy.domain;
    tenant = policy.tenant_id;
    profile_use = policy.profile_use;
    since = since;
  }

  -- The loop over the policies, with the number of active ones.
  unfoldable pub policy_loop :
      Generation
      → List LineageFact
      → ℕ
      → List EligibilityDecision
      → List Policy
      → Result Error (List EligibilityDecision)
  policy_loop g facts active due [] = ok due
  policy_loop g facts active due (policy ∷ rest) =
      let skipped = policy_loop g facts active due rest in
      if policy.status != status_active then skipped else (do
        fail_if (ltb_ℤ limits.maximum_bindings (pos (active + 1))) invalid
        since ← binding_since g facts policy (profile_by_id g.profiles policy.profile_id)
        let later = policy_loop g facts (active + 1) due rest
        let listed = policy_loop g facts (active + 1) (due ++ (decision_of policy since ∷ [])) rest
        if not (after (add since limits.rotate_after) now) then listed else later)

  -- The order of `slices.SortFunc`.
  unfoldable pub compare_decisions : EligibilityDecision → EligibilityDecision → ℤ
  compare_decisions left right =
      strings_compare (left.tenant ++ (0 ∷ (left.domain ++ (0 ∷ left.profile_use))))
        (right.tenant ++ (0 ∷ (right.domain ++ (0 ∷ right.profile_use))))

  -- `EligibleBindings`
  unfoldable pub eligible_bindings :
      Generation → LineageHistory → Result Error (List EligibilityDecision)
  eligible_bindings current history = do
    fail_if (not now.utc || (not history.is_whole || is_err (validate_rotation_limits limits)))
        invalid
    due ← policy_loop current history.facts 0 [] current.policies
    ok (sort_func compare_decisions due)
