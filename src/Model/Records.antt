-- ===== src/Model/Records.antt =====
-- The public records of a generation (`internal/dkim2model/records.go`). A returned copy of a byte
-- slice is the same value here.
pub mod PolicyKey
use opendkim_manage_go.Prelude.{
  ℕ, ◌*◌, ◌^◌, Bool, true, false, not, ◌&&◌, ◌||◌, [], ◌∷◌, ◌++◌, Option, none, some, Text, length,
  is_empty, ltb, Result, ok, err, fail_if, is_err, ◌>>=◌, ◌>>◌, ◌==◌, ◌!=◌, nat_eq, text_eq,
  if◌then◌else◌,
}
use opendkim_manage_go.Model.Error.{Error, invalid}
use opendkim_manage_go.Model.Instant.{Time, zero_time, is_zero, before, same_instant}
use opendkim_manage_go.Model.Names.{validate_identifier, validate_canonical_dns_name}
use opendkim_manage_go.Model.Values.{
  Algorithm, ProfileUse, RecordStatus, Rollout, Compatibility, is_known_algorithm, is_known_use,
  is_known_status, is_known_rollout, compatibility_strict,
}
use opendkim_manage_go.Model.Crypto.{
  Codecs, canonical_dns_public_bytes, dns_public_key_matches_spki,
}

pub record Handle : Type 0 where
  pub generation : ℕ
  pub id : Text

-- `NewHandle`
unfoldable pub new_handle : ℕ → Text → Result Error Handle
unfolding validate_identifier
new_handle generation id = do
  fail_if (generation == 0 || is_err (validate_identifier id)) invalid
  ok (record { generation = generation; id = id })

pub record Profile : Type 0 where
  pub generation : ℕ
  pub id : Text
  pub domain : Text
  pub status : RecordStatus
  pub not_before : Time
  pub not_after : Time

-- `NewProfile`
unfoldable pub new_profile : ℕ → Text → Text → RecordStatus → Time → Time → Result Error Profile
unfolding validate_identifier validate_canonical_dns_name is_known_status is_zero before
new_profile generation id domain status not_before not_after = do
  fail_if
      (generation == 0
        || (is_err (validate_identifier id)
            || (is_err (validate_canonical_dns_name domain) || not (is_known_status status))))
      invalid
  let window_present = not (is_zero not_before) || not (is_zero not_after)
  fail_if
      (window_present
        && (is_zero not_before
            || (is_zero not_after
                || (not (before not_before not_after)
                    || (not not_before.utc || not not_after.utc)))))
      invalid
  ok (record {
    generation = generation;
    id = id;
    domain = domain;
    status = status;
    not_before = not_before;
    not_after = not_after;
  })

-- `Profile.ValidityWindow`; `none` is the last result `false`.
unfoldable pub validity_window : Profile → Option (Time × Time)
unfolding is_zero
validity_window p =
    if is_zero p.not_before || is_zero p.not_after then none else some (p.not_before, p.not_after)

-- `Profile.WithStatus`
unfoldable pub profile_with_status : Profile → RecordStatus → Result Error Profile
unfolding new_profile
profile_with_status p status =
    new_profile p.generation p.id p.domain status p.not_before p.not_after

pub record Credential : Type 0 where
  pub generation : ℕ
  pub profile_id : Text
  pub selector : Text
  pub algorithm : Algorithm
  pub public_spki : Text
  pub handle_id : Text

module _ (codecs : Codecs) where
  -- `NewCredential`
  unfoldable pub new_credential :
      ℕ → Text → Text → Algorithm → Text → Text → Result Error Credential
  unfolding validate_identifier validate_canonical_dns_name is_known_algorithm
      canonical_dns_public_bytes
  new_credential generation profile_id selector algorithm public_spki handle_id = do
    fail_if
        (generation == 0
          || (is_err (validate_identifier profile_id)
              || (is_err (validate_canonical_dns_name selector)
                  || (not (is_known_algorithm algorithm)
                      || (is_err (validate_identifier handle_id)
                          || (length public_spki == 0 || ltb (2 * 2 ^ 10) (length public_spki)))))))
        invalid
    _ ← canonical_dns_public_bytes codecs algorithm public_spki
    ok (record {
      generation = generation;
      profile_id = profile_id;
      selector = selector;
      algorithm = algorithm;
      public_spki = public_spki;
      handle_id = handle_id;
    })

  -- `Credential.DNSPublicKeyBytes`
  unfoldable pub credential_dns_public : Credential → Text
  unfolding canonical_dns_public_bytes
  credential_dns_public c = elim (canonical_dns_public_bytes codecs c.algorithm c.public_spki) [
    | ok bytes ↦ bytes
    | err _ ↦ []
  ]

  -- `Credential.MatchesDNSPublicKeyBytes`
  unfoldable pub matches_dns_public_key_bytes : Credential → Text → Bool
  unfolding dns_public_key_matches_spki
  matches_dns_public_key_bytes c candidate =
      dns_public_key_matches_spki codecs c.algorithm c.public_spki candidate

pub record Policy : Type 0 where
  pub generation : ℕ
  pub tenant_id : Text
  pub domain : Text
  pub profile_use : ProfileUse
  pub profile_id : Text
  pub status : RecordStatus
  pub rollout : Rollout
  pub compatibility : Compatibility
  pub feedback_route_id : Text

-- `NewPolicy`
unfoldable pub new_policy :
    ℕ
    → Text
    → Text
    → ProfileUse
    → Text
    → RecordStatus
    → Rollout
    → Compatibility
    → Text
    → Result Error Policy
unfolding validate_identifier validate_canonical_dns_name is_known_use is_known_status
    is_known_rollout
new_policy generation tenant_id domain profile_use profile_id status rollout compatibility
      feedback_route_id =
    do
      fail_if
          (generation == 0
            || (is_err (validate_identifier tenant_id)
                || (is_err (validate_canonical_dns_name domain)
                    || (not (is_known_use profile_use)
                        || (is_err (validate_identifier profile_id)
                            || (not (is_known_status status)
                                || (not (is_known_rollout rollout)
                                    || (compatibility != compatibility_strict
                                        || (feedback_route_id != []
                                            && is_err
                                                (validate_identifier feedback_route_id))))))))))
          invalid
      ok (record {
        generation = generation;
        tenant_id = tenant_id;
        domain = domain;
        profile_use = profile_use;
        profile_id = profile_id;
        status = status;
        rollout = rollout;
        compatibility = compatibility;
        feedback_route_id = feedback_route_id;
      })

-- `Policy.WithActivation`
unfoldable pub policy_with_activation : Policy → RecordStatus → Rollout → Result Error Policy
unfolding new_policy
policy_with_activation p status rollout =
    new_policy p.generation p.tenant_id p.domain p.profile_use p.profile_id status rollout
      p.compatibility p.feedback_route_id

-- `policyKey`, in `generation.go`
unfoldable pub policy_key : Text → Text → ProfileUse → Text
policy_key tenant domain profile_use = tenant ++ (0 ∷ (domain ++ (0 ∷ profile_use)))

-- `rebaseHandle`, `rebaseProfile`, `rebaseCredential` and `rebasePolicy`
unfoldable pub rebase_handle : ℕ → Handle → Handle
rebase_handle generation input = record input { generation = generation }

unfoldable pub rebase_profile : ℕ → Profile → Profile
rebase_profile generation input = record input { generation = generation }

unfoldable pub rebase_credential : ℕ → Credential → Credential
rebase_credential generation input = record input { generation = generation }

unfoldable pub rebase_policy : ℕ → Policy → Policy
rebase_policy generation input = record input { generation = generation }
