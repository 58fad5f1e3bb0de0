-- ===== src/Model/Lifecycle/Evidence.antt =====
-- `RetirementAttestations`, `RetirementEvidence` and `ValidateRetirementEvidence` of
-- `internal/dkim2model/lifecycle.go`.
use opendkim_manage_go.Prelude.{
  ℕ, ◌+◌, ◌≤◌, ◌<◌, Bool, true, not, ◌&&◌, ◌||◌, Result, ok, fail_if, ◌==◌, ◌!=◌, nat_eq, ◌≡◌, ◌↔◌,
  ◌≢◌, arith,
}
use opendkim_manage_go.Prelude.Int.{ℤ, pos, leb_ℤ, ltb_ℤ, pos_part}
use opendkim_manage_go.Model.Error.{Error, invalid}
use opendkim_manage_go.Model.Instant.{Time, is_zero, before, since, zero_instant, max_duration}

pub record RetirementAttestations : Type 0 where
  pub runtime_reload : Bool
  pub repeated_readiness : Bool
  pub queues : Bool
  pub emitted_signatures : Bool
  pub external_verify : Bool
  pub backup : Bool
  pub rollback_authority : Bool

-- `RetirementAttestations.Complete`
unfoldable pub is_complete_attestation : RetirementAttestations → Bool
is_complete_attestation a =
    a.runtime_reload
    && (a.repeated_readiness
        && (a.queues
            && (a.emitted_signatures && (a.external_verify && (a.backup && a.rollback_authority)))))

pub record RetirementEvidence : Type 0 where
  pub current_generation : ℕ
  pub activated_at : Time
  pub observed_at : Time
  pub minimum_overlap : ℤ
  pub attestations : RetirementAttestations

-- The test of `ValidateRetirementEvidence`.
unfoldable pub refuses_evidence : ℕ → RetirementEvidence → Bool
refuses_evidence expected_current evidence =
    expected_current == 0
    || (evidence.current_generation != expected_current
        || (is_zero evidence.activated_at
            || (is_zero evidence.observed_at
                || (not evidence.activated_at.utc
                    || (not evidence.observed_at.utc
                        || (leb_ℤ evidence.minimum_overlap (pos 0)
                            || (before evidence.observed_at evidence.activated_at
                                || (ltb_ℤ (since evidence.observed_at evidence.activated_at)
                                      evidence.minimum_overlap
                                    || not (is_complete_attestation evidence.attestations)))))))))

-- `ValidateRetirementEvidence`
unfoldable pub validate_retirement_evidence : ℕ → RetirementEvidence → Result Error (Unit {0})
validate_retirement_evidence expected_current evidence =
    fail_if (refuses_evidence expected_current evidence) invalid

-- Every one of the seven assertions is made.
pub record IsAttested (a : RetirementAttestations) : Type 0 where
  pub reloaded : a.runtime_reload ≡ true
  pub ready : a.repeated_readiness ≡ true
  pub queues_done : a.queues ≡ true
  pub signatures_seen : a.emitted_signatures ≡ true
  pub verified : a.external_verify ≡ true
  pub backed_up : a.backup ≡ true
  pub authorised : a.rollback_authority ≡ true

is_complete_attestation-IsAttested :
    (a : RetirementAttestations) → (is_complete_attestation a ≡ true) ↔ IsAttested a
unfolding is_complete_attestation
is_complete_attestation-IsAttested a = (
  λ h. record {
    reloaded = ground (arith, h);
    ready = ground (arith, h);
    queues_done = ground (arith, h);
    signatures_seen = ground (arith, h);
    verified = ground (arith, h);
    backed_up = ground (arith, h);
    authorised = ground (arith, h);
  },
  λ i. ground (arith, i),
)

module _ (expected : ℕ) (evidence : RetirementEvidence) where
  -- Evidence for the current generation whose overlap is over.
  pub record IsProof : Type 0 where
    pub current : evidence.current_generation ≡ expected
    pub positive : expected ≢ 0
    pub activated : evidence.activated_at.instant ≢ zero_instant
    pub observed : evidence.observed_at.instant ≢ zero_instant
    pub utc : (evidence.activated_at.utc ≡ true) × (evidence.observed_at.utc ≡ true)
    pub overlap : 0 < pos_part evidence.minimum_overlap
    pub elapsed :
        evidence.activated_at.instant + pos_part evidence.minimum_overlap
        ≤ evidence.observed_at.instant
    pub attested : IsAttested evidence.attestations

  IsProof-of_valid : validate_retirement_evidence expected evidence ≡ ok tt → IsProof
  unfolding validate_retirement_evidence refuses_evidence is_zero before since
  IsProof-of_valid h = record {
    current = ground arith;
    positive = ground arith;
    activated = ground arith;
    observed = ground arith;
    utc = (ground arith, ground arith);
    overlap = ground arith;
    elapsed = ground arith;
    attested = (is_complete_attestation-IsAttested evidence.attestations).0 (ground arith);
  }

  valid_of_proof :
      pos_part evidence.minimum_overlap ≤ max_duration
      → IsProof
      → validate_retirement_evidence expected evidence ≡ ok tt
  unfolding validate_retirement_evidence refuses_evidence is_zero before since
  valid_of_proof b p =
      let utc = p.utc.0 in
      let utc' = p.utc.1 in
      let whole = (is_complete_attestation-IsAttested evidence.attestations).1 p.attested in
      ground (arith, p, b, utc, utc', whole)

  -- `ValidateRetirementEvidence` accepts evidence, its minimum overlap in the range of
  -- `time.Duration`, just where it names the expected generation, which is not 0, its times are set and
  -- in UTC, the overlap is positive and ends no later than the observation, and every one of the
  -- seven assertions is made.
  pub validate_retirement_evidence-IsProof :
      pos_part evidence.minimum_overlap ≤ max_duration
      → (validate_retirement_evidence expected evidence ≡ ok tt) ↔ IsProof
  validate_retirement_evidence-IsProof b = (IsProof-of_valid, valid_of_proof b)
