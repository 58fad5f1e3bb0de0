-- ===== src/Store/Recovery/Decisions.antt =====
-- What each decision of `ClassifyRecovery` (`internal/dkim2store/recovery.go`) means.
use opendkim_manage_go.Prelude.{
  ◌+◌, ◌≡◌, ◌≤◌, ◌↔◌, true, false, text_eq, nat_eq, arith, text_beq_iff,
}
use opendkim_manage_go.Model.Values.{DatasetState, state_staging, state_committed}
use opendkim_manage_go.Store.Recovery.{
  RecoveryFacts, stage_new, resume_staging, resume_committed_pointer, already_activated,
  classify_recovery, max_uint64,
}

-- The facts that every decision to go on rests on: the candidate is the successor of the expected
-- base, the history is complete with one candidate, and the last outcome and the pointer are known.
pub record IsSettled (f : RecoveryFacts) : Type 0 where
  pub successor : f.candidate ≡ f.expected_base + 1
  pub in_range : f.candidate ≤ max_uint64
  pub history : f.history_complete ≡ true
  pub single : f.multiple_candidates ≡ false
  pub certain : f.outcome_certain ≡ true
  pub pointer : f.current_present ≡ true

-- The candidate is there, complete and in the given state.
pub record IsComplete (f : RecoveryFacts) (state : DatasetState) : Type 0 where
  pub found : f.candidate_present ≡ true
  pub whole : f.candidate_complete ≡ true
  pub in_state : f.candidate_state ≡ state

-- The situations in which each decision to go on is the right one.
pub record IsDecided (f : RecoveryFacts) : Type 0 where
  pub stages :
      (classify_recovery f ≡ stage_new)
      ↔ (IsSettled f × (f.current ≡ f.expected_base) × (f.candidate_present ≡ false))
  pub resumes_staging :
      (classify_recovery f ≡ resume_staging)
      ↔ (IsSettled f × (f.current ≡ f.expected_base) × IsComplete f state_staging)
  pub resumes_pointer :
      (classify_recovery f ≡ resume_committed_pointer)
      ↔ (IsSettled f × (f.current ≡ f.expected_base) × IsComplete f state_committed)
  pub activated :
      (classify_recovery f ≡ already_activated)
      ↔ (IsSettled f × (f.current ≡ f.candidate) × IsComplete f state_committed)

module _ (f : RecoveryFacts) (b : f.expected_base ≤ max_uint64) where
  stages_lem :
      (classify_recovery f ≡ stage_new)
      ↔ (IsSettled f × (f.current ≡ f.expected_base) × (f.candidate_present ≡ false))
  unfolding classify_recovery
  stages_lem = (λ h. ground (arith, h), λ h. ground (arith, h.0, h.1, h.2))

  resumes_staging_lem :
      (classify_recovery f ≡ resume_staging)
      ↔ (IsSettled f × (f.current ≡ f.expected_base) × IsComplete f state_staging)
  unfolding classify_recovery
  resumes_staging_lem = (
    λ h. ground (arith, h, text_beq_iff f.candidate_state state_staging),
    λ h. ground (arith, h.0, h.1, h.2, text_beq_iff f.candidate_state state_staging),
  )

  resumes_pointer_lem :
      (classify_recovery f ≡ resume_committed_pointer)
      ↔ (IsSettled f × (f.current ≡ f.expected_base) × IsComplete f state_committed)
  unfolding classify_recovery
  resumes_pointer_lem = (
    λ h. ground (
      arith,
      h,
      text_beq_iff f.candidate_state state_staging,
      text_beq_iff f.candidate_state state_committed,
    ),
    λ h. ground (
      arith,
      h.0,
      h.1,
      h.2,
      text_beq_iff f.candidate_state state_staging,
      text_beq_iff f.candidate_state state_committed,
    ),
  )

  activated_lem :
      (classify_recovery f ≡ already_activated)
      ↔ (IsSettled f × (f.current ≡ f.candidate) × IsComplete f state_committed)
  unfolding classify_recovery
  activated_lem = (
    λ h. ground (
      arith,
      h,
      text_beq_iff f.candidate_state state_staging,
      text_beq_iff f.candidate_state state_committed,
    ),
    λ h. ground (
      arith,
      h.0,
      h.1,
      h.2,
      text_beq_iff f.candidate_state state_staging,
      text_beq_iff f.candidate_state state_committed,
    ),
  )

-- From a `uint64` base, each decision to go on is taken exactly in its own situation. In all of them
-- the candidate is the successor of the base, the history is complete with one candidate, and the
-- outcome and the pointer are known. A new candidate is staged if there is none and the pointer is
-- at the base; staging is resumed if the complete candidate is staging and the pointer at the base;
-- the pointer is resumed if the complete candidate is committed and the pointer at the base; and
-- the campaign is over if the complete candidate is committed and the pointer at it.
pub classify_recovery-IsDecided : (f : RecoveryFacts) → f.expected_base ≤ max_uint64 → IsDecided f
classify_recovery-IsDecided f b = record {
  stages = stages_lem f b;
  resumes_staging = resumes_staging_lem f b;
  resumes_pointer = resumes_pointer_lem f b;
  activated = activated_lem f b;
}
