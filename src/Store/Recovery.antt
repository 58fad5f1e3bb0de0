-- ===== src/Store/Recovery.antt =====
-- `internal/dkim2store/recovery.go`: the next safe phase of a generation's publication, from
-- observed facts alone.
pub mod Decisions
use opendkim_manage_go.Prelude.{
  ℕ, ◌+◌, ◌-◌, ◌%◌, ◌^◌, Bool, true, false, not, ◌&&◌, ◌||◌, Text, ◌==◌, ◌!=◌, nat_eq, text_eq,
  if◌then◌else◌,
}
use opendkim_manage_go.Model.Values.{DatasetState, state_staging, state_committed}

pub data RecoveryDecision : Type 0 where
  stage_new resume_staging resume_committed_pointer already_activated : RecoveryDecision
  conflict uncertain repair_required : RecoveryDecision

-- `uint64` numbers are below 2 ^ 64.
pub record RecoveryFacts : Type 0 where
  pub expected_base : ℕ
  pub candidate : ℕ
  pub candidate_present : Bool
  pub candidate_complete : Bool
  pub candidate_state : DatasetState
  pub history_complete : Bool
  pub multiple_candidates : Bool
  pub current_present : Bool
  pub current : ℕ
  pub outcome_certain : Bool

-- `^uint64(0)`
abbrev pub max_uint64 : ℕ
max_uint64 = 2 ^ 64 - 1

-- The part of `ClassifyRecovery` behind the checks of the pointer.
unfoldable pub classify_candidate : RecoveryFacts → RecoveryDecision
classify_candidate f =
    if not f.candidate_present
    then (if f.current == f.candidate then repair_required else stage_new)
    else if not f.candidate_complete
        || (f.candidate_state != state_staging && f.candidate_state != state_committed)
    then repair_required
    else if f.candidate_state == state_staging
    then (if f.current == f.candidate then repair_required else resume_staging)
    else if f.current == f.candidate
    then already_activated
    else resume_committed_pointer

-- `ClassifyRecovery`
unfoldable pub classify_recovery : RecoveryFacts → RecoveryDecision
unfolding classify_candidate
classify_recovery f =
    if f.expected_base == max_uint64
      || (f.candidate == 0 || f.candidate != (f.expected_base + 1) % 2 ^ 64)
    then conflict
    else if not f.history_complete || f.multiple_candidates
    then repair_required
    else if not f.outcome_certain
    then uncertain
    else if not f.current_present || (f.current != f.expected_base && f.current != f.candidate)
    then conflict
    else classify_candidate f
