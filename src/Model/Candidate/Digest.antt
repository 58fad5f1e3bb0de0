-- ===== src/Model/Candidate/Digest.antt =====
-- Candidate metadata of `internal/dkim2model/candidate.go`, made, parsed and validated.
use opendkim_manage_go.Prelude.{
  ℕ, ◌>>◌, Bool, ◌≡◌, refl, ap, sym, ◌∙◌, text_beq_iff, true, false, not, ◌&&◌, ◌||◌, Text, length,
  ltb, Result, ok, fail_if, >>=-eq-ok, fail_if->>-eq-ok, ◌==◌, ◌!=◌, nat_eq, text_eq, arith,
}
use opendkim_manage_go.Model.Error.{Error, invalid}
use opendkim_manage_go.Model.Values.{state_staging, state_committed}
use opendkim_manage_go.Model.Generation.{Generation}
use opendkim_manage_go.Model.Candidate.{
  DigestSources, candidate_digest_bytes, all_zero, write_candidate_generation, CandidateMetadata,
  valid_operation_id, candidate_content, new_candidate_metadata, parse_candidate_metadata,
  digest_equal, validate_candidate,
}

-- A result that does not fail goes on.
fail_if->>-ok_lem :
    {A : Type 0} (b : Bool) (e : Error) (next : Result Error A)
    → b ≡ false
    → (fail_if b e >> next) ≡ next
fail_if->>-ok_lem b e next h = rw h refl

validate_candidate-accepts :
    (sources : DigestSources) (m : CandidateMetadata) (candidate : Generation)
    → new_candidate_metadata sources m.operation m.source candidate ≡ ok m
    → all_zero m.digest ≡ false
    → validate_candidate sources m candidate ≡ ok tt
unfolding validate_candidate digest_equal
validate_candidate-accepts sources m candidate h z =
    let equal : (m.digest == m.digest) ≡ true = (text_beq_iff m.digest m.digest).1 refl in
    rw h (
      fail_if->>-ok_lem (m.generation != m.generation || not (digest_equal m m)) invalid (ok tt)
        (ground (arith, z, equal)))

-- Metadata that a directory can carry: its values parse to it, and it validates its candidate.
pub record IsCommitment (sources : DigestSources) (candidate : Generation) (m : CandidateMetadata)
    : Type 0 where
  pub parses : parse_candidate_metadata sources m.operation m.source m.generation m.digest ≡ ok m
  pub validates : validate_candidate sources m candidate ≡ ok tt
  pub names_candidate : m.generation ≡ candidate.number

-- Where SHA-256 has 32 bytes, the values of metadata that `NewCandidateMetadata` returns are parsed by
-- `ParseCandidateMetadata` to the same metadata, `ValidateCandidate` accepts the candidate with it, and
-- it names the candidate's number.
pub new_candidate_metadata-IsCommitment :
    (sources : DigestSources) (operation : Text) (source : ℕ) (candidate : Generation)
    (m : CandidateMetadata)
    → ((t : Text) → length (sources.sha256 t) ≡ candidate_digest_bytes)
    → new_candidate_metadata sources operation source candidate ≡ ok m
    → IsCommitment sources candidate m
unfolding new_candidate_metadata parse_candidate_metadata
new_candidate_metadata-IsCommitment sources operation source candidate m sized h =
    let (n, h1) =
      fail_if->>-eq-ok
        (not (valid_operation_id sources operation)
          || (source == 0
              || (not (ltb source candidate.number)
                  || (candidate.state != state_committed && candidate.state != state_staging))))
        invalid _ h in
    let (content, e, h2) = >>=-eq-ok (write_candidate_generation sources candidate) _ h1 in
    let digest = sources.sha256 (candidate_content operation source candidate.number content) in
    let (z, h3) = fail_if->>-eq-ok (all_zero digest) invalid _ h2 in
    let made : CandidateMetadata = record {
      operation = operation;
      source = source;
      generation = candidate.number;
      digest = digest;
    } in
    let same : made ≡ m = ground (arith, h3) in
    rw (← same) (record {
      parses = fail_if->>-ok_lem _ invalid (ok made) (
          ground
            (arith, n, z, sized (candidate_content operation source candidate.number content)));
      validates = validate_candidate-accepts sources made candidate (h ∙ ap ok (sym same)) z;
      names_candidate = refl;
    })
