-- ===== src/Model/Candidate.antt =====
-- `internal/dkim2model/candidate.go`: the digest that commits a successor to its content. SHA-256,
-- base32, letter cases and the text of a time are the Go standard library's, and are parameters.
-- Clearing of memory, redacted formatting, callbacks and the operation generator are not modelled.
pub mod Content
pub mod Digest
pub mod Framing
use opendkim_manage_go.Prelude.{
  ℕ, ◌+◌, ◌/◌, ◌%◌, Bool, true, false, not, ◌&&◌, ◌||◌, List, [], ◌∷◌, ◌++◌, map, Option, none,
  some, Text, codes, length, is_empty, ltb, all, Result, ok, err, is_err, or_fail, fail_if, ◌>>=◌,
  ◌>>◌, ◌==◌, ◌!=◌, nat_eq, text_eq, if◌then◌else◌,
}
use opendkim_manage_go.Prelude.Int.{ℤ}
use opendkim_manage_go.Prelude.Sort.{sort_func}
use opendkim_manage_go.Model.Error.{Error, invalid, closed}
use opendkim_manage_go.Model.Instant.{Time}
use opendkim_manage_go.Model.Values.{state_staging, state_committed}
use opendkim_manage_go.Model.KeyMaterial.{
  KeyMaterial, material_tenant, material_domain, material_use, material_handle, material_algorithm,
  material_public, material_private,
}
use opendkim_manage_go.Model.Records.{Handle, Profile, Credential, Policy, validity_window}
use opendkim_manage_go.Model.Generation.{Generation}
use opendkim_manage_go.Model.Generation.Order.{
  strings_compare, is_nonzero, compare_handles, compare_profiles, compare_policies,
  compare_materials,
}
use opendkim_manage_go.Model.Generation.Reads.{key_materials}

-- What the digest takes from the Go standard library.
pub record DigestSources : Type 0 where
  pub sha256 : Text → Text
  pub encode_base32 : Text → Text
  pub decode_base32 : Text → Option Text
  pub to_lower : Text → Text
  pub to_upper : Text → Text
  -- `Format(time.RFC3339Nano)`
  pub format_time : Time → Text

abbrev pub candidate_digest_bytes : ℕ
candidate_digest_bytes = 32

abbrev pub campaign_candidate_digest_domain : Text
campaign_candidate_digest_domain = codes "DKIM2-CAMPAIGN-CANDIDATE-CONTENT-V2" ++ (0 ∷ [])

-- `SchemaVersionV3`
abbrev pub candidate_schema_version : Text
candidate_schema_version = codes "dkim2-datasource-v3"

-- `allZero`: the octets together have no bit.
unfoldable pub all_zero : Text → Bool
all_zero value = all (λ octet. octet == 0) value

-- `binary.BigEndian.PutUint32`
unfoldable pub put_uint32 : ℕ → Text
put_uint32 n = n / 16777216 % 256 ∷ n / 65536 % 256 ∷ n / 256 % 256 ∷ n % 256 ∷ []

-- `writeCount`
unfoldable pub write_count : ℕ → Text
write_count count = put_uint32 (count % 4294967296)

-- `writeUint64`: the upper half of the bits, and the lower.
unfoldable pub write_uint64 : ℕ → Text
write_uint64 value = put_uint32 (value / 4294967296) ++ put_uint32 (value % 4294967296)

-- `writeFramedString` and `writeFramedBytes`
unfoldable pub write_framed : Text → Text
write_framed value = write_count (length value) ++ value

-- `writeNullable`; `none` is a value that is not present.
unfoldable pub write_nullable : Option Text → Text
write_nullable none = 0 ∷ []
write_nullable (some value) = 1 ∷ write_framed value

-- A loop that writes each row.
unfoldable pub write_each : {A : Type 0} → (A → Text) → List A → Text
write_each write [] = []
write_each write (row ∷ rows) = write row ++ write_each write rows

-- A count, and a loop that writes each row.
unfoldable pub write_rows : {A : Type 0} → (A → Text) → List A → Text
write_rows write rows = write_count (length rows) ++ write_each write rows

-- The two bounds of a validity window as `writeNullable` gets them.
unfoldable pub window_texts : DigestSources → Option (Time × Time) → Option Text × Option Text
window_texts sources none = (none, none)
window_texts sources (some (before, after)) =
    (some (sources.format_time before), some (sources.format_time after))

unfoldable pub write_profile : DigestSources → Profile → Text
write_profile sources row =
    let window = window_texts sources (validity_window row) in
    write_framed row.id
    ++ (write_framed row.domain
        ++ (write_framed row.status ++ (write_nullable window.0 ++ write_nullable window.1)))

unfoldable pub write_credential : Credential → Text
write_credential row =
    write_framed row.profile_id
    ++ (write_framed row.algorithm
        ++ (write_framed row.selector
            ++ (write_framed row.public_spki ++ write_framed row.handle_id)))

unfoldable pub write_policy : Policy → Text
write_policy row =
    let feedback = if row.feedback_route_id != [] then some row.feedback_route_id else none in
    write_framed row.tenant_id
    ++ (write_framed row.domain
        ++ (write_framed row.profile_use
            ++ (write_framed row.profile_id
                ++ (write_framed row.status
                    ++ (write_framed row.rollout
                        ++ (write_framed row.compatibility ++ write_nullable feedback))))))

unfoldable pub write_material : KeyMaterial → Text
write_material row =
    write_framed (material_tenant row)
    ++ (write_framed (material_domain row)
        ++ (write_framed (material_use row)
            ++ (write_framed (material_handle row)
                ++ (write_framed (material_algorithm row)
                    ++ (write_framed (material_public row)
                        ++ write_framed (material_private row))))))

-- The order of the credentials in the digest.
unfoldable pub compare_digest_credentials : Credential → Credential → ℤ
compare_digest_credentials left right =
    let c = strings_compare left.profile_id right.profile_id in
    if is_nonzero c then c else strings_compare left.algorithm right.algorithm

-- `writeCandidateGeneration`
unfoldable pub write_candidate_generation : DigestSources → Generation → Result Error Text
write_candidate_generation sources g = do
  let materials = sort_func compare_materials (key_materials g)
  fail_if (not (all (λ m. not (is_empty (material_private m))) materials)) closed
  ok (
      write_rows (λ h. write_framed h.id) (sort_func compare_handles g.handles)
      ++ (write_rows (write_profile sources) (sort_func compare_profiles g.profiles)
          ++ (write_rows write_credential (sort_func compare_digest_credentials g.credentials)
              ++ (write_rows write_policy (sort_func compare_policies g.policies)
                  ++ write_rows write_material materials))))

pub record CandidateMetadata : Type 0 where
  pub operation : Text
  pub source : ℕ
  pub generation : ℕ
  pub digest : Text

-- `validOperationID`, after the length and the letter case
unfoldable pub decodes_operation : DigestSources → Text → Option Text → Bool
decodes_operation sources value none = false
decodes_operation sources value (some decoded) =
    not (length decoded != 16 || all_zero decoded)
    && sources.to_lower (sources.encode_base32 decoded) == value

-- `validOperationID`
unfoldable pub valid_operation_id : DigestSources → Text → Bool
valid_operation_id sources value =
    not (length value != 26 || value != sources.to_lower value)
    && decodes_operation sources value (sources.decode_base32 (sources.to_upper value))

-- What `NewCandidateMetadata` writes to the hash, the content of the generation last.
unfoldable pub candidate_content : Text → ℕ → ℕ → Text → Text
candidate_content operation source generation content =
    campaign_candidate_digest_domain
    ++ (write_framed candidate_schema_version
        ++ (write_uint64 source
            ++ (write_uint64 generation ++ (write_framed operation ++ content))))

-- `NewCandidateMetadata`
unfoldable pub new_candidate_metadata :
    DigestSources → Text → ℕ → Generation → Result Error CandidateMetadata
new_candidate_metadata sources operation source candidate = do
  fail_if
      (not (valid_operation_id sources operation)
        || (source == 0
            || (not (ltb source candidate.number)
                || (candidate.state != state_committed && candidate.state != state_staging))))
      invalid
  content ← write_candidate_generation sources candidate
  let digest = sources.sha256 (candidate_content operation source candidate.number content)
  fail_if (all_zero digest) invalid
  ok (record {
    operation = operation;
    source = source;
    generation = candidate.number;
    digest = digest;
  })

-- `ParseCandidateMetadata`
unfoldable pub parse_candidate_metadata :
    DigestSources → Text → ℕ → ℕ → Text → Result Error CandidateMetadata
parse_candidate_metadata sources operation source generation digest = do
  fail_if
      (not (valid_operation_id sources operation)
        || (source == 0
            || (not (ltb source generation)
                || (length digest != candidate_digest_bytes || all_zero digest))))
      invalid
  ok (record { operation = operation; source = source; generation = generation; digest = digest })

-- `DigestEqual`
unfoldable pub digest_equal : CandidateMetadata → CandidateMetadata → Bool
digest_equal m other =
    not (all_zero m.digest) && (not (all_zero other.digest) && m.digest == other.digest)

-- `ExactEqual`
unfoldable pub exact_equal : CandidateMetadata → CandidateMetadata → Bool
exact_equal m other =
    m.source == other.source
    && (m.generation == other.generation
        && (m.operation == other.operation && digest_equal m other))

-- `ValidateCandidate`
unfoldable pub validate_candidate :
    DigestSources → CandidateMetadata → Generation → Result Error (Unit {0})
validate_candidate sources m candidate = do
  computed ← or_fail (new_candidate_metadata sources m.operation m.source candidate) invalid
  fail_if (computed.generation != m.generation || not (digest_equal m computed)) invalid
  ok tt
