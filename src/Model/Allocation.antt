-- ===== src/Model/Allocation.antt =====
-- `allocateHistoricalIDBounded` of `internal/dkim2model/rotation.go`. The random reader and the
-- history lookup are parameters.
pub mod Freshness
pub mod Success
use opendkim_manage_go.Prelude.{
  ℕ, suc, zero, ◌+◌, ◌-◌, ◌/◌, ◌%◌, Bool, true, false, List, [], ◌∷◌, ◌++◌, Option, none, some,
  Text, codes, ltb, contains, Result, ok, err, fail_if, ◌>>=◌, ◌>>◌, nat_eq, text_eq, if◌then◌else◌,
}
use opendkim_manage_go.Prelude.Int.{ℤ, pos, leb_ℤ, pos_part}
use opendkim_manage_go.Model.Error.{Error, invalid, message}

-- A hexadecimal digit, and `hex.EncodeToString`.
abbrev pub hex_digit : ℕ → ℕ
hex_digit n = if ltb n 10 then b'0' + n else b'a' + (n - 10)

unfoldable pub hex_text : Text → Text
hex_text [] = []
hex_text (c ∷ rest) = hex_digit (c / 16) ∷ hex_digit (c % 16) ∷ hex_text rest

-- An identifier, the map `used` with it, and the reader after.
pub record Allocated (S : Type 0) : Type 0 where
  pub identifier : Text
  pub used : List Text
  pub reader : S

-- One attempt: whether the candidate is used, whether the history has it, what the attempts left
-- give, and the candidate's own result.
unfoldable pub choose :
    {A : Type 0} → Bool → Option Bool → Result Error A → Result Error A → Result Error A
choose true exists_before next own = next
choose false none next own = err (message (codes "historical identifier check failed"))
choose false (some true) next own = next
choose false (some false) next own = own

-- `prefix + "-" + hex.EncodeToString(buffer)`
abbrev pub candidate_of : Text → Text → Text
candidate_of prefix buffer = prefix ++ (codes "-" ++ hex_text buffer)

-- A reader gives so many bytes and the reader after them, or `none` for an error of `io.ReadFull`; a
-- lookup in the history gives `none` for its error.
module _ {S : Type 0} (read_full : ℕ → S → Option (Text × S))
    (historical : Text → Option Bool) where
  -- The loop, over the attempts that are left.
  unfoldable pub allocate_within : ℕ → Text → List Text → S → Result Error (Allocated S)
  allocate_within zero prefix used reader =
      err (message (codes "could not allocate a unique historical DKIM2 identifier"))
  allocate_within (suc attempts) prefix used reader = elim (read_full 12 reader) [
    | none ↦ err (message (codes "read protected rotation randomness"))
    | some (buffer, reader') ↦
        let candidate = candidate_of prefix buffer in
        let next = allocate_within attempts prefix used reader' in
        choose (contains used candidate) (historical candidate) next
          (ok (record { identifier = candidate; used = candidate ∷ used; reader = reader' }))
  ]

  -- `allocateHistoricalIDBounded`
  unfoldable pub allocate_historical_id_bounded :
      Text → S → List Text → ℤ → Result Error (Allocated S)
  allocate_historical_id_bounded prefix reader used attempts = do
    fail_if (leb_ℤ attempts (pos 0)) invalid
    allocate_within (pos_part attempts) prefix used reader
