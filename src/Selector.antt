-- ===== src/Selector.antt =====
-- `ValidateRecordName` of `internal/selector/selector.go`.
pub mod RecordName
use opendkim_manage_go.Prelude.{
  ℕ, ◌+◌, ◌-◌, List, [], ◌∷◌, Text, length, ltb, Result, ok, err, fail_if, ◌>>=◌, ◌>>◌,
  if◌then◌else◌,
}
use opendkim_manage_go.Model.Names.{split_on, presentation}

-- The two `fmt.Errorf` results, with the values that they print.
pub data RecordError : Type 0 where
  label_too_long : Text → RecordError
  record_too_long : ℕ → RecordError

-- The loop over the labels, with its running total.
unfoldable pub sum_labels : ℕ → List Text → Result RecordError ℕ
sum_labels total [] = ok total
sum_labels total (label ∷ rest) =
    let next = sum_labels (total + length label) rest in
    if ltb 63 (length label) then err (label_too_long label) else next

-- `ValidateRecordName`
unfoldable pub validate_record_name : Text → Text → Result RecordError (Unit {0})
unfolding sum_labels split_on
validate_record_name selector_name domain_name = do
  let labels = split_on b'.' (presentation domain_name selector_name)
  total ← sum_labels 0 labels
  let total' = total + (length labels - 1)
  fail_if (ltb 253 total') (record_too_long total')
