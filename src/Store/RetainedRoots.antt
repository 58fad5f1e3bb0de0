-- ===== src/Store/RetainedRoots.antt =====
-- `ValidRetainedRoots` of `internal/dkim2store/retained_roots.go`, with `GenerationRoot` and
-- `RetainedHistory` of `internal/dkim2store/repository.go`.
pub mod Lineage
use opendkim_manage_go.Prelude.{
  ℕ, suc, ◌-◌, Bool, true, false, not, ◌&&◌, ◌||◌, List, [], ◌∷◌, Option, none, some, Text, codes,
  leb, ltb, is_empty, contains, Result, ok, err, ◌==◌, ◌!=◌, nat_eq, text_eq, if◌then◌else◌,
}
use opendkim_manage_go.Prelude.Int.{ℤ, sub_ℕ}
use opendkim_manage_go.Prelude.Sort.{sort_func}
use opendkim_manage_go.Model.Values.{DatasetState}
use opendkim_manage_go.Store.Error.{StoreError, malformed}

-- `legacySchemaVersion`, `SchemaVersion` and `SchemaVersionV3`
abbrev pub legacy_schema_version : Text
legacy_schema_version = codes "dkim2-datasource-v1"

abbrev pub schema_version : Text
schema_version = codes "dkim2-datasource-v2"

abbrev pub schema_version_v3 : Text
schema_version_v3 = codes "dkim2-datasource-v3"

pub record GenerationRoot : Type 0 where
  pub number : ℕ
  pub schema : Text
  pub state : DatasetState

-- The checks of the loop on one root alone.
unfoldable pub valid_root : GenerationRoot → Bool
valid_root root =
    root.number != 0
    && (if root.schema == legacy_schema_version
        then root.number == 1
        else root.schema == schema_version || root.schema == schema_version_v3)

-- The checks of the loop on a root and the one before.
unfoldable pub follows : GenerationRoot → GenerationRoot → Bool
follows previous root =
    not (
      leb root.number previous.number
      || (previous.schema == schema_version_v3 && root.schema != previous.schema))
    && not (
        root.number - previous.number != 1
        && (previous.schema == schema_version_v3 || root.schema != schema_version_v3))

-- The loop over the sorted copy, behind its first root.
unfoldable pub valid_after : GenerationRoot → List GenerationRoot → Bool
unfolding valid_root follows
valid_after previous [] = true
valid_after previous (root ∷ rest) =
    valid_root root && follows previous root && valid_after root rest

-- `cmp.Compare(left.Number, right.Number)`, up to the size of the result.
unfoldable pub compare_number : GenerationRoot → GenerationRoot → ℤ
compare_number left right = sub_ℕ left.number right.number

unfoldable pub valid_ordered : List GenerationRoot → Bool
unfolding valid_after valid_root
valid_ordered [] = false
valid_ordered (root ∷ rest) = valid_root root && valid_after root rest

-- `ValidRetainedRoots`
unfoldable pub valid_retained_roots : List GenerationRoot → Bool
unfolding valid_ordered sort_func compare_number
valid_retained_roots roots = valid_ordered (sort_func compare_number roots)

-- The part of `RetainedHistory` that answers identifier lookups; the sets are lists of their keys.
pub record RetainedHistory : Type 0 where
  pub roots : List GenerationRoot
  pub complete : Bool
  pub selectors : List Text
  pub handles : List Text

-- `NewRetainedHistory`
unfoldable pub new_retained_history :
    List GenerationRoot → Bool → List Text → List Text → RetainedHistory
new_retained_history roots complete selectors handles = record {
  roots = roots;
  complete = complete;
  selectors = selectors;
  handles = handles;
}

-- `RetainedHistory.SelectorUsed`
unfoldable pub selector_used : RetainedHistory → Text → Result StoreError Bool
unfolding contains
selector_used h value = if not h.complete then err malformed else ok (contains h.selectors value)

-- `RetainedHistory.HandleUsed`
unfoldable pub handle_used : RetainedHistory → Text → Result StoreError Bool
unfolding contains
handle_used h value = if not h.complete then err malformed else ok (contains h.handles value)
