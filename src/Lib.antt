-- ===== src/Lib.antt =====
-- opendkim-manage publishes the signing keys of DKIM2 as complete, numbered generations in an LDAP
-- directory. This library models the parts that decide what a generation is and how one follows another.
--
-- Parts and files. `Prelude` holds what the parts share: tests, equality, lists, byte strings, Go
-- results, the integers of the source, and stable sorting. `Model` is `internal/dkim2model`:
-- `Model.Values` the vocabularies of `values.go`, `Model.Names` its identifiers and DNS names,
-- `Model.Records` the records of `records.go`, `Model.Crypto` the canonical DNS key bytes of
-- `records.go` and `composite.go`, `Model.KeyPair` and `Model.KeyMaterial` the owners of
-- `keypair.go` and `keymaterial.go`, `Model.Generation` and `Model.Builder` the complete generation
-- of `generation.go` and the builder of its successor, `Model.AlgorithmSet`, `Model.Allocation` and
-- `Model.Rotation` the request checks, identifier allocation and `PlanRotation` of `rotation.go`,
-- `Model.Lifecycle` the plans of `lifecycle.go` with the lineage facts of `rotation.go`,
-- `Model.Campaign` the checks of `campaign.go`, `Model.Create` the check of created bindings of
-- `create.go`, `Model.Candidate` the digests of `candidate.go`, `Model.Eligibility` and
-- `Model.GlobalRotation` the due bindings and the global plans of `rotation.go`.
-- `Store` is `internal/dkim2store`: `Store.Recovery` is `recovery.go`, `Store.WorkBudget` is
-- `work_budget.go` with `limits.go`, `Store.RetainedRoots` is `retained_roots.go` with the history of
-- `repository.go`. `Selector` is `ValidateRecordName` of `internal/selector/selector.go`. `Tests` runs
-- the theorems at concrete data.
--
-- How they interact. A builder is made empty or from the generation before it, changed by its
-- methods, and built: `Builder.Build` and `Generation.Clone` both call `NewGenerationWithState`, which
-- clones the key owners, sorts the records and validates the whole. `PlanRotation` takes the builder of
-- the next generation, replaces the keys of one profile and builds. The records and key owners check
-- names by `Model.Names`; validation joins policies, credentials and materials by `policyKey`. The
-- store asks `ClassifyRecovery` what to do next about a candidate, and charges its work to a budget.
--
-- Correspondence. A Go struct is a record with the fields of the source, an enumeration of strings is
-- a type of byte strings with the source's constants, and a function or method has the source's name
-- in lower case with underscores. A result `(A, error)` is `Result Error A`; a method that changes its
-- receiver returns the new receiver with the error. A nil pointer is `none` where a caller can pass
-- one. Go strings and byte slices are lists of numbers, copies of slices are the same values. A Go map
-- that a loop fills is read from the records that the loop has passed, or is the list of its entries
-- in the order of first insertion, in which a loop over the map visits them. `slices.SortFunc` and
-- `slices.Sort` are a stable sort by insertion. `uint64` is a natural number, with the one wrap-around
-- of the modelled code written out; `int` counters are integers.
--
-- Bounds and fuel. Loops over slices are structural recursion. `BitLen` runs on fuel equal to its
-- argument, which has fewer bits than that; identifier allocation runs on the source's own number of
-- attempts.
--
-- Not modelled. The key codecs of the Go standard library are a parameter (`Codecs`), as are the
-- random bytes, the history lookups and the key generator of a rotation, the parsing and printing of
-- times (`Clock`), and what the candidate digest takes from that library (`DigestSources`). Not
-- modelled are clearing of memory and redacted formatting (they have no result), key generation and
-- private-key validation, the generation of operation identifiers, the LDAP repositories and their
-- entry mapping, DNS updates, the classic key tree, configuration and the command line.
pub mod Prelude
pub mod Model
pub mod Selector
pub mod Store
pub mod Tests
