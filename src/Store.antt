-- ===== src/Store.antt =====
-- The package `internal/dkim2store`: persistence of complete generations. Modelled are its pure
-- decisions: recovery, the work budget, limits, retained roots and retained history.
pub mod Error
pub mod Recovery
pub mod WorkBudget
pub mod RetainedRoots
