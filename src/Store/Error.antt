-- ===== src/Store/Error.antt =====
-- The errors of `internal/dkim2store/repository.go`.

pub data StoreError : Type 0 where
  unavailable malformed conflict outcome_uncertain : StoreError
