-- ===== src/Model/Error.antt =====
-- The errors of `internal/dkim2model`.
use opendkim_manage_go.Prelude.{Text}

-- `ErrInvalid`, `ErrClosed`, and the texts of `errors.New`.
pub data Error : Type 0 where
  invalid closed : Error
  message : Text → Error
