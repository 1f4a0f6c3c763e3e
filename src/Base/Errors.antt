-- ===== src/Base/Errors.antt =====
-- Go errors as values. A formatted error keeps its format string and its arguments unrendered, so
-- that two errors are equal exactly when the program built them alike.
use mathlib.Core.List.{List}
use gibson_tool_runner.Base.Text.{Bytes}

pub data Error : Type 0 where
  -- `fmt.Errorf(format, args...)` with no `%w`
  message : Bytes → List Bytes → Error
  -- `fmt.Errorf(format, args..., err)` with `%w` for the last argument
  wrapping : Bytes → List Bytes → Error → Error
  -- `sandbox.ErrOutputCapExceeded`
  output_cap_exceeded : Error
  -- an error of the operating system, the standard library or another package
  foreign : Bytes → Error
