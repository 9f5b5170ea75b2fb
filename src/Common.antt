-- ===== src/Common.antt =====
-- backend/pkg/common: errors with the place that made them, and the clock in milliseconds.
use hackfs_mdc.Base.{ℕ, String, ◌<>◌, Option, none, some, decimal}
use hackfs_mdc.Base.Int.{ℤ, quot_ℕ}

-- What `runtime.Caller` finds: a function and a line.
pub record Caller : Type 0 where
  pub name : String
  pub line : ℕ

unfoldable pub get_trace_str : Option Caller → String
unfolding decimal
get_trace_str none = ""
get_trace_str (some c) = c.name <> ":" <> decimal c.line

-- An error of a library, with its text; or one of `Errorf`, which may wrap another.
pub data Error : Type 0 where
  foreign : String → Error
  plain : String → String → Error
  wrapped : String → String → Error → Error

-- `err.Error()`
unfoldable pub error_text : Error → String
error_text (Error.foreign t) = t
error_text (Error.plain msg trace) = msg <> "\n" <> trace
error_text (Error.wrapped msg trace e) = msg <> ":\n" <> trace <> "\nerr: " <> error_text e

-- `msg` is the format after its arguments are filled in, `caller` the place of the call.
unfoldable pub errorf : Option Caller → Option Error → String → Error
unfolding get_trace_str
errorf caller (some e) msg = Error.wrapped msg (get_trace_str caller) e
errorf caller none msg = Error.plain msg (get_trace_str caller)

-- A function of a package below backend/pkg, as the runtime names it.
abbrev pub in_pkg : String → ℕ → Option Caller
in_pkg name line =
    some (record { name = "github.com/Guer-co/hackfs-mdc/backend/pkg/" <> name; line = line })

-- From the nanoseconds of a time.
unfoldable pub get_millisecond : ℤ → ℤ
get_millisecond t = quot_ℕ t 1000000
