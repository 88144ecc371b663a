-- ===== src/SqlTab/Ended.antt =====
-- internal/sqltab/model.go: what a run that ended leaves of its outputs and its error.
use db_tui.Common.{
  Bool, true, false, not, List, [], ◌∷◌, ◌++◌, Option, none, some, Text, lit, text_eq, any,
  if◌then◌else◌,
}
use db_tui.Common.Int.{pos}
use db_tui.Core.{CoreError, ErrorCategory, is_cancellation}
use db_tui.Grid.Types.{GoError, as_core_error}
use db_tui.SqlTab.Types.{output_error, is_rows, is_error, Output}
use db_tui.SqlTab.State.{Terminal}

-- `strings.TrimSpace(value) == ""`
unfoldable pub is_blank : Terminal → Text → Bool
is_blank t sql = not (any (λ c. not (t.is_space c)) sql)

abbrev pub with_warning : Text → Text → Text
with_warning warning status = if text_eq warning [] then status else status ++ (lit " " ++ warning)

abbrev pub has_error : List Output → Bool
has_error outputs = any (λ output. is_error output.kind) outputs

-- the last output is incomplete, if it is one of rows
unfoldable pub mark_incomplete : List Output → List Output
mark_incomplete [] = []
mark_incomplete (output ∷ []) =
    (if is_rows output.kind then record output { incomplete = true } else output) ∷ []
mark_incomplete (output ∷ next ∷ outputs) = output ∷ mark_incomplete (next ∷ outputs)

unfoldable pub run_failure : GoError → CoreError
unfolding lit
run_failure err = elim (as_core_error err) [
  | some structured ↦ structured
  | none ↦ record {
    operation = lit "execute SQL";
    category = ErrorCategory.internal;
    summary = lit "The SQL run failed.";
    retryable = true;
    postgresql = none;
  }
]

unfoldable pub error_output : CoreError → Output
error_output structured = record {
  kind = output_error;
  command_tag = [];
  affected_rows = pos 0;
  columns = [];
  rows = [];
  truncated = false;
  incomplete = false;
  duration = 0;
  error = some structured;
}

abbrev pub is_cancelled_run : Option CoreError → Bool
is_cancelled_run none = false
is_cancelled_run (some e) = is_cancellation e.category
