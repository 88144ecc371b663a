-- ===== src/SqlTab/Types.antt =====
-- internal/sqltab/service.go: what a run takes and gives. Durations are nanoseconds.
use db_tui.Common.{ℕ, Bool, List, [], Option, Text}
use db_tui.Common.Int.{ℤ}
use db_tui.Core.{RequestMeta, CoreError}
use db_tui.Grid.Types.{Value}

abbrev pub result_page_size : ℕ
result_page_size = 100

pub data OutputKind : Type 0 where
  output_rows output_command output_error : OutputKind

abbrev pub is_rows : OutputKind → Bool
is_rows output_rows = Bool.true
is_rows _ = Bool.false

abbrev pub is_error : OutputKind → Bool
is_error output_error = Bool.true
is_error _ = Bool.false

pub record RunRequest : Type 0 where
  pub meta : RequestMeta
  pub snapshot : Text

pub record Column : Type 0 where
  pub name : Text
  pub data_type : Text
  pub type_oid : ℕ

pub record Cell : Type 0 where
  pub raw : Value
  pub display : Text
  pub full : Text
  pub null : Bool

pub record Notice : Type 0 where
  pub severity : Text
  pub message : Text
  pub sql_state : Text
  pub detail : Text
  pub hint : Text

pub record Output : Type 0 where
  pub kind : OutputKind
  pub command_tag : Text
  pub affected_rows : ℤ
  pub columns : List Column
  pub rows : List (List Cell)
  pub truncated : Bool
  pub incomplete : Bool
  pub duration : ℕ
  pub error : Option CoreError

pub record RunResult : Type 0 where
  pub outputs : List Output
  pub notices : List Notice
  pub duration : ℕ
  pub captured_bytes : ℕ
  pub warning : Text

-- the zero value of the struct
abbrev pub no_result : RunResult
no_result = record { outputs = []; notices = []; duration = 0; captured_bytes = 0; warning = [] }
