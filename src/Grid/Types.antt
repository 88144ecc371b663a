-- ===== src/Grid/Types.antt =====
-- internal/grid/service.go: what the grid exchanges with the database session.
use db_tui.Common.{ℕ, Bool, List, [], Option, none, Text, Dict}
use db_tui.Common.Int.{ℤ}
use db_tui.Core.{CoreError}

abbrev pub default_page_size : ℕ
default_page_size = 100

pub record RelationId : Type 0 where
  pub schema : Text
  pub name : Text

abbrev pub no_relation_id : RelationId
no_relation_id = record { schema = []; name = [] }

pub data RelationKind : Type 0 where
  table partitioned_table view materialized_view foreign_table : RelationKind

pub record Column : Type 0 where
  pub name : Text
  pub data_type : Text
  pub type_oid : ℕ
  pub nullable : Bool
  pub has_default : Bool
  pub generated : Bool
  pub identity : Bool
  pub can_select : Bool
  pub can_insert : Bool
  pub can_update : Bool
  pub sortable : Bool
  pub identity_part : Bool

pub record Relation : Type 0 where
  pub id : RelationId
  pub kind : RelationKind
  pub columns : List Column
  pub mutation_columns : List Column
  pub identity : List Text
  pub identity_primary : Bool
  pub can_select : Bool
  pub can_insert : Bool
  pub can_update : Bool
  pub can_delete : Bool
  pub has_xmin : Bool
  pub best_effort : Bool
  pub read_only_reason : Text
  pub insert_reason : Text
  pub update_reason : Text
  pub delete_reason : Text

-- The sort is a column's name and a direction; the empty name is the table's own order.
pub record Sort : Type 0 where
  pub column : Text
  pub ascending : Bool

abbrev pub no_sort : Sort
no_sort = record { column = []; ascending = Bool.false }

pub data PageDirection : Type 0 where
  page_first page_next page_previous : PageDirection

pub record PageRequest : Type 0 where
  pub relation : RelationId
  pub cursor : Text
  pub direction : PageDirection
  pub sort : Sort
  pub limit : ℕ

abbrev pub first_page : RelationId → Sort → PageRequest
first_page relation sort = record {
  relation = relation;
  cursor = [];
  direction = PageDirection.page_first;
  sort = sort;
  limit = default_page_size;
}

-- the zero value, which `NewModel` leaves in `pendingRequest`
abbrev pub no_page_request : PageRequest
no_page_request = record {
  relation = no_relation_id;
  cursor = [];
  direction = PageDirection.page_first;
  sort = no_sort;
  limit = 0;
}

-- A Go `any`: nil, a string, or another value of the driver, known by a number.
pub data Value : Type 0 where
  nil_value : Value
  string_value : Text → Value
  driver_value : ℕ → Value

pub record Cell : Type 0 where
  pub raw : Value
  pub display : Text
  pub edit : Text
  pub null : Bool

abbrev pub no_cell : Cell
no_cell = record { raw = Value.nil_value; display = []; edit = []; null = Bool.false }

pub record Row : Type 0 where
  pub identity : Dict Value
  pub xmin : ℕ
  pub cells : List Cell

abbrev pub no_row : Row
no_row = record { identity = []; xmin = 0; cells = [] }

pub record Page : Type 0 where
  pub rows : List Row
  pub next_cursor : Text
  pub prev_cursor : Text
  pub best_effort : Bool

pub data MutationKind : Type 0 where
  insert_mutation update_mutation delete_mutation : MutationKind

pub data ValueKind : Type 0 where
  value_text value_null value_default : ValueKind

pub record StagedValue : Type 0 where
  pub kind : ValueKind
  pub text : Text

pub record Mutation : Type 0 where
  pub kind : MutationKind
  pub draft_id : ℕ
  pub original : Row
  pub values : Dict StagedValue

pub record ApplyRequest : Type 0 where
  pub relation : Relation
  pub mutations : List Mutation

pub record ApplyResult : Type 0 where
  pub inserted : ℕ
  pub updated : ℕ
  pub deleted : ℕ

pub record MutationError : Type 0 where
  pub mutation : ℤ
  pub column : Text
  pub current : Option Row

-- A Go error as the chain that `errors.As` walks; `nil_error` is nil.
pub data GoError : Type 0 where
  nil_error : GoError
  plain_error : Text → GoError
  core_error : CoreError → GoError → GoError
  mutation_error : MutationError → GoError → GoError
  apply_uncertain_error : GoError → GoError

-- `errors.As` at each of the three types
abbrev pub as_core_error : GoError → Option CoreError
as_core_error nil_error = none
as_core_error (plain_error _) = none
as_core_error (core_error e _) = Option.some e
as_core_error (mutation_error _ err) = as_core_error err
as_core_error (apply_uncertain_error err) = as_core_error err

abbrev pub as_mutation_error : GoError → Option MutationError
as_mutation_error nil_error = none
as_mutation_error (plain_error _) = none
as_mutation_error (core_error _ cause) = as_mutation_error cause
as_mutation_error (mutation_error e _) = Option.some e
as_mutation_error (apply_uncertain_error err) = as_mutation_error err

abbrev pub is_uncertain : GoError → Bool
is_uncertain nil_error = Bool.false
is_uncertain (plain_error _) = Bool.false
is_uncertain (core_error _ cause) = is_uncertain cause
is_uncertain (mutation_error _ err) = is_uncertain err
is_uncertain (apply_uncertain_error _) = Bool.true

abbrev pub is_nil : GoError → Bool
is_nil nil_error = Bool.true
is_nil _ = Bool.false
