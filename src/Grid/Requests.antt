-- ===== src/Grid/Requests.antt =====
-- internal/grid/model.go: the requests that the tab starts. A method returns the new state and the
-- command.
use db_tui.Common.{
  ℕ, max, Bool, true, false, ◌&&◌, not, [], ◌++◌, none, some, Text, lit, text_eq, get_elem?,
  if◌then◌else◌,
}
use db_tui.Common.Decimal.{decimal}
use db_tui.Core.{RequestMeta, next_uint64, matches}
use db_tui.Grid.Types.{RelationId, Relation, Sort, no_sort, PageRequest, first_page, nil_error}
use db_tui.Grid.State.{
  Model, Cmd, describe_intent, load_page_intent, apply_intent, OperationKind, no_operation,
  describe_operation, page_operation, apply_operation, running, overlay_none, no_active,
}
use db_tui.Grid.Snapshot.{dirty, mutations_snapshot}

operation_name : OperationKind → Text
operation_name no_operation = []
operation_name describe_operation = lit "describe"
operation_name page_operation = lit "page"
operation_name apply_operation = lit "apply"

unfoldable pub request_meta : Model → OperationKind → ℕ → RequestMeta
unfolding operation_name lit decimal
request_meta m kind request = record {
  workspace = m.workspace;
  tab = m.tab;
  operation =
      lit "grid." ++ (operation_name kind ++ (lit "." ++ (m.tab ++ (lit "." ++ decimal request))));
  request = request;
}

same_kind : OperationKind → OperationKind → Bool
same_kind no_operation no_operation = true
same_kind describe_operation describe_operation = true
same_kind page_operation page_operation = true
same_kind apply_operation apply_operation = true
same_kind _ _ = false

-- Is the message the answer to the operation that runs?
unfoldable pub is_current : Model → OperationKind → RequestMeta → Bool
unfolding same_kind
is_current m kind meta = same_kind m.active.kind kind && matches m.active.meta meta

unfoldable pub busy : Model → Bool
busy m = not (text_eq m.active.meta.operation [])

unfoldable pub clear_active : Model → Model
clear_active m = record m { active = no_active }

-- `newRequest` and `meta`: the fields that every start sets
started : Model → OperationKind → Model
unfolding request_meta
started m kind = record m {
  next_request = next_uint64 m.next_request;
  active = record { kind = kind; meta = request_meta m kind m.next_request };
  lifecycle = running;
  err = nil_error;
}

unfoldable pub describe : Model → Model × Cmd
unfolding started lit
describe m = (
  record (started m describe_operation) { status = lit "Loading table metadata…" },
  some (describe_intent m.relation_id (request_meta m describe_operation m.next_request)),
)

unfoldable pub start_page : Model → PageRequest → ℕ → Model × Cmd
unfolding describe
start_page m page target = elim m.relation [
  | none ↦ describe m
  | some relation ↦ (
    record (started m page_operation) {
      pending_request = page;
      pending_page = target;
      status = lit "Loading page " ++ (decimal target ++ lit "…");
    },
    some (load_page_intent relation page (request_meta m page_operation m.next_request)),
  )
]

same_relation : RelationId → RelationId → Bool
same_relation a b = text_eq a.schema b.schema && text_eq a.name b.name

-- `request.Relation == (RelationID{})`
unfoldable pub is_no_relation : RelationId → Bool
unfolding same_relation
is_no_relation id = same_relation id (record { schema = []; name = [] })

unfoldable pub retry : Model → Model × Cmd
unfolding start_page is_no_relation
retry m = elim m.relation [
  | none ↦ describe m
  | some _ ↦
      if is_no_relation m.pending_request.relation
      then describe m
      else start_page m m.pending_request (max 1 m.pending_page)
]

next_sort : Sort → Text → Sort
next_sort sort name =
    if not (text_eq sort.column name)
    then record { column = name; ascending = true }
    else if sort.ascending
    then record sort { ascending = false }
    else no_sort

-- `relation.Columns[selectedColumn]` panics out of range; here that does nothing.
unfoldable pub cycle_sort : Model → Model × Cmd
unfolding start_page next_sort
cycle_sort m = elim m.relation [
  | none ↦ (m, none)
  | some relation ↦ elim (get_elem? relation.columns m.selected_column) [
    | none ↦ (m, none)
    | some column ↦
        let sort = next_sort m.sort column.name in
        if column.sortable
        then start_page (record m { sort = sort }) (first_page m.relation_id sort) 1
        else (record m { status = column.name ++ lit " cannot be sorted by PostgreSQL." }, none)
  ]
]

apply_started : Model → Relation → Model × Cmd
unfolding started mutations_snapshot
apply_started m relation = (
  record (started m apply_operation) {
    failed_kind = no_operation;
    overlay = overlay_none;
    apply_snapshot = mutations_snapshot m;
    status = lit "Applying all staged changes in one PostgreSQL transaction…";
  },
  some (
      apply_intent (record { relation = relation; mutations = mutations_snapshot m })
        (request_meta m apply_operation m.next_request)),
)

unfoldable pub start_apply : Model → Model × Cmd
unfolding apply_started dirty
start_apply m = elim m.relation [
  | none ↦ (m, none)
  | some relation ↦ if dirty m then apply_started m relation else (m, none)
]
