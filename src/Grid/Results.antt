-- ===== src/Grid/Results.antt =====
-- internal/grid/model.go: what an answer of the session does to the tab.
use db_tui.Common.{
  ℕ, ◌+◌, max, Bool, true, false, ◌||◌, List, [], ◌∷◌, ◌++◌, Option, none, some, Text, lit, text_eq,
  length, get_elem?, if◌then◌else◌, ◌==◌,
}
use db_tui.Common.Int.{ℤ, pos, negsuc}
use db_tui.Common.Decimal.{decimal}
use db_tui.Core.{CoreError, is_cancellation}
use db_tui.Grid.Types.{
  Relation, Row, Page, PageRequest, first_page, no_sort, Mutation, insert_mutation, ApplyResult,
  GoError, nil_error, as_core_error, as_mutation_error, is_uncertain,
}
use db_tui.Grid.State.{
  Platform, Model, Cmd, OperationKind, no_operation, apply_operation, overlay_none,
  overlay_mutation_error, idle, failed,
}
use db_tui.Grid.Rows.{identity_key, column_index, compute_column_widths}
use db_tui.Grid.Scroll.{ensure_row_visible, ensure_column_visible}
use db_tui.Grid.Requests.{clear_active, start_page, is_no_relation}
use db_tui.Grid.Actions.{clear_changes}

unfoldable pub on_described : Model → Relation → Model × Cmd
unfolding lit
on_described m relation =
    start_page
      (record (clear_active m) {
        relation = some relation;
        selected_column = 0;
        err = nil_error;
        status = lit "Loading the first page…";
      })
      (first_page relation.id no_sort) 1

unfoldable pub page_status : Option ApplyResult → Page → ℕ → Text
unfolding lit decimal
page_status (some result) page number =
    lit "Applied "
    ++ (decimal result.inserted
        ++ (lit " insert(s), "
            ++ (decimal result.updated
                ++ (lit " update(s), and "
                    ++ (decimal result.deleted
                        ++ (lit " delete(s); reloaded page " ++ (decimal number ++ lit ".")))))))
page_status none page number =
    if length page.rows == 0
    then lit "No rows on this page."
    else lit "Loaded "
      ++ (decimal (length page.rows) ++ (lit " rows on page " ++ (decimal number ++ lit ".")))

-- the row of the first mutation with the draft's number
unfoldable pub draft_row : List Mutation → ℕ → ℕ → Option ℕ
draft_row [] id index = none
draft_row (mutation ∷ mutations) id index =
    if mutation.draft_id == id then some index else draft_row mutations id (index + 1)

unfoldable pub select_row : Model → Option ℕ → Model
select_row m none = m
select_row m (some row) = record m { selected_row = row }

unfoldable pub select_column : Model → Option ℕ → Model
select_column m none = m
select_column m (some column) = ensure_column_visible (record m { selected_column = column })

unfoldable pub snapshot_entry : Model → ℤ → Option Mutation
snapshot_entry m (pos index) = get_elem? m.apply_snapshot index
snapshot_entry m (negsuc _) = none

unfoldable pub failure_status : OperationKind → GoError → Text
unfolding lit
failure_status apply_operation err =
    if is_uncertain err
    then lit
        "Commit confirmation was lost. Keep the staged changes, reconnect, then Revert and refresh before deciding what to restage."
    else lit "Apply rolled back. Staged changes are intact for correction or retry."
failure_status _ err = lit "Browsing failed. Press r to retry."

unfoldable pub cancelled_status : OperationKind → Text
unfolding lit
cancelled_status apply_operation = lit "Apply cancelled. All staged changes remain available."
cancelled_status _ = lit "Operation cancelled. You can run it again."

unfoldable pub is_cancelled : Option CoreError → Bool
is_cancelled none = false
is_cancelled (some e) = is_cancellation e.category

unfoldable pub is_apply : OperationKind → Bool
is_apply apply_operation = true
is_apply _ = false

module _ (p : Platform) where
  -- the first row of the page with the identity's key
  unfoldable pub page_row : Model → Text → List Row → ℕ → Option ℕ
  unfolding identity_key
  page_row m key [] index = none
  page_row m key (row ∷ rows) index =
      if text_eq (identity_key p m row.identity) key
      then some index
      else page_row m key rows (index + 1)

  unfoldable pub focus_row : Model → Mutation → Model
  unfolding page_row draft_row select_row
  focus_row m mutation = elim mutation.kind [
    | insert_mutation ↦ select_row m (draft_row m.inserts mutation.draft_id 0)
    | _ ↦
        select_row m
          (page_row m (identity_key p m mutation.original.identity) m.page.rows (length m.inserts))
  ]

  -- The selection goes to the cell that the session blames, if it is found.
  unfoldable pub focus_mutation_error : Model → GoError → Model
  unfolding focus_row select_column snapshot_entry
  focus_mutation_error m err = elim (as_mutation_error err) [
    | none ↦ m
    | some e ↦ elim (snapshot_entry m e.mutation) [
      | none ↦ m
      | some mutation ↦
          let m' = focus_row m mutation in
          ensure_row_visible (select_column m' (column_index m' e.column))
    ]
  ]

  unfoldable pub on_page_loaded : Model → Page → Model
  unfolding page_status compute_column_widths
  on_page_loaded m page =
      let number = max 1 m.pending_page in
      record (ensure_column_visible (
        compute_column_widths p (record (clear_active m) {
          page = page;
          page_number = number;
          selected_row = 0;
          row_offset = 0;
          err = nil_error;
          lifecycle = idle;
        }))) { reload_after_apply = none; status = page_status m.reload_after_apply page number }

  -- the page to load after an apply, and its number
  unfoldable pub reload_target : Model → PageRequest × ℕ
  reload_target m =
      if is_no_relation m.pending_request.relation || m.apply_reload_first
      then (first_page m.relation_id m.sort, 1)
      else (m.pending_request, max 1 m.page_number)

  -- the state in which the source chooses the page
  unfoldable pub after_apply : Model → ApplyResult → Model
  unfolding clear_changes
  after_apply m result = record (clear_changes p (clear_active m)) {
    err = nil_error;
    failed_kind = no_operation;
    lifecycle = idle;
    overlay = overlay_none;
    reload_after_apply = some result;
    apply_snapshot = [];
  }

  unfoldable pub on_applied : Model → ApplyResult → Model × Cmd
  unfolding reload_target after_apply
  on_applied m result =
      let m' = after_apply m result in
      start_page (record m' { apply_reload_first = false }) (reload_target m').0
        (reload_target m').1

  unfoldable pub failure_noted : Model → OperationKind → GoError → Model
  unfolding focus_mutation_error failure_status is_apply
  failure_noted m kind err =
      let m' = record (clear_active m) { err = err; failed_kind = kind; lifecycle = failed } in
      if is_apply kind
      then record (focus_mutation_error (record m' { overlay = overlay_mutation_error }) err) {
        status = failure_status kind err;
      }
      else record m' { status = failure_status kind err }

  -- A cancellation is no failure.
  unfoldable pub on_failed : Model → OperationKind → GoError → Model
  unfolding failure_noted cancelled_status is_cancelled
  on_failed m kind err =
      let m' = failure_noted m kind err in
      if is_cancelled (as_core_error err)
      then record m' {
        err = nil_error;
        failed_kind = no_operation;
        lifecycle = idle;
        overlay = overlay_none;
        status = cancelled_status kind;
      }
      else m'
