-- ===== src/Grid/Waiting.antt =====
-- Every message, on every path: at most one operation is started, and then the tab waits for it.
use db_tui.Common.{
  ◌-◌, ◌≡◌, refl, inl, inr, true, Option, none, some, Text, arith, length, Option-cases,
}
use db_tui.Common.Int.{pos, negsuc}
use db_tui.Grid.Types.{Relation, Page, ApplyResult, value_null, value_default, first_page}
use db_tui.Grid.State.{
  Platform, Model, Cmd, Key, KeyPress, Mouse, OverlayKind, Message, CellEditor, relation_described,
  page_loaded, applied, operation_failed, paste, key_press, mouse_click, mouse_wheel, other_message,
  overlay_none, overlay_apply, overlay_refresh, overlay_revert_all, overlay_changes,
  overlay_mutation_error,
}
use db_tui.Grid.Requests.{start_page, clear_active}
use db_tui.Grid.Actions.{clear_changes}
use db_tui.Grid.Frame.{
  SameTable, ensure_row_visible-SameTable, move_row-SameTable, move_column-SameTable,
  stage_insert-SameTable, open_editor-SameTable, commit_editor-SameTable, stage_special-SameTable,
  toggle_delete-SameTable, revert_selected_row-SameTable, request_apply_confirmation-SameTable,
  validate_changes-SameTable, clear_changes-SameTable, update_overlay_scroll-SameTable,
}
use db_tui.Grid.Issue.{
  Issues, describe-Issues, start_page-Issues, retry-Issues, cycle_sort-Issues, start_apply-Issues,
}
use db_tui.Grid.Overlay.{
  update_overlay_key, update_overlay_mouse, apply_then_refresh, reload_first, revert_then_refresh,
  validate_changes, error_dismissed,
}
use db_tui.Grid.Results.{on_described, on_page_loaded, on_applied, after_apply}
use db_tui.Grid.Pointer.{
  update_mouse, update_wheel, click_table, click_action, click_cell, GridAction, grid_action_at,
}
use db_tui.Grid.Outcome.{on_failed-SameChanges}
use db_tui.Grid.Scroll.{ensure_row_visible, ensure_column_visible}
use db_tui.Grid.Rows.{compute_column_widths}
use db_tui.Grid.Update.{
  update, update_key_message, table_key, next_page, previous_page, refresh, update_editor_key,
  last_row, revert_all, on_cancel_key, update_paste,
}

abbrev Issued : Model → Model × Cmd → Type 0
Issued m (n, cmd) = Issues m.next_request n cmd

module _ (p : Platform) where
  next_page-Issued : (m : Model) → Issued m (next_page m)
  unfolding next_page start_page
  next_page-Issued m = ground arith

  previous_page-Issued : (m : Model) → Issued m (previous_page m)
  unfolding previous_page start_page
  previous_page-Issued m = ground arith

  refresh-Issued : (m : Model) → Issued m (refresh m)
  unfolding refresh
  refresh-Issued m = ground (
    arith,
    retry-Issues m,
    describe-Issues m,
    start_page-Issues m (first_page m.relation_id m.sort) 1,
  )

  last_row-SameTable : (m : Model) → SameTable m (last_row m)
  unfolding last_row
  last_row-SameTable m =
      ground
        (arith, ensure_row_visible-SameTable (record m { selected_row = length m.page.rows - 1 }))

  table_key-Issued : (key : Key) (m : Model) → Issued m (table_key p key m)
  unfolding table_key revert_all
  table_key-Issued key m = ground (
    arith,
    last_row-SameTable m,
    next_page-Issued m,
    previous_page-Issued m,
    refresh-Issued m,
    cycle_sort-Issues m,
    move_row-SameTable m (negsuc 0),
    move_row-SameTable m (pos 1),
    move_column-SameTable m (negsuc 0),
    move_column-SameTable m (pos 1),
    stage_insert-SameTable m p,
    open_editor-SameTable m p,
    stage_special-SameTable m p value_null,
    stage_special-SameTable m p value_default,
    toggle_delete-SameTable m p,
    revert_selected_row-SameTable m p,
    request_apply_confirmation-SameTable m,
  )

  reload_first-Issued :
      (m : Model) (r : Model × Option Text) → SameTable m r.0 → Issued m (reload_first r)
  unfolding reload_first
  reload_first-Issued m (n, some issue) h = h.next_request
  reload_first-Issued m (n, none) h =
      ground (arith, start_apply-Issues (record n { apply_reload_first = true }))

  apply_then_refresh-Issued : (m : Model) → Issued m (apply_then_refresh m)
  unfolding apply_then_refresh
  apply_then_refresh-Issued m =
      reload_first-Issued m (validate_changes m) (validate_changes-SameTable m)

  revert_then_refresh-Issued : (m : Model) → Issued m (revert_then_refresh p m)
  unfolding revert_then_refresh
  revert_then_refresh-Issued m = ground (
    arith,
    clear_changes-SameTable m p,
    start_page-Issues (clear_changes p m)
        (first_page (clear_changes p m).relation_id (clear_changes p m).sort) 1,
  )

  overlay_key-Issued :
      (kind : OverlayKind) (m : Model) (key : Key) → Issued m (update_overlay_key p kind m key)
  unfolding update_overlay_key
  overlay_key-Issued overlay_none m key = refl
  overlay_key-Issued overlay_apply m key =
      ground (arith, start_apply-Issues m, update_overlay_scroll-SameTable m key)
  overlay_key-Issued overlay_refresh m key =
      ground (arith, apply_then_refresh-Issued m, revert_then_refresh-Issued m)
  overlay_key-Issued overlay_revert_all m key = ground (arith, clear_changes-SameTable m p)
  overlay_key-Issued overlay_changes m key =
      ground (arith, request_apply_confirmation-SameTable m, update_overlay_scroll-SameTable m key)
  overlay_key-Issued overlay_mutation_error m key =
      ground (arith, request_apply_confirmation-SameTable (error_dismissed m))

  overlay_mouse-Issued :
      (kind : OverlayKind) (m : Model) (mouse : Mouse)
      → Issued m (update_overlay_mouse p kind m mouse)
  unfolding update_overlay_mouse
  overlay_mouse-Issued kind m mouse = ground (
    arith,
    start_apply-Issues m,
    apply_then_refresh-Issued m,
    revert_then_refresh-Issued m,
    clear_changes-SameTable m p,
  )

  editor_key-next :
      (m : Model) (editor : CellEditor) (press : KeyPress)
      → (update_editor_key p m editor press).next_request ≡ m.next_request
  unfolding update_editor_key
  editor_key-next m editor press = ground (arith, commit_editor-SameTable m p editor)

  key-Issued : (m : Model) (press : KeyPress) → Issued m (update_key_message p m press)
  unfolding update_key_message on_cancel_key
  key-Issued m press = elim (Option-cases m.editor) [
    | inl closed ↦
        ground (
          arith,
          table_key-Issued press.keystroke m,
          overlay_key-Issued m.overlay m press.keystroke,
        )
    | inr (editor, open_one) ↦ ground (arith, editor_key-next m editor press)
  ]

  click_action-Issued : (m : Model) (chosen : GridAction) → Issued m (click_action p m chosen)
  unfolding click_action
  click_action-Issued m chosen = ground (
    arith,
    stage_insert-SameTable m p,
    open_editor-SameTable m p,
    stage_special-SameTable m p value_null,
    stage_special-SameTable m p value_default,
    toggle_delete-SameTable m p,
    revert_selected_row-SameTable m p,
    request_apply_confirmation-SameTable m,
  )

  click-Issued : (m : Model) (mouse : Mouse) → Issued m (update_mouse p m mouse)
  unfolding update_mouse click_table click_cell ensure_row_visible ensure_column_visible
  click-Issued m mouse = ground (
    arith,
    click_action-Issued m (grid_action_at mouse.x),
    overlay_mouse-Issued m.overlay m mouse,
  )

  wheel-next : (m : Model) (mouse : Mouse) → (update_wheel m mouse).next_request ≡ m.next_request
  unfolding update_wheel
  wheel-next m mouse = ground arith

  described-Issued : (m : Model) (relation : Relation) → Issued m (on_described m relation)
  unfolding on_described start_page clear_active
  described-Issued m relation = ground arith

  applied-Issued : (m : Model) (result : ApplyResult) → Issued m (on_applied p m result)
  unfolding on_applied after_apply clear_changes compute_column_widths start_page clear_active
  applied-Issued m result = ground arith

  page_loaded-next :
      (m : Model) (page : Page) → (on_page_loaded p m page).next_request ≡ m.next_request
  unfolding on_page_loaded ensure_column_visible compute_column_widths clear_active
  page_loaded-next m page = refl

  -- Every message, in every state and on every path, starts at most one operation; when it starts one,
  -- the tab waits for exactly the request that the command carries, under the number that was next,
  -- and otherwise the next number stands.
  pub update-Issues :
      (m : Model) (message : Message)
      → Issues m.next_request (update p m message).0 (update p m message).1
  unfolding update update_paste
  update-Issues m (relation_described relation meta) = ground (arith, described-Issued m relation)
  update-Issues m (page_loaded page meta) = ground (arith, page_loaded-next m page)
  update-Issues m (applied result meta) = ground (arith, applied-Issued m result)
  update-Issues m (operation_failed kind err meta) =
      ground (arith, on_failed-SameChanges p m kind err)
  update-Issues m (paste content) = ground arith
  update-Issues m (key_press press) = key-Issued m press
  update-Issues m (mouse_click mouse) = click-Issued m mouse
  update-Issues m (mouse_wheel mouse) = wheel-next m mouse
  update-Issues m other_message = refl
