-- ===== src/Grid/Access.antt =====
-- A table that the role may only read is never edited.
use db_tui.Common.{
  ℕ, ◌≡◌, true, false, [], Option, none, some, Text, arith, inl, inr, Option-cases, delete,
}
use db_tui.Grid.Types.{Relation, Column, ValueKind, value_null, value_default, PageRequest}
use db_tui.Grid.State.{
  Platform, Model, Key, KeyPress, Mouse, OverlayKind, Message, relation_described, page_loaded,
  applied, operation_failed, paste, key_press, mouse_click, mouse_wheel, other_message,
}
use db_tui.Grid.Rows.{RowReference, compute_column_widths, row_reference_at}
use db_tui.Grid.Scroll.{ensure_row_visible, ensure_column_visible, move_row, move_column}
use db_tui.Grid.Requests.{start_page, start_apply, retry, cycle_sort, clear_active}
use db_tui.Grid.Stage.{column_writable}
use db_tui.Grid.Actions.{
  stage_insert, open_editor, stage_special, stage_special_at, toggle_delete, revert_selected_row,
  clear_changes, target_at, Target,
}
use db_tui.Grid.Overlay.{
  update_overlay_key, update_overlay_mouse, apply_then_refresh, reload_first, revert_then_refresh,
  validate_changes, request_apply_confirmation, update_overlay_scroll, error_dismissed,
}
use db_tui.Grid.Results.{on_described, on_page_loaded, on_applied, after_apply}
use db_tui.Grid.Outcome.{on_failed-SameChanges}
use db_tui.Grid.Pointer.{
  update_mouse, update_wheel, click_table, click_action, click_cell, GridAction, grid_action_at,
  open_overlay,
}
use db_tui.Grid.Update.{
  update, update_key_message, table_key, next_page, previous_page, refresh, last_row, revert_all,
  on_cancel_key, update_paste,
}

pub record IsReadOnly (relation : Relation) : Type 0 where
  pub no_insert : relation.can_insert ≡ false
  pub no_update : relation.can_update ≡ false
  pub no_delete : relation.can_delete ≡ false

-- Nothing is staged and no cell is being edited.
pub record IsClean (m : Model) : Type 0 where
  pub no_inserts : m.inserts ≡ []
  pub no_updates : m.updates ≡ []
  pub no_deletes : m.deletes ≡ []
  pub no_editor : m.editor ≡ none

start_page-IsClean :
    (m : Model) (page : PageRequest) (target : ℕ) → IsClean m → IsClean (start_page m page target).0
unfolding start_page
start_page-IsClean m page target h = ground arith

start_apply-IsClean : (m : Model) → IsClean m → IsClean (start_apply m).0
unfolding start_apply
start_apply-IsClean m h = ground arith

clear_changes-IsClean : (p : Platform) (m : Model) → IsClean (clear_changes p m)
unfolding clear_changes compute_column_widths
clear_changes-IsClean p m = ground arith

validate_changes-IsClean : (m : Model) → IsClean m → IsClean (validate_changes m).0
unfolding validate_changes ensure_column_visible
validate_changes-IsClean m h = ground arith

request_apply_confirmation-IsClean :
    (m : Model) → IsClean m → IsClean (request_apply_confirmation m)
unfolding request_apply_confirmation
request_apply_confirmation-IsClean m h = ground (arith, validate_changes-IsClean m h)

reload_first-IsClean : (r : Model × Option Text) → IsClean r.0 → IsClean (reload_first r).0
unfolding reload_first
reload_first-IsClean (n, some issue) h = ground arith
reload_first-IsClean (n, none) h =
    start_apply-IsClean (record n { apply_reload_first = true }) (ground arith)

module _ (p : Platform) (m : Model) (clean : IsClean m) where
  apply_then_refresh-IsClean : IsClean (apply_then_refresh m).0
  unfolding apply_then_refresh
  apply_then_refresh-IsClean =
      reload_first-IsClean (validate_changes m) (validate_changes-IsClean m clean)

  revert_then_refresh-IsClean : IsClean (revert_then_refresh p m).0
  unfolding revert_then_refresh
  revert_then_refresh-IsClean =
      start_page-IsClean (clear_changes p m) _ 1 (clear_changes-IsClean p m)

  scroll-IsClean : (key : Key) → IsClean (update_overlay_scroll m key)
  unfolding update_overlay_scroll
  scroll-IsClean key = ground arith

  overlay_key-IsClean :
      (kind : OverlayKind) (key : Key) → IsClean (update_overlay_key p kind m key).0
  unfolding update_overlay_key
  overlay_key-IsClean kind key = ground (
    arith,
    start_apply-IsClean m clean,
    scroll-IsClean key,
    apply_then_refresh-IsClean,
    revert_then_refresh-IsClean,
    clear_changes-IsClean p m,
    request_apply_confirmation-IsClean m clean,
    request_apply_confirmation-IsClean (error_dismissed m),
  )

  overlay_mouse-IsClean :
      (kind : OverlayKind) (mouse : Mouse) → IsClean (update_overlay_mouse p kind m mouse).0
  unfolding update_overlay_mouse
  overlay_mouse-IsClean kind mouse = ground (
    arith,
    start_apply-IsClean m clean,
    apply_then_refresh-IsClean,
    revert_then_refresh-IsClean,
    clear_changes-IsClean p m,
  )

module _ (p : Platform) (m : Model) (relation : Relation) (known : m.relation ≡ some relation)
    (locked : IsReadOnly relation) (clean : IsClean m) where
  stage_insert-IsClean : IsClean (stage_insert p m)
  unfolding stage_insert
  stage_insert-IsClean = ground arith

  target-relation :
      (row column : ℕ) (t : Target) → target_at p m row column ≡ some t → t.relation ≡ relation
  unfolding target_at
  target-relation row column t h = ground arith

  not_writable :
      (reference : RowReference) (column : Column)
      → column_writable relation reference column ≡ false
  unfolding column_writable
  not_writable reference column = ground arith

  open_editor-IsClean : IsClean (open_editor p m)
  unfolding open_editor
  open_editor-IsClean = elim (Option-cases (target_at p m m.selected_row m.selected_column)) [
    | inl missing ↦ rw (missing, open_editor) clean
    | inr (t, found) ↦
        rw (found, open_editor)
          (ground (
            arith,
            target-relation m.selected_row m.selected_column t found,
            not_writable t.reference t.column,
          ))
  ]

  stage_special-IsClean : (kind : ValueKind) → IsClean (stage_special p m kind)
  unfolding stage_special stage_special_at
  stage_special-IsClean kind =
      elim (Option-cases (target_at p m m.selected_row m.selected_column)) [
        | inl missing ↦ rw (missing, stage_special) clean
        | inr (t, found) ↦
            rw (found, stage_special)
              (ground (
                arith,
                target-relation m.selected_row m.selected_column t found,
                not_writable t.reference t.column,
              ))
      ]

  no_draft : (row : ℕ) (r : RowReference) → row_reference_at p m row ≡ some r → r.insert ≡ false
  unfolding row_reference_at
  no_draft row r h = ground arith

  toggle_delete-IsClean : IsClean (toggle_delete p m)
  unfolding toggle_delete
  toggle_delete-IsClean = elim (Option-cases (row_reference_at p m m.selected_row)) [
    | inl missing ↦ rw (missing, toggle_delete) clean
    | inr (r, found) ↦
        rw (found, toggle_delete, known) (ground (arith, no_draft m.selected_row r found))
  ]

  revert-IsClean : IsClean (revert_selected_row p m)
  unfolding revert_selected_row compute_column_widths
  revert-IsClean = elim (Option-cases (row_reference_at p m m.selected_row)) [
    | inl missing ↦ rw (missing, revert_selected_row) clean
    | inr (r, found) ↦
        rw (found, revert_selected_row)
          (unfold delete in ground (arith, no_draft m.selected_row r found))
  ]

  click_action-IsClean : (chosen : GridAction) → IsClean (click_action p m chosen).0
  unfolding click_action open_overlay
  click_action-IsClean chosen = ground (
    arith,
    stage_insert-IsClean,
    open_editor-IsClean,
    stage_special-IsClean value_null,
    stage_special-IsClean value_default,
    toggle_delete-IsClean,
    revert-IsClean,
    request_apply_confirmation-IsClean m clean,
  )

  click-IsClean : (mouse : Mouse) → IsClean (update_mouse p m mouse).0
  unfolding update_mouse click_table click_cell ensure_row_visible ensure_column_visible
  click-IsClean mouse = ground (
    arith,
    click_action-IsClean (grid_action_at mouse.x),
    overlay_mouse-IsClean p m clean m.overlay mouse,
  )

  table_key-IsClean : (key : Key) → IsClean (table_key p key m).0
  unfolding table_key revert_all next_page previous_page refresh last_row retry cycle_sort
      start_page move_row move_column
  table_key-IsClean key = ground (
    arith,
    stage_insert-IsClean,
    open_editor-IsClean,
    stage_special-IsClean value_null,
    stage_special-IsClean value_default,
    toggle_delete-IsClean,
    revert-IsClean,
    request_apply_confirmation-IsClean m clean,
  )

  key-IsClean : (press : KeyPress) → IsClean (update_key_message p m press).0
  unfolding update_key_message on_cancel_key
  key-IsClean press = ground (
    arith,
    table_key-IsClean press.keystroke,
    overlay_key-IsClean p m clean m.overlay press.keystroke,
  )

  -- A table without INSERT, UPDATE and DELETE is never edited: from a state in which nothing is staged
  -- and no cell is open, no message at all stages a change or opens a cell.
  pub update-IsClean : (message : Message) → IsClean (update p m message).0
  unfolding update update_paste on_described start_page on_applied after_apply clear_changes
      on_page_loaded clear_active update_wheel move_row move_column compute_column_widths
      ensure_column_visible
  update-IsClean (relation_described r meta) = ground arith
  update-IsClean (page_loaded page meta) = ground arith
  update-IsClean (applied result meta) = ground arith
  update-IsClean (operation_failed kind err meta) =
      ground (arith, on_failed-SameChanges p m kind err)
  update-IsClean (paste content) = ground arith
  update-IsClean (key_press press) = key-IsClean press
  update-IsClean (mouse_click mouse) = click-IsClean mouse
  update-IsClean (mouse_wheel mouse) = ground arith
  update-IsClean other_message = clean
