-- ===== src/Grid/Update.antt =====
-- internal/grid/model.go: keys, and the dispatch of messages.
use db_tui.Common.{
  ℕ, ◌+◌, ◌-◌, min, max, Bool, true, false, ◌&&◌, not, [], none, some, Text, lit, text_eq, length,
  if◌then◌else◌, ◌==◌,
}
use db_tui.Common.Int.{pos, negsuc}
use db_tui.Grid.Types.{
  first_page, page_next, page_previous, default_page_size, is_nil, value_null, value_default,
}
use db_tui.Grid.State.{
  Platform, Model, Cmd, cancel_intent, Key, KeyPress, describe_operation, page_operation,
  apply_operation, overlay_refresh, overlay_revert_all, overlay_changes, is_overlay_none,
  CellEditor, Message, relation_described, page_loaded, applied, operation_failed, paste, key_press,
  mouse_click, mouse_wheel, other_message, key_up, key_down, key_left, key_right, key_home, key_end,
  key_pgup, key_pgdown, key_a, key_d, key_e, key_f, key_g, key_h, key_i, key_j, key_k, key_l, key_n,
  key_p, key_r, key_s, key_u, key_v, key_z, key_shift_g, key_shift_u, key_upper_u, key_enter,
  key_esc, key_backspace, key_delete, key_ctrl_a, key_ctrl_c, key_ctrl_e,
}
use db_tui.Grid.Scroll.{ensure_row_visible, move_row, move_column}
use db_tui.Grid.Snapshot.{dirty}
use db_tui.Grid.Requests.{is_current, busy, describe, start_page, retry, cycle_sort}
use db_tui.Grid.Results.{on_described, on_page_loaded, on_applied, on_failed}
use db_tui.Grid.Pointer.{update_mouse, update_wheel}
use db_tui.Grid.Editor.{insert_editor_text, delete_editor_rune}
use db_tui.Grid.Actions.{
  stage_insert, open_editor, commit_editor, stage_special, toggle_delete, revert_selected_row,
}
use db_tui.Grid.Overlay.{request_apply_confirmation, update_overlay_key}

unfoldable pub on_cancel_key : Model → Key → Model × Cmd
unfolding lit
on_cancel_key m key_ctrl_c = (
  record m { status = lit "Cancelling table operation…" },
  some (cancel_intent m.active.meta.operation),
)
on_cancel_key m _ = (m, none)

unfoldable pub request_page : Model → Text → Bool → ℕ → Model × Cmd
request_page m cursor next target =
    start_page m
      (record {
        relation = m.relation_id;
        cursor = cursor;
        direction = if next then page_next else page_previous;
        sort = m.sort;
        limit = default_page_size;
      })
      target

unfoldable pub next_page : Model → Model × Cmd
unfolding request_page lit
next_page m =
    if text_eq m.page.next_cursor []
    then (record m { status = lit "Already on the last page." }, none)
    else request_page m m.page.next_cursor true (m.page_number + 1)

unfoldable pub previous_page : Model → Model × Cmd
unfolding request_page lit
previous_page m =
    if text_eq m.page.prev_cursor []
    then (record m { status = lit "Already on the first page." }, none)
    else request_page m m.page.prev_cursor false (max 1 (m.page_number - 1))

unfoldable pub refresh : Model → Model × Cmd
unfolding lit
refresh m = if not (is_nil m.err) then retry m else elim m.relation [
  | none ↦ describe m
  | some _ ↦
      if dirty m
      then (
        record m {
          overlay = overlay_refresh;
          overlay_scroll = 0;
          status = lit "Refresh needs a decision because this tab has staged changes.";
        },
        none,
      )
      else start_page m (first_page m.relation_id m.sort) 1
]

unfoldable pub last_row : Model → Model
last_row m =
    if length m.page.rows == 0
    then m
    else ensure_row_visible (record m { selected_row = length m.page.rows - 1 })

unfoldable pub revert_all : Model → Model
unfolding lit
revert_all m =
    if dirty m
    then record m {
      overlay = overlay_revert_all;
      overlay_scroll = 0;
      status = lit "Confirm reverting every staged change in this tab.";
    }
    else m

module _ (p : Platform) where
  abbrev pub with_editor : Model → CellEditor → Model
  with_editor m editor = record m { editor = some editor }

  -- a key that is no command types its text
  unfoldable pub type_key : Model → CellEditor → KeyPress → Model
  unfolding insert_editor_text
  type_key m editor press =
      if not (text_eq press.text []) && not press.modified
      then with_editor m (insert_editor_text editor press.text)
      else m

  unfoldable pub editor_key : Key → Model → CellEditor → KeyPress → Model
  unfolding delete_editor_rune type_key lit
  editor_key key_esc m editor press = record m {
    editor = none;
    status = lit "Cell edit cancelled.";
  }
  editor_key key_enter m editor press = commit_editor p m editor
  editor_key key_left m editor press = with_editor m (record editor { cursor = editor.cursor - 1 })
  editor_key key_right m editor press =
      with_editor m (record editor { cursor = min (length editor.buffer) (editor.cursor + 1) })
  editor_key key_home m editor press = with_editor m (record editor { cursor = 0 })
  editor_key key_ctrl_a m editor press = with_editor m (record editor { cursor = 0 })
  editor_key key_end m editor press =
      with_editor m (record editor { cursor = length editor.buffer })
  editor_key key_ctrl_e m editor press =
      with_editor m (record editor { cursor = length editor.buffer })
  editor_key key_backspace m editor press = with_editor m (delete_editor_rune editor (negsuc 0))
  editor_key key_delete m editor press = with_editor m (delete_editor_rune editor (pos 1))
  editor_key _ m editor press = type_key m editor press

  unfoldable pub update_editor_key : Model → CellEditor → KeyPress → Model
  unfolding editor_key
  update_editor_key m editor press = editor_key press.keystroke m editor press

  unfoldable pub table_key : Key → Model → Model × Cmd
  table_key key_up m = (move_row m (negsuc 0), none)
  table_key key_k m = (move_row m (negsuc 0), none)
  table_key key_down m = (move_row m (pos 1), none)
  table_key key_j m = (move_row m (pos 1), none)
  table_key key_left m = (move_column m (negsuc 0), none)
  table_key key_h m = (move_column m (negsuc 0), none)
  table_key key_right m = (move_column m (pos 1), none)
  table_key key_l m = (move_column m (pos 1), none)
  table_key key_home m = (record m { selected_row = 0; row_offset = 0 }, none)
  table_key key_g m = (record m { selected_row = 0; row_offset = 0 }, none)
  table_key key_end m = (last_row m, none)
  table_key key_shift_g m = (last_row m, none)
  table_key key_n m = next_page m
  table_key key_pgdown m = next_page m
  table_key key_p m = previous_page m
  table_key key_pgup m = previous_page m
  table_key key_r m = refresh m
  table_key key_s m = cycle_sort m
  table_key key_i m = (stage_insert p m, none)
  table_key key_e m = (open_editor p m, none)
  table_key key_enter m = (open_editor p m, none)
  table_key key_z m = (stage_special p m value_null, none)
  table_key key_f m = (stage_special p m value_default, none)
  table_key key_d m = (toggle_delete p m, none)
  table_key key_u m = (revert_selected_row p m, none)
  table_key key_upper_u m = (revert_all m, none)
  table_key key_shift_u m = (revert_all m, none)
  table_key key_a m = (request_apply_confirmation m, none)
  table_key key_v m =
      ((if dirty m then record m { overlay = overlay_changes; overlay_scroll = 0 } else m), none)
  table_key _ m = (m, none)

  unfoldable pub update_key_message : Model → KeyPress → Model × Cmd
  update_key_message m press = if busy m then on_cancel_key m press.keystroke else elim m.editor [
    | some editor ↦ (update_editor_key m editor press, none)
    | none ↦
        if is_overlay_none m.overlay
        then table_key press.keystroke m
        else update_overlay_key p m.overlay m press.keystroke
  ]

  unfoldable pub update_paste : Model → Text → Model
  update_paste m content = elim m.editor [
    | none ↦ m
    | some editor ↦ with_editor m (insert_editor_text editor content)
  ]

  unfoldable pub update : Model → Message → Model × Cmd
  unfolding update_paste
  update m (relation_described relation meta) =
      if is_current m describe_operation meta then on_described m relation else (m, none)
  update m (page_loaded page meta) =
      if is_current m page_operation meta then (on_page_loaded p m page, none) else (m, none)
  update m (applied result meta) =
      if is_current m apply_operation meta then on_applied p m result else (m, none)
  update m (operation_failed kind err meta) =
      if is_current m kind meta then (on_failed p m kind err, none) else (m, none)
  update m (paste content) = (update_paste m content, none)
  update m (key_press press) = update_key_message m press
  update m (mouse_click mouse) = update_mouse p m mouse
  update m (mouse_wheel mouse) = (update_wheel m mouse, none)
  update m other_message = (m, none)

abbrev pub is_input : Message → Bool
is_input (paste _) = true
is_input (key_press _) = true
is_input (mouse_click _) = true
is_input (mouse_wheel _) = true
is_input _ = false

-- Does the tab take the message before the workspace does?
unfoldable pub captures : Model → Message → Bool
captures m message = elim m.editor [
  | some _ ↦ is_input message
  | none ↦ not (is_overlay_none m.overlay) && is_input message
]
