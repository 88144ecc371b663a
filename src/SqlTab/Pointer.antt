-- ===== src/SqlTab/Pointer.antt =====
-- internal/sqltab/mouse.go: clicks, drags and the wheel.
use db_tui.Common.{
  ℕ, ◌+◌, ◌-◌, min, max, Bool, true, false, ◌&&◌, ◌||◌, not, List, [], ◌∷◌, Option, none, some, lit,
  length, get_or, if◌then◌else◌, ltb, leb, ◌==◌,
}
use db_tui.Common.Int.{pos, negsuc}
use db_tui.Grid.State.{
  Mouse, MouseButton, mouse_left, wheel_up, wheel_down, wheel_left, wheel_right,
}
use db_tui.SqlTab.Types.{Output}
use db_tui.SqlTab.State.{Area, Terminal, Model, Cmd, Selection, pane_editor, pane_results}
use db_tui.SqlTab.Offsets.{split_lines, offset_of_line, cursor_offset, set_cursor_offset}
use db_tui.SqlTab.Editor.{
  ensure_editor_visible, execution_target_status, rune_index_at_display_column, gutter_width,
}
use db_tui.SqlTab.Results.{
  current_rows, page_start, page_end, result_top, visible_result_row_count, result_column_widths,
  visible_result_columns, ensure_result_row_visible, move_result_row, move_result_column,
}
use db_tui.SqlTab.Runs.{busy, cancel_run, rerun, execute}

pub data SqlAction : Type 0 where
  action_execute action_run_all action_rerun action_cancel no_action : SqlAction

-- The widths are those of the labels, one cell apart.
unfoldable pub action_at : ℕ → SqlAction
action_at x =
    if ltb x 12
    then action_execute
    else if leb 13 x && ltb x 25
    then action_run_all
    else if leb 26 x && ltb x 36
    then action_rerun
    else if leb 37 x && ltb x 52
    then action_cancel
    else no_action

-- the first column whose cells are at `x`
unfoldable pub column_at : ℕ → List ℕ → List ℕ → ℕ → Option ℕ
column_at x widths [] position = none
column_at x widths (column ∷ columns) position =
    let width = get_or widths column 0 in
    let rest = column_at x widths columns (position + width + 1) in
    if leb position x && ltb x (position + width) then some column else rest

abbrev pub is_left_button : MouseButton → Bool
is_left_button mouse_left = true
is_left_button _ = false

module _ {A : Type 0} (area : Area A) (t : Terminal) where
  unfoldable pub editor_position_at : Model A → ℕ → ℕ → ℕ
  unfolding split_lines offset_of_line rune_index_at_display_column
  editor_position_at m x y =
      let lines = split_lines (area.value m.editor) in
      let line = min (length lines - 1) (m.editor_offset + y - 2) in
      let column = x - gutter_width lines + m.editor_column_offset in
      offset_of_line lines line + rune_index_at_display_column t (get_or lines line []) column

  unfoldable pub result_column_at : Model A → ℕ → Output → ℕ
  unfolding column_at visible_result_columns result_column_widths
  result_column_at m x output =
      elim (column_at x (result_column_widths t m output) (visible_result_columns t m output) 2) [
        | none ↦ m.selected_column
        | some column ↦ column
      ]

  unfoldable pub click_action : SqlAction → Model A → Model A × Cmd
  unfolding lit
  click_action action_execute m = execute area t m false
  click_action action_run_all m = execute area t m true
  click_action action_rerun m = rerun m
  click_action action_cancel m =
      if busy m then cancel_run m else (record m { status = lit "Nothing is running." }, none)
  click_action no_action m = (m, none)

  -- the selection after a click on a position, with shift or without
  unfoldable pub clicked_selection : Model A → Bool → ℕ → Selection
  unfolding cursor_offset
  clicked_selection m shift position =
      let anchor = if m.selection.active then m.selection.anchor else cursor_offset area m in
      if shift
      then record { anchor = anchor; head = position; active = not (anchor == position) }
      else record { anchor = position; head = position; active = false }

  unfoldable pub click_editor : Model A → Mouse → Model A
  unfolding editor_position_at clicked_selection set_cursor_offset execution_target_status
  click_editor m mouse =
      let position = editor_position_at m mouse.x mouse.y in
      let placed =
        set_cursor_offset area (record m { selection = clicked_selection m mouse.shift position })
          position in
      let clicked = record placed {
        dragging = true;
        text_mode = true;
        pane = pane_editor;
        editor = area.focus placed.editor;
      } in
      record clicked { status = execution_target_status area clicked }

  -- a click on a line of the results
  unfoldable pub click_row : Model A → Mouse → Output → Model A
  unfolding page_start page_end result_top visible_result_row_count ensure_result_row_visible
      result_column_at
  click_row m mouse output =
      let first = max (page_start m output) m.result_row_offset in
      let last = min (page_end m output) (first + visible_result_row_count m) in
      let row = first + mouse.y - (result_top m + 3) in
      let shown = record m {
        pane = pane_results;
        text_mode = false;
        editor = area.blur m.editor;
        selected_row = row;
      } in
      if ltb row first || leb last row
      then m
      else ensure_result_row_visible
          (record shown { selected_column = result_column_at shown mouse.x output }) output

  unfoldable pub click_result : Model A → Mouse → Model A
  unfolding current_rows
  click_result m mouse = elim (current_rows m) [ none ↦ m | some output ↦ click_row m mouse output ]

  abbrev pub in_editor : Model A → Mouse → Bool
  in_editor m mouse = leb 2 mouse.y && ltb mouse.y (2 + m.editor_height)

  unfoldable pub update_mouse_click : Model A → Mouse → Model A × Cmd
  unfolding result_top
  update_mouse_click m mouse =
      if not (is_left_button mouse.button) || m.inspector
      then (m, none)
      else if mouse.y == 1
      then click_action (action_at mouse.x) m
      else if in_editor m mouse
      then (click_editor m mouse, none)
      else if leb (result_top m + 3) mouse.y
      then (click_result m mouse, none)
      else (m, none)

  unfoldable pub update_mouse_motion : Model A → Mouse → Model A
  unfolding editor_position_at set_cursor_offset ensure_editor_visible
  update_mouse_motion m mouse =
      let position = editor_position_at m mouse.x mouse.y in
      if not m.dragging || not (in_editor m mouse)
      then m
      else ensure_editor_visible area t (
          set_cursor_offset area
            (record m {
              selection = record m.selection {
                head = position;
                active = not (m.selection.anchor == position);
              };
            })
            position)

  unfoldable pub wheel_inspector : Model A → MouseButton → Model A
  wheel_inspector m wheel_up = record m { inspector_scroll = m.inspector_scroll - 3 }
  wheel_inspector m wheel_down = record m { inspector_scroll = m.inspector_scroll + 3 }
  wheel_inspector m _ = m

  unfoldable pub wheel_editor : Model A → MouseButton → Model A
  unfolding split_lines
  wheel_editor m wheel_up = record m { editor_offset = m.editor_offset - 3 }
  wheel_editor m wheel_down = record m {
    editor_offset =
        min (length (split_lines (area.value m.editor)) - m.editor_height) (m.editor_offset + 3);
  }
  wheel_editor m _ = m

  unfoldable pub wheel_columns : Model A → MouseButton → Model A
  wheel_columns m wheel_up = move_result_column t m (negsuc 0)
  wheel_columns m wheel_left = move_result_column t m (negsuc 0)
  wheel_columns m wheel_down = move_result_column t m (pos 1)
  wheel_columns m wheel_right = move_result_column t m (pos 1)
  wheel_columns m _ = m

  unfoldable pub wheel_rows : Model A → MouseButton → Model A
  wheel_rows m wheel_up = move_result_row m (negsuc 2)
  wheel_rows m wheel_down = move_result_row m (pos 3)
  wheel_rows m _ = m

  unfoldable pub update_mouse_wheel : Model A → Mouse → Model A
  update_mouse_wheel m mouse =
      if m.inspector
      then wheel_inspector m mouse.button
      else if in_editor m mouse
      then wheel_editor m mouse.button
      else if mouse.shift
      then wheel_columns m mouse.button
      else wheel_rows m mouse.button
