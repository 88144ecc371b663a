-- ===== src/SqlTab/Navigating.antt =====
-- Moving in the results leaves the run and the results alone.
use db_tui.Common.{◌≡◌, none, arith, Bool, ℕ, List, [], ◌∷◌, Option-cases, inl, inr}
use db_tui.Common.Int.{ℤ, pos, negsuc}
use db_tui.Grid.State.{Mouse}
use db_tui.SqlTab.Types.{Output}
use db_tui.SqlTab.State.{Area, Terminal, Model, Key, pane_results}
use db_tui.SqlTab.Offsets.{set_cursor_offset}
use db_tui.SqlTab.Editor.{ensure_editor_visible}
use db_tui.SqlTab.Results.{
  current_rows, ensure_result_row_visible, ensure_result_column_visible, move_output,
  move_result_page, move_result_row, move_result_column, first_result_row, last_result_row,
  toggle_selected_row, open_inspector,
}
use db_tui.SqlTab.Copying.{copy_selection, copy_rows, copy_cell, rows_to_copy}
use db_tui.SqlTab.Keys.{tab_key, inspector_key, enter_text_mode}
use db_tui.SqlTab.Pointer.{
  click_editor, click_result, click_row, update_mouse_motion, update_mouse_wheel, wheel_inspector,
  wheel_editor, wheel_columns, wheel_rows,
}
use db_tui.SqlTab.Frame.{starts, SameRun, SamePlace}

module _ {A : Type 0} where
  pub move_result_row-SameRun : (m : Model A) (delta : ℤ) → SameRun m (move_result_row m delta)
  unfolding move_result_row ensure_result_row_visible
  move_result_row-SameRun m delta = ground arith

  move_result_page-SameRun : (m : Model A) (delta : ℤ) → SameRun m (move_result_page m delta)
  unfolding move_result_page
  move_result_page-SameRun m delta = ground arith

  pub move_result_column-SamePlace :
      (t : Terminal) (m : Model A) (delta : ℤ) → SamePlace m (move_result_column t m delta)
  unfolding move_result_column ensure_result_column_visible
  move_result_column-SamePlace t m delta = ground arith

  move_output-SameRun : (m : Model A) (delta : ℤ) → SameRun m (move_output m delta)
  unfolding move_output
  move_output-SameRun m delta = ground arith

  last_result_row-SameRun : (m : Model A) → SameRun m (last_result_row m)
  unfolding last_result_row ensure_result_row_visible
  last_result_row-SameRun m = ground arith

  copy_rows-SamePlace :
      (m : Model A) (output : Output) (rows : List ℕ)
      → SamePlace m (copy_rows m output rows).0 × (starts (copy_rows m output rows).1 ≡ none)
  unfolding copy_rows copy_cell
  copy_rows-SamePlace m output [] = ground arith
  copy_rows-SamePlace m output (row ∷ rows) = ground arith

  pub copy_selection-SamePlace :
      (m : Model A) (force_row : Bool)
      → SamePlace m (copy_selection m force_row).0 × (starts (copy_selection m force_row).1 ≡ none)
  unfolding copy_selection
  copy_selection-SamePlace m force_row = elim (Option-cases (current_rows m)) [
    | inl e ↦ rw (e, copy_selection) (ground arith)
    | inr (output, e) ↦
        ground (arith, e, copy_rows-SamePlace m output (rows_to_copy m output force_row))
  ]

module _ {A : Type 0} (area : Area A) (t : Terminal) where
  pub tab_key-SameRun :
      (key : Key) (m : Model A)
      → SameRun m (tab_key area t key m).0 × (starts (tab_key area t key m).1 ≡ none)
  unfolding tab_key open_inspector enter_text_mode toggle_selected_row first_result_row
  tab_key-SameRun key m = ground (
    arith,
    move_result_row-SameRun m (negsuc 0),
    move_result_row-SameRun (record m { pane = pane_results }) (pos 1),
    move_result_column-SamePlace t m (negsuc 0),
    move_result_column-SamePlace t m (pos 1),
    move_result_page-SameRun m (pos 1),
    move_result_page-SameRun m (negsuc 0),
    move_output-SameRun m (negsuc 0),
    move_output-SameRun m (pos 1),
    last_result_row-SameRun m,
    copy_selection-SamePlace m Bool.false,
    copy_selection-SamePlace m Bool.true,
  )

  pub inspector_key-SameRun :
      (key : Key) (m : Model A)
      → SamePlace m (inspector_key area t key m).0 × (starts (inspector_key area t key m).1 ≡ none)
  unfolding inspector_key
  inspector_key-SameRun key m = ground (arith, copy_selection-SamePlace m Bool.false)

  pub click_editor-SamePlace :
      (m : Model A) (mouse : Mouse) → SamePlace m (click_editor area t m mouse)
  unfolding click_editor set_cursor_offset
  click_editor-SamePlace m mouse = ground arith

  click_row-SameRun :
      (m : Model A) (mouse : Mouse) (output : Output) → SameRun m (click_row area t m mouse output)
  unfolding click_row ensure_result_row_visible
  click_row-SameRun m mouse output = ground arith

  pub click_result-SameRun : (m : Model A) (mouse : Mouse) → SameRun m (click_result area t m mouse)
  unfolding click_result
  click_result-SameRun m mouse = elim (Option-cases (current_rows m)) [
    | inl e ↦ rw (e, click_result) (ground arith)
    | inr (output, e) ↦ rw (e, click_result) (click_row-SameRun m mouse output)
  ]

  pub update_mouse_motion-SamePlace :
      (m : Model A) (mouse : Mouse) → SamePlace m (update_mouse_motion area t m mouse)
  unfolding update_mouse_motion set_cursor_offset ensure_editor_visible
  update_mouse_motion-SamePlace m mouse = ground arith

  pub update_mouse_wheel-SameRun :
      (m : Model A) (mouse : Mouse) → SameRun m (update_mouse_wheel area t m mouse)
  unfolding update_mouse_wheel wheel_inspector wheel_editor wheel_columns wheel_rows
  update_mouse_wheel-SameRun m mouse = ground (
    arith,
    move_result_column-SamePlace t m (negsuc 0),
    move_result_column-SamePlace t m (pos 1),
    move_result_row-SameRun m (negsuc 2),
    move_result_row-SameRun m (pos 3),
  )
