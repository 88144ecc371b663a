-- ===== src/SqlTab/Keys.antt =====
-- internal/sqltab/model.go: keys outside of the text, and those of every mode.
use db_tui.Common.{◌+◌, ◌-◌, Bool, true, false, ◌&&◌, none, some, lit, length, if◌then◌else◌, ◌==◌}
use db_tui.Common.Int.{ℤ, pos, negsuc}
use db_tui.SqlTab.State.{
  Key, key_esc, key_enter, key_f5, key_f6, key_f7, key_ctrl_c, key_ctrl_enter, key_ctrl_shift_enter,
  key_up, key_down, key_left, key_right, key_home, key_end, key_pgup, key_pgdown, key_c, key_e,
  key_h, key_j, key_k, key_l, key_n, key_p, key_v, key_shift_c, key_open_brace, key_close_brace,
  KeyPress, Cmd, leave_content_intent, Area, Terminal, pane_editor, pane_results, is_results_pane,
  Model,
}
use db_tui.SqlTab.Editor.{execution_target_status}
use db_tui.SqlTab.Results.{
  move_output, move_result_page, move_result_row, move_result_column, first_result_row,
  last_result_row, toggle_selected_row, open_inspector,
}
use db_tui.SqlTab.Copying.{copy_selection}
use db_tui.SqlTab.Runs.{busy, cancel_run, rerun, execute}
use db_tui.SqlTab.Typing.{update_editor}

abbrev pub is_ctrl_c : Key → Bool
is_ctrl_c key_ctrl_c = true
is_ctrl_c _ = false

module _ {A : Type 0} (area : Area A) (t : Terminal) where
  unfoldable pub enter_text_mode : Model A → Model A
  unfolding execution_target_status
  enter_text_mode m =
      let entered = record m {
        text_mode = true;
        pane = pane_editor;
        editor = area.focus m.editor;
      } in
      record entered { status = execution_target_status area entered }

  abbrev pub row_above : Model A → Model A
  row_above m =
      if is_results_pane m.pane
      then move_result_row m (negsuc 0)
      else record m { pane = pane_editor }

  abbrev pub row_below : Model A → Model A
  row_below m =
      if length m.result.outputs == 0
      then m
      else move_result_row (record m { pane = pane_results }) (pos 1)

  abbrev pub column_by : Model A → ℤ → Model A
  column_by m delta = if is_results_pane m.pane then move_result_column t m delta else m

  abbrev scrolled_up : Model A → Model A
  scrolled_up m = record m { inspector_scroll = m.inspector_scroll - 1 }

  abbrev scrolled_down : Model A → Model A
  scrolled_down m = record m { inspector_scroll = m.inspector_scroll + 1 }

  -- keys outside of the text
  unfoldable pub tab_key : Key → Model A → Model A × Cmd
  unfolding lit
  tab_key key_esc m = (m, some (leave_content_intent m.tab))
  tab_key key_e m = (enter_text_mode m, none)
  tab_key key_enter m =
      ((if is_results_pane m.pane then open_inspector m else enter_text_mode m), none)
  tab_key key_up m = (row_above m, none)
  tab_key key_k m = (row_above m, none)
  tab_key key_down m = (row_below m, none)
  tab_key key_j m = (row_below m, none)
  tab_key key_left m = (column_by m (negsuc 0), none)
  tab_key key_h m = (column_by m (negsuc 0), none)
  tab_key key_right m = (column_by m (pos 1), none)
  tab_key key_l m = (column_by m (pos 1), none)
  tab_key key_n m = (move_result_page m (pos 1), none)
  tab_key key_pgdown m = (move_result_page m (pos 1), none)
  tab_key key_p m = (move_result_page m (negsuc 0), none)
  tab_key key_pgup m = (move_result_page m (negsuc 0), none)
  tab_key key_open_brace m = (move_output m (negsuc 0), none)
  tab_key key_close_brace m = (move_output m (pos 1), none)
  tab_key key_home m = (first_result_row m, none)
  tab_key key_end m = (last_result_row m, none)
  tab_key key_v m = (toggle_selected_row m, none)
  tab_key key_c m = copy_selection m false
  tab_key key_shift_c m = copy_selection m true
  tab_key key_ctrl_c m = (record m { status = lit "Nothing is running." }, none)
  tab_key _ m = (m, none)

  unfoldable pub inspector_key : Key → Model A → Model A × Cmd
  inspector_key key_esc m = (record m { inspector = false }, none)
  inspector_key key_enter m = (record m { inspector = false }, none)
  inspector_key key_up m = (scrolled_up m, none)
  inspector_key key_k m = (scrolled_up m, none)
  inspector_key key_pgup m = (scrolled_up m, none)
  inspector_key key_down m = (scrolled_down m, none)
  inspector_key key_j m = (scrolled_down m, none)
  inspector_key key_pgdown m = (scrolled_down m, none)
  inspector_key key_c m = copy_selection m false
  inspector_key _ m = (m, none)

  -- the keys that work in every mode, or the mode's own
  unfoldable pub run_key : Key → Model A → KeyPress → Model A × Cmd
  run_key key_ctrl_enter m press = execute area t m false
  run_key key_f5 m press = execute area t m false
  run_key key_ctrl_shift_enter m press = execute area t m true
  run_key key_f6 m press = execute area t m true
  run_key key_f7 m press = rerun m
  run_key key m press = if m.text_mode then update_editor area t m press else tab_key key m

  unfoldable pub update_key : Model A → KeyPress → Model A × Cmd
  update_key m press =
      if m.inspector
      then inspector_key press.keystroke m
      else if busy m && is_ctrl_c press.keystroke
      then cancel_run m
      else run_key press.keystroke m press
