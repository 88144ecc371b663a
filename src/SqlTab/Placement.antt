-- ===== src/SqlTab/Placement.antt =====
-- The selected row stays in its page, whatever happens to the tab.
use db_tui.Common.{◌≡◌, Bool, true, false, some, arith, inl, inr, Option-cases}
use db_tui.Common.Int.{ℤ, pos, negsuc}
use db_tui.Grid.Types.{GoError}
use db_tui.Grid.State.{Mouse}
use db_tui.SqlTab.Types.{Output, RunResult}
use db_tui.SqlTab.State.{
  Area, Terminal, Model, Key, KeyPress, Message, run_completed, run_failed, paste, key_press,
  mouse_click, mouse_motion, mouse_release, mouse_wheel, other_message, pane_results,
}
use db_tui.SqlTab.Editor.{replace_selection}
use db_tui.SqlTab.Results.{
  current_output, current_rows, page_start, page_end, ensure_result_row_visible, move_result_column,
  toggle_selected_row, open_inspector, reset_result_navigation,
}
use db_tui.SqlTab.Copying.{copy_selection}
use db_tui.SqlTab.Runs.{
  start_run, rerun, execute, cancel_run, finish_run, finish_failed_run, run_cancelled, run_broken,
}
use db_tui.SqlTab.Typing.{editor_key, update_editor}
use db_tui.SqlTab.Keys.{tab_key, inspector_key, run_key, update_key, enter_text_mode}
use db_tui.SqlTab.Pointer.{
  SqlAction, action_at, click_action, click_row, click_result, click_editor, update_mouse_click,
  update_mouse_motion, update_mouse_wheel, wheel_inspector, wheel_editor, wheel_columns, wheel_rows,
}
use db_tui.SqlTab.Update.{update, visit, update_paste}
use db_tui.SqlTab.Frame.{SamePlace, replace_selection-SamePlace, editor_key-SamePlace}
use db_tui.SqlTab.Navigating.{
  move_result_column-SamePlace, copy_selection-SamePlace, inspector_key-SameRun,
  click_editor-SamePlace, update_mouse_motion-SamePlace,
}
use db_tui.SqlTab.Placing.{
  IsPlaced, SamePlace-IsPlaced, move_output-IsPlaced, first_result_row-IsPlaced,
  move_result_row-IsPlaced, move_result_page-IsPlaced, last_result_row-IsPlaced,
}

module _ {A : Type 0} (area : Area A) (t : Terminal) where
  move_result_column-IsPlaced :
      (m : Model A) (delta : ℤ) → IsPlaced m → IsPlaced (move_result_column t m delta)
  move_result_column-IsPlaced m delta =
      SamePlace-IsPlaced m (move_result_column t m delta) (move_result_column-SamePlace t m delta)

  copy_selection-IsPlaced :
      (m : Model A) (force_row : Bool) → IsPlaced m → IsPlaced (copy_selection m force_row).0
  copy_selection-IsPlaced m force_row =
      SamePlace-IsPlaced m (copy_selection m force_row).0 (copy_selection-SamePlace m force_row).0

  tab_key-IsPlaced : (key : Key) (m : Model A) → IsPlaced m → IsPlaced (tab_key area t key m).0
  unfolding tab_key open_inspector enter_text_mode toggle_selected_row current_rows current_output
  tab_key-IsPlaced key m h = ground (
    arith,
    move_result_row-IsPlaced m (negsuc 0) h,
    move_result_row-IsPlaced (record m { pane = pane_results }) (pos 1) h,
    move_result_column-IsPlaced m (negsuc 0) h,
    move_result_column-IsPlaced m (pos 1) h,
    move_result_page-IsPlaced m (pos 1) h,
    move_result_page-IsPlaced m (negsuc 0) h,
    move_output-IsPlaced m (negsuc 0) h,
    move_output-IsPlaced m (pos 1) h,
    first_result_row-IsPlaced m h,
    last_result_row-IsPlaced m h,
    copy_selection-IsPlaced m false h,
    copy_selection-IsPlaced m true h,
  )

  execute-IsPlaced : (m : Model A) (every : Bool) → IsPlaced m → IsPlaced (execute area t m every).0
  unfolding execute start_run current_rows current_output
  execute-IsPlaced m every h = ground arith

  rerun-IsPlaced : (m : Model A) → IsPlaced m → IsPlaced (rerun m).0
  unfolding rerun start_run current_rows current_output
  rerun-IsPlaced m h = ground arith

  run_key-IsPlaced :
      (key : Key) (m : Model A) (press : KeyPress)
      → IsPlaced m
      → IsPlaced (run_key area t key m press).0
  unfolding run_key update_editor
  run_key-IsPlaced key m press h = ground (
    arith,
    execute-IsPlaced m true h,
    execute-IsPlaced m false h,
    rerun-IsPlaced m h,
    SamePlace-IsPlaced m (editor_key area t press.keystroke m press).0
        (editor_key-SamePlace area t press.keystroke m press) h,
    tab_key-IsPlaced key m h,
  )

  update_key-IsPlaced :
      (m : Model A) (press : KeyPress) → IsPlaced m → IsPlaced (update_key area t m press).0
  unfolding update_key cancel_run current_rows current_output
  update_key-IsPlaced m press h = ground (
    arith,
    SamePlace-IsPlaced m (inspector_key area t press.keystroke m).0
        (inspector_key-SameRun area t press.keystroke m).0 h,
    run_key-IsPlaced press.keystroke m press h,
  )

  click_row-IsPlaced :
      (m : Model A) (mouse : Mouse) (output : Output)
      → current_rows m ≡ some output
      → IsPlaced m
      → IsPlaced (click_row area t m mouse output)
  unfolding click_row ensure_result_row_visible current_rows current_output page_start page_end
  click_row-IsPlaced m mouse output e h = ground arith

  click_result-IsPlaced :
      (m : Model A) (mouse : Mouse) → IsPlaced m → IsPlaced (click_result area t m mouse)
  unfolding click_result
  click_result-IsPlaced m mouse h = elim (Option-cases (current_rows m)) [
    | inl e ↦ rw (e, click_result) h
    | inr (output, e) ↦ rw (e, click_result) (click_row-IsPlaced m mouse output e h)
  ]

  click_action-IsPlaced :
      (chosen : SqlAction) (m : Model A) → IsPlaced m → IsPlaced (click_action area t chosen m).0
  unfolding click_action cancel_run current_rows current_output
  click_action-IsPlaced chosen m h =
      ground (arith, execute-IsPlaced m true h, execute-IsPlaced m false h, rerun-IsPlaced m h)

  update_mouse_click-IsPlaced :
      (m : Model A) (mouse : Mouse) → IsPlaced m → IsPlaced (update_mouse_click area t m mouse).0
  unfolding update_mouse_click
  update_mouse_click-IsPlaced m mouse h = ground (
    arith,
    click_action-IsPlaced (action_at mouse.x) m h,
    SamePlace-IsPlaced m (click_editor area t m mouse) (click_editor-SamePlace area t m mouse) h,
    click_result-IsPlaced m mouse h,
  )

  update_mouse_wheel-IsPlaced :
      (m : Model A) (mouse : Mouse) → IsPlaced m → IsPlaced (update_mouse_wheel area t m mouse)
  unfolding update_mouse_wheel wheel_inspector wheel_editor wheel_columns wheel_rows current_rows
      current_output
  update_mouse_wheel-IsPlaced m mouse h = ground (
    arith,
    move_result_column-IsPlaced m (negsuc 0) h,
    move_result_column-IsPlaced m (pos 1) h,
    move_result_row-IsPlaced m (negsuc 2) h,
    move_result_row-IsPlaced m (pos 3) h,
  )

  finish_run-IsPlaced : (m : Model A) (result : RunResult) → IsPlaced (finish_run area m result)
  unfolding finish_run reset_result_navigation current_rows current_output
  finish_run-IsPlaced m result = ground arith

  finish_failed_run-IsPlaced :
      (m : Model A) (partial : RunResult) (err : GoError)
      → IsPlaced m
      → IsPlaced (finish_failed_run area m partial err)
  unfolding finish_failed_run run_cancelled run_broken reset_result_navigation current_rows
      current_output
  finish_failed_run-IsPlaced m partial err h = ground arith

  visit-SamePlace : (m : Model A) → SamePlace m (visit area t m)
  unfolding visit
  visit-SamePlace m = ground arith

  -- Whatever happens to the tab (a key, a click, the wheel, a result, a failure), the selected row is a
  -- row of the current output of rows, or 0 if that has none, and stands on the current page.
  pub update-IsPlaced :
      (m : Model A) (message : Message) → IsPlaced m → IsPlaced (update area t m message).0
  unfolding update update_paste
  update-IsPlaced m (run_completed result meta) h = ground (arith, finish_run-IsPlaced m result)
  update-IsPlaced m (run_failed partial err meta) h =
      ground (arith, finish_failed_run-IsPlaced m partial err h)
  update-IsPlaced m (paste content) h =
      let v = visit area t m in
      let seen = SamePlace-IsPlaced m v (visit-SamePlace m) h in
      ground (
        arith,
        seen,
        SamePlace-IsPlaced v (replace_selection area t v content)
            (replace_selection-SamePlace area t v content) seen,
      )
  update-IsPlaced m (key_press press) h =
      update_key-IsPlaced (visit area t m) press
        (SamePlace-IsPlaced m (visit area t m) (visit-SamePlace m) h)
  update-IsPlaced m (mouse_click mouse) h =
      update_mouse_click-IsPlaced (visit area t m) mouse
        (SamePlace-IsPlaced m (visit area t m) (visit-SamePlace m) h)
  update-IsPlaced m (mouse_motion mouse) h =
      let v = visit area t m in
      SamePlace-IsPlaced v (update_mouse_motion area t v mouse)
        (update_mouse_motion-SamePlace area t v mouse)
        (SamePlace-IsPlaced m v (visit-SamePlace m) h)
  update-IsPlaced m (mouse_release mouse) h =
      SamePlace-IsPlaced m (record (visit area t m) { dragging = false }) (visit-SamePlace m) h
  update-IsPlaced m (mouse_wheel mouse) h =
      update_mouse_wheel-IsPlaced (visit area t m) mouse
        (SamePlace-IsPlaced m (visit area t m) (visit-SamePlace m) h)
  update-IsPlaced m other_message h = h
