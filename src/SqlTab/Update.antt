-- ===== src/SqlTab/Update.antt =====
-- internal/sqltab/model.go: the size of the tab, the messages it takes, and their dispatch.
use db_tui.Common.{
  ℕ, ◌-◌, ◌/◌, min, max, Bool, true, false, ◌||◌, not, [], none, Text, if◌then◌else◌, ltb, text_eq,
}
use db_tui.Core.{matches}
use db_tui.Grid.State.{Lifecycle, idle, failed}
use db_tui.SqlTab.State.{
  Area, Terminal, Model, Cmd, Message, Key, key_f5, key_f6, key_f7, key_ctrl_enter,
  key_ctrl_shift_enter, key_ctrl_c, key_e, key_enter, key_up, key_down, key_left, key_right, key_h,
  key_j, key_k, key_l, key_n, key_p, key_pgdown, key_pgup, key_open_brace, key_close_brace, key_v,
  key_c, key_shift_c, key_home, key_end, run_completed, run_failed, paste, key_press, mouse_click,
  mouse_motion, mouse_release, mouse_wheel, other_message, no_selection,
}
use db_tui.SqlTab.Editor.{ensure_editor_visible, replace_selection}
use db_tui.SqlTab.Results.{clamp_result_selection}
use db_tui.SqlTab.Runs.{finish_run, finish_failed_run}
use db_tui.SqlTab.Keys.{update_key}
use db_tui.SqlTab.Pointer.{update_mouse_click, update_mouse_motion, update_mouse_wheel}

-- how many lines the editor has, by the height of the tab
unfoldable pub editor_height_of : ℕ → ℕ
editor_height_of height = if ltb height 10 then max 2 (height - 5) else max 4 (min 10 (height / 2))

abbrev pub visited : Lifecycle → Lifecycle
visited failed = idle
visited lifecycle = lifecycle

-- what an open inspector takes
abbrev pub inspector_captures : Message → Bool
inspector_captures (key_press press) = true
inspector_captures (mouse_click mouse) = true
inspector_captures (mouse_wheel mouse) = true
inspector_captures _ = false

-- the keys that the tab takes outside of the text
abbrev pub key_captured : Key → Bool
key_captured key_f5 = true
key_captured key_f6 = true
key_captured key_f7 = true
key_captured key_ctrl_enter = true
key_captured key_ctrl_shift_enter = true
key_captured key_ctrl_c = true
key_captured key_e = true
key_captured key_enter = true
key_captured key_up = true
key_captured key_down = true
key_captured key_left = true
key_captured key_right = true
key_captured key_h = true
key_captured key_j = true
key_captured key_k = true
key_captured key_l = true
key_captured key_n = true
key_captured key_p = true
key_captured key_pgdown = true
key_captured key_pgup = true
key_captured key_open_brace = true
key_captured key_close_brace = true
key_captured key_v = true
key_captured key_c = true
key_captured key_shift_c = true
key_captured key_home = true
key_captured key_end = true
key_captured _ = false

abbrev pub tab_captures : Bool → Message → Bool
tab_captures typing (key_press press) = typing || key_captured press.keystroke
tab_captures typing (paste content) = typing
tab_captures typing (mouse_click mouse) = true
tab_captures typing (mouse_motion mouse) = true
tab_captures typing (mouse_release mouse) = true
tab_captures typing (mouse_wheel mouse) = true
tab_captures typing _ = false

abbrev pub captures : {A : Type 0} → Model A → Message → Bool
captures m message =
    if m.inspector then inspector_captures message else tab_captures m.text_mode message

module _ {A : Type 0} (area : Area A) (t : Terminal) where
  unfoldable pub set_size : Model A → ℕ → ℕ → Model A
  unfolding editor_height_of
  set_size m width height =
      let rows = editor_height_of height in
      clamp_result_selection (
        ensure_editor_visible area t (record m {
          width = max 1 width;
          height = max 1 height;
          editor_height = rows;
          editor = area.set_height rows (area.set_width (max 1 (width - 5)) m.editor);
        }))

  unfoldable pub set_value : Model A → Text → Model A
  set_value m value = ensure_editor_visible area t (record m {
    editor = area.move_to_end (area.set_value value m.editor);
    selection = no_selection;
  })

  abbrev pub dirty : Model A → Bool
  dirty m = not (text_eq (area.value m.editor) [])

  unfoldable pub visit : Model A → Model A
  visit m = record m { lifecycle = visited m.lifecycle }

  unfoldable pub update_paste : Model A → Text → Model A
  update_paste m content = if m.text_mode then replace_selection area t m content else m

  unfoldable pub update : Model A → Message → Model A × Cmd
  unfolding visit update_paste
  update m (run_completed result meta) =
      if matches m.active meta then (finish_run area m result, none) else (m, none)
  update m (run_failed partial err meta) =
      if matches m.active meta then (finish_failed_run area m partial err, none) else (m, none)
  update m (paste content) = (update_paste (visit m) content, none)
  update m (key_press press) = update_key area t (visit m) press
  update m (mouse_click mouse) = update_mouse_click area t (visit m) mouse
  update m (mouse_motion mouse) = (update_mouse_motion area t (visit m) mouse, none)
  update m (mouse_release mouse) = (record (visit m) { dragging = false }, none)
  update m (mouse_wheel mouse) = (update_mouse_wheel area t (visit m) mouse, none)
  update m other_message = (m, none)
