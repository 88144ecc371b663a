-- ===== src/SqlTab/Typing.antt =====
-- internal/sqltab/editor.go: keys in the text.
use db_tui.Common.{
  ℕ, Bool, true, false, ◌&&◌, not, [], ◌∷◌, Option, none, some, Text, lit, text_eq, length,
  if◌then◌else◌, ◌==◌,
}
use db_tui.SqlTab.State.{
  RawKey, Key, key_esc, key_enter, key_tab, key_backspace, key_delete, key_ctrl_a, key_ctrl_c,
  key_ctrl_x, key_ctrl_y, key_ctrl_z, key_ctrl_shift_z, key_up, key_down, key_left, key_right,
  key_home, key_end, key_pgup, key_pgdown, key_ctrl_home, key_ctrl_end, key_alt_left, key_alt_right,
  key_shift_left, key_shift_right, key_shift_up, key_shift_down, key_shift_home, key_shift_end,
  key_ctrl_shift_home, key_ctrl_shift_end, key_alt_shift_left, key_alt_shift_right, KeyPress, Cmd,
  set_clipboard, area_command, Area, Terminal, Selection, no_selection, Model,
}
use db_tui.SqlTab.Offsets.{newline, cursor_offset, set_cursor_offset}
use db_tui.SqlTab.Editor.{
  has_selection, selected_text, execution_target_status, ensure_editor_visible, push_undo,
  replace_selection, undo_edit, redo_edit, snapshot,
}

-- `isSelectionMovement`
abbrev pub is_selection_movement : Key → Bool
is_selection_movement key_shift_left = true
is_selection_movement key_shift_right = true
is_selection_movement key_shift_up = true
is_selection_movement key_shift_down = true
is_selection_movement key_shift_home = true
is_selection_movement key_shift_end = true
is_selection_movement key_ctrl_shift_home = true
is_selection_movement key_ctrl_shift_end = true
is_selection_movement key_alt_shift_left = true
is_selection_movement key_alt_shift_right = true
is_selection_movement _ = false

abbrev pub is_plain_movement : Key → Bool
is_plain_movement key_left = true
is_plain_movement key_right = true
is_plain_movement key_up = true
is_plain_movement key_down = true
is_plain_movement key_home = true
is_plain_movement key_end = true
is_plain_movement key_pgup = true
is_plain_movement key_pgdown = true
is_plain_movement key_ctrl_home = true
is_plain_movement key_ctrl_end = true
is_plain_movement key_alt_left = true
is_plain_movement key_alt_right = true
is_plain_movement _ = false

-- what a key puts in place of the selection
abbrev pub replacement : KeyPress → Option Text
replacement press = elim press.keystroke [
  | key_backspace ↦ some []
  | key_delete ↦ some []
  | key_enter ↦ some (newline ∷ [])
  | _ ↦
      if not (text_eq press.raw.text []) && not press.raw.modified
      then some press.raw.text
      else none
]

-- the widget's command, handed on
abbrev pub area_cmd : Option ℕ → Cmd
area_cmd none = none
area_cmd (some command) = some (area_command command)

module _ {A : Type 0} (area : Area A) (t : Terminal) where
  unfoldable pub leave_text_mode : Model A → Model A
  unfolding has_selection lit
  leave_text_mode m = record m {
    text_mode = false;
    editor = area.blur m.editor;
    selection = record m.selection { active = has_selection area m };
    status = lit "Editor navigation mode. Press e or Enter to edit; Esc returns to the tab strip.";
  }

  unfoldable pub select_all : Model A → Model A
  unfolding set_cursor_offset execution_target_status
  select_all m =
      let size = length (area.value m.editor) in
      let selected =
        set_cursor_offset area
          (record m { selection = record { anchor = 0; head = size; active = not (size == 0) } })
          size in
      record selected { status = execution_target_status area selected }

  unfoldable pub copy_text : Model A → Model A × Cmd
  unfolding selected_text lit
  copy_text m = elim (selected_text area m) [
    | none ↦ (record m { status = lit "Select SQL before copying." }, none)
    | some selected ↦
        (record m { status = lit "Copied selected SQL." }, some (set_clipboard selected))
  ]

  unfoldable pub cut_text : Model A → Model A × Cmd
  unfolding selected_text replace_selection lit
  cut_text m = elim (selected_text area m) [
    | none ↦ (record m { status = lit "Select SQL before cutting." }, none)
    | some selected ↦ (
      record (replace_selection area t m []) { status = lit "Cut selected SQL." },
      some (set_clipboard selected),
    )
  ]

  -- the selection that a movement goes on with
  abbrev moving_selection : Model A → Selection
  moving_selection m =
      if m.selection.active
      then m.selection
      else record { anchor = cursor_offset area m; head = cursor_offset area m; active = true }

  unfoldable pub extend_selection : Model A → RawKey → Model A
  unfolding cursor_offset ensure_editor_visible execution_target_status
  extend_selection m raw =
      let plain = record raw { shift = false; text = [] } in
      let anchor = (moving_selection m).anchor in
      let moved = record m { editor = (area.press plain m.editor).0 } in
      let head = cursor_offset area moved in
      let shown = ensure_editor_visible area t (record moved {
        selection = record { anchor = anchor; head = head; active = not (anchor == head) };
      }) in
      record shown { status = execution_target_status area shown }

  -- the widget's own handling of a key
  unfoldable pub press_key : Model A → RawKey → Model A × Cmd
  unfolding cursor_offset push_undo ensure_editor_visible execution_target_status
  press_key m raw =
      let before = snapshot area m in
      let (editor, command) = area.press raw m.editor in
      let pressed = record m { editor = editor } in
      let changed =
        if text_eq (area.value editor) before.value
        then pressed
        else record (push_undo area pressed before) { selection = no_selection } in
      let shown = ensure_editor_visible area t changed in
      (record shown { status = execution_target_status area shown }, area_cmd command)

  abbrev pub deselected : Model A → Key → Model A
  deselected m key = if is_plain_movement key then record m { selection = no_selection } else m

  -- with a selection: the key replaces it, or is the widget's
  unfoldable pub replace_or_press : Model A → KeyPress → Option Text → Model A × Cmd
  unfolding replace_selection press_key
  replace_or_press m press (some text) = (replace_selection area t m text, none)
  replace_or_press m press none = press_key (deselected m press.keystroke) press.raw

  unfoldable pub typed_key : Model A → KeyPress → Model A × Cmd
  unfolding extend_selection press_key replace_or_press has_selection
  typed_key m press =
      if is_selection_movement press.keystroke
      then (extend_selection m press.raw, none)
      else if has_selection area m
      then replace_or_press m press (replacement press)
      else press_key (deselected m press.keystroke) press.raw

  unfoldable pub editor_key : Key → Model A → KeyPress → Model A × Cmd
  editor_key key_esc m press = (leave_text_mode m, none)
  editor_key key_ctrl_a m press = (select_all m, none)
  editor_key key_ctrl_z m press = (undo_edit area t m, none)
  editor_key key_ctrl_y m press = (redo_edit area t m, none)
  editor_key key_ctrl_shift_z m press = (redo_edit area t m, none)
  editor_key key_ctrl_c m press = copy_text m
  editor_key key_ctrl_x m press = cut_text m
  editor_key key_tab m press = (replace_selection area t m (b' ' ∷ b' ' ∷ []), none)
  editor_key _ m press = typed_key m press

  unfoldable pub update_editor : Model A → KeyPress → Model A × Cmd
  update_editor m press = editor_key press.keystroke m press
