-- ===== src/SqlTab/Frame.antt =====
-- What the operations of the tab leave alone: its runs, and the place in the results.
use db_tui.Common.{◌≡◌, refl, [], ◌∷◌, Option, none, some, Text, arith, inl, inr, Bool-cases}
use db_tui.SqlTab.Types.{RunRequest}
use db_tui.SqlTab.State.{
  Area, Terminal, Model, Cmd, execute_intent, Key, RawKey, KeyPress, EditorSnapshot,
}
use db_tui.SqlTab.Offsets.{set_cursor_offset}
use db_tui.SqlTab.Editor.{
  ensure_editor_visible, push_undo, push_if_changed, replace_selection, restore_editor, undo_edit,
  redo_edit, has_selection,
}
use db_tui.SqlTab.Typing.{
  leave_text_mode, select_all, copy_text, cut_text, extend_selection, press_key, typed_key,
  replacement, deselected, replace_or_press, is_selection_movement, editor_key,
}

-- the run that a command starts
abbrev pub starts : Cmd → Option RunRequest
starts none = none
starts (some (execute_intent run)) = some run
starts (some _) = none

module _ {A : Type 0} where
  -- the run and the results
  abbrev pub SameRun : Model A → Model A → Type 0
  SameRun m n =
      (n.next_request ≡ m.next_request)
      × (n.active ≡ m.active)
      × (n.last_run ≡ m.last_run)
      × (n.result ≡ m.result)

  -- and the selected row
  abbrev pub SamePlace : Model A → Model A → Type 0
  SamePlace m n =
      SameRun m n
      × (n.active_output ≡ m.active_output)
      × (n.result_page ≡ m.result_page)
      × (n.selected_row ≡ m.selected_row)

module _ {A : Type 0} (area : Area A) (t : Terminal) where
  pub replace_selection-SamePlace :
      (m : Model A) (text : Text) → SamePlace m (replace_selection area t m text)
  unfolding replace_selection ensure_editor_visible push_if_changed push_undo set_cursor_offset
  replace_selection-SamePlace m text = ground arith

  restore_editor-SamePlace :
      (m : Model A) (saved : EditorSnapshot) → SamePlace m (restore_editor area t m saved)
  unfolding restore_editor ensure_editor_visible set_cursor_offset
  restore_editor-SamePlace m saved = ground arith

  undo_edit-SamePlace : (m : Model A) → SamePlace m (undo_edit area t m)
  unfolding undo_edit restore_editor ensure_editor_visible set_cursor_offset
  undo_edit-SamePlace m = ground arith

  redo_edit-SamePlace : (m : Model A) → SamePlace m (redo_edit area t m)
  unfolding redo_edit restore_editor ensure_editor_visible set_cursor_offset
  redo_edit-SamePlace m = ground arith

  press_key-SamePlace : (m : Model A) (raw : RawKey) → SamePlace m (press_key area t m raw).0
  unfolding press_key ensure_editor_visible push_undo
  press_key-SamePlace m raw = ground arith

  extend_selection-SamePlace :
      (m : Model A) (raw : RawKey) → SamePlace m (extend_selection area t m raw)
  unfolding extend_selection ensure_editor_visible
  extend_selection-SamePlace m raw = ground arith

  deselected-SamePlace : (m : Model A) (key : Key) → SamePlace m (deselected area t m key)
  deselected-SamePlace m key = ground arith

  SamePlace-trans : (m n k : Model A) → SamePlace m n → SamePlace n k → SamePlace m k
  SamePlace-trans m n k f g = ground arith

  replace_or_press-SamePlace :
      (m : Model A) (press : KeyPress) (o : Option Text)
      → SamePlace m (replace_or_press area t m press o).0
  unfolding replace_or_press
  replace_or_press-SamePlace m press none =
      SamePlace-trans m (deselected area t m press.keystroke)
        (press_key area t (deselected area t m press.keystroke) press.raw).0
        (deselected-SamePlace m press.keystroke)
        (press_key-SamePlace (deselected area t m press.keystroke) press.raw)
  replace_or_press-SamePlace m press (some text) = replace_selection-SamePlace m text

  pub typed_key-SamePlace :
      (m : Model A) (press : KeyPress) → SamePlace m (typed_key area t m press).0
  unfolding typed_key
  typed_key-SamePlace m press = elim (Bool-cases (is_selection_movement press.keystroke)) [
    | inl moving ↦ rw moving (extend_selection-SamePlace m press.raw)
    | inr typing ↦ elim (Bool-cases (has_selection area m)) [
      | inl selected ↦
          rw (typing, selected) (replace_or_press-SamePlace m press (replacement press))
      | inr bare ↦ rw (typing, bare) (replace_or_press-SamePlace m press none)
    ]
  ]

  pub editor_key-SamePlace :
      (key : Key) (m : Model A) (press : KeyPress) → SamePlace m (editor_key area t key m press).0
  unfolding editor_key leave_text_mode select_all set_cursor_offset copy_text cut_text
  editor_key-SamePlace key m press = ground (
    arith,
    typed_key-SamePlace m press,
    undo_edit-SamePlace m,
    redo_edit-SamePlace m,
    replace_selection-SamePlace m [],
    replace_selection-SamePlace m (b' ' ∷ b' ' ∷ []),
  )

  press_key-starts : (m : Model A) (raw : RawKey) → starts (press_key area t m raw).1 ≡ none
  unfolding press_key
  press_key-starts m raw = ground arith

  replace_or_press-starts :
      (m : Model A) (press : KeyPress) (o : Option Text)
      → starts (replace_or_press area t m press o).1 ≡ none
  unfolding replace_or_press
  replace_or_press-starts m press none =
      press_key-starts (deselected area t m press.keystroke) press.raw
  replace_or_press-starts m press (some text) = refl

  typed_key-starts : (m : Model A) (press : KeyPress) → starts (typed_key area t m press).1 ≡ none
  unfolding typed_key
  typed_key-starts m press = elim (Bool-cases (is_selection_movement press.keystroke)) [
    | inl moving ↦ rw moving refl
    | inr typing ↦ elim (Bool-cases (has_selection area m)) [
      | inl selected ↦ rw (typing, selected) (replace_or_press-starts m press (replacement press))
      | inr bare ↦
          rw (typing, bare) (press_key-starts (deselected area t m press.keystroke) press.raw)
    ]
  ]

  pub editor_key-starts :
      (key : Key) (m : Model A) (press : KeyPress) → starts (editor_key area t key m press).1 ≡ none
  unfolding editor_key copy_text cut_text
  editor_key-starts key m press = ground (arith, typed_key-starts m press)
