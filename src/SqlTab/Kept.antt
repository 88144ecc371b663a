-- ===== src/SqlTab/Kept.antt =====
-- How much of the history is kept.
use db_tui.Common.{ℕ, ◌+◌, ◌≤◌, length, length-take, Text, text_eq, arith, Bool-cases, inl, inr}
use db_tui.SqlTab.State.{Area, Terminal, Model, RawKey}
use db_tui.SqlTab.Offsets.{set_cursor_offset}
use db_tui.SqlTab.Editor.{
  ensure_editor_visible, push_undo, push_if_changed, replace_selection, restore_editor, undo_edit,
  redo_edit,
}
use db_tui.SqlTab.Typing.{press_key}
use db_tui.SqlTab.Undoing.{spliced}
use db_tui.SqlTab.Undone.{Edit, insertion, typing, undoing, redoing, edited}

module _ {A : Type 0} where
  -- the texts that undo and redo can reach
  abbrev pub kept : Model A → ℕ
  kept m = length m.undo + length m.redo

module _ {A : Type 0} (area : Area A) (t : Terminal) where
  kept-replace_selection :
      (m : Model A) (text : Text) → kept m ≤ 200 → kept (replace_selection area t m text) ≤ 200
  unfolding replace_selection ensure_editor_visible push_if_changed push_undo set_cursor_offset
  kept-replace_selection m text h =
      elim (Bool-cases (text_eq (spliced area m text) (area.value m.editor))) [
        | inl same ↦ rw same h
        | inr new ↦ rw new (omega (arith, length-take 199 m.undo))
      ]

  kept-press_key :
      (m : Model A) (raw : RawKey) → kept m ≤ 200 → kept (press_key area t m raw).0 ≤ 200
  unfolding press_key ensure_editor_visible push_undo
  kept-press_key m raw h =
      elim (Bool-cases (text_eq (area.value (area.press raw m.editor).0) (area.value m.editor))) [
        | inl same ↦ rw same h
        | inr new ↦ rw new (omega (arith, length-take 199 m.undo))
      ]

  kept-undo_edit : (m : Model A) → kept m ≤ 200 → kept (undo_edit area t m) ≤ 200
  unfolding undo_edit restore_editor ensure_editor_visible set_cursor_offset
  kept-undo_edit m h = ground arith

  kept-redo_edit : (m : Model A) → kept m ≤ 200 → kept (redo_edit area t m) ≤ 200
  unfolding redo_edit restore_editor ensure_editor_visible set_cursor_offset
  kept-redo_edit m h = ground arith

  -- A tab that keeps at most 200 texts to go back or forward to, as a new one does, keeps at most 200 after
  -- any edit: an insertion, a key of the widget's, undo or redo. Redo does not cut the list that it
  -- appends to, and has no need to.
  pub kept-edited : (e : Edit) (m : Model A) → kept m ≤ 200 → kept (edited area t e m) ≤ 200
  unfolding edited
  kept-edited (insertion text) m h = kept-replace_selection m text h
  kept-edited (typing raw) m h = kept-press_key m raw h
  kept-edited undoing m h = kept-undo_edit m h
  kept-edited redoing m h = kept-redo_edit m h
