-- ===== src/Grid/Editor.antt =====
-- internal/grid/staging.go: the text of the cell editor and its cursor.
use db_tui.Common.{
  ℕ, zero, suc, ◌+◌, ◌-◌, min, [], ◌++◌, Text, length, take, drop, if◌then◌else◌, ltb,
}
use db_tui.Common.Int.{ℤ, pos, negsuc}
use db_tui.Grid.State.{CellEditor}

abbrev pub editor_position : CellEditor → ℕ
editor_position e = min (length e.buffer) e.cursor

unfoldable pub insert_editor_text : CellEditor → Text → CellEditor
insert_editor_text e value = record e {
  buffer = take (editor_position e) e.buffer ++ (value ++ drop (editor_position e) e.buffer);
  cursor = editor_position e + length value;
  error = [];
}

delete_before : CellEditor → CellEditor
delete_before e =
    if ltb 0 (editor_position e)
    then record e {
      buffer = take (editor_position e - 1) e.buffer ++ drop (editor_position e) e.buffer;
      cursor = e.cursor - 1;
      error = [];
    }
    else record e { error = [] }

delete_after : CellEditor → CellEditor
delete_after e =
    if ltb (editor_position e) (length e.buffer)
    then record e {
      buffer = take (editor_position e) e.buffer ++ drop (editor_position e + 1) e.buffer;
      error = [];
    }
    else record e { error = [] }

unfoldable pub delete_editor_rune : CellEditor → ℤ → CellEditor
unfolding delete_before delete_after
delete_editor_rune e (negsuc _) = delete_before e
delete_editor_rune e (pos zero) = record e { error = [] }
delete_editor_rune e (pos (suc _)) = delete_after e
