-- ===== src/SqlTab/Offsets.antt =====
-- internal/sqltab/editor.go: the cursor as a line and a column, and as an offset in the text.
use db_tui.Common.{
  ℕ, zero, suc, ◌+◌, ◌-◌, min, List, [], ◌∷◌, Text, length, get_or, take, if◌then◌else◌, ◌==◌,
}
use db_tui.SqlTab.State.{Area, Model}

abbrev pub newline : ℕ
newline = 10

-- the line that goes on, in front of the others
abbrev pub onto_first : ℕ → List Text → List Text
onto_first c [] = (c ∷ []) ∷ []
onto_first c (line ∷ lines) = (c ∷ line) ∷ lines

-- `strings.Split(value, "\n")`
unfoldable pub split_lines : Text → List Text
split_lines [] = [] ∷ []
split_lines (c ∷ s) =
    let lines = split_lines s in if c == newline then [] ∷ lines else onto_first c lines

-- the characters of the lines in front of line `n`, with their line feeds
unfoldable pub offset_of_line : List Text → ℕ → ℕ
offset_of_line lines zero = 0
offset_of_line [] (suc n) = 0
offset_of_line (line ∷ lines) (suc n) = length line + 1 + offset_of_line lines n

-- `cursorOffset` on a text and a cursor
unfoldable pub offset_at : Text → ℕ → ℕ → ℕ
unfolding split_lines offset_of_line
offset_at value line column =
    let lines = split_lines value in
    let at = min line (length lines - 1) in
    offset_of_line lines at + min column (length (get_or lines at []))

pub record Position : Type 0 where
  pub line : ℕ
  pub column : ℕ

-- the loop of `setCursorOffset`
unfoldable pub position_from : Position → Text → Position
position_from at [] = at
position_from at (c ∷ s) =
    position_from
      (if c == newline
        then record { line = at.line + 1; column = 0 }
        else record { line = at.line; column = at.column + 1 })
      s

-- the line and the column after the first `offset` characters
unfoldable pub position_at : Text → ℕ → Position
unfolding position_from
position_at value offset =
    position_from (record { line = 0; column = 0 }) (take (min (length value) offset) value)

module _ {A : Type 0} (area : Area A) where
  unfoldable pub cursor_offset : Model A → ℕ
  unfolding offset_at
  cursor_offset m = offset_at (area.value m.editor) (area.line m.editor) (area.column m.editor)

  -- `for range line { CursorDown() }`
  unfoldable pub cursor_down_by : ℕ → A → A
  cursor_down_by zero a = a
  cursor_down_by (suc n) a = cursor_down_by n (area.cursor_down a)

  unfoldable pub set_cursor_offset : Model A → ℕ → Model A
  unfolding position_at cursor_down_by
  set_cursor_offset m offset =
      let at = position_at (area.value m.editor) offset in
      record m {
        editor =
            area.set_cursor_column at.column (cursor_down_by at.line (area.move_to_begin m.editor));
      }
