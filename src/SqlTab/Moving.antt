-- ===== src/SqlTab/Moving.antt =====
-- The cursor of the widget, put at an offset and read again.
use db_tui.Common.{
  ℕ, zero, suc, ◌+◌, ◌≤◌, ◌<◌, ◌≡◌, ap, ◌∙◌, min, [], Text, arith, length, take, get_or,
}
use db_tui.SqlTab.State.{Area, Model}
use db_tui.SqlTab.Offsets.{
  split_lines, offset_at, Position, position_from, position_at, cursor_down_by, cursor_offset,
  set_cursor_offset,
}
use db_tui.SqlTab.Undoing.{LawfulArea, value-cursor_down_by}
use db_tui.SqlTab.Cursor.{start, IsAt, position_from-IsAt, offset_at-position_at}

module _ {A : Type 0} (area : Area A) where
  -- What the cursor relies on where the widget wraps no line: a step down is one line down, as long
  -- as there is one, and a column of the line is taken as it is.
  pub record MovingArea : Type 1 where
    pub IsUnwrapped : A → Type 0
    pub move_to_begin-IsUnwrapped : (a : A) → IsUnwrapped a → IsUnwrapped (area.move_to_begin a)
    pub cursor_down-IsUnwrapped : (a : A) → IsUnwrapped a → IsUnwrapped (area.cursor_down a)
    pub line-move_to_begin : (a : A) → area.line (area.move_to_begin a) ≡ 0
    pub line-cursor_down :
        (a : A)
        → IsUnwrapped a
        → area.line a + 1 < length (split_lines (area.value a))
        → area.line (area.cursor_down a) ≡ area.line a + 1
    pub line-set_cursor_column :
        (n : ℕ) (a : A) → area.line (area.set_cursor_column n a) ≡ area.line a
    pub column-set_cursor_column :
        (n : ℕ) (a : A)
        → n ≤ length (get_or (split_lines (area.value a)) (area.line a) [])
        → area.column (area.set_cursor_column n a) ≡ n

same_offset :
    {s s' : Text} {line line' column column' : ℕ}
    → s ≡ s'
    → line ≡ line'
    → column ≡ column'
    → offset_at s line column ≡ offset_at s' line' column'
same_offset value line column = cc

module _ {A : Type 0} (area : Area A) (laws : LawfulArea area) (moves : MovingArea area) where
  line-cursor_down_by :
      (n : ℕ) (a : A)
      → moves.IsUnwrapped a
      → area.line a + n < length (split_lines (area.value a))
      → area.line (cursor_down_by area n a) ≡ area.line a + n
  unfolding cursor_down_by
  line-cursor_down_by zero a unwrapped inside = omega arith
  line-cursor_down_by (suc n) a unwrapped inside =
      let down = moves.line-cursor_down a unwrapped (omega (arith, inside)) in
      let lines = ap (λ s. length (split_lines s)) (laws.value-cursor_down a) in
      omega (
        arith,
        down,
        line-cursor_down_by n (area.cursor_down a) (moves.cursor_down-IsUnwrapped a unwrapped)
            (omega (arith, inside, down, lines)),
      )

  -- the place that a position is taken to is that position
  moved :
      (at : Position) (offset : ℕ) (a : A)
      → moves.IsUnwrapped a
      → IsAt (split_lines (area.value a)) at offset
      → let b =
          area.set_cursor_column at.column (cursor_down_by area at.line (area.move_to_begin a)) in
        (area.value b ≡ area.value a) × (area.line b ≡ at.line) × (area.column b ≡ at.column)
  moved at offset a unwrapped (inside, along, same) =
      let first = area.move_to_begin a in
      let down = cursor_down_by area at.line first in
      let kept : area.value down ≡ area.value a =
        value-cursor_down_by area laws at.line first ∙ laws.value-move_to_begin a in
      let lines = ap (λ s. length (split_lines s)) (laws.value-move_to_begin a) in
      let there : area.line down ≡ at.line = omega (
        arith,
        moves.line-move_to_begin a,
        line-cursor_down_by at.line first (moves.move_to_begin-IsUnwrapped a unwrapped)
            (omega (arith, inside, lines, moves.line-move_to_begin a)),
      ) in
      let width : length (get_or (split_lines (area.value down)) (area.line down) [])
          ≡ length (get_or (split_lines (area.value a)) at.line []) =
        ap (λ s. length (get_or (split_lines s) (area.line down) [])) kept
        ∙ ap (λ n. length (get_or (split_lines (area.value a)) n [])) there in
      (
        laws.value-set_cursor_column at.column down ∙ kept,
        moves.line-set_cursor_column at.column down ∙ there,
        moves.column-set_cursor_column at.column down (omega (arith, along, width)),
      )

  -- With a widget that keeps its laws and wraps no line of the text, a cursor that is put at an offset,
  -- by the widget's moves, and read as an offset again, is where it was put, or at the end of a text
  -- that is shorter.
  pub cursor_offset-set_cursor_offset :
      (m : Model A) (offset : ℕ)
      → moves.IsUnwrapped m.editor
      → cursor_offset area (set_cursor_offset area m offset)
        ≡ min (length (area.value m.editor)) offset
  unfolding cursor_offset set_cursor_offset position_at
  cursor_offset-set_cursor_offset m offset unwrapped =
      let value = area.value m.editor in
      let k = min (length value) offset in
      let at = position_from start (take k value) in
      let (kept, line, column) =
        moved at k m.editor unwrapped (position_from-IsAt k value (omega arith)) in
      same_offset kept line column ∙ offset_at-position_at value offset
