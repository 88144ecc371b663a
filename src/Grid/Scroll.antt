-- ===== src/Grid/Scroll.antt =====
-- internal/grid/model.go and view.go: movement of the selection, and the scroll offsets.
use db_tui.Common.{
  ℕ, zero, suc, ◌+◌, ◌-◌, min, max, Bool, true, false, ◌&&◌, not, List, [], ◌∷◌, Option, none, some,
  length, take, drop, if◌then◌else◌, ltb, leb, ◌==◌,
}
use db_tui.Common.Int.{ℤ, move_by}
use db_tui.Grid.Types.{Relation}
use db_tui.Grid.State.{Model}
use db_tui.Grid.Rows.{total_rows}

unfoldable pub visible_row_count : Model → ℕ
visible_row_count m = max 1 (m.height - 6)

-- the second clause of the method moves the offset that the first one left
unfoldable pub scrolled_row : ℕ → ℕ → ℕ → ℕ → ℕ
scrolled_row offset selected visible total =
    let above = if ltb selected offset then selected else offset in
    let below = if leb (above + visible) selected then selected - visible + 1 else above in
    min (total - visible) below

unfoldable pub ensure_row_visible : Model → Model
unfolding scrolled_row visible_row_count total_rows
ensure_row_visible m = record m {
  row_offset = scrolled_row m.row_offset m.selected_row (visible_row_count m) (total_rows m);
}

-- the columns side by side, with one space between two
unfoldable pub used_width : List ℕ → ℕ
used_width [] = 0
used_width (w ∷ []) = w
used_width (w ∷ v ∷ ws) = w + 1 + used_width (v ∷ ws)

-- the widths from one index up to another, both included
abbrev pub span : List ℕ → ℕ → ℕ → List ℕ
span widths first last = take (suc last - first) (drop first widths)

-- `for columnOffset < selectedColumn { … }`, with the rounds left
unfoldable pub scroll_columns : ℕ → List ℕ → ℕ → ℕ → ℕ → ℕ
unfolding used_width
scroll_columns zero widths available offset selected = offset
scroll_columns (suc left) widths available offset selected =
    let rest = scroll_columns left widths available (offset + 1) selected in
    if leb selected offset
    then offset
    else if leb (used_width (span widths offset selected)) available
    then offset
    else rest

abbrev has_columns : Option Relation → Bool
has_columns none = false
has_columns (some relation) = not (length relation.columns == 0)

abbrev first_offset : Model → ℕ
first_offset m =
    if ltb m.selected_column m.column_offset then m.selected_column else m.column_offset

unfoldable pub scrolled_column : Model → ℕ
unfolding scroll_columns
scrolled_column m =
    if has_columns m.relation && not (length m.column_widths == 0)
    then scroll_columns (m.selected_column - first_offset m) m.column_widths (max 1 (m.width - 2))
        (first_offset m) m.selected_column
    else 0

unfoldable pub ensure_column_visible : Model → Model
ensure_column_visible m = record m { column_offset = scrolled_column m }

unfoldable pub set_size : Model → ℕ → ℕ → Model
unfolding ensure_row_visible ensure_column_visible
set_size m width height =
    ensure_column_visible (ensure_row_visible (record m { width = width; height = height }))

unfoldable pub move_row : Model → ℤ → Model
unfolding ensure_row_visible
move_row m delta =
    if total_rows m == 0
    then m
    else ensure_row_visible
        (record m { selected_row = min (total_rows m - 1) (move_by m.selected_row delta) })

unfoldable pub move_column : Model → ℤ → Model
unfolding ensure_column_visible
move_column m delta = elim m.relation [
  | none ↦ m
  | some relation ↦
      if length relation.columns == 0
      then m
      else ensure_column_visible (record m {
        selected_column = min (length relation.columns - 1) (move_by m.selected_column delta);
      })
]

-- the loop of `visibleColumns`: the columns from `index` on that fit beside what is used
unfoldable pub columns_that_fit : ℕ → ℕ → List ℕ → ℕ → Bool → List ℕ
columns_that_fit available index [] used first = []
columns_that_fit available index (w ∷ ws) used first =
    let width = if first then w else w + 1 in
    let rest = columns_that_fit available (index + 1) ws (used + width) false in
    if ltb available (used + width) && not first then [] else index ∷ rest

unfoldable pub visible_columns : Model → List ℕ
unfolding columns_that_fit
visible_columns m = elim m.relation [
  | none ↦ []
  | some relation ↦
      if length m.column_widths == length relation.columns
      then columns_that_fit (max 1 (m.width - 2)) m.column_offset
          (drop m.column_offset m.column_widths) 0 true
      else []
]
