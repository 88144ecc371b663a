-- ===== src/Grid/Scrolling.antt =====
-- The selection stays on the screen, and the two loops over column widths end with their test.
use db_tui.Common.{ℕ, zero, suc, ◌+◌, ◌-◌, ◌≤◌, ◌<◌, ◌≡◌, ◌⊎◌, inl, List, arith}
use db_tui.Grid.State.{Model}
use db_tui.Grid.Rows.{total_rows}
use db_tui.Grid.Scroll.{
  visible_row_count, ensure_row_visible, used_width, span, scroll_columns, scrolled_row,
}

-- When the selected row is one of the tab's rows, scrolling makes it one of the visible ones, and
-- scrolls no more rows away than needed to show the last one.
pub ensure_row_visible_shows :
    (m : Model)
    → m.selected_row < total_rows m
    → let n = ensure_row_visible m in
      (n.row_offset ≤ m.selected_row)
      × (m.selected_row < n.row_offset + visible_row_count m)
      × (n.row_offset ≤ total_rows m - visible_row_count m)
unfolding ensure_row_visible scrolled_row visible_row_count
ensure_row_visible_shows m h = ground arith

-- With at least as many rounds as there are columns from the offset to the selected one, the loop
-- that scrolls the columns ends with its own test, at an offset between the first one and the
-- selected column, with the columns from there to the selected one fitting the width, or with the
-- selected column in front.
pub scroll_columns_ends :
    (left : ℕ) (widths : List ℕ) (available offset selected : ℕ)
    → offset ≤ selected
    → selected ≤ offset + left
    → let o = scroll_columns left widths available offset selected in
      (offset ≤ o)
      × (o ≤ selected)
      × ((o ≡ selected) ⊎ (used_width (span widths o selected) ≤ available))
unfolding scroll_columns
scroll_columns_ends zero widths available offset selected h k =
    (omega arith, omega arith, inl (omega arith))
scroll_columns_ends (suc left) widths available offset selected h k =
    ground (arith, scroll_columns_ends left widths available (offset + 1) selected)
