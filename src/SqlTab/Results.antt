-- ===== src/SqlTab/Results.antt =====
-- internal/sqltab/model.go and view.go: pages and rows of the results, and their scroll offsets.
use db_tui.Common.{
  ℕ, zero, suc, ◌+◌, ◌-◌, ◌*◌, ◌/◌, ◌%◌, min, max, Bool, true, false, ◌||◌, not, List, [], ◌∷◌,
  Option, none, some, lit, length, get_elem?, get_or, take, drop, any, filter_by, if◌then◌else◌,
  ltb, leb, ◌==◌,
}
use db_tui.Common.Int.{ℤ, pos, negsuc, move_by}
use db_tui.Grid.Scroll.{scroll_columns, columns_that_fit}
use db_tui.SqlTab.Types.{result_page_size, is_rows, Column, Cell, Output}
use db_tui.SqlTab.State.{Terminal, Model}

-- the offset of the rows, by the bounds of the page
unfoldable pub row_offset_in : ℕ → ℕ → ℕ → ℕ → ℕ → ℕ
row_offset_in first last visible selected offset =
    let start = max first offset in
    let above = if ltb selected start then selected else start in
    let below = if leb (above + visible) selected then selected - visible + 1 else above in
    if leb last first then first else min (max first (last - visible)) below

-- the width of one column, over the rows of the page
unfoldable pub widest_display : Terminal → ℕ → List (List Cell) → ℕ → ℕ
widest_display t index [] width = width
widest_display t index (row ∷ rows) width = elim (get_elem? row index) [
  | none ↦ widest_display t index rows width
  | some cell ↦ widest_display t index rows (min 32 (max width (t.display_width cell.display + 2)))
]

unfoldable pub widths_from : Terminal → List (List Cell) → List Column → ℕ → List ℕ
unfolding widest_display
widths_from t rows [] index = []
widths_from t rows (column ∷ columns) index =
    widest_display t index rows (min 32 (max 4 (t.display_width column.name + 2)))
    ∷ widths_from t rows columns (index + 1)

-- `activeOutput + delta + len`, where the outputs are not empty
abbrev pub turned : ℕ → ℤ → ℕ → ℕ
turned active (pos d) size = (active + d + size) % size
turned active (negsuc d) size = (active + size - suc d) % size

abbrev pub is_forward : ℤ → Bool
is_forward (pos zero) = false
is_forward (pos (suc d)) = true
is_forward (negsuc d) = false

unfoldable pub page_count : Output → ℕ
page_count output = max 1 ((length output.rows + result_page_size - 1) / result_page_size)

abbrev pub is_selected : List ℕ → ℕ → Bool
is_selected rows row = any (λ r. r == row) rows

module _ {A : Type 0} where
  unfoldable pub current_output : Model A → Option Output
  current_output m = get_elem? m.result.outputs m.active_output

  -- the current output, if it is one of rows
  unfoldable pub current_rows : Model A → Option Output
  unfolding current_output
  current_rows m = elim (current_output m) [
    | none ↦ none
    | some output ↦ if is_rows output.kind then some output else none
  ]

  unfoldable pub page_start : Model A → Output → ℕ
  page_start m output = min (length output.rows) (m.result_page * result_page_size)

  unfoldable pub page_end : Model A → Output → ℕ
  unfolding page_start
  page_end m output = min (length output.rows) (page_start m output + result_page_size)

  unfoldable pub result_top : Model A → ℕ
  result_top m = min m.height (2 + m.editor_height)

  unfoldable pub visible_result_row_count : Model A → ℕ
  unfolding result_top
  visible_result_row_count m = max 1 (m.height - (result_top m + 3))

  unfoldable pub ensure_result_row_visible : Model A → Output → Model A
  unfolding row_offset_in page_start page_end visible_result_row_count
  ensure_result_row_visible m output = record m {
    result_row_offset =
        row_offset_in (page_start m output) (page_end m output) (visible_result_row_count m)
          m.selected_row m.result_row_offset;
  }

  unfoldable pub result_column_widths : Terminal → Model A → Output → List ℕ
  unfolding widths_from page_start page_end
  result_column_widths t m output =
      let first = page_start m output in
      widths_from t (take (page_end m output - first) (drop first output.rows)) output.columns 0

  unfoldable pub visible_result_columns : Terminal → Model A → Output → List ℕ
  unfolding columns_that_fit result_column_widths
  visible_result_columns t m output =
      columns_that_fit (max 1 (m.width - 2)) m.column_offset
        (drop m.column_offset (result_column_widths t m output)) 0 true

  unfoldable pub ensure_result_column_visible : Terminal → Model A → Output → Model A
  unfolding scroll_columns result_column_widths
  ensure_result_column_visible t m output =
      let first = min m.selected_column m.column_offset in
      record m {
        column_offset =
            scroll_columns (m.selected_column - first) (result_column_widths t m output)
              (max 1 (m.width - 2)) first m.selected_column;
      }

  unfoldable pub reset_result_navigation : Model A → Model A
  reset_result_navigation m = record m {
    active_output = 0;
    result_page = 0;
    selected_row = 0;
    result_row_offset = 0;
    selected_column = 0;
    column_offset = 0;
    selected_rows = [];
    inspector = false;
  }

  unfoldable pub move_output : Model A → ℤ → Model A
  move_output m delta = if length m.result.outputs == 0 then m else record m {
    active_output = turned m.active_output delta (length m.result.outputs);
    result_page = 0;
    selected_row = 0;
    result_row_offset = 0;
    selected_column = 0;
    column_offset = 0;
    selected_rows = [];
  }

  unfoldable pub move_result_page : Model A → ℤ → Model A
  unfolding current_rows page_count lit
  move_result_page m delta = elim (current_rows m) [
    | none ↦ m
    | some output ↦
        let target = min (page_count output - 1) (move_by m.result_page delta) in
        if target == m.result_page
        then record m {
          status =
              if is_forward delta
              then lit "Already on the last result page."
              else lit "Already on the first result page.";
        }
        else record m {
          result_page = target;
          selected_row = target * result_page_size;
          result_row_offset = target * result_page_size;
        }
  ]

  unfoldable pub move_result_row : Model A → ℤ → Model A
  unfolding current_rows page_start page_end ensure_result_row_visible
  move_result_row m delta = elim (current_rows m) [
    | none ↦ m
    | some output ↦
        if length output.rows == 0
        then m
        else ensure_result_row_visible
            (record m {
              selected_row =
                  min (page_end m output - 1)
                    (max (page_start m output) (move_by m.selected_row delta));
            })
            output
  ]

  unfoldable pub move_result_column : Terminal → Model A → ℤ → Model A
  unfolding current_rows ensure_result_column_visible
  move_result_column t m delta = elim (current_rows m) [
    | none ↦ m
    | some output ↦
        if length output.columns == 0
        then m
        else ensure_result_column_visible t
            (record m {
              selected_column = min (length output.columns - 1) (move_by m.selected_column delta);
            })
            output
  ]

  -- the key `home`
  unfoldable pub first_result_row : Model A → Model A
  first_result_row m = record m { selected_row = 0; result_page = 0; result_row_offset = 0 }

  -- the key `end`
  unfoldable pub last_result_row : Model A → Model A
  unfolding current_rows ensure_result_row_visible
  last_result_row m = elim (current_rows m) [
    | none ↦ m
    | some output ↦
        let last = length output.rows - 1 in
        if length output.rows == 0
        then m
        else ensure_result_row_visible
            (record m { selected_row = last; result_page = last / result_page_size }) output
  ]

  unfoldable pub toggle_selected_row : Model A → Model A
  unfolding current_rows
  toggle_selected_row m = elim (current_rows m) [
    | none ↦ m
    | some output ↦ if length output.rows == 0 then m else record m {
      selected_rows =
          if is_selected m.selected_rows m.selected_row
          then filter_by (λ r. not (r == m.selected_row)) m.selected_rows
          else m.selected_row ∷ m.selected_rows;
    }
  ]

  unfoldable pub clamp_result_selection : Model A → Model A
  unfolding current_rows ensure_result_row_visible
  clamp_result_selection m = elim (current_rows m) [
    | none ↦ record m { selected_row = 0; selected_column = 0 }
    | some output ↦
        if length output.rows == 0
        then record m { selected_row = 0; selected_column = 0 }
        else ensure_result_row_visible
            (record m {
              selected_row = min (length output.rows - 1) m.selected_row;
              selected_column = min (length output.columns - 1) m.selected_column;
            })
            output
  ]

  unfoldable pub open_inspector : Model A → Model A
  unfolding current_rows
  open_inspector m = elim (current_rows m) [
    | none ↦ m
    | some output ↦
        if leb (length output.rows) m.selected_row
          || leb (length (get_or output.rows m.selected_row [])) m.selected_column
        then m
        else record m { inspector = true; inspector_scroll = 0 }
  ]
