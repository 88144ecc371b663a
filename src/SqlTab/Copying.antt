-- ===== src/SqlTab/Copying.antt =====
-- internal/sqltab/editor.go: what is copied from the results.
use db_tui.Common.{
  join, ℕ, Bool, ◌&&◌, List, [], ◌∷◌, none, some, Text, lit, length, get_elem?, get_or, filter_by,
  map, if◌then◌else◌, ltb, leb, ◌==◌,
}
use db_tui.SqlTab.Types.{Cell, Output}
use db_tui.SqlTab.State.{Model, Cmd, set_clipboard}
use db_tui.SqlTab.Results.{current_rows}

insert_number : ℕ → List ℕ → List ℕ
insert_number n [] = n ∷ []
insert_number n (k ∷ ks) = if leb n k then n ∷ k ∷ ks else k ∷ insert_number n ks

-- `sort.Ints`
unfoldable pub sort_numbers : List ℕ → List ℕ
unfolding insert_number
sort_numbers [] = []
sort_numbers (n ∷ ns) = insert_number n (sort_numbers ns)

abbrev pub full_text : Cell → Text
full_text cell = cell.full

-- one line for each row
unfoldable pub copied_rows : List (List Cell) → List ℕ → List Text
unfolding join
copied_rows rows [] = []
copied_rows rows (row ∷ rest) =
    join (9 ∷ []) (map full_text (get_or rows row [])) ∷ copied_rows rows rest

module _ {A : Type 0} where
  -- the rows that are copied: those selected that the output has, or the one under the cursor
  unfoldable pub rows_to_copy : Model A → Output → Bool → List ℕ
  unfolding sort_numbers
  rows_to_copy m output force_row =
      let rows = sort_numbers (filter_by (λ r. ltb r (length output.rows)) m.selected_rows) in
      if force_row && (length rows == 0) then m.selected_row ∷ [] else rows

  unfoldable pub copy_cell : Model A → Output → Model A × Cmd
  unfolding lit
  copy_cell m output = elim (get_elem? (get_or output.rows m.selected_row []) m.selected_column) [
    | none ↦ (m, none)
    | some cell ↦ (record m { status = lit "Copied result cell." }, some (set_clipboard cell.full))
  ]

  unfoldable pub copy_rows : Model A → Output → List ℕ → Model A × Cmd
  unfolding copy_cell copied_rows join lit
  copy_rows m output [] = copy_cell m output
  copy_rows m output (row ∷ rows) = (
    record m { status = lit "Copied selected result row(s)." },
    some (set_clipboard (join (10 ∷ []) (copied_rows output.rows (row ∷ rows)))),
  )

  unfoldable pub copy_selection : Model A → Bool → Model A × Cmd
  unfolding current_rows rows_to_copy copy_rows lit
  copy_selection m force_row = elim (current_rows m) [
    | none ↦ (record m { status = lit "There is no result value to copy." }, none)
    | some output ↦
        if leb (length output.rows) m.selected_row
        then (record m { status = lit "There is no result value to copy." }, none)
        else copy_rows m output (rows_to_copy m output force_row)
  ]
