-- ===== src/SqlTab/Placing.antt =====
-- The selected row is one of the current output, and on the current page.
use db_tui.Common.{ℕ, ◌+◌, ◌*◌, ◌≤◌, ◌<◌, max, List, Option, none, some, arith, length}
use db_tui.Common.Int.{ℤ}
use db_tui.SqlTab.Types.{Cell, Output}
use db_tui.SqlTab.State.{Model}
use db_tui.SqlTab.Results.{
  current_output, current_rows, page_start, page_end, ensure_result_row_visible, move_output,
  move_result_page, move_result_row, first_result_row, last_result_row, clamp_result_selection,
  reset_result_navigation, page_count,
}
use db_tui.SqlTab.Frame.{SamePlace}

-- the row is in the list, or is 0 if that is empty, and the page has it
abbrev pub InPage : List (List Cell) → ℕ → ℕ → Type 0
InPage rows page row = (row < max 1 (length rows)) × (page * 100 ≤ row) × (row < page * 100 + 100)

abbrev pub PlacedIn : Option Output → ℕ → ℕ → Type 0
PlacedIn none page row = Unit
PlacedIn (some output) page row = InPage output.rows page row

module _ {A : Type 0} where
  abbrev pub IsPlaced : Model A → Type 0
  IsPlaced m = PlacedIn (current_rows m) m.result_page m.selected_row

  pub SamePlace-IsPlaced : (m n : Model A) → SamePlace m n → IsPlaced m → IsPlaced n
  unfolding current_rows current_output
  SamePlace-IsPlaced m n same h = ground arith

  pub reset-IsPlaced : (m : Model A) → IsPlaced (reset_result_navigation m)
  unfolding reset_result_navigation current_rows current_output
  reset-IsPlaced m = ground arith

  pub move_output-IsPlaced : (m : Model A) (delta : ℤ) → IsPlaced m → IsPlaced (move_output m delta)
  unfolding move_output current_rows current_output
  move_output-IsPlaced m delta h = ground arith

  pub first_result_row-IsPlaced : (m : Model A) → IsPlaced m → IsPlaced (first_result_row m)
  unfolding first_result_row current_rows current_output
  first_result_row-IsPlaced m h = ground arith

  pub move_result_row-IsPlaced :
      (m : Model A) (delta : ℤ) → IsPlaced m → IsPlaced (move_result_row m delta)
  unfolding move_result_row ensure_result_row_visible current_rows current_output page_start
      page_end
  move_result_row-IsPlaced m delta h = ground arith

  pub move_result_page-IsPlaced :
      (m : Model A) (delta : ℤ) → IsPlaced m → IsPlaced (move_result_page m delta)
  unfolding move_result_page current_rows current_output page_count
  move_result_page-IsPlaced m delta h = ground arith

  pub last_result_row-IsPlaced : (m : Model A) → IsPlaced m → IsPlaced (last_result_row m)
  unfolding last_result_row ensure_result_row_visible current_rows current_output
  last_result_row-IsPlaced m h = ground arith

  pub clamp-IsPlaced : (m : Model A) → IsPlaced m → IsPlaced (clamp_result_selection m)
  unfolding clamp_result_selection ensure_result_row_visible current_rows current_output
  clamp-IsPlaced m h = ground arith
