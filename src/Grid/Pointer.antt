-- ===== src/Grid/Pointer.antt =====
-- internal/grid/mouse.go: clicks and the wheel.
use db_tui.Common.{
  ℕ, ◌+◌, ◌-◌, min, Bool, true, false, ◌&&◌, not, List, [], ◌∷◌, Option, none, some, get_or,
  if◌then◌else◌, ltb, leb, ◌==◌,
}
use db_tui.Common.Int.{pos, negsuc}
use db_tui.Grid.Types.{value_null, value_default}
use db_tui.Grid.State.{
  Platform, Model, Cmd, Mouse, MouseButton, mouse_left, wheel_up, wheel_down, wheel_left,
  wheel_right, OverlayKind, overlay_apply, overlay_revert_all, overlay_changes, is_overlay_none,
}
use db_tui.Grid.Rows.{total_rows}
use db_tui.Grid.Scroll.{
  ensure_row_visible, ensure_column_visible, move_row, move_column, visible_columns,
}
use db_tui.Grid.Snapshot.{dirty, summary_count}
use db_tui.Grid.Actions.{
  stage_insert, open_editor, stage_special, toggle_delete, revert_selected_row,
}
use db_tui.Grid.Overlay.{request_apply_confirmation, update_overlay_mouse}

-- the column on the mouse, from the left edge `x` on
unfoldable pub column_under : ℕ → List ℕ → List ℕ → ℕ → Option ℕ
column_under mouse_x widths [] x = none
column_under mouse_x widths (column ∷ columns) x =
    let width = get_or widths column 0 in
    let rest = column_under mouse_x widths columns (x + width + 1) in
    if leb x mouse_x && ltb mouse_x (x + width) then some column else rest

pub data GridAction : Type 0 where
  insert_action edit_action null_action default_action delete_action : GridAction
  apply_action revert_action revert_all_action changes_action no_action : GridAction

-- the labels of the action line, each with one space behind it
unfoldable pub grid_action_at : ℕ → GridAction
grid_action_at x =
    if ltb x 10
    then insert_action
    else if leb 11 x && ltb x 19
    then edit_action
    else if leb 20 x && ltb x 28
    then null_action
    else if leb 29 x && ltb x 40
    then default_action
    else if leb 41 x && ltb x 51
    then delete_action
    else if leb 52 x && ltb x 61
    then apply_action
    else if leb 62 x && ltb x 76
    then revert_action
    else if leb 77 x && ltb x 91
    then revert_all_action
    else if leb 92 x && ltb x 103
    then changes_action
    else no_action

unfoldable pub open_overlay : OverlayKind → Model → Model
open_overlay kind m = if dirty m then record m { overlay = kind; overlay_scroll = 0 } else m

unfoldable pub wheel_overlay : Model → Mouse → Model
unfolding summary_count
wheel_overlay m mouse = elim mouse.button [
  | wheel_up ↦ record m { overlay_scroll = m.overlay_scroll - 3 }
  | wheel_down ↦ record m { overlay_scroll = min (summary_count m - 1) (m.overlay_scroll + 3) }
  | _ ↦ m
]

unfoldable pub wheel_columns : Model → Mouse → Model
unfolding move_column
wheel_columns m mouse = elim mouse.button [
  | wheel_up ↦ move_column m (negsuc 0)
  | wheel_left ↦ move_column m (negsuc 0)
  | wheel_down ↦ move_column m (pos 1)
  | wheel_right ↦ move_column m (pos 1)
  | _ ↦ m
]

unfoldable pub wheel_rows : Model → Mouse → Model
unfolding move_row
wheel_rows m mouse = elim mouse.button [
  | wheel_up ↦ move_row m (negsuc 2)
  | wheel_down ↦ move_row m (pos 3)
  | _ ↦ m
]

unfoldable pub scrolls : OverlayKind → Bool
scrolls overlay_apply = true
scrolls overlay_changes = true
scrolls _ = false

unfoldable pub update_wheel : Model → Mouse → Model
unfolding wheel_overlay wheel_columns wheel_rows scrolls
update_wheel m mouse =
    if scrolls m.overlay
    then wheel_overlay m mouse
    else if mouse.shift
    then wheel_columns m mouse
    else wheel_rows m mouse

abbrev pub clicked_row : Model → Mouse → Model
clicked_row m mouse = record m { selected_row = m.row_offset + mouse.y - 5 }

unfoldable pub click_cell : Model → Mouse → Model
unfolding column_under
click_cell m mouse =
    ensure_row_visible
      (elim (column_under mouse.x m.column_widths (visible_columns (clicked_row m mouse)) 2) [
        | none ↦ clicked_row m mouse
        | some column ↦
            ensure_column_visible (record (clicked_row m mouse) { selected_column = column })
      ])

unfoldable pub is_left : MouseButton → Bool
is_left mouse_left = true
is_left _ = false

module _ (p : Platform) where
  unfoldable pub click_action : Model → GridAction → Model × Cmd
  unfolding open_overlay
  click_action m insert_action = (stage_insert p m, none)
  click_action m edit_action = (open_editor p m, none)
  click_action m null_action = (stage_special p m value_null, none)
  click_action m default_action = (stage_special p m value_default, none)
  click_action m delete_action = (toggle_delete p m, none)
  click_action m apply_action = (request_apply_confirmation m, none)
  click_action m revert_action = (revert_selected_row p m, none)
  click_action m revert_all_action = (open_overlay overlay_revert_all m, none)
  click_action m changes_action = (open_overlay overlay_changes m, none)
  click_action m no_action = (m, none)

  -- the action line is line 2, the rows begin on line 5
  unfoldable pub click_table : Model → Mouse → Model × Cmd
  click_table m mouse =
      if mouse.y == 2
      then click_action m (grid_action_at mouse.x)
      else if ltb mouse.y 5
      then (m, none)
      else if leb (total_rows m) (m.row_offset + mouse.y - 5)
      then (m, none)
      else (click_cell m mouse, none)

  unfoldable pub update_mouse : Model → Mouse → Model × Cmd
  update_mouse m mouse = if not (is_left mouse.button) then (m, none) else elim m.relation [
    | none ↦ (m, none)
    | some _ ↦ elim m.editor [
      | some _ ↦ (m, none)
      | none ↦
          if is_overlay_none m.overlay
          then click_table m mouse
          else update_overlay_mouse p m.overlay m mouse
    ]
  ]
