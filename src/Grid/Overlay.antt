-- ===== src/Grid/Overlay.antt =====
-- internal/grid/staging.go and mouse.go: the confirmations over the table.
use db_tui.Common.{
  ℕ, ◌+◌, ◌-◌, min, Bool, true, false, ◌&&◌, ◌||◌, not, List, [], ◌∷◌, ◌++◌, Option, none, some,
  Text, Dict, lit, lookup, if◌then◌else◌, ltb, leb, ◌==◌,
}
use db_tui.Grid.Types.{Column, Mutation, StagedValue, value_text, first_page, nil_error}
use db_tui.Grid.State.{
  Platform, Model, Cmd, Key, OverlayKind, overlay_none, overlay_apply, overlay_refresh,
  overlay_revert_all, overlay_changes, overlay_mutation_error, no_operation, idle, Mouse, key_a,
  key_e, key_r, key_v, key_enter, key_esc, key_up, key_k, key_down, key_j, key_pgup, key_pgdown,
  key_home, key_end,
}
use db_tui.Grid.Scroll.{ensure_column_visible}
use db_tui.Grid.Snapshot.{dirty, summary_count}
use db_tui.Grid.Requests.{start_apply, start_page}
use db_tui.Grid.Actions.{clear_changes}

-- A column that a draft need not fill.
abbrev pub is_optional : Column → Bool
is_optional column = column.nullable || column.has_default || column.generated || column.identity

abbrev pub is_supplied : Option StagedValue → Bool
is_supplied none = false
is_supplied (some value) = elim value.kind [ value_text ↦ true | _ ↦ false ]

-- the first required column that the draft does not fill, with its index
unfoldable pub missing_column : List Column → ℕ → Dict StagedValue → Option (ℕ × Column)
missing_column [] index values = none
missing_column (column ∷ columns) index values =
    if is_optional column || is_supplied (lookup column.name values)
    then missing_column columns (index + 1) values
    else some (index, column)

pub record Missing : Type 0 where
  pub insert_index : ℕ
  pub column_index : ℕ
  pub column : Column

unfoldable pub missing_value : List Column → List Mutation → ℕ → Option Missing
unfolding missing_column
missing_value columns [] index = none
missing_value columns (mutation ∷ mutations) index =
    elim (missing_column columns 0 mutation.values) [
      | some (column_index, column) ↦
          some (record { insert_index = index; column_index = column_index; column = column })
      | none ↦ missing_value columns mutations (index + 1)
    ]

-- The first issue moves the selection to it; `none` is the empty string.
unfoldable pub validate_changes : Model → Model × Option Text
unfolding missing_value lit
validate_changes m = elim m.relation [
  | none ↦ (m, some (lit "Table metadata is unavailable."))
  | some relation ↦ elim (missing_value relation.columns m.inserts 0) [
    | none ↦ (m, none)
    | some missing ↦ (
      ensure_column_visible (record m {
        selected_row = missing.insert_index;
        selected_column = missing.column_index;
      }),
      some (missing.column.name ++ lit " is required and has no default."),
    )
  ]
]

unfoldable pub confirm_or_report : Model × Option Text → Model
unfolding lit
confirm_or_report (m, some issue) = record m { status = issue }
confirm_or_report (m, none) = record m {
  overlay = overlay_apply;
  overlay_scroll = 0;
  apply_reload_first = false;
  status = lit "Review the staged change summary before applying it atomically.";
}

unfoldable pub request_apply_confirmation : Model → Model
unfolding confirm_or_report lit
request_apply_confirmation m =
    if dirty m
    then confirm_or_report (validate_changes m)
    else record m { status = lit "There are no staged changes to apply." }

unfoldable pub update_overlay_scroll : Model → Key → Model
update_overlay_scroll m key_up = record m { overlay_scroll = m.overlay_scroll - 1 }
update_overlay_scroll m key_k = record m { overlay_scroll = m.overlay_scroll - 1 }
update_overlay_scroll m key_down = record m {
  overlay_scroll = min (summary_count m - 1) (m.overlay_scroll + 1);
}
update_overlay_scroll m key_j = record m {
  overlay_scroll = min (summary_count m - 1) (m.overlay_scroll + 1);
}
update_overlay_scroll m key_pgup = record m { overlay_scroll = m.overlay_scroll - 5 }
update_overlay_scroll m key_pgdown = record m {
  overlay_scroll = min (summary_count m - 1) (m.overlay_scroll + 5);
}
update_overlay_scroll m key_home = record m { overlay_scroll = 0 }
update_overlay_scroll m key_end = record m { overlay_scroll = summary_count m - 1 }
update_overlay_scroll m _ = m

-- "Apply" in the refresh dialog: apply, then load the first page
unfoldable pub reload_first : Model × Option Text → Model × Cmd
reload_first (m, some issue) = (record m { overlay = overlay_none; status = issue }, none)
reload_first (m, none) = start_apply (record m { apply_reload_first = true })

unfoldable pub apply_then_refresh : Model → Model × Cmd
unfolding reload_first
apply_then_refresh m = reload_first (validate_changes m)

unfoldable pub apply_key : Model → Key → Model × Cmd
unfolding update_overlay_scroll lit
apply_key m key_enter = start_apply m
apply_key m key_a = start_apply m
apply_key m key_esc = (
  update_overlay_scroll
      (record m {
        overlay = overlay_none;
        status = lit "Apply cancelled; staged changes are unchanged.";
      })
      key_esc,
  none,
)
apply_key m key = (update_overlay_scroll m key, none)

unfoldable pub changes_key : Model → Key → Model × Cmd
unfolding request_apply_confirmation update_overlay_scroll
changes_key m key_esc = (record m { overlay = overlay_none }, none)
changes_key m key_v = (record m { overlay = overlay_none }, none)
changes_key m key_a = (request_apply_confirmation m, none)
changes_key m key = (update_overlay_scroll m key, none)

abbrev pub error_dismissed : Model → Model
error_dismissed m = record m {
  overlay = overlay_none;
  err = nil_error;
  failed_kind = no_operation;
  lifecycle = idle;
}

abbrev pub error_corrected : Model → Model
error_corrected m = record (error_dismissed m) {
  status = lit "Staged changes are ready for correction or retry.";
}

unfoldable pub mutation_error_key : Model → Key → Model × Cmd
unfolding request_apply_confirmation lit
mutation_error_key m key_esc = (error_corrected m, none)
mutation_error_key m key_e = (error_corrected m, none)
mutation_error_key m key_enter = (error_corrected m, none)
mutation_error_key m key_a = (request_apply_confirmation (error_dismissed m), none)
mutation_error_key m _ = (m, none)

module _ (p : Platform) where
  unfoldable pub revert_then_refresh : Model → Model × Cmd
  unfolding clear_changes
  revert_then_refresh m =
      let m' = clear_changes p m in start_page m' (first_page m'.relation_id m'.sort) 1

  abbrev pub reverted_all : Model → Model
  reverted_all m = record (clear_changes p m) {
    status = lit "Reverted every staged change in this tab.";
  }

  unfoldable pub refresh_key : Model → Key → Model × Cmd
  unfolding apply_then_refresh revert_then_refresh lit
  refresh_key m key_a = apply_then_refresh m
  refresh_key m key_r = revert_then_refresh m
  refresh_key m key_esc = (
    record m {
      overlay = overlay_none;
      status = lit "Refresh cancelled; staged changes are unchanged.";
    },
    none,
  )
  refresh_key m _ = (m, none)

  unfoldable pub revert_all_key : Model → Key → Model × Cmd
  unfolding lit
  revert_all_key m key_enter = (reverted_all m, none)
  revert_all_key m key_r = (reverted_all m, none)
  revert_all_key m key_esc =
      (record m { overlay = overlay_none; status = lit "Revert cancelled." }, none)
  revert_all_key m _ = (m, none)

  unfoldable pub update_overlay_key : OverlayKind → Model → Key → Model × Cmd
  unfolding apply_key refresh_key revert_all_key changes_key mutation_error_key
  update_overlay_key overlay_none m key = (m, none)
  update_overlay_key overlay_apply m key = apply_key m key
  update_overlay_key overlay_refresh m key = refresh_key m key
  update_overlay_key overlay_revert_all m key = revert_all_key m key
  update_overlay_key overlay_changes m key = changes_key m key
  update_overlay_key overlay_mutation_error m key = mutation_error_key m key

  -- the buttons stand on line 4: `[Apply Enter/a]  [Cancel Esc]` and so on
  unfoldable pub update_overlay_mouse : OverlayKind → Model → Mouse → Model × Cmd
  unfolding apply_then_refresh revert_then_refresh lit
  update_overlay_mouse overlay_apply m mouse =
      if not (mouse.y == 4)
      then (m, none)
      else if ltb mouse.x 15
      then start_apply m
      else if leb 17 mouse.x && ltb mouse.x 29
      then (record m { overlay = overlay_none }, none)
      else (m, none)
  update_overlay_mouse overlay_refresh m mouse =
      if not (mouse.y == 4)
      then (m, none)
      else if ltb mouse.x 9
      then apply_then_refresh m
      else if leb 11 mouse.x && ltb mouse.x 33
      then revert_then_refresh m
      else (record m { overlay = overlay_none }, none)
  update_overlay_mouse overlay_revert_all m mouse =
      if not (mouse.y == 4)
      then (m, none)
      else if ltb mouse.x 20
      then (reverted_all m, none)
      else (record m { overlay = overlay_none }, none)
  update_overlay_mouse _ m mouse = (m, none)
