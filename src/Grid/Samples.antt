-- ===== src/Grid/Samples.antt =====
-- A table of two columns with one loaded row and one draft, and the theorems at it.
use db_tui.Common.{
  ◌+◌, ◌<◌, ◌≤◌, ◌≡◌, ◌↔◌, ◌⊎◌, refl, ap, true, false, ◌&&◌, ◌-◌, [], ◌∷◌, ◌++◌, none, some, Text,
  lit, arith, length, has, lookup, text_eq, if◌then◌else◌,
}
use db_tui.Common.Int.{negsuc}
use db_tui.Core.{RequestMeta, matches}
use db_tui.Grid.Types.{
  Column, Relation, RelationId, RelationKind, Row, Value, Cell, StagedValue, value_text,
  ApplyResult, plain_error,
}
use db_tui.Grid.State.{
  Platform, Model, new_model, CellEditor, key_press, mouse_click, applied, KeyPress, key_i, key_s,
  Mouse, mouse_left, apply_operation, page_operation, running, load_page_intent, cancel_intent,
  overlay_none,
}
use db_tui.Grid.Rows.{RowReference, row_reference_at, identity_key_of, total_rows, staged_update}
use db_tui.Grid.Scroll.{ensure_row_visible, visible_row_count, scroll_columns, used_width, span}
use db_tui.Grid.Snapshot.{mutations_snapshot, change_count}
use db_tui.Grid.Requests.{is_current, busy}
use db_tui.Grid.Editor.{insert_editor_text, delete_editor_rune}
use db_tui.Grid.Stage.{stage_update_value, draft}
use db_tui.Grid.Actions.{toggle_delete, revert_selected_row}
use db_tui.Grid.Overlay.{validate_changes}
use db_tui.Grid.Results.{on_failed, on_applied}
use db_tui.Grid.Update.{update}
use db_tui.Grid.Identity.{AgreeOn, identity_key_inj}
use db_tui.Grid.Sending.{length-mutations_snapshot}
use db_tui.Grid.Staging.{written, unchanged, staged_update-stage_update_value}
use db_tui.Grid.Outcome.{
  update_stale, SameChanges, on_failed-SameChanges, on_applied_clears,
  on_applied_ignores_reload_first,
}
use db_tui.Grid.Editing.{
  IsWithin, before_cursor, after_cursor, insert_editor_text_splits, backspace-insert,
}
use db_tui.Grid.Scrolling.{ensure_row_visible_shows, scroll_columns_ends}
use db_tui.Grid.Marking.{toggle_delete_flips, revert_selected_row_clean}
use db_tui.Grid.Drafts.{AllFilled, validate_changes_iff}
use db_tui.Grid.Issue.{Issues}
use db_tui.Grid.Waiting.{update-Issues}
use db_tui.Grid.Numbers.{Ascending, numbers, numbers-Ascending}
use db_tui.Grid.Access.{IsClean, update-IsClean}
use db_tui.Grid.Races.{clicked_draft_lost, busy_keys}

abbrev print_value : Value → Text
print_value Value.nil_value = b'n' ∷ []
print_value (Value.string_value text) = b's' ∷ text
print_value (Value.driver_value n) = b'v' ∷ n ∷ []

abbrev plain : Platform
plain = record {
  display_width = length;
  encoded = print_value;
  parse_float = λ _. true;
  parse_time = λ _ _. true;
  lower = λ text. text;
}

abbrev id_name : Text
id_name = b'i' ∷ b'd' ∷ []

abbrev note_name : Text
note_name = b'n' ∷ b'o' ∷ []

abbrev id_column : Column
id_column = record {
  name = id_name;
  data_type = [];
  type_oid = 25;
  nullable = false;
  has_default = false;
  generated = false;
  identity = false;
  can_select = true;
  can_insert = true;
  can_update = true;
  sortable = true;
  identity_part = true;
}

abbrev note_column : Column
note_column = record id_column { name = note_name; nullable = true; identity_part = false }

abbrev items_id : RelationId
items_id = record { schema = b'p' ∷ []; name = b't' ∷ [] }

abbrev items : Relation
items = record {
  id = items_id;
  kind = RelationKind.table;
  columns = id_column ∷ note_column ∷ [];
  mutation_columns = id_column ∷ note_column ∷ [];
  identity = id_name ∷ [];
  identity_primary = true;
  can_select = true;
  can_insert = true;
  can_update = true;
  can_delete = true;
  has_xmin = true;
  best_effort = false;
  read_only_reason = [];
  insert_reason = [];
  update_reason = [];
  delete_reason = [];
}

abbrev text_cell : Text → Cell
text_cell text = record { raw = Value.string_value text; display = text; edit = text; null = false }

abbrev first_row : Row
first_row = record {
  identity = (id_name, Value.driver_value 7) ∷ [];
  xmin = 1;
  cells = text_cell (b'7' ∷ []) ∷ text_cell (b'a' ∷ []) ∷ [];
}

-- one loaded row, nothing staged
abbrev loaded_tab : Model
loaded_tab = record (new_model (b'w' ∷ []) (b'x' ∷ []) items_id) {
  relation = some items;
  page = record { rows = first_row ∷ []; next_cursor = []; prev_cursor = []; best_effort = false };
  page_number = 1;
}

abbrev row_reference : RowReference
row_reference = record {
  insert = false;
  insert_idx = 0;
  page_idx = 0;
  key = identity_key_of plain (id_name ∷ []) first_row.identity;
  row = first_row;
}

first_reference : row_reference_at plain loaded_tab 0 ≡ some row_reference
unfolding row_reference_at
first_reference = refl

abbrev typed_value : StagedValue
typed_value = record { kind = value_text; text = b'b' ∷ [] }

-- a draft with nothing filled in
abbrev draft_tab : Model
draft_tab = record loaded_tab { inserts = draft 1 ∷ []; next_draft = 2 }

-- an apply of the draft runs
abbrev applying_tab : Model
applying_tab = record draft_tab {
  apply_snapshot = draft 1 ∷ [];
  active = record {
    kind = apply_operation;
    meta = record { workspace = b'w' ∷ []; tab = b'x' ∷ []; operation = b'o' ∷ []; request = 4 };
  };
  lifecycle = running;
}

abbrev press_i : KeyPress
press_i = record { keystroke = key_i; text = b'i' ∷ []; modified = false }

abbrev insert_click : Mouse
insert_click = record { x = 3; y = 2; button = mouse_left; shift = false }

abbrev counts : ApplyResult
counts = record { inserted = 1; updated = 0; deleted = 0 }

abbrev earlier_meta : RequestMeta
earlier_meta = record applying_tab.active.meta { request = 3 }

update-Issues_example :
    Issues 1
      (update plain loaded_tab (key_press (record press_i { keystroke = key_s }))).0
      (update plain loaded_tab (key_press (record press_i { keystroke = key_s }))).1
update-Issues_example =
    update-Issues plain loaded_tab (key_press (record press_i { keystroke = key_s }))

numbers-Ascending_example : Ascending 1 (
    numbers plain loaded_tab
      (key_press (record press_i { keystroke = key_s }) ∷ key_press press_i ∷ []))
numbers-Ascending_example =
    numbers-Ascending plain loaded_tab
      (key_press (record press_i { keystroke = key_s }) ∷ key_press press_i ∷ []) (omega arith)

update_stale_example :
    update plain applying_tab (applied counts earlier_meta) ≡ (applying_tab, none)
update_stale_example =
    update_stale plain applying_tab (applied counts earlier_meta) earlier_meta refl
      (λ e. omega (arith, ap (λ (m : RequestMeta). m.request) e))

on_failed-SameChanges_example :
    SameChanges applying_tab
      (on_failed plain applying_tab apply_operation (plain_error (b'e' ∷ [])))
on_failed-SameChanges_example =
    on_failed-SameChanges plain applying_tab apply_operation (plain_error (b'e' ∷ []))

on_applied_clears_example :
    let (n, cmd) = on_applied plain applying_tab counts in
    (change_count n ≡ 0)
    × (n.editor ≡ none)
    × (n.overlay ≡ overlay_none)
    × (n.reload_after_apply ≡ some counts)
    × (cmd ≡ some (load_page_intent items n.pending_request n.active.meta))
    × (n.active.kind ≡ page_operation)
on_applied_clears_example = on_applied_clears plain applying_tab items counts refl

abbrev locked_items : Relation
locked_items = record items { can_insert = false; can_update = false; can_delete = false }

abbrev locked_tab : Model
locked_tab = record loaded_tab { relation = some locked_items }

update-IsClean_example : IsClean (update plain locked_tab (key_press press_i)).0
update-IsClean_example =
    update-IsClean plain locked_tab locked_items refl
      (record { no_insert = refl; no_update = refl; no_delete = refl })
      (record { no_inserts = refl; no_updates = refl; no_deletes = refl; no_editor = refl })
      (key_press press_i)

staged_update-stage_update_value_example :
    staged_update
      (stage_update_value loaded_tab row_reference note_name typed_value).updates
      row_reference.key
      note_name
    ≡ (if text_eq row_reference.key row_reference.key && text_eq note_name note_name
        then written typed_value (unchanged loaded_tab row_reference note_name typed_value)
        else staged_update [] row_reference.key note_name)
staged_update-stage_update_value_example =
    staged_update-stage_update_value loaded_tab row_reference note_name row_reference.key note_name
      typed_value

length-mutations_snapshot_example : length (mutations_snapshot draft_tab) ≡ change_count draft_tab
length-mutations_snapshot_example = length-mutations_snapshot draft_tab

identity_key_inj_example :
    (identity_key_of plain (id_name ∷ []) first_row.identity
      ≡ identity_key_of plain (id_name ∷ []) [])
    ↔ AgreeOn plain (id_name ∷ []) first_row.identity []
identity_key_inj_example = identity_key_inj plain (id_name ∷ []) first_row.identity []

validate_changes_iff_example :
    (validate_changes draft_tab ≡ (draft_tab, none)) ↔ AllFilled items.columns draft_tab.inserts
validate_changes_iff_example = validate_changes_iff draft_tab items refl

toggle_delete_flips_example :
    let n = toggle_delete plain loaded_tab in
    (has row_reference.key n.deletes
      ≡ (if text_eq row_reference.key row_reference.key then true else false))
    × (n.updates ≡ [])
    × (n.inserts ≡ [])
unfolding row_reference_at lookup
toggle_delete_flips_example =
    toggle_delete_flips plain loaded_tab items row_reference refl refl refl refl row_reference.key

revert_selected_row_clean_example :
    let n = revert_selected_row plain loaded_tab in
    (lookup row_reference.key n.updates
      ≡ (if text_eq row_reference.key row_reference.key then none else none))
    × (lookup row_reference.key n.deletes
        ≡ (if text_eq row_reference.key row_reference.key then none else none))
    × (n.inserts ≡ [])
unfolding row_reference_at lookup
revert_selected_row_clean_example =
    revert_selected_row_clean plain loaded_tab items row_reference refl refl refl row_reference.key

on_applied_ignores_reload_first_example :
    on_applied plain (record applying_tab { apply_reload_first = true }) counts
    ≡ on_applied plain applying_tab counts
on_applied_ignores_reload_first_example =
    on_applied_ignores_reload_first plain applying_tab counts true

clicked_draft_lost_example :
    let n = (update plain applying_tab (mouse_click insert_click)).0 in
    (length n.inserts ≡ 2)
    × (n.apply_snapshot ≡ applying_tab.apply_snapshot)
    × ((update plain n (applied counts applying_tab.active.meta)).0.inserts ≡ [])
unfolding is_current matches text_eq
clicked_draft_lost_example =
    clicked_draft_lost plain applying_tab items insert_click counts applying_tab.active.meta refl
      refl refl refl refl (refl, refl, omega arith)

busy_keys_example :
    let (n, cmd) = update plain applying_tab (key_press press_i) in
    (n ≡ record applying_tab { status = n.status })
    × ((cmd ≡ none) ⊎ (cmd ≡ some (cancel_intent (b'o' ∷ []))))
unfolding busy text_eq
busy_keys_example = busy_keys plain applying_tab press_i refl

-- the cursor stands behind the first of two characters
abbrev open_cell : CellEditor
open_cell = record { row = 0; column = 1; buffer = b'a' ∷ b'c' ∷ []; cursor = 1; error = [] }

insert_editor_text_splits_example :
    let n = insert_editor_text open_cell (b'b' ∷ []) in
    (n.buffer ≡ b'a' ∷ b'b' ∷ b'c' ∷ [])
    × (before_cursor n ≡ b'a' ∷ b'b' ∷ [])
    × (after_cursor n ≡ b'c' ∷ [])
    × IsWithin n
insert_editor_text_splits_example = insert_editor_text_splits open_cell (b'b' ∷ []) (omega arith)

backspace-insert_example :
    let n = delete_editor_rune (insert_editor_text open_cell (b'b' ∷ [])) (negsuc 0) in
    (n.buffer ≡ b'a' ∷ b'c' ∷ []) × (n.cursor ≡ 1)
backspace-insert_example = backspace-insert open_cell b'b' (omega arith)

abbrev small_tab : Model
small_tab = record draft_tab { selected_row = 1; height = 7 }

ensure_row_visible_shows_example :
    let n = ensure_row_visible small_tab in
    (n.row_offset ≤ 1)
    × (1 < n.row_offset + visible_row_count small_tab)
    × (n.row_offset ≤ total_rows small_tab - visible_row_count small_tab)
unfolding total_rows
ensure_row_visible_shows_example = ensure_row_visible_shows small_tab (omega arith)

scroll_columns_ends_example :
    let o = scroll_columns 2 (10 ∷ 10 ∷ 10 ∷ []) 21 0 2 in
    (0 ≤ o) × (o ≤ 2) × ((o ≡ 2) ⊎ (used_width (span (10 ∷ 10 ∷ 10 ∷ []) o 2) ≤ 21))
scroll_columns_ends_example =
    scroll_columns_ends 2 (10 ∷ 10 ∷ 10 ∷ []) 21 0 2 (omega arith) (omega arith)

-- the draft of the sample is refused for its first column, and the selection goes there
refused_draft :
    (validate_changes draft_tab).1 ≡ some (id_name ++ lit " is required and has no default.")
unfolding validate_changes lookup text_eq
refused_draft = refl
