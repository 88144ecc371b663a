-- ===== src/Grid/Actions.antt =====
-- internal/grid/staging.go: the operations on the selected cell and row.
use db_tui.Common.{
  ℕ, ◌-◌, min, false, ◌&&◌, ◌||◌, not, [], ◌∷◌, ◌++◌, Option, none, some, Text, lit, text_eq,
  insert, delete, has, length, get_elem?, remove_at, if◌then◌else◌,
}
use db_tui.Core.{next_uint64}
use db_tui.Grid.Types.{Column, Relation, Cell, ValueKind, value_text, value_null}
use db_tui.Grid.State.{Platform, Model, CellEditor, overlay_none}
use db_tui.Grid.Rows.{RowReference, total_rows, row_reference_at, cell_at, compute_column_widths}
use db_tui.Grid.Primitive.{validate_primitive}
use db_tui.Grid.Stage.{
  is_default, is_null, first_reason, insert_unavailable_reason, column_read_only_reason,
  column_writable, stage_value, delete_row, draft, can_insert,
}

-- what the selection stands on; `none` is the early return
pub record Target : Type 0 where
  pub reference : RowReference
  pub relation : Relation
  pub column : Column

module _ (p : Platform) where
  unfoldable pub target_at : Model → ℕ → ℕ → Option Target
  target_at m row column = elim (row_reference_at p m row) [
    | none ↦ none
    | some reference ↦ elim m.relation [
      | none ↦ none
      | some relation ↦ elim (get_elem? relation.columns column) [
        | none ↦ none
        | some c ↦ some (record { reference = reference; relation = relation; column = c })
      ]
    ]
  ]

  unfoldable pub stage_insert : Model → Model
  unfolding insert_unavailable_reason compute_column_widths lit
  stage_insert m =
      if can_insert m.relation
      then record (compute_column_widths p (record m {
        inserts = m.inserts ++ draft m.next_draft ∷ [];
        next_draft = next_uint64 m.next_draft;
        selected_row = length m.inserts;
        row_offset = 0;
      })) { status = lit "Added a pinned draft row. Required values are marked before apply." }
      else record m { status = insert_unavailable_reason m }

  -- the cell's raw value, or nothing for NULL and DEFAULT
  edit_buffer : Cell → Text
  edit_buffer cell = if cell.null || text_eq cell.display (lit "DEFAULT") then [] else cell.edit

  opened : Model → Target → Model
  unfolding edit_buffer lit
  opened m t =
      let buffer = edit_buffer (cell_at p m t.reference m.selected_column) in
      record m {
        editor = some (record {
          row = m.selected_row;
          column = m.selected_column;
          buffer = buffer;
          cursor = length buffer;
          error = [];
        });
        status =
            lit
              "Editing raw value. Enter stages it; Esc cancels. An empty text value remains distinct from NULL.";
      }

  unfoldable pub open_editor : Model → Model
  unfolding target_at opened column_writable column_read_only_reason lit
  open_editor m = elim (target_at m m.selected_row m.selected_column) [
    | none ↦ m
    | some t ↦
        if has t.reference.key m.deletes && not t.reference.insert
        then record m { status = lit "Revert the row deletion before editing it." }
        else if column_writable t.relation t.reference t.column
        then opened m t
        else record m { status = column_read_only_reason t.relation t.reference t.column }
  ]

  unfoldable pub commit_to : Model → CellEditor → Target → Option Text → Model
  unfolding lit
  commit_to m editor t (some issue) = record m {
    editor = some (record editor { error = issue });
    status = issue;
  }
  commit_to m editor t none =
      record (compute_column_widths p
        (record (stage_value m t.reference t.column
          (record { kind = value_text; text = editor.buffer })) { editor = none })) {
            status = lit "Staged " ++ (t.column.name ++ lit ".");
          }

  unfoldable pub commit_editor : Model → CellEditor → Model
  unfolding target_at commit_to
  commit_editor m editor = elim (target_at m editor.row editor.column) [
    | none ↦ record m { editor = none }
    | some t ↦ commit_to m editor t (validate_primitive p t.column editor.buffer)
  ]

  special_status : ValueKind → Text → Text
  unfolding lit
  special_status value_null name = lit "Staged SQL NULL for " ++ (name ++ lit ".")
  special_status _ name = lit "Staged SQL DEFAULT for " ++ (name ++ lit ".")

  unfoldable pub stage_special_at : Model → ValueKind → Target → Model
  unfolding special_status column_writable column_read_only_reason lit
  stage_special_at m kind t =
      if has t.reference.key m.deletes && not t.reference.insert
      then record m { status = lit "Revert the row deletion before changing its values." }
      else if not (column_writable t.relation t.reference t.column)
      then record m { status = column_read_only_reason t.relation t.reference t.column }
      else if is_null kind && not t.column.nullable
      then record m { status = t.column.name ++ lit " is NOT NULL." }
      else if is_default kind && (not t.column.has_default && not t.column.nullable)
      then record m { status = t.column.name ++ lit " has no default and is NOT NULL." }
      else record (compute_column_widths p
          (stage_value m t.reference t.column (record { kind = kind; text = [] }))) {
            status = special_status kind t.column.name;
          }

  unfoldable pub stage_special : Model → ValueKind → Model
  unfolding target_at stage_special_at
  stage_special m kind = elim (target_at m m.selected_row m.selected_column) [
    | none ↦ m
    | some t ↦ stage_special_at m kind t
  ]

  -- a draft row goes for good
  unfoldable pub remove_draft : Model → ℕ → Model
  unfolding compute_column_widths total_rows
  remove_draft m index =
      let m' = record m { inserts = remove_at m.inserts index } in
      compute_column_widths p (record m' { selected_row = min (total_rows m' - 1) m.selected_row })

  delete_unavailable_reason : Relation → Text
  unfolding lit
  delete_unavailable_reason relation =
      first_reason relation.read_only_reason
        (first_reason relation.delete_reason (lit "DELETE is unavailable for this table or role."))

  unfoldable pub toggle_delete : Model → Model
  unfolding remove_draft delete_unavailable_reason lit
  toggle_delete m = elim (row_reference_at p m m.selected_row) [
    | none ↦ m
    | some reference ↦ elim m.relation [
      | none ↦ m
      | some relation ↦
          if reference.insert
          then record (remove_draft m reference.insert_idx) {
            status = lit "Removed the draft row.";
          }
          else if not relation.can_delete
          then record m { status = delete_unavailable_reason relation }
          else if has reference.key m.deletes
          then record m {
            deletes = delete reference.key m.deletes;
            status = lit "Reverted the staged row deletion.";
          }
          else record m {
            deletes = insert reference.key (delete_row reference.row) m.deletes;
            status = lit "Staged row deletion. Apply is required.";
          }
    ]
  ]

  unfoldable pub revert_selected_row : Model → Model
  unfolding remove_draft compute_column_widths lit
  revert_selected_row m = elim (row_reference_at p m m.selected_row) [
    | none ↦ m
    | some reference ↦
        let m' = record m {
          updates = delete reference.key m.updates;
          deletes = delete reference.key m.deletes;
        } in
        if reference.insert
        then record (remove_draft m reference.insert_idx) { status = lit "Reverted the draft row." }
        else if has reference.key m.updates || has reference.key m.deletes
        then record (compute_column_widths p m') {
          status = lit "Reverted all staged changes for the selected row.";
        }
        else record m' { status = lit "The selected row has no staged changes." }
  ]

  unfoldable pub clear_changes : Model → Model
  unfolding compute_column_widths
  clear_changes m = compute_column_widths p (record m {
    inserts = [];
    updates = [];
    deletes = [];
    editor = none;
    overlay = overlay_none;
    overlay_scroll = 0;
    apply_snapshot = [];
    apply_reload_first = false;
    selected_row = min (length m.page.rows - 1) m.selected_row;
  })
