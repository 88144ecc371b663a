-- ===== src/Grid/Frame.antt =====
-- What the operations of the tab leave alone: the identity of the tab, its table and page, and the
-- operation that runs.
use db_tui.Common.{[], ◌≡◌, Option, none, some, Text, arith, inl, inr, Option-cases}
use db_tui.Common.Int.{ℤ}
use db_tui.Grid.Types.{ValueKind, Column, StagedValue, value_text}
use db_tui.Grid.State.{Platform, Model, CellEditor, Key}
use db_tui.Grid.Rows.{RowReference, compute_column_widths}
use db_tui.Grid.Scroll.{ensure_row_visible, ensure_column_visible, move_row, move_column}
use db_tui.Grid.Primitive.{validate_primitive}
use db_tui.Grid.Stage.{stage_value}
use db_tui.Grid.Actions.{
  stage_insert, open_editor, commit_editor, stage_special, toggle_delete, revert_selected_row,
  clear_changes, target_at, Target, commit_to, stage_special_at,
}
use db_tui.Grid.Overlay.{
  validate_changes, confirm_or_report, request_apply_confirmation, update_overlay_scroll,
}

pub record SameTable (m n : Model) : Type 0 where
  pub relation_id : n.relation_id ≡ m.relation_id
  pub relation : n.relation ≡ m.relation
  pub page : n.page ≡ m.page
  pub next_request : n.next_request ≡ m.next_request
  pub active : n.active ≡ m.active

module _ (m : Model) where
  pub ensure_row_visible-SameTable : SameTable m (ensure_row_visible m)
  unfolding ensure_row_visible
  ensure_row_visible-SameTable = ground arith

  pub ensure_column_visible-SameTable : SameTable m (ensure_column_visible m)
  unfolding ensure_column_visible
  ensure_column_visible-SameTable = ground arith

  pub move_row-SameTable : (d : ℤ) → SameTable m (move_row m d)
  unfolding move_row
  move_row-SameTable d = ground arith

  pub move_column-SameTable : (d : ℤ) → SameTable m (move_column m d)
  unfolding move_column
  move_column-SameTable d = ground arith

  pub validate_changes-SameTable : SameTable m (validate_changes m).0
  unfolding validate_changes ensure_column_visible
  validate_changes-SameTable = ground arith

  pub request_apply_confirmation-SameTable : SameTable m (request_apply_confirmation m)
  unfolding request_apply_confirmation confirm_or_report
  request_apply_confirmation-SameTable = ground (arith, validate_changes-SameTable)

  pub update_overlay_scroll-SameTable : (k : Key) → SameTable m (update_overlay_scroll m k)
  unfolding update_overlay_scroll
  update_overlay_scroll-SameTable k = ground arith

  pub stage_value-SameTable :
      (r : RowReference) (c : Column) (v : StagedValue) → SameTable m (stage_value m r c v)
  unfolding stage_value
  stage_value-SameTable r c v = ground arith

  module _ (p : Platform) where
    pub compute_column_widths-SameTable : SameTable m (compute_column_widths p m)
    unfolding compute_column_widths
    compute_column_widths-SameTable = ground arith

    pub stage_insert-SameTable : SameTable m (stage_insert p m)
    unfolding stage_insert
    stage_insert-SameTable = ground arith

    pub open_editor-SameTable : SameTable m (open_editor p m)
    unfolding open_editor
    open_editor-SameTable = ground arith

    commit_to-SameTable :
        (e : CellEditor) (t : Target) (issue : Option Text) → SameTable m (commit_to p m e t issue)
    unfolding commit_to compute_column_widths
    commit_to-SameTable e t (some issue) = ground arith
    commit_to-SameTable e t none = ground (
      arith,
      stage_value-SameTable t.reference t.column (record { kind = value_text; text = e.buffer }),
    )

    pub commit_editor-SameTable : (e : CellEditor) → SameTable m (commit_editor p m e)
    unfolding commit_editor
    commit_editor-SameTable e = elim (Option-cases (target_at p m e.row e.column)) [
      | inl missing ↦ rw (missing, commit_editor) (ground arith)
      | inr (t, found) ↦
          rw (found, commit_editor)
            (commit_to-SameTable e t (validate_primitive p t.column e.buffer))
    ]

    stage_special_at-SameTable :
        (k : ValueKind) (t : Target) → SameTable m (stage_special_at p m k t)
    unfolding stage_special_at compute_column_widths
    stage_special_at-SameTable k t =
        ground (arith, stage_value-SameTable t.reference t.column (record { kind = k; text = [] }))

    pub stage_special-SameTable : (k : ValueKind) → SameTable m (stage_special p m k)
    unfolding stage_special
    stage_special-SameTable k =
        elim (Option-cases (target_at p m m.selected_row m.selected_column)) [
          | inl missing ↦ rw (missing, stage_special) (ground arith)
          | inr (t, found) ↦ rw (found, stage_special) (stage_special_at-SameTable k t)
        ]

    pub toggle_delete-SameTable : SameTable m (toggle_delete p m)
    unfolding toggle_delete
    toggle_delete-SameTable = ground arith

    pub revert_selected_row-SameTable : SameTable m (revert_selected_row p m)
    unfolding revert_selected_row
    revert_selected_row-SameTable = ground arith

    pub clear_changes-SameTable : SameTable m (clear_changes p m)
    unfolding clear_changes
    clear_changes-SameTable = ground arith
