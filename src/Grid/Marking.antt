-- ===== src/Grid/Marking.antt =====
-- Staged deletions and reverts of one row.
use db_tui.Common.{
  ◌≡◌, true, false, not, none, some, Text, lookup, has, text_eq, text_eq_iff, lookup-insert,
  lookup-delete, if◌then◌else◌, arith,
}
use db_tui.Grid.Types.{Relation}
use db_tui.Grid.State.{Platform, Model}
use db_tui.Grid.Rows.{RowReference, row_reference_at, compute_column_widths}
use db_tui.Grid.Stage.{delete_row}
use db_tui.Grid.Actions.{toggle_delete, revert_selected_row}

module _ (p : Platform) (m : Model) (relation : Relation) (reference : RowReference)
    (known : m.relation ≡ some relation)
    (selected : row_reference_at p m m.selected_row ≡ some reference)
    (loaded : reference.insert ≡ false) where
  -- Deleting a loaded row flips its mark and no other, where the role may delete, and stages and
  -- reverts nothing else.
  pub toggle_delete_flips :
      relation.can_delete ≡ true
      → (key : Text)
      → let n = toggle_delete p m in
        (has key n.deletes
          ≡ (if text_eq reference.key key then not (has key m.deletes) else has key m.deletes))
        × (n.updates ≡ m.updates)
        × (n.inserts ≡ m.inserts)
  unfolding toggle_delete
  toggle_delete_flips can key =
      rw (selected, toggle_delete, known)
        (ground (
          arith,
          lookup-insert reference.key key (delete_row reference.row) m.deletes,
          lookup-delete reference.key key m.deletes,
          text_eq_iff reference.key key,
        ))

  -- Reverting a loaded row drops its update and its deletion, and keeps those of every other row and
  -- all drafts.
  pub revert_selected_row_clean :
      (key : Text)
      → let n = revert_selected_row p m in
        (lookup key n.updates ≡ (if text_eq reference.key key then none else lookup key m.updates))
        × (lookup key n.deletes
            ≡ (if text_eq reference.key key then none else lookup key m.deletes))
        × (n.inserts ≡ m.inserts)
  unfolding revert_selected_row compute_column_widths
  revert_selected_row_clean key =
      rw (selected, revert_selected_row, loaded)
        (ground (
          arith,
          lookup-delete reference.key key m.updates,
          lookup-delete reference.key key m.deletes,
        ))
