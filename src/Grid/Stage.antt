-- ===== src/Grid/Stage.antt =====
-- internal/grid/staging.go: which cells may be changed, and the staging of a value.
use db_tui.Common.{
  ℕ, Bool, true, false, ◌&&◌, ◌||◌, not, [], ◌∷◌, ◌++◌, Option, none, some, Text, lit, text_eq,
  lookup, insert, delete, length, get_elem?, set, if◌then◌else◌, ◌==◌,
}
use db_tui.Grid.Types.{
  Column, Relation, Row, Mutation, insert_mutation, update_mutation, delete_mutation, StagedValue,
  ValueKind, value_text, value_null, value_default, no_row,
}
use db_tui.Grid.State.{Model}
use db_tui.Grid.Rows.{RowReference, column_index}

abbrev pub is_default : ValueKind → Bool
is_default value_default = true
is_default _ = false

abbrev pub is_null : ValueKind → Bool
is_null value_null = true
is_null _ = false

abbrev is_text : ValueKind → Bool
is_text value_text = true
is_text _ = false

-- the first of the reasons that is not empty
abbrev pub first_reason : Text → Text → Text
first_reason [] other = other
first_reason (c ∷ reason) other = c ∷ reason

unfoldable pub insert_unavailable_reason : Model → Text
unfolding lit
insert_unavailable_reason m = elim m.relation [
  | none ↦ lit "Table metadata is not available."
  | some relation ↦
      first_reason relation.read_only_reason
        (first_reason relation.insert_reason (lit "INSERT is unavailable for this table or role."))
]

unfoldable pub column_read_only_reason : Relation → RowReference → Column → Text
unfolding lit
column_read_only_reason relation reference column =
    if column.generated || column.identity
    then column.name ++ lit " is generated by PostgreSQL and read-only."
    else first_reason relation.read_only_reason (
        first_reason (if reference.insert then relation.insert_reason else relation.update_reason)
          (column.name ++ lit " is read-only for this operation."))

unfoldable pub column_writable : Relation → RowReference → Column → Bool
column_writable relation reference column =
    if column.generated || column.identity
    then false
    else if reference.insert
    then relation.can_insert && column.can_insert
    else relation.can_update && column.can_update

unfoldable pub staged_matches_original : StagedValue → Row → Option ℕ → Bool
staged_matches_original value row none = false
staged_matches_original value row (some column) = elim (get_elem? row.cells column) [
  | none ↦ false
  | some cell ↦
      if is_null value.kind
      then cell.null
      else is_text value.kind && (not cell.null && text_eq value.text cell.edit)
]

unfoldable pub stage_insert_value : Model → ℕ → Text → StagedValue → Model
stage_insert_value m index name value = elim (get_elem? m.inserts index) [
  | none ↦ m
  | some mutation ↦
      let values =
        if is_default value.kind
        then delete name mutation.values
        else insert name value mutation.values in
      record m { inserts = set m.inserts index (record mutation { values = values }) }
]

-- the update staged for a row, or a new one
abbrev pub update_of : Model → RowReference → Mutation
update_of m reference = elim (lookup reference.key m.updates) [
  | some mutation ↦ mutation
  | none ↦ record { kind = update_mutation; draft_id = 0; original = reference.row; values = [] }
]

unfoldable pub stage_update_value : Model → RowReference → Text → StagedValue → Model
unfolding staged_matches_original column_index
stage_update_value m reference name value =
    let mutation = update_of m reference in
    let values =
      if staged_matches_original value reference.row (column_index m name)
      then delete name mutation.values
      else insert name value mutation.values in
    record m {
      updates =
          if length values == 0
          then delete reference.key m.updates
          else insert reference.key (record mutation { values = values }) m.updates;
    }

unfoldable pub stage_value : Model → RowReference → Column → StagedValue → Model
unfolding stage_insert_value stage_update_value
stage_value m reference column value =
    if reference.insert
    then stage_insert_value m reference.insert_idx column.name value
    else stage_update_value m reference column.name value

abbrev pub delete_row : Row → Mutation
delete_row row = record { kind = delete_mutation; draft_id = 0; original = row; values = [] }

abbrev pub draft : ℕ → Mutation
draft id = record { kind = insert_mutation; draft_id = id; original = no_row; values = [] }

abbrev pub can_insert : Option Relation → Bool
can_insert none = false
can_insert (some relation) = relation.can_insert
