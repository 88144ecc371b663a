-- ===== src/Grid/Staging.antt =====
-- What a staged value does to the cells that the tab shows.
use db_tui.Common.{
  ◌≡◌, refl, Bool, true, false, ◌&&◌, [], ◌∷◌, Option, none, some, Text, Dict, lookup, insert,
  delete, length, text_eq, text_eq_iff, arith, lit, if◌then◌else◌, lookup-insert, lookup-delete,
  ◌==◌,
}
use db_tui.Grid.Types.{Cell, Mutation, StagedValue, value_text, value_null, value_default}
use db_tui.Grid.State.{Model}
use db_tui.Grid.Rows.{RowReference, column_index, staged_update, safe_grid_text}
use db_tui.Grid.Stage.{stage_update_value, staged_matches_original, update_of}

abbrev pub written : StagedValue → Bool → Option StagedValue
written value unchanged = if unchanged then none else some value

lookup-update_values :
    (m : Model) (reference : RowReference) (name n : Text) (value : StagedValue) (same : Bool)
    → lookup n (
        if same
        then delete name (update_of m reference).values
        else insert name value (update_of m reference).values)
      ≡ (if text_eq name n then written value same else lookup n (update_of m reference).values)
lookup-update_values m reference name n value same = ground (
  arith,
  lookup-insert name n value (update_of m reference).values,
  lookup-delete name n (update_of m reference).values,
)

unfoldable pub unchanged : Model → RowReference → Text → StagedValue → Bool
unchanged m reference name value = staged_matches_original value reference.row (column_index m name)

lookup-no_values :
    (values : Dict StagedValue) (n : Text) → length values ≡ 0 → lookup n values ≡ none
unfolding lookup
lookup-no_values [] n h = refl
lookup-no_values (v ∷ values) n h = absurd (omega arith)

abbrev stored : Dict Mutation → Text → Mutation → Dict Mutation
stored updates key mutation =
    if length mutation.values == 0 then delete key updates else insert key mutation updates

staged_update-stored :
    (updates : Dict Mutation) (key k n : Text) (mutation : Mutation)
    → staged_update (stored updates key mutation) k n
      ≡ (if text_eq key k then lookup n mutation.values else staged_update updates k n)
unfolding staged_update
staged_update-stored updates key k n mutation = ground (
  arith,
  lookup-insert key k mutation updates,
  lookup-delete key k updates,
  lookup-no_values mutation.values n,
)

lookup-update_of :
    (m : Model) (reference : RowReference) (n : Text)
    → lookup n (update_of m reference).values ≡ staged_update m.updates reference.key n
unfolding staged_update lookup
lookup-update_of m reference n = ground arith

-- After a value is staged for a loaded row, exactly that row's column reads differently: it reads
-- the value, or nothing if the value is the row's own; every other staged value is as it was.
pub staged_update-stage_update_value :
    (m : Model) (reference : RowReference) (name k n : Text) (value : StagedValue)
    → staged_update (stage_update_value m reference name value).updates k n ≡ (
        if text_eq reference.key k && text_eq name n
        then written value (unchanged m reference name value)
        else staged_update m.updates k n)
unfolding stage_update_value unchanged
staged_update-stage_update_value m reference name k n value = ground (
  arith,
  staged_update-stored m.updates reference.key k n (record (update_of m reference) {
    values =
        if unchanged m reference name value
        then delete name (update_of m reference).values
        else insert name value (update_of m reference).values;
  }),
  lookup-update_values m reference name n value (unchanged m reference name value),
  lookup-update_of m reference n,
  text_eq_iff reference.key k,
)

-- The cell shows the staged value.
abbrev pub Shows : StagedValue → Cell → Type 0
Shows value cell = elim value.kind [
  | value_text ↦ (cell.null ≡ false) × (cell.edit ≡ value.text)
  | value_null ↦ cell.null ≡ true
  | value_default ↦ cell.display ≡ lit "DEFAULT"
]

-- what the tab draws for a staged value, without the row's own cell
abbrev pub display_of : StagedValue → Text
display_of value = elim value.kind [
  | value_text ↦ safe_grid_text value.text
  | value_null ↦ lit "NULL"
  | value_default ↦ lit "DEFAULT"
]

-- The cell shows the value, and draws it; or draws what the row's own cell does, where the value is
-- the row's own.
abbrev pub Shown : StagedValue → Bool → Cell → Cell → Type 0
Shown value own original cell =
    Shows value cell × (cell.display ≡ (if own then original.display else display_of value))
