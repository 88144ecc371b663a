-- ===== src/Grid/Drafts.antt =====
-- The check of the drafts before an apply.
use db_tui.Common.{
  ℕ, ◌+◌, ◌≡◌, ◌↔◌, ◌⊎◌, refl, true, List, [], ◌∷◌, none, some, Dict, lookup, arith,
}
use db_tui.Grid.Types.{Column, Relation, Mutation, StagedValue}
use db_tui.Grid.State.{Model}
use db_tui.Grid.Overlay.{is_optional, is_supplied, missing_column, missing_value, validate_changes}

-- Every column that needs a value has one.
abbrev pub Filled : List Column → Dict StagedValue → Type 0
Filled [] values = Unit
Filled (column ∷ columns) values =
    ((is_optional column ≡ true) ⊎ (is_supplied (lookup column.name values) ≡ true))
    × Filled columns values

abbrev pub AllFilled : List Column → List Mutation → Type 0
AllFilled columns [] = Unit
AllFilled columns (mutation ∷ mutations) =
    Filled columns mutation.values × AllFilled columns mutations

Filled-of_none :
    (columns : List Column) (index : ℕ) (values : Dict StagedValue)
    → missing_column columns index values ≡ none
    → Filled columns values
unfolding missing_column
Filled-of_none [] index values h = tt
Filled-of_none (column ∷ columns) index values h =
    ground (arith, Filled-of_none columns (index + 1) values)

none_of_Filled :
    (columns : List Column) (index : ℕ) (values : Dict StagedValue)
    → Filled columns values
    → missing_column columns index values ≡ none
unfolding missing_column
none_of_Filled [] index values h = refl
none_of_Filled (column ∷ columns) index values h =
    ground (arith, none_of_Filled columns (index + 1) values h.1)

AllFilled-of_none :
    (columns : List Column) (mutations : List Mutation) (index : ℕ)
    → missing_value columns mutations index ≡ none
    → AllFilled columns mutations
unfolding missing_value
AllFilled-of_none columns [] index h = tt
AllFilled-of_none columns (mutation ∷ mutations) index h = ground (
  arith,
  Filled-of_none columns 0 mutation.values,
  AllFilled-of_none columns mutations (index + 1),
)

none_of_AllFilled :
    (columns : List Column) (mutations : List Mutation) (index : ℕ)
    → AllFilled columns mutations
    → missing_value columns mutations index ≡ none
unfolding missing_value
none_of_AllFilled columns [] index h = refl
none_of_AllFilled columns (mutation ∷ mutations) index h = ground (
  arith,
  none_of_Filled columns 0 mutation.values h.0,
  none_of_AllFilled columns mutations (index + 1) h.1,
)

-- For a known table, the check passes exactly when every draft fills every column that is neither
-- nullable, defaulted, generated nor an identity; then the tab is as it was.
pub validate_changes_iff :
    (m : Model) (relation : Relation)
    → m.relation ≡ some relation
    → (validate_changes m ≡ (m, none)) ↔ AllFilled relation.columns m.inserts
unfolding validate_changes
validate_changes_iff m relation r = (
  λ h. AllFilled-of_none relation.columns m.inserts 0 (ground arith),
  λ h. ground (arith, none_of_AllFilled relation.columns m.inserts 0 h),
)
