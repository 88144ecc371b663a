-- ===== src/Grid/Rows.antt =====
-- internal/grid: the rows that the tab shows, drafts first, and the cells as staged
-- (staging.go), and the widths of the columns (model.go).
use db_tui.Common.{
  ℕ, zero, suc, ◌+◌, ◌-◌, ◌/◌, ◌%◌, min, max, Bool, true, false, ◌&&◌, ◌||◌, List, [], ◌∷◌, ◌++◌,
  Option, none, some, Text, Dict, lit, text_eq, utf8_len, lookup, length, get_elem?, get_or,
  if◌then◌else◌, ltb, leb, ◌==◌,
}
use db_tui.Common.Decimal.{decimal}
use db_tui.Grid.Types.{
  Column, Relation, Value, Cell, no_cell, Row, no_row, Mutation, StagedValue, value_text,
  value_null, value_default,
}
use db_tui.Grid.State.{Platform, Model}

-- unicode.IsControl
abbrev pub is_control : ℕ → Bool
is_control c = ltb c 0x20 || (leb 0x7f c && ltb c 0xa0)

hex_digit : ℕ → ℕ
hex_digit d = if ltb d 10 then b'0' + d else b'a' + (d - 10)

-- `%04x`, below 2 ^ 16
unfoldable pub hex4 : ℕ → Text
unfolding hex_digit
hex4 c =
    hex_digit (c / 4096 % 16)
    ∷ hex_digit (c / 256 % 16)
    ∷ hex_digit (c / 16 % 16)
    ∷ hex_digit (c % 16)
    ∷ []

safe_rune : ℕ → Text
unfolding hex4
safe_rune c =
    if c == 10
    then 92 ∷ b'n' ∷ []
    else if c == 13
    then 92 ∷ b'r' ∷ []
    else if c == 9
    then 92 ∷ b't' ∷ []
    else if is_control c
    then 92 ∷ b'u' ∷ hex4 c
    else c ∷ []

unfoldable pub safe_grid_text : Text → Text
unfolding safe_rune
safe_grid_text [] = []
safe_grid_text (c ∷ s) = safe_rune c ++ safe_grid_text s

pub record RowReference : Type 0 where
  pub insert : Bool
  pub insert_idx : ℕ
  pub page_idx : ℕ
  pub key : Text
  pub row : Row

unfoldable pub total_rows : Model → ℕ
total_rows m = length m.inserts + length m.page.rows

unfoldable pub staged_cell : StagedValue → Cell
unfolding safe_grid_text lit
staged_cell value = elim value.kind [
  | value_null ↦ record no_cell { null = true; display = lit "NULL" }
  | value_default ↦ record no_cell { display = lit "DEFAULT" }
  | value_text ↦ record {
    raw = Value.string_value value.text;
    display = safe_grid_text value.text;
    edit = value.text;
    null = false;
  }
]

abbrev pub default_cell : Cell
default_cell = record no_cell { display = lit "DEFAULT" }

abbrev pub staged_or_default : Option StagedValue → Cell
staged_or_default none = default_cell
staged_or_default (some value) = staged_cell value

unfoldable pub staged_insert_cells : List Column → Dict StagedValue → List Cell
unfolding staged_cell
staged_insert_cells [] values = []
staged_insert_cells (column ∷ columns) values =
    staged_or_default (lookup column.name values) ∷ staged_insert_cells columns values

unfoldable pub staged_insert_row : Relation → Mutation → Row
unfolding staged_insert_cells
staged_insert_row relation mutation = record no_row {
  cells = staged_insert_cells relation.columns mutation.values;
}

-- `identity[column]`, nil where it is missing
abbrev pub identity_value : Text → Dict Value → Value
identity_value column identity = elim (lookup column identity) [
  | none ↦ Value.nil_value
  | some value ↦ value
]

-- `fmt.Fprintf(&builder, "%d:%s%d:%s", len(column), column, len(encoded), encoded)`
unfoldable pub key_part : Text → Text → Text → Text
unfolding decimal utf8_len
key_part column encoded rest =
    decimal (utf8_len column)
    ++ b':' ∷ (column ++ (decimal (utf8_len encoded) ++ b':' ∷ (encoded ++ rest)))

-- a cell of the page as it was loaded
abbrev pub original_cell : RowReference → ℕ → Cell
original_cell reference column = get_or reference.row.cells column no_cell

unfoldable pub staged_update : Dict Mutation → Text → Text → Option StagedValue
staged_update updates key name = elim (lookup key updates) [
  | none ↦ none
  | some mutation ↦ lookup name mutation.values
]

abbrev pub insert_cells : Model → Relation → ℕ → List Cell
insert_cells m relation index = elim (get_elem? m.inserts index) [
  | none ↦ []
  | some mutation ↦ (staged_insert_row relation mutation).cells
]

unfoldable pub index_of_column : List Column → Text → ℕ → Option ℕ
index_of_column [] name index = none
index_of_column (column ∷ columns) name index =
    if text_eq column.name name then some index else index_of_column columns name (index + 1)

-- `none` is -1.
unfoldable pub column_index : Model → Text → Option ℕ
unfolding index_of_column
column_index m name = elim m.relation [
  | none ↦ none
  | some relation ↦ index_of_column relation.columns name 0
]

module _ (p : Platform) where
  unfoldable pub identity_key_of : List Text → Dict Value → Text
  unfolding key_part
  identity_key_of [] identity = []
  identity_key_of (column ∷ columns) identity =
      key_part column (p.encoded (identity_value column identity))
        (identity_key_of columns identity)

  unfoldable pub identity_key : Model → Dict Value → Text
  unfolding identity_key_of
  identity_key m identity = elim m.relation [
    | none ↦ []
    | some relation ↦ identity_key_of relation.identity identity
  ]

  -- A draft shows the staged values; the source reads the relation, which is there when there
  -- are drafts.
  insert_reference : Model → ℕ → Mutation → RowReference
  unfolding staged_insert_row
  insert_reference m index mutation = record {
    insert = true;
    insert_idx = index;
    page_idx = 0;
    key = [];
    row = elim m.relation [ none ↦ no_row | some relation ↦ staged_insert_row relation mutation ];
  }

  page_reference : Model → ℕ → Row → RowReference
  unfolding identity_key
  page_reference m index row = record {
    insert = false;
    insert_idx = 0;
    page_idx = index;
    key = identity_key m row.identity;
    row = row;
  }

  -- `none` is the second result `false`.
  unfoldable pub row_reference_at : Model → ℕ → Option RowReference
  unfolding insert_reference page_reference
  row_reference_at m index = elim (get_elem? m.inserts index) [
    | some mutation ↦ some (insert_reference m index mutation)
    | none ↦ elim (get_elem? m.page.rows (index - length m.inserts)) [
      | some row ↦ some (page_reference m (index - length m.inserts) row)
      | none ↦ none
    ]
  ]

  unfoldable pub cell_at : Model → RowReference → ℕ → Cell
  unfolding staged_insert_row staged_update
  cell_at m reference column = elim m.relation [
    | none ↦ no_cell
    | some relation ↦ elim (get_elem? relation.columns column) [
      | none ↦ no_cell
      | some c ↦
          if reference.insert
          then get_or (insert_cells m relation reference.insert_idx) column no_cell
          else elim (staged_update m.updates reference.key c.name) [
            | some value ↦ staged_cell value
            | none ↦ original_cell reference column
          ]
    ]
  ]

  -- the loop over the rows in `computeColumnWidths`, with the rows left
  widest_cell : Model → ℕ → ℕ → ℕ → ℕ → ℕ
  unfolding row_reference_at cell_at
  widest_cell m column zero row width = width
  widest_cell m column (suc left) row width =
      widest_cell m column left (row + 1) (elim (row_reference_at m row) [
        | none ↦ width
        | some reference ↦ max width (p.display_width (cell_at m reference column).display)
      ])

  widths_from : Model → List Column → ℕ → List ℕ
  unfolding widest_cell lit total_rows
  widths_from m [] index = []
  widths_from m (column ∷ columns) index =
      let named = p.display_width column.name in
      let marked =
        if column.identity_part
        then max named (p.display_width (column.name ++ lit " [key]"))
        else named in
      min 36 (max 4 (widest_cell m index (total_rows m) 0 marked + 2))
      ∷ widths_from m columns (index + 1)

  unfoldable pub widths_of : Model → List ℕ
  unfolding widths_from
  widths_of m = elim m.relation [ none ↦ [] | some relation ↦ widths_from m relation.columns 0 ]

  unfoldable pub compute_column_widths : Model → Model
  compute_column_widths m = record m { column_widths = widths_of m }
