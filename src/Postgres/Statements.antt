-- ===== src/Postgres/Statements.antt =====
-- internal/postgres/mutations.go: the text of a statement, and its arguments.
use db_tui.Common.{
  ℕ, ◌+◌, Bool, false, ◌&&◌, not, List, [], ◌∷◌, ◌++◌, map, Option, none, some, Text, lit, join,
  text_eq, length, any, filter_by, if◌then◌else◌, Dict, keys, has, lookup, ◌⊎◌, inl, inr,
}
use db_tui.Common.Decimal.{decimal}
use db_tui.Common.Sort.{sort_texts}
use db_tui.Core.{CoreError, ErrorCategory, new_error}
use db_tui.Grid.Types.{
  Value, Column, Relation, RelationId, StagedValue, value_text, value_null, value_default, Row,
}

-- what the driver takes as an argument
pub data Argument : Type 0 where
  value_argument : Value → Argument
  number_argument : ℕ → Argument

pub record Statement : Type 0 where
  pub query : Text
  pub args : List Argument

-- `grid.Column{Name: name}`
abbrev pub unknown_column : Text → Column
unknown_column name = record {
  name = name;
  data_type = [];
  type_oid = 0;
  nullable = false;
  has_default = false;
  generated = false;
  identity = false;
  can_select = false;
  can_insert = false;
  can_update = false;
  sortable = false;
  identity_part = false;
}

abbrev pub is_column : List Column → Text → Bool
is_column columns name = any (λ (c : Column). text_eq c.name name) columns

-- The columns in the order of the relation, and then the names that it does not have, in their own.
unfoldable pub ordered_mutation_columns : Relation → Dict StagedValue → List Column
unfolding sort_texts
ordered_mutation_columns relation values =
    let known = filter_by (λ (c : Column). has c.name values) relation.columns in
    let unknown = filter_by (λ name. not (is_column relation.columns name)) (keys values) in
    known ++ map unknown_column (sort_texts unknown)

-- the value of the Go map, or its zero value
abbrev pub staged_at : Dict StagedValue → Text → StagedValue
staged_at values name = elim (lookup name values) [
  | none ↦ record { kind = value_text; text = [] }
  | some value ↦ value
]

unfoldable pub placeholder : ℕ → Text
unfolding decimal
placeholder n = b'$' ∷ decimal n

unfoldable pub mutation_expression : StagedValue → ℕ → Statement
unfolding lit placeholder
mutation_expression value parameter = elim value.kind [
  | value_default ↦ record { query = lit "default"; args = [] }
  | value_null ↦ record {
    query = placeholder parameter;
    args = value_argument Value.nil_value ∷ [];
  }
  | value_text ↦ record {
    query = placeholder parameter;
    args = value_argument (Value.string_value value.text) ∷ [];
  }
]

-- `if err != nil { return err }`, and what goes on with the value
abbrev pub made_with : {X Y : Type 0} → (X → Y) → CoreError ⊎ X → CoreError ⊎ Y
made_with f (inl err) = inl err
made_with f (inr x) = inr (f x)

abbrev pub made_from : {X Y : Type 0} → (X → CoreError ⊎ Y) → CoreError ⊎ X → CoreError ⊎ Y
made_from f (inl err) = inl err
made_from f (inr x) = f x

-- the texts of a list in a statement, and their arguments
pub record Parts : Type 0 where
  pub texts : List Text
  pub args : List Argument

abbrev pub no_parts : Parts
no_parts = record { texts = []; args = [] }

abbrev pub with_part : Text → List Argument → Parts → Parts
with_part text args parts = record { texts = text ∷ parts.texts; args = args ++ parts.args }

-- the same, unless the rest has failed
abbrev pub with_first : Text → List Argument → CoreError ⊎ Parts → CoreError ⊎ Parts
with_first text args rest = made_with (with_part text args) rest

abbrev pub is_insertable : Column → Bool
is_insertable c = c.can_insert && not c.generated && not c.identity

abbrev pub is_updatable : Column → Bool
is_updatable c = c.can_update && not c.generated && not c.identity

-- the loop of `applyInsert`; the names are those of the columns
unfoldable pub insert_parts : Dict StagedValue → List Column → ℕ → CoreError ⊎ Parts
unfolding mutation_expression lit
insert_parts values [] next = inr no_parts
insert_parts values (c ∷ columns) next =
    let expression = mutation_expression (staged_at values c.name) next in
    let rest = insert_parts values columns (next + length expression.args) in
    if is_insertable c
    then elim rest [
      | inl err ↦ inl err
      | inr parts ↦ inr (with_part expression.query expression.args parts)
    ]
    else inl (
        new_error (lit "insert row") ErrorCategory.unsupported (c.name ++ lit " is not insertable.")
          false)

abbrev pub incomplete_identity : CoreError
unfolding lit
incomplete_identity =
    new_error (lit "apply staged changes") ErrorCategory.validation
      (lit "A staged row has an incomplete original identity.") false

-- a condition on an identity column, if its value stands in the row
abbrev pub with_condition : Option Value → Text → CoreError ⊎ Parts → CoreError ⊎ Parts
with_condition none text rest = inl incomplete_identity
with_condition (some value) text rest = with_first text (value_argument value ∷ []) rest

-- `quoted` is pgx.Identifier's Sanitize.
module _ (quoted : List Text → Text) where
  abbrev pub quoted_relation : RelationId → Text
  quoted_relation id = quoted (id.schema ∷ id.name ∷ [])

  abbrev pub quoted_column : Text → Text
  quoted_column name = quoted (name ∷ [])

  -- the loop of `applyUpdate`
  unfoldable pub update_parts : Dict StagedValue → List Column → ℕ → CoreError ⊎ Parts
  unfolding mutation_expression lit
  update_parts values [] next = inr no_parts
  update_parts values (c ∷ columns) next =
      let expression = mutation_expression (staged_at values c.name) next in
      let rest = update_parts values columns (next + length expression.args) in
      if is_updatable c
      then with_first (quoted_column c.name ++ (lit " = " ++ expression.query)) expression.args rest
      else inl (
          new_error (lit "update row") ErrorCategory.unsupported
            (c.name ++ lit " is not updatable.") false)

  -- the loop of `optimisticPredicate`, with the condition on xmin at its end
  unfoldable pub predicate_parts : Row → List Text → ℕ → CoreError ⊎ Parts
  unfolding placeholder lit incomplete_identity
  predicate_parts original [] next = inr (
      with_part (lit "xmin::text::bigint = " ++ placeholder next)
        (number_argument original.xmin ∷ []) no_parts)
  predicate_parts original (name ∷ names) next =
      let rest = predicate_parts original names (next + 1) in
      with_condition (lookup name original.identity)
        (quoted_column name ++ (lit " is not distinct from " ++ placeholder next)) rest

  unfoldable pub optimistic_predicate : Relation → Row → ℕ → CoreError ⊎ Statement
  unfolding predicate_parts lit
  optimistic_predicate relation original first =
      made_with
        (λ (parts : Parts). record { query = join (lit " and ") parts.texts; args = parts.args })
        (predicate_parts original relation.identity first)
