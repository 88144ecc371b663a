-- ===== src/Postgres/Clauses.antt =====
-- The parts of a statement, in pieces: assignments and conditions.
use db_tui.Common.{
  ℕ, ◌+◌, ◌≡◌, refl, sym, ap, ◌∙◌, Bool, true, not, any, has, List, [], ◌∷◌, ◌++◌, map, Text, lit,
  join, length, lookup, is_some, Option, none, some, Dict, ◌⊎◌, inl, inr, arith, Bool-cases,
  if◌then◌else◌,
}
use mathlib.Core.Path.{subst}
use mathlib.Core.List.{append-nil}
use db_tui.Core.{CoreError}
use db_tui.Grid.Types.{Value, Column, Relation, StagedValue, Row}
use db_tui.Postgres.Statements.{
  value_argument, number_argument, Statement, Parts, staged_at, placeholder, with_part, no_parts,
  with_condition, mutation_expression, is_insertable, is_updatable, quoted_column, insert_parts,
  update_parts, predicate_parts, optimistic_predicate,
}
use db_tui.Postgres.Numbering.{
  Built-made_with, Piece, plain, bound, rendered, arguments, separated, all_arguments, value_piece,
  Built, texts_of, parts_of, rendered-append, arguments-append, join-texts_of, arguments-separated,
  expression-rendered, arguments_of_kind, Built-with_part,
}

-- the value of an identity column, which stands there
abbrev pub value_or_nil : Option Value → Value
value_or_nil none = Value.nil_value
value_or_nil (some value) = value

abbrev pub condition : Text → Option Value → List Piece
condition column value =
    plain column
    ∷ plain (lit " is not distinct from ")
    ∷ bound (value_argument (value_or_nil value))
    ∷ []

-- a list that more pieces follow
pub join-append :
    (separator : Text) (items : List (List Piece)) (qs : List Piece)
    → join separator (texts_of 1 items) ++ rendered (length (all_arguments items) + 1) qs
      ≡ rendered 1 (separated separator items ++ qs)
join-append separator items qs =
    let sets = separated separator items in
    let moved : length (all_arguments items) + 1 ≡ 1 + length (arguments sets) =
      omega (arith, ap length (arguments-separated separator items)) in
    ap (λ text. text ++ rendered (length (all_arguments items) + 1) qs)
      (join-texts_of separator 1 items)
    ∙ ap (λ n. rendered 1 sets ++ rendered n qs) moved
    ∙ sym (rendered-append 1 sets qs)

pub all_arguments-append :
    (separator : Text) (items : List (List Piece)) (qs : List Piece)
    → all_arguments items ++ arguments qs ≡ arguments (separated separator items ++ qs)
all_arguments-append separator items qs =
    ap (λ args. args ++ arguments qs) (sym (arguments-separated separator items))
    ∙ sym (arguments-append (separated separator items) qs)

pub joined :
    (separator : Text) (next : ℕ) (items : List (List Piece))
    → let made : Statement = record {
      query = join separator (texts_of next items);
      args = all_arguments items;
    } in
      made ≡ record {
        query = rendered next (separated separator items);
        args = arguments (separated separator items);
      }
joined separator next items =
    ap (λ query. record { query = query; args = all_arguments items })
      (join-texts_of separator next items)
    ∙ ap (λ args. record { query = rendered next (separated separator items); args = args })
        (sym (arguments-separated separator items))

condition-Built :
    (column : Text) (value : Option Value) (refused : Bool) (next : ℕ) (items : List (List Piece))
    (rest : CoreError ⊎ Parts)
    → Built refused (parts_of (next + 1) items) rest
    → Built
        (if not (is_some value) then true else refused)
        (parts_of next (condition column value ∷ items))
        (with_condition value (column ++ (lit " is not distinct from " ++ placeholder next)) rest)
unfolding rendered arguments
condition-Built column none refused next items rest h = refl
condition-Built column (some value) refused next items rest h =
    Built-with_part (column ++ (lit " is not distinct from " ++ placeholder next))
      (value_argument value ∷ []) refused next (condition column (some value)) items rest
      (ap (λ text. column ++ (lit " is not distinct from " ++ text))
        (sym (append-nil (placeholder next))))
      refl h

abbrev pub refused_columns : List Column → Bool
refused_columns columns = any (λ c. not (is_updatable c)) columns

abbrev pub incomplete : Row → List Text → Bool
incomplete original names = any (λ name. not (has name original.identity)) names

abbrev pub inserted_value : Dict StagedValue → Column → List Piece
inserted_value values c = value_piece (staged_at values c.name) ∷ []

abbrev pub refused_values : List Column → Bool
refused_values columns = any (λ c. not (is_insertable c)) columns

pub insert_parts-Built :
    (values : Dict StagedValue) (columns : List Column) (next : ℕ)
    → Built
        (refused_values columns)
        (parts_of next (map (inserted_value values) columns))
        (insert_parts values columns next)
unfolding insert_parts texts_of rendered arguments
insert_parts-Built values [] next = (refl, refl)
insert_parts-Built values (c ∷ columns) next =
    let value = staged_at values c.name in
    let expression = mutation_expression value next in
    elim (Bool-cases (is_insertable c)) [
      | inl good ↦ rw good (
          Built-with_part expression.query expression.args (refused_values columns) next
            (inserted_value values c) (map (inserted_value values) columns)
            (insert_parts values columns (next + length expression.args))
            (expression-rendered value next) (arguments_of_kind value.kind value.text next)
            (insert_parts-Built values columns (next + length expression.args)))
      | inr bad ↦ rw bad refl
    ]

module _ (quoted : List Text → Text) where
  abbrev pub assignment : Dict StagedValue → Column → List Piece
  assignment values c =
      plain (quoted_column quoted c.name)
      ∷ plain (lit " = ")
      ∷ value_piece (staged_at values c.name)
      ∷ []

  -- the identity as it was loaded, and the version of the row
  unfoldable pub conditions : Row → List Text → List (List Piece)
  conditions original [] =
      (plain (lit "xmin::text::bigint = ") ∷ bound (number_argument original.xmin) ∷ []) ∷ []
  conditions original (name ∷ names) =
      condition (quoted_column quoted name) (lookup name original.identity)
      ∷ conditions original names

  pub update_parts-Built :
      (values : Dict StagedValue) (columns : List Column) (next : ℕ)
      → Built
          (refused_columns columns)
          (parts_of next (map (assignment values) columns))
          (update_parts quoted values columns next)
  unfolding update_parts texts_of rendered arguments
  update_parts-Built values [] next = (refl, refl)
  update_parts-Built values (c ∷ columns) next =
      let value = staged_at values c.name in
      let expression = mutation_expression value next in
      let rest = update_parts-Built values columns (next + length expression.args) in
      elim (Bool-cases (is_updatable c)) [
        | inl good ↦ rw good (
            Built-with_part (quoted_column quoted c.name ++ (lit " = " ++ expression.query))
              expression.args (refused_columns columns) next (assignment values c)
              (map (assignment values) columns)
              (update_parts quoted values columns (next + length expression.args))
              (ap (λ text. quoted_column quoted c.name ++ (lit " = " ++ text))
                (expression-rendered value next))
              (arguments_of_kind value.kind value.text next) rest)
        | inr bad ↦ rw bad refl
      ]

  predicate_parts-Built :
      (original : Row) (names : List Text) (next : ℕ)
      → Built
          (incomplete original names)
          (parts_of next (conditions original names))
          (predicate_parts quoted original names next)
  unfolding predicate_parts texts_of conditions rendered arguments
  predicate_parts-Built original [] next = (
    refl,
    ap
        (λ text.
          with_part (lit "xmin::text::bigint = " ++ text) (number_argument original.xmin ∷ [])
            no_parts)
        (sym (append-nil (placeholder next))),
  )
  predicate_parts-Built original (name ∷ names) next =
      condition-Built (quoted_column quoted name) (lookup name original.identity)
        (incomplete original names) next (conditions original names)
        (predicate_parts quoted original names (next + 1))
        (predicate_parts-Built original names (next + 1))

  pub optimistic_predicate-Built :
      (relation : Relation) (original : Row) (next : ℕ)
      → let wanted = separated (lit " and ") (conditions original relation.identity) in
        Built
          (incomplete original relation.identity)
          (record { query = rendered next wanted; args = arguments wanted })
          (optimistic_predicate quoted relation original next)
  unfolding optimistic_predicate
  optimistic_predicate-Built relation original next =
      let items = conditions original relation.identity in
      subst
        (λ wanted.
          Built (incomplete original relation.identity) wanted
            (optimistic_predicate quoted relation original next))
        (joined (lit " and ") next items)
        (Built-made_with
          (λ (parts : Parts). record { query = join (lit " and ") parts.texts; args = parts.args })
          (incomplete original relation.identity) (parts_of next items)
          (predicate_parts quoted original relation.identity next)
          (predicate_parts-Built original relation.identity next))
