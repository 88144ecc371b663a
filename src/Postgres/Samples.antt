-- ===== src/Postgres/Samples.antt =====
-- A table of two columns with a staged update of one, and the theorems at it.
use db_tui.Common.{◌≡◌, ◌==◌, ◌||◌, not, refl, true, false, List, [], ◌∷◌, Text, lit, join, length}
use db_tui.Grid.Types.{
  Column, Relation, RelationKind, Value, StagedValue, value_null, value_text, Row, Mutation,
  MutationKind, nil_error,
}
use db_tui.Common.{lookup, text_eq, Dict}
use db_tui.Common.Decimal.{decimal}
use db_tui.Common.Sort.{sort_texts}
use db_tui.Postgres.Statements.{placeholder, Statement, ordered_mutation_columns, unknown_column}
use db_tui.Postgres.Execution.{Tx, apply_update, apply_delete, apply_insert}
use db_tui.Postgres.Numbering.{numbered, rendered, separated}
use db_tui.Postgres.Clauses.{conditions, refused_columns, refused_values, incomplete}
use db_tui.Postgres.Changes.{update_pieces, delete_pieces}
use db_tui.Postgres.Staged.{Listed, ordered_mutation_columns-Listed}
use db_tui.Postgres.Applying.{
  is_inserted, inserts, RunsWith, RunsOnce, apply_insert-RunsWith, apply_update-RunsOnce,
  apply_delete-RunsOnce,
}

-- The statements that were run, each of which changes one row.
abbrev log_tx : Tx (List Statement)
log_tx = record {
  quoted = join (b'.' ∷ []);
  exec = λ statement log. (record { affected = 1; err = nil_error }, statement ∷ log);
}

abbrev named_column : Text → Column
named_column name = record (unknown_column name) { can_insert = true; can_update = true }

abbrev people : Relation
people = record {
  id = record { schema = b's' ∷ []; name = b't' ∷ [] };
  kind = RelationKind.table;
  columns = named_column (b'a' ∷ []) ∷ named_column (b'b' ∷ []) ∷ [];
  mutation_columns = [];
  identity = (b'a' ∷ []) ∷ [];
  identity_primary = true;
  can_select = true;
  can_insert = true;
  can_update = true;
  can_delete = true;
  has_xmin = true;
  best_effort = false;
  read_only_reason = [];
  insert_reason = [];
  update_reason = [];
  delete_reason = [];
}

abbrev loaded : Row
loaded = record { identity = (b'a' ∷ [], Value.driver_value 7) ∷ []; xmin = 41; cells = [] }

abbrev change : MutationKind → Mutation
change kind = record {
  kind = kind;
  draft_id = 0;
  original = loaded;
  values = (b'b' ∷ [], record { kind = value_text; text = b'x' ∷ [] }) ∷ [];
}

abbrev updated : Mutation
updated = change MutationKind.update_mutation

abbrev deleted : Mutation
deleted = change MutationKind.delete_mutation

abbrev inserted : Mutation
inserted = change MutationKind.insert_mutation

update_query_test :
    (numbered (update_pieces log_tx.quoted people updated)).query
    ≡ lit "update s.t set b = $1 where a is not distinct from $2 and xmin::text::bigint = $3"
unfolding lit update_pieces ordered_mutation_columns conditions sort_texts rendered separated
    placeholder decimal lookup text_eq join
update_query_test = refl

apply_update-RunsOnce_example :
    RunsOnce log_tx
      (not people.can_update
        || (length (ordered_mutation_columns people updated.values) == 0
            || (refused_columns (ordered_mutation_columns people updated.values)
                || incomplete updated.original people.identity)))
      (numbered (update_pieces log_tx.quoted people updated))
      []
      (apply_update log_tx people updated [])
apply_update-RunsOnce_example = apply_update-RunsOnce log_tx people updated []

apply_delete-RunsOnce_example :
    RunsOnce log_tx
      (not people.can_delete || incomplete deleted.original people.identity)
      (numbered (delete_pieces log_tx.quoted people deleted))
      []
      (apply_delete log_tx people deleted [])
apply_delete-RunsOnce_example = apply_delete-RunsOnce log_tx people deleted []

apply_insert-RunsWith_example :
    let columns = ordered_mutation_columns people inserted.values in
    RunsWith log_tx
      (is_inserted (length columns == 0))
      (not people.can_insert || refused_values columns)
      (inserts log_tx people inserted (length columns == 0))
      []
      (apply_insert log_tx people inserted [])
apply_insert-RunsWith_example = apply_insert-RunsWith log_tx people inserted []

abbrev two_values : Dict StagedValue
two_values =
    (b'z' ∷ [], record { kind = value_null; text = [] })
    ∷ (b'b' ∷ [], record { kind = value_text; text = b'x' ∷ [] })
    ∷ []

ordered_mutation_columns-Listed_example :
    Listed people two_values (ordered_mutation_columns people two_values)
unfolding text_eq
ordered_mutation_columns-Listed_example =
    ordered_mutation_columns-Listed people two_values ((refl, tt), (tt, tt))
