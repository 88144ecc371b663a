-- ===== src/Postgres/Execution.antt =====
-- internal/postgres/mutations.go: one staged change as one statement in the transaction.
use db_tui.Common.{
  ℕ, ◌+◌, ◌==◌, Bool, true, false, ◌&&◌, ◌||◌, not, List, [], ◌++◌, map, Text, lit, join, text_eq,
  length, if◌then◌else◌, ◌⊎◌, inl, inr,
}
use db_tui.Core.{CoreError, ErrorCategory, new_error}
use db_tui.Grid.Types.{
  Column, Relation, RelationKind, ApplyRequest, Mutation, GoError, nil_error, core_error, is_nil,
}
use db_tui.Postgres.Statements.{
  Statement, Parts, made_with, made_from, ordered_mutation_columns, quoted_relation, quoted_column,
  insert_parts, update_parts, optimistic_predicate,
}

-- `tag.RowsAffected()` and the error of `tx.Exec`
pub record Executed : Type 0 where
  pub affected : ℕ
  pub err : GoError

-- The transaction, over its own state. `quoted` is pgx.Identifier's Sanitize.
pub record Tx (S : Type 0) : Type 0 where
  pub quoted : List Text → Text
  pub exec : Statement → S → Executed × S

abbrev pub structured : CoreError → GoError
structured e = core_error e nil_error

abbrev is_table : RelationKind → Bool
is_table RelationKind.table = true
is_table RelationKind.partitioned_table = true
is_table _ = false

unfoldable pub validate_apply_request : ApplyRequest → GoError
unfolding lit
validate_apply_request request =
    let relation = request.relation in
    if (text_eq relation.id.schema [] && text_eq relation.id.name [])
      || length request.mutations == 0
    then structured (
        new_error (lit "apply staged changes") ErrorCategory.validation
          (lit "The staged change set is empty or missing relation metadata.") false)
    else if not (is_table relation.kind)
    then structured (
        new_error (lit "apply staged changes") ErrorCategory.unsupported
          (lit "Grid changes are limited to ordinary and partitioned tables.") false)
    else if length relation.identity == 0 || not relation.has_xmin
    then structured (
        new_error (lit "apply staged changes") ErrorCategory.unsupported
          (lit "This table has no safe identity and xmin concurrency token.") false)
    else nil_error

unfoldable pub conflict_error : Text → CoreError
unfolding lit
conflict_error operation =
    new_error operation ErrorCategory.conflict
      (lit
        "The row changed or was deleted after it was loaded; the complete batch was rolled back.")
      true

-- what the number of rows says: of an update or a delete, whose words are given, and of an insert
unfoldable pub one_row : Text → Text → Executed → GoError
unfolding conflict_error
one_row operation too_many done =
    if not (is_nil done.err)
    then done.err
    else if done.affected == 0
    then structured (conflict_error operation)
    else if not (done.affected == 1)
    then structured (new_error operation ErrorCategory.conflict too_many false)
    else nil_error

unfoldable pub one_inserted : Executed → GoError
unfolding lit
one_inserted done =
    if not (is_nil done.err)
    then done.err
    else if not (done.affected == 1)
    then structured (
        new_error (lit "insert row") ErrorCategory.conflict
          (lit "PostgreSQL did not insert the staged row.") false)
    else nil_error

abbrev pub column_name : Column → Text
column_name column = column.name

module _ (quoted : List Text → Text) where
  unfoldable pub insert_statement : Relation → Mutation → CoreError ⊎ Statement
  unfolding insert_parts ordered_mutation_columns lit
  insert_statement relation mutation =
      let columns = ordered_mutation_columns relation mutation.values in
      let names = map (λ (c : Column). quoted_column quoted c.name) columns in
      made_with
        (λ (parts : Parts). record {
          query =
              lit "insert into "
              ++ (quoted_relation quoted relation.id
                  ++ (lit " ("
                      ++ (join (lit ", ") names
                          ++ (lit ") values (" ++ (join (lit ", ") parts.texts ++ lit ")")))));
          args = parts.args;
        })
        (insert_parts mutation.values columns 1)

  unfoldable pub default_statement : Relation → Statement
  unfolding lit
  default_statement relation = record {
    query = lit "insert into " ++ (quoted_relation quoted relation.id ++ lit " default values");
    args = [];
  }

  abbrev pub update_query : Relation → Parts → Statement → Statement
  update_query relation parts predicate = record {
    query =
        lit "update "
        ++ (quoted_relation quoted relation.id
            ++ (lit " set "
                ++ (join (lit ", ") parts.texts ++ (lit " where " ++ predicate.query))));
    args = parts.args ++ predicate.args;
  }

  unfoldable pub update_statement : Relation → Mutation → CoreError ⊎ Statement
  unfolding update_parts optimistic_predicate ordered_mutation_columns
  update_statement relation mutation =
      let columns = ordered_mutation_columns relation mutation.values in
      made_from
        (λ (parts : Parts).
          made_with (update_query relation parts)
            (optimistic_predicate quoted relation mutation.original (length parts.args + 1)))
        (update_parts quoted mutation.values columns 1)

  unfoldable pub delete_statement : Relation → Mutation → CoreError ⊎ Statement
  unfolding optimistic_predicate
  delete_statement relation mutation =
      made_with
        (λ (predicate : Statement). record {
          query =
              lit "delete from "
              ++ (quoted_relation quoted relation.id ++ (lit " where " ++ predicate.query));
          args = predicate.args;
        })
        (optimistic_predicate quoted relation mutation.original 1)

module _ {S : Type 0} (tx : Tx S) where
  -- the statement is run, and its outcome read; an error in front of it runs nothing
  unfoldable pub run_statement : (Executed → GoError) → CoreError ⊎ Statement → S → GoError × S
  run_statement read (inl err) s = (structured err, s)
  run_statement read (inr statement) s = let (done, s') = tx.exec statement s in (read done, s')

  unfoldable pub apply_insert : Relation → Mutation → S → GoError × S
  unfolding run_statement insert_statement default_statement one_inserted ordered_mutation_columns
      lit
  apply_insert relation mutation s =
      if not relation.can_insert
      then (
        structured (
            new_error (lit "insert row") ErrorCategory.permission
              (lit "INSERT is unavailable for this table or role.") false),
        s,
      )
      else if length (ordered_mutation_columns relation mutation.values) == 0
      then run_statement (λ done. done.err) (inr (default_statement tx.quoted relation)) s
      else run_statement one_inserted (insert_statement tx.quoted relation mutation) s

  unfoldable pub apply_update : Relation → Mutation → S → GoError × S
  unfolding run_statement update_statement one_row ordered_mutation_columns lit
  apply_update relation mutation s =
      if not relation.can_update
      then (
        structured (
            new_error (lit "update row") ErrorCategory.permission
              (lit "UPDATE is unavailable for this table or role.") false),
        s,
      )
      else if length (ordered_mutation_columns relation mutation.values) == 0
      then (
        structured (
            new_error (lit "update row") ErrorCategory.validation
              (lit "The staged update has no changed columns.") false),
        s,
      )
      else run_statement
          (one_row (lit "update row")
            (lit "The staged update matched more than one row; the transaction was rolled back."))
          (update_statement tx.quoted relation mutation) s

  unfoldable pub apply_delete : Relation → Mutation → S → GoError × S
  unfolding run_statement delete_statement one_row lit
  apply_delete relation mutation s =
      if not relation.can_delete
      then (
        structured (
            new_error (lit "delete row") ErrorCategory.permission
              (lit "DELETE is unavailable for this table or role.") false),
        s,
      )
      else run_statement
          (one_row (lit "delete row")
            (lit "The staged delete matched more than one row; the transaction was rolled back."))
          (delete_statement tx.quoted relation mutation) s
