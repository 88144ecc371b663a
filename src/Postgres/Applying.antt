-- ===== src/Postgres/Applying.antt =====
-- What applying one staged change does to the transaction.
use db_tui.Common.{
  List, [], ◌∷◌, ◌≡◌, refl, ◌==◌, Bool, true, false, ◌&&◌, ◌||◌, not, Text, length, ◌⊎◌, inl, inr,
  arith, if◌then◌else◌,
}
use db_tui.Core.{CoreError}
use db_tui.Grid.Types.{Column, Relation, Mutation, GoError, is_nil}
use db_tui.Postgres.Statements.{Statement, ordered_mutation_columns}
use db_tui.Postgres.Execution.{
  structured, Executed, Tx, insert_statement, default_statement, apply_insert, one_row,
  one_inserted, run_statement, update_statement, delete_statement, apply_update, apply_delete,
}
use db_tui.Postgres.Numbering.{Built, numbered}
use db_tui.Postgres.Clauses.{refused_values, refused_columns, incomplete}
use db_tui.Postgres.Changes.{
  insert_pieces, insert_statement-Built, update_pieces, delete_pieces, update_statement-Built,
  delete_statement-Built,
}

abbrev pub is_done : Executed → Bool
is_done done = is_nil done.err && done.affected == 1

one_row-is_done :
    (operation too_many : Text) (done : Executed)
    → is_nil (one_row operation too_many done) ≡ is_done done
unfolding one_row
one_row-is_done operation too_many done = ground arith

one_inserted-is_done : (done : Executed) → is_nil (one_inserted done) ≡ is_done done
unfolding one_inserted
one_inserted-is_done done = ground arith

-- what is good for an insert, which may have no columns
abbrev pub is_inserted : Bool → Executed → Bool
is_inserted empty done = if empty then is_nil done.err else is_done done

refused_values_none :
    (columns : List Column) → (length columns == 0) ≡ true → refused_values columns ≡ false
refused_values_none [] e = refl
refused_values_none (c ∷ columns) e = ground arith

module _ {S : Type 0} (tx : Tx S) where
  -- It succeeds exactly if it is not refused, and the statement runs with a good result; if it is
  -- refused nothing is run, and otherwise that statement and no other.
  abbrev pub RunsWith : (Executed → Bool) → Bool → Statement → S → GoError × S → Type 0
  RunsWith good refused statement s result =
      let (done, ran) = tx.exec statement s in
      (is_nil result.0 ≡ (not refused && good done)) × (result.1 ≡ (if refused then s else ran))

  -- a good result is one row, without an error
  abbrev pub RunsOnce : Bool → Statement → S → GoError × S → Type 0
  RunsOnce refused statement s result = RunsWith is_done refused statement s result

  run_statement-RunsWith :
      (read : Executed → GoError) (good : Executed → Bool) (refused : Bool) (statement : Statement)
      (built : CoreError ⊎ Statement) (s : S)
      → ((done : Executed) → is_nil (read done) ≡ good done)
      → Built refused statement built
      → RunsWith good refused statement s (run_statement tx read built s)
  unfolding run_statement
  run_statement-RunsWith read good refused statement (inl err) s reads h = rw h (refl, refl)
  run_statement-RunsWith read good refused statement (inr made) s reads (h, same) =
      rw (h, same) (reads (tx.exec statement s).0, refl)

  guard-RunsWith :
      (good : Executed → Bool) (stop refused : Bool) (statement : Statement) (s : S)
      (err : CoreError) (result : GoError × S)
      → RunsWith good refused statement s result
      → RunsWith good (stop || refused) statement s (if stop then (structured err, s) else result)
  guard-RunsWith good true refused statement s err result h = (refl, refl)
  guard-RunsWith good false refused statement s err result h = h

  -- without columns, a row of defaults
  abbrev pub inserts : Relation → Mutation → Bool → Statement
  inserts relation mutation empty =
      if empty
      then default_statement tx.quoted relation
      else numbered (insert_pieces tx.quoted relation mutation)

  insert_run-RunsWith :
      (relation : Relation) (mutation : Mutation) (empty refused : Bool) (s : S)
      → (empty ≡ true → refused ≡ false)
      → Built refused
          (numbered (insert_pieces tx.quoted relation mutation))
          (insert_statement tx.quoted relation mutation)
      → RunsWith (is_inserted empty) refused (inserts relation mutation empty) s (
          if empty
          then run_statement tx (λ done. done.err) (inr (default_statement tx.quoted relation)) s
          else run_statement tx one_inserted (insert_statement tx.quoted relation mutation) s)
  unfolding run_statement
  insert_run-RunsWith relation mutation true refused s free h = rw (free refl) (refl, refl)
  insert_run-RunsWith relation mutation false refused s free h =
      run_statement-RunsWith one_inserted is_done refused
        (numbered (insert_pieces tx.quoted relation mutation))
        (insert_statement tx.quoted relation mutation) s one_inserted-is_done h

  -- A staged insert is refused where the table does not take it or it stages a column that cannot be
  -- inserted; then it is an error and nothing is run. Otherwise its one statement is run: a row of
  -- defaults if no column is staged, which succeeds exactly if it runs without an error, and else the
  -- staged columns, with the placeholders numbered in the order of the arguments, which has to change
  -- one row as well.
  pub apply_insert-RunsWith :
      (relation : Relation) (mutation : Mutation) (s : S)
      → let columns = ordered_mutation_columns relation mutation.values in
        RunsWith
          (is_inserted (length columns == 0))
          (not relation.can_insert || refused_values columns)
          (inserts relation mutation (length columns == 0))
          s
          (apply_insert tx relation mutation s)
  unfolding apply_insert
  apply_insert-RunsWith relation mutation s =
      let columns = ordered_mutation_columns relation mutation.values in
      let empty = length columns == 0 in
      guard-RunsWith (is_inserted empty) (not relation.can_insert) (refused_values columns)
        (inserts relation mutation empty) s _ _
        (insert_run-RunsWith relation mutation empty (refused_values columns) s
          (refused_values_none columns) (insert_statement-Built tx.quoted relation mutation))

  -- A staged update is refused where the table does not take it, it stages no column or one that cannot be
  -- updated, or the row has lost a part of its identity; then it is an error and nothing is run.
  -- Otherwise its one statement is run, with the placeholders numbered in the order of the arguments,
  -- and it succeeds exactly if that runs without an error and changes one row.
  pub apply_update-RunsOnce :
      (relation : Relation) (mutation : Mutation) (s : S)
      → let columns = ordered_mutation_columns relation mutation.values in
        RunsOnce
          (not relation.can_update
            || (length columns == 0
                || (refused_columns columns || incomplete mutation.original relation.identity)))
          (numbered (update_pieces tx.quoted relation mutation))
          s
          (apply_update tx relation mutation s)
  unfolding apply_update
  apply_update-RunsOnce relation mutation s =
      let columns = ordered_mutation_columns relation mutation.values in
      let refused = refused_columns columns || incomplete mutation.original relation.identity in
      let statement = numbered (update_pieces tx.quoted relation mutation) in
      guard-RunsWith is_done (not relation.can_update) (length columns == 0 || refused) statement s
        _ _
        (guard-RunsWith is_done (length columns == 0) refused statement s _ _ (
          run_statement-RunsWith _ is_done refused statement
            (update_statement tx.quoted relation mutation) s (one_row-is_done _ _)
            (update_statement-Built tx.quoted relation mutation)))

  -- A staged deletion is refused where the table does not take it or the row has lost a part of its
  -- identity; then it is an error and nothing is run. Otherwise its one statement is run, which deletes
  -- where the identity and the version are those that were loaded, and it succeeds exactly if that runs
  -- without an error and changes one row.
  pub apply_delete-RunsOnce :
      (relation : Relation) (mutation : Mutation) (s : S)
      → RunsOnce
          (not relation.can_delete || incomplete mutation.original relation.identity)
          (numbered (delete_pieces tx.quoted relation mutation))
          s
          (apply_delete tx relation mutation s)
  unfolding apply_delete
  apply_delete-RunsOnce relation mutation s =
      let refused = incomplete mutation.original relation.identity in
      let statement = numbered (delete_pieces tx.quoted relation mutation) in
      guard-RunsWith is_done (not relation.can_delete) refused statement s _ _ (
        run_statement-RunsWith _ is_done refused statement
          (delete_statement tx.quoted relation mutation) s (one_row-is_done _ _)
          (delete_statement-Built tx.quoted relation mutation))
