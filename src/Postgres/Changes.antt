-- ===== src/Postgres/Changes.antt =====
-- What the statements of staged changes say, in pieces.
use db_tui.Common.{◌+◌, sym, ap, ◌∙◌, ◌||◌, List, [], ◌∷◌, ◌++◌, map, Text, lit, join, length}
use mathlib.Core.Path.{subst}
use mathlib.Core.List.{append-nil}
use db_tui.Grid.Types.{Column, Relation, Mutation}
use db_tui.Postgres.Statements.{
  Statement, Parts, made_with, quoted_relation, quoted_column, insert_parts, update_parts,
  optimistic_predicate, ordered_mutation_columns,
}
use db_tui.Postgres.Execution.{insert_statement, update_query, update_statement, delete_statement}
use db_tui.Postgres.Clauses.{
  assignment, inserted_value, conditions, refused_columns, refused_values, incomplete, join-append,
  all_arguments-append, insert_parts-Built, update_parts-Built, optimistic_predicate-Built,
}
use db_tui.Postgres.Numbering.{
  Built-made_with, Built-made_from, Piece, plain, rendered, arguments, numbered, separated,
  all_arguments, Built, parts_of,
}

module _ (quoted : List Text → Text) where
  unfoldable pub delete_pieces : Relation → Mutation → List Piece
  unfolding conditions
  delete_pieces relation mutation =
      plain (lit "delete from ")
      ∷ plain (quoted_relation quoted relation.id)
      ∷ plain (lit " where ")
      ∷ separated (lit " and ") (conditions quoted mutation.original relation.identity)

  pub delete_statement-Built :
      (relation : Relation) (mutation : Mutation)
      → Built
          (incomplete mutation.original relation.identity)
          (numbered (delete_pieces relation mutation))
          (delete_statement quoted relation mutation)
  unfolding delete_statement delete_pieces rendered arguments
  delete_statement-Built relation mutation =
      let wanted =
        separated (lit " and ") (conditions quoted mutation.original relation.identity) in
      Built-made_with
        (λ (predicate : Statement). record {
          query =
              lit "delete from "
              ++ (quoted_relation quoted relation.id ++ (lit " where " ++ predicate.query));
          args = predicate.args;
        })
        (incomplete mutation.original relation.identity)
        (record { query = rendered 1 wanted; args = arguments wanted })
        (optimistic_predicate quoted relation mutation.original 1)
        (optimistic_predicate-Built quoted relation mutation.original 1)

  unfoldable pub update_pieces : Relation → Mutation → List Piece
  unfolding conditions
  update_pieces relation mutation =
      let columns = ordered_mutation_columns relation mutation.values in
      plain (lit "update ")
        ∷ plain (quoted_relation quoted relation.id)
        ∷ plain (lit " set ")
        ∷ separated (lit ", ") (map (assignment quoted mutation.values) columns)
      ++ (plain (lit " where ")
          ∷ separated (lit " and ") (conditions quoted mutation.original relation.identity))

  -- An update is refused where it stages a column that cannot be updated, or where the row has lost a part
  -- of its identity. Otherwise its statement sets the staged columns, each to its value or its default,
  -- where the identity and the version are those that were loaded, and its placeholders are numbered
  -- from 1 in the order of the arguments.
  pub update_statement-Built :
      (relation : Relation) (mutation : Mutation)
      → Built
          (refused_columns (ordered_mutation_columns relation mutation.values)
            || incomplete mutation.original relation.identity)
          (numbered (update_pieces relation mutation))
          (update_statement quoted relation mutation)
  unfolding update_statement update_pieces rendered arguments
  update_statement-Built relation mutation =
      let columns = ordered_mutation_columns relation mutation.values in
      let items = map (assignment quoted mutation.values) columns in
      let wanted =
        separated (lit " and ") (conditions quoted mutation.original relation.identity) in
      let count = length (all_arguments items) in
      let predicate : Statement = record {
        query = rendered (count + 1) wanted;
        args = arguments wanted;
      } in
      subst
        (λ statement.
          Built (refused_columns columns || incomplete mutation.original relation.identity)
            statement (update_statement quoted relation mutation))
        (ap
            (λ text.
              let made : Statement = record {
                query =
                    lit "update " ++ (quoted_relation quoted relation.id ++ (lit " set " ++ text));
                args = all_arguments items ++ arguments wanted;
              } in
              made)
            (join-append (lit ", ") items (plain (lit " where ") ∷ wanted))
          ∙ ap
              (λ args.
                let made : Statement = record {
                  query = rendered 1 (update_pieces relation mutation);
                  args = args;
                } in
                made)
              (all_arguments-append (lit ", ") items (plain (lit " where ") ∷ wanted)))
        (Built-made_from
          (λ (parts : Parts).
            made_with (update_query quoted relation parts)
              (optimistic_predicate quoted relation mutation.original (length parts.args + 1)))
          (refused_columns columns) (incomplete mutation.original relation.identity)
          (parts_of 1 items) (update_query quoted relation (parts_of 1 items) predicate)
          (update_parts quoted mutation.values columns 1)
          (update_parts-Built quoted mutation.values columns 1)
          (Built-made_with (update_query quoted relation (parts_of 1 items))
            (incomplete mutation.original relation.identity) predicate
            (optimistic_predicate quoted relation mutation.original (count + 1))
            (optimistic_predicate-Built quoted relation mutation.original (count + 1))))

  unfoldable pub insert_pieces : Relation → Mutation → List Piece
  insert_pieces relation mutation =
      let columns = ordered_mutation_columns relation mutation.values in
      plain (lit "insert into ")
        ∷ plain (quoted_relation quoted relation.id)
        ∷ plain (lit " (")
        ∷ plain (join (lit ", ") (map (λ (c : Column). quoted_column quoted c.name) columns))
        ∷ plain (lit ") values (")
        ∷ separated (lit ", ") (map (inserted_value mutation.values) columns)
      ++ (plain (lit ")") ∷ [])

  -- An insert is refused where it stages a column that cannot be inserted. Otherwise its statement names
  -- the staged columns, with a value or the default for each, and its placeholders are numbered from 1
  -- in the order of the arguments.
  pub insert_statement-Built :
      (relation : Relation) (mutation : Mutation)
      → Built
          (refused_values (ordered_mutation_columns relation mutation.values))
          (numbered (insert_pieces relation mutation))
          (insert_statement quoted relation mutation)
  unfolding insert_statement insert_pieces rendered arguments
  insert_statement-Built relation mutation =
      let columns = ordered_mutation_columns relation mutation.values in
      let items = map (inserted_value mutation.values) columns in
      let names = join (lit ", ") (map (λ (c : Column). quoted_column quoted c.name) columns) in
      subst
        (λ statement.
          Built (refused_values columns) statement (insert_statement quoted relation mutation))
        (ap
            (λ text.
              let made : Statement = record {
                query =
                    lit "insert into "
                    ++ (quoted_relation quoted relation.id
                        ++ (lit " (" ++ (names ++ (lit ") values (" ++ text))));
                args = all_arguments items;
              } in
              made)
            (join-append (lit ", ") items (plain (lit ")") ∷ []))
          ∙ ap
              (λ args.
                let made : Statement = record {
                  query = rendered 1 (insert_pieces relation mutation);
                  args = args;
                } in
                made)
              (sym (append-nil (all_arguments items))
                ∙ all_arguments-append (lit ", ") items (plain (lit ")") ∷ [])))
        (Built-made_with
          (λ (parts : Parts). record {
            query =
                lit "insert into "
                ++ (quoted_relation quoted relation.id
                    ++ (lit " ("
                        ++ (names
                            ++ (lit ") values (" ++ (join (lit ", ") parts.texts ++ lit ")")))));
            args = parts.args;
          })
          (refused_values columns) (parts_of 1 items) (insert_parts mutation.values columns 1)
          (insert_parts-Built mutation.values columns 1))
