-- ===== src/Grid/Snapshot.antt =====
-- internal/grid/staging.go: the staged changes as counts and as the list that an apply sends.
use db_tui.Common.{
  ℕ, suc, ◌+◌, Bool, List, [], ◌∷◌, ◌++◌, none, some, Text, Dict, lookup, keys, has, length,
  if◌then◌else◌, ltb,
}
use db_tui.Common.Sort.{sort_texts}
use db_tui.Grid.Types.{Mutation}
use db_tui.Grid.State.{Model}

-- the updates of rows that are not staged for deletion
unfoldable pub live_updates : Dict Mutation → Dict Mutation → ℕ
live_updates [] deletes = 0
live_updates ((key, _) ∷ updates) deletes =
    if has key deletes then live_updates updates deletes else suc (live_updates updates deletes)

unfoldable pub change_count : Model → ℕ
unfolding live_updates
change_count m = length m.inserts + length m.deletes + live_updates m.updates m.deletes

unfoldable pub dirty : Model → Bool
unfolding change_count
dirty m = ltb 0 (change_count m)

-- `model.deletes[key]` for the keys of the map: each is there.
unfoldable pub mutations_at : List Text → Dict Mutation → List Mutation
mutations_at [] m = []
mutations_at (key ∷ ks) m = elim (lookup key m) [
  | none ↦ mutations_at ks m
  | some mutation ↦ mutation ∷ mutations_at ks m
]

unfoldable pub updates_at : List Text → Dict Mutation → Dict Mutation → List Mutation
updates_at [] updates deletes = []
updates_at (key ∷ ks) updates deletes =
    if has key deletes then updates_at ks updates deletes else elim (lookup key updates) [
      | none ↦ updates_at ks updates deletes
      | some mutation ↦ mutation ∷ updates_at ks updates deletes
    ]

unfoldable pub sorted_mutation_keys : Dict Mutation → List Text
sorted_mutation_keys values = sort_texts (keys values)

-- The copies of `cloneMutation` are equal values.
unfoldable pub mutations_snapshot : Model → List Mutation
unfolding mutations_at updates_at sorted_mutation_keys
mutations_snapshot m =
    mutations_at (sorted_mutation_keys m.deletes) m.deletes
    ++ (updates_at (sorted_mutation_keys m.updates) m.updates m.deletes ++ m.inserts)

-- `len(model.changeSummaries())`: a line for each mutation of the snapshot
unfoldable pub summary_count : Model → ℕ
summary_count m = length (mutations_snapshot m)
