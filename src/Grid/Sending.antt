-- ===== src/Grid/Sending.antt =====
-- The staged changes as a list: what an apply sends, against the count that the tab shows.
use db_tui.Common.{
  ℕ, ◌<◌, ◌≡◌, refl, ◌↔◌, true, List, [], ◌∷◌, Text, Dict, lookup, keys, has, length, length-append,
  text_eq_refl, arith, if◌then◌else◌,
}
use db_tui.Common.Sort.{sort_texts, tally, tally-sort_texts}
use db_tui.Grid.Types.{Mutation}
use db_tui.Grid.State.{Model}
use db_tui.Grid.Snapshot.{
  live_updates, change_count, dirty, mutations_at, updates_at, sorted_mutation_keys,
  mutations_snapshot,
}

abbrev held : Dict Mutation → Text → ℕ
held m key = if has key m then 1 else 0

abbrev live : Dict Mutation → Dict Mutation → Text → ℕ
live updates deletes key = if has key deletes then 0 else held updates key

length-mutations_at :
    (ks : List Text) (m : Dict Mutation) → length (mutations_at ks m) ≡ tally (held m) ks
unfolding mutations_at tally
length-mutations_at [] m = refl
length-mutations_at (key ∷ ks) m = ground (arith, length-mutations_at ks m)

length-updates_at :
    (ks : List Text) (updates deletes : Dict Mutation)
    → length (updates_at ks updates deletes) ≡ tally (live updates deletes) ks
unfolding updates_at tally
length-updates_at [] updates deletes = refl
length-updates_at (key ∷ ks) updates deletes = ground (arith, length-updates_at ks updates deletes)

-- the keys of the entries are in the map
abbrev AllHeld : Dict Mutation → Dict Mutation → Type 0
AllHeld [] m = Unit
AllHeld ((key, _) ∷ rest) m = (has key m ≡ true) × AllHeld rest m

AllHeld-cons :
    (rest m : Dict Mutation) (key : Text) (v : Mutation)
    → AllHeld rest m
    → AllHeld rest ((key, v) ∷ m)
unfolding lookup
AllHeld-cons [] m key v h = tt
AllHeld-cons ((j, w) ∷ rest) m key v h = ground (arith, AllHeld-cons rest m key v h.1)

AllHeld-refl : (m : Dict Mutation) → AllHeld m m
unfolding lookup
AllHeld-refl [] = tt
AllHeld-refl ((key, v) ∷ m) =
    (ground (arith, text_eq_refl key), AllHeld-cons m m key v (AllHeld-refl m))

tally-held : (rest m : Dict Mutation) → AllHeld rest m → tally (held m) (keys rest) ≡ length rest
unfolding tally
tally-held [] m h = refl
tally-held ((key, v) ∷ rest) m h = ground (arith, tally-held rest m h.1)

tally-live :
    (rest updates deletes : Dict Mutation)
    → AllHeld rest updates
    → tally (live updates deletes) (keys rest) ≡ live_updates rest deletes
unfolding tally live_updates
tally-live [] updates deletes h = refl
tally-live ((key, v) ∷ rest) updates deletes h = ground (arith, tally-live rest updates deletes h.1)

-- The list that an apply sends has as many mutations as the tab counts: one for each draft, each
-- deletion, and each update of a row that is not staged for deletion as well.
pub length-mutations_snapshot : (m : Model) → length (mutations_snapshot m) ≡ change_count m
unfolding mutations_snapshot change_count sorted_mutation_keys
length-mutations_snapshot m =
    let ds = mutations_at (sort_texts (keys m.deletes)) m.deletes in
    let us = updates_at (sort_texts (keys m.updates)) m.updates m.deletes in
    omega (
      arith,
      length-append {0} ds,
      length-append us m.inserts,
      length-mutations_at (sort_texts (keys m.deletes)) m.deletes,
      length-updates_at (sort_texts (keys m.updates)) m.updates m.deletes,
      tally-sort_texts (held m.deletes) (keys m.deletes),
      tally-sort_texts (live m.updates m.deletes) (keys m.updates),
      tally-held m.deletes m.deletes (AllHeld-refl m.deletes),
      tally-live m.updates m.updates m.deletes (AllHeld-refl m.updates),
    )

-- A tab is dirty exactly when an apply would send something.
pub dirty_iff_sends : (m : Model) → (dirty m ≡ true) ↔ (0 < length (mutations_snapshot m))
unfolding dirty
dirty_iff_sends m = ground (arith, length-mutations_snapshot m)
