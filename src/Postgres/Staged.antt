-- ===== src/Postgres/Staged.antt =====
-- Which columns a statement has, and in what order.
use mathlib.Core.Path.{subst}
use db_tui.Common.{
  ℕ, ◌≡◌, refl, sym, ap, Bool, false, ◌&&◌, not, has, keys, lookup, filter_by, map, length, List,
  [], ◌∷◌, ◌++◌, Text, text_eq, text_eq_iff, arith, Dict, Distinct, NoKey, Bool-cases, inl, inr,
  if◌then◌else◌,
}
use db_tui.Common.Sort.{sort_texts, sort_texts-IsAscending, IsAscending, tally, tally-sort_texts}
use db_tui.Grid.Types.{Column, Relation, StagedValue}
use db_tui.Postgres.Statements.{
  unknown_column, is_column, is_insertable, is_updatable, ordered_mutation_columns,
}

-- some of the entries, in their order
pub data Subsequence {A : Type 0} : List A → List A → Type 0 where
  nothing : Subsequence [] []
  skipped : {x : A} {xs ys : List A} → Subsequence xs ys → Subsequence xs (x ∷ ys)
  taken : {x : A} {xs ys : List A} → Subsequence xs ys → Subsequence (x ∷ xs) (x ∷ ys)

-- how many columns have the name
abbrev pub times : Text → List Column → ℕ
times name columns = length (filter_by (λ (c : Column). text_eq c.name name) columns)

-- no statement takes one of these
abbrev pub AllRefused : List Column → Type 0
AllRefused [] = Unit
AllRefused (c ∷ columns) = (is_insertable c ≡ false) × (is_updatable c ≡ false) × AllRefused columns

-- The columns for staged values: first those of the relation that have a value, each as often as it is
-- there and in the relation's order; then one for each name that the relation does not have, by name,
-- which no statement takes.
pub record Listed (relation : Relation) (values : Dict StagedValue) (columns : List Column)
    : Type 0 where
  pub known : List Column
  pub unknown : List Column
  pub parts : columns ≡ known ++ unknown
  pub known_order : Subsequence known relation.columns
  pub known_all :
      (name : Text)
      → times name known ≡ (if has name values then times name relation.columns else 0)
  pub unknown_order : IsAscending (map (λ (c : Column). c.name) unknown)
  pub unknown_once :
      (name : Text)
      → times name unknown
        ≡ (if has name values && not (is_column relation.columns name) then 1 else 0)
  pub unknown_refused : AllRefused unknown

filter_by-Subsequence : {A : Type 0} (p : A → Bool) (xs : List A) → Subsequence (filter_by p xs) xs
filter_by-Subsequence p [] = nothing
filter_by-Subsequence p (x ∷ xs) = elim (Bool-cases (p x)) [
  | inl kept ↦ rw kept (taken (filter_by-Subsequence p xs))
  | inr left ↦ rw left (skipped (filter_by-Subsequence p xs))
]

map-unknown_column : (ks : List Text) → map (λ (c : Column). c.name) (map unknown_column ks) ≡ ks
map-unknown_column [] = refl
map-unknown_column (k ∷ ks) = ap (λ rest. k ∷ rest) (map-unknown_column ks)

unknown_column-AllRefused : (ks : List Text) → AllRefused (map unknown_column ks)
unknown_column-AllRefused [] = tt
unknown_column-AllRefused (k ∷ ks) = (refl, refl, unknown_column-AllRefused ks)

module _ (name : Text) where
  abbrev one_if_named : Text → ℕ
  one_if_named k = if text_eq k name then 1 else 0

  times-known :
      (values : Dict StagedValue) (columns : List Column)
      → times name (filter_by (λ (c : Column). has c.name values) columns)
        ≡ (if has name values then times name columns else 0)
  times-known values [] = ground arith
  times-known values (c ∷ columns) = elim (Bool-cases (text_eq c.name name)) [
    | inl same ↦ ground (
      arith,
      ap (λ n. has n values) ((text_eq_iff c.name name).0 same),
      times-known values columns,
    )
    | inr other ↦ ground (arith, times-known values columns)
  ]

  times-unknown_column :
      (ks : List Text) → times name (map unknown_column ks) ≡ tally one_if_named ks
  unfolding tally
  times-unknown_column [] = refl
  times-unknown_column (k ∷ ks) = ground (arith, times-unknown_column ks)

  tally-unlisted :
      (p : Text → Bool) (ks : List Text)
      → tally one_if_named (filter_by p ks) ≡ (if p name then tally one_if_named ks else 0)
  unfolding tally
  tally-unlisted p [] = ground arith
  tally-unlisted p (k ∷ ks) = elim (Bool-cases (text_eq k name)) [
    | inl same ↦ ground (arith, ap p ((text_eq_iff k name).0 same), tally-unlisted p ks)
    | inr other ↦ ground (arith, tally-unlisted p ks)
  ]

  tally-NoKey :
      (values : Dict StagedValue) → NoKey name values → tally one_if_named (keys values) ≡ 0
  unfolding tally
  tally-NoKey [] h = refl
  tally-NoKey ((k, v) ∷ values) h = ground (arith, tally-NoKey values)

  tally-keys :
      (values : Dict StagedValue)
      → Distinct values
      → tally one_if_named (keys values) ≡ (if has name values then 1 else 0)
  unfolding tally lookup
  tally-keys [] h = refl
  tally-keys ((k, v) ∷ values) (new, rest) = elim (Bool-cases (text_eq k name)) [
    | inl same ↦
        ground (
          arith,
          tally-NoKey values (subst (λ n. NoKey n values) ((text_eq_iff k name).0 same) new),
        )
    | inr other ↦ ground (arith, tally-keys values rest)
  ]

  times-unknown :
      (listed : Text → Bool) (values : Dict StagedValue)
      → Distinct values
      → times name (map unknown_column (sort_texts (filter_by listed (keys values))))
        ≡ (if has name values && listed name then 1 else 0)
  times-unknown listed values once = ground (
    arith,
    times-unknown_column (sort_texts (filter_by listed (keys values))),
    tally-sort_texts one_if_named (filter_by listed (keys values)),
    tally-unlisted listed (keys values),
    tally-keys values once,
  )

-- The columns that a statement is built from, for staged values with one value for a name: first the
-- relation's columns that have a value, in the relation's order and as often as they are there, then
-- one column for each staged name that the relation does not have, in the order of the names; these
-- last can be neither inserted nor updated.
pub ordered_mutation_columns-Listed :
    (relation : Relation) (values : Dict StagedValue)
    → Distinct values
    → Listed relation values (ordered_mutation_columns relation values)
unfolding ordered_mutation_columns
ordered_mutation_columns-Listed relation values once =
    let listed = λ (k : Text). not (is_column relation.columns k) in
    let names = sort_texts (filter_by listed (keys values)) in
    record {
      known = filter_by (λ (c : Column). has c.name values) relation.columns;
      unknown = map unknown_column names;
      parts = refl;
      known_order = filter_by-Subsequence (λ (c : Column). has c.name values) relation.columns;
      known_all = λ name. times-known name values relation.columns;
      unknown_order =
          subst IsAscending (sym (map-unknown_column names))
            (sort_texts-IsAscending (filter_by listed (keys values)));
      unknown_once = λ name. times-unknown name listed values once;
      unknown_refused = unknown_column-AllRefused names;
    }
