-- ===== src/SqlTab/Cursor.antt =====
-- An offset, its line and column, and the offset of these.
use mathlib.Core.Path.{subst}
use db_tui.Common.{
  ℕ, zero, suc, ◌+◌, ◌-◌, ◌≤◌, ◌<◌, ◌≡◌, sym, ap, ◌∙◌, min, List, [], ◌∷◌, Text, arith, length,
  take, get_or, if◌then◌else◌, ◌==◌, Bool-cases, inl, inr,
}
use db_tui.SqlTab.Offsets.{
  newline, onto_first, split_lines, offset_of_line, offset_at, Position, position_from, position_at,
}

abbrev pub start : Position
start = record { line = 0; column = 0 }

-- where one position is, further on by another
abbrev beyond : Position → Position → Position
beyond at way = record {
  line = at.line + way.line;
  column = if way.line == 0 then at.column + way.column else way.column;
}

position_from-beyond :
    (line column : ℕ) (s : Text)
    → position_from (record { line = line; column = column }) s
      ≡ beyond (record { line = line; column = column }) (position_from start s)
unfolding position_from
position_from-beyond line column [] = ground arith
position_from-beyond line column (c ∷ s) = ground (
  arith,
  position_from-beyond (line + 1) 0 s,
  position_from-beyond line (column + 1) s,
  position_from-beyond 1 0 s,
  position_from-beyond 0 1 s,
)

-- the position stands in the lines, at the offset
abbrev pub IsAt : List Text → Position → ℕ → Type 0
IsAt lines at offset =
    (at.line < length lines)
    × (at.column ≤ length (get_or lines at.line []))
    × (offset_of_line lines at.line + at.column ≡ offset)

onto_first-IsAt :
    (c : ℕ) (lines : List Text) (line column offset : ℕ)
    → IsAt lines (record { line = line; column = column }) offset
    → IsAt
        (onto_first c lines)
        (beyond (record { line = 0; column = 1 }) (record { line = line; column = column }))
        (suc offset)
unfolding offset_of_line
onto_first-IsAt c [] line column offset h = ground arith
onto_first-IsAt c (l ∷ lines) zero column offset h = ground arith
onto_first-IsAt c (l ∷ lines) (suc line) column offset h = ground arith

next_line-IsAt :
    (lines : List Text) (line column offset : ℕ)
    → IsAt lines (record { line = line; column = column }) offset
    → IsAt
        ([] ∷ lines)
        (beyond (record { line = 1; column = 0 }) (record { line = line; column = column }))
        (suc offset)
unfolding offset_of_line
next_line-IsAt lines line column offset h = ground arith

onto_first_some : (c : ℕ) (lines : List Text) → 0 < length (onto_first c lines)
onto_first_some c [] = omega arith
onto_first_some c (l ∷ lines) = omega arith

split_lines_some : (s : Text) → 0 < length (split_lines s)
unfolding split_lines
split_lines_some [] = omega arith
split_lines_some (c ∷ s) = elim (Bool-cases (c == newline)) [
  | inl e ↦ rw e (omega arith)
  | inr e ↦ rw e (onto_first_some c (split_lines s))
]

same_place :
    (s : Text) (k : ℕ) (lines : List Text) (at : Position)
    → split_lines s ≡ lines
    → position_from start (take k s) ≡ at
    → IsAt lines at k
    → IsAt (split_lines s) (position_from start (take k s)) k
same_place s k lines at same_lines at_same h =
    subst (λ found. IsAt found (position_from start (take k s)) k) (sym same_lines)
      (subst (λ place. IsAt lines place k) (sym at_same) h)

pub position_from-IsAt :
    (k : ℕ) (s : Text) → k ≤ length s → IsAt (split_lines s) (position_from start (take k s)) k
unfolding position_from split_lines offset_of_line
position_from-IsAt zero s le = ground (arith, split_lines_some s)
position_from-IsAt (suc k) [] le = ground arith
position_from-IsAt (suc k) (c ∷ s) le =
    let at = position_from start (take k s) in
    let located = position_from-IsAt k s (omega arith) in
    let line_feed : Position = record { line = 1; column = 0 } in
    let character : Position = record { line = 0; column = 1 } in
    elim (Bool-cases (c == newline)) [
      | inl e ↦
          same_place (c ∷ s) (suc k) ([] ∷ split_lines s) (beyond line_feed at)
            (ap (λ b. if b then [] ∷ split_lines s else onto_first c (split_lines s)) e)
            (ap (λ b. position_from (if b then line_feed else character) (take k s)) e
              ∙ position_from-beyond 1 0 (take k s))
            (next_line-IsAt (split_lines s) at.line at.column k located)
      | inr e ↦
          same_place (c ∷ s) (suc k) (onto_first c (split_lines s)) (beyond character at)
            (ap (λ b. if b then [] ∷ split_lines s else onto_first c (split_lines s)) e)
            (ap (λ b. position_from (if b then line_feed else character) (take k s)) e
              ∙ position_from-beyond 0 1 (take k s))
            (onto_first-IsAt c (split_lines s) at.line at.column k located)
    ]

-- The offset of the place that an offset stands for, on the text alone.
pub offset_at-position_at :
    (value : Text) (offset : ℕ)
    → let at = position_at value offset in
      offset_at value at.line at.column ≡ min (length value) offset
unfolding offset_at position_at
offset_at-position_at value offset =
    let k = min (length value) offset in
    let at = position_from start (take k value) in
    let (inside, along, same) = position_from-IsAt k value (omega arith) in
    let lines = split_lines value in
    let here : min at.line (length lines - 1) ≡ at.line = omega (arith, inside) in
    ap (λ i. offset_of_line lines i + min at.column (length (get_or lines i []))) here
    ∙ omega (arith, along, same)
