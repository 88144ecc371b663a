-- ===== src/Grid/Editing.antt =====
-- The cell editor's buffer and cursor, against a text with a gap.
use db_tui.Common.{
  ℕ, suc, ◌+◌, ◌-◌, ◌≤◌, ◌≡◌, refl, ap, ◌∙◌, [], ◌∷◌, ◌++◌, Text, length, take, drop, length-append,
  length-take, length-drop, take-append-drop, take-append_exact, drop-append_exact, arith,
  Bool-cases, ltb, ltb→lt, inl, inr,
}
use mathlib.Core.List.{append_assoc}
use db_tui.Common.Int.{negsuc}
use db_tui.Grid.State.{CellEditor}
use db_tui.Grid.Editor.{insert_editor_text, delete_editor_rune, editor_position}

-- The cursor stands in the buffer.
abbrev pub IsWithin : CellEditor → Type 0
IsWithin e = e.cursor ≤ length e.buffer

-- the text on the two sides of the cursor
abbrev pub before_cursor : CellEditor → Text
before_cursor e = take e.cursor e.buffer

abbrev pub after_cursor : CellEditor → Text
after_cursor e = drop e.cursor e.buffer

position_within : (e : CellEditor) → IsWithin e → editor_position e ≡ e.cursor
position_within e h = omega arith

-- With the cursor inside the text, typed or pasted text goes in at the cursor, and the cursor behind
-- it; what stood on the two sides stays there.
pub insert_editor_text_splits :
    (e : CellEditor) (value : Text)
    → IsWithin e
    → let n = insert_editor_text e value in
      (n.buffer ≡ before_cursor e ++ (value ++ after_cursor e))
      × (before_cursor n ≡ before_cursor e ++ value)
      × (after_cursor n ≡ after_cursor e)
      × IsWithin n
unfolding insert_editor_text
insert_editor_text_splits e value h = rw (position_within e h) (
  refl,
  rw (← append_assoc) (
      take-append_exact (before_cursor e ++ value) (after_cursor e) (e.cursor + length value)
        sized),
  rw (← append_assoc) (
      drop-append_exact (before_cursor e ++ value) (after_cursor e) (e.cursor + length value)
        sized),
  omega (
    arith,
    length-append (before_cursor e) (value ++ after_cursor e),
    length-append value (after_cursor e),
    sized,
    length-append (before_cursor e) value,
  ),
)
  where
    sized : length (before_cursor e ++ value) ≡ e.cursor + length value
    sized = omega (arith, length-append (before_cursor e) value, length-take e.cursor e.buffer, h)

cursor-insert :
    (e : CellEditor) (c : ℕ) → IsWithin e → (insert_editor_text e (c ∷ [])).cursor ≡ suc e.cursor
unfolding insert_editor_text
cursor-insert e c h = omega arith

-- Backspace takes the character in front of the cursor, at the start of the text nothing.
pub backspace_lem :
    (e : CellEditor)
    → IsWithin e
    → let n = delete_editor_rune e (negsuc 0) in
      (n.buffer ≡ take (e.cursor - 1) e.buffer ++ after_cursor e)
      × (n.cursor ≡ e.cursor - 1)
      × IsWithin n
unfolding delete_editor_rune
backspace_lem e h = elim (Bool-cases (ltb 0 (editor_position e))) [
  | inl some_text ↦
      rw (some_text, position_within e h)
        (
          refl,
          refl,
          omega (
            arith,
            length-append (take (e.cursor - 1) e.buffer) (after_cursor e),
            length-take (e.cursor - 1) e.buffer,
            length-drop e.cursor e.buffer,
            ltb→lt 0 (editor_position e) some_text,
            position_within e h,
          ),
        )
  | inr at_start ↦
      let zero_cursor : e.cursor ≡ 0 = ground (arith, position_within e h) in
      rw (at_start, zero_cursor) (refl, omega arith, omega arith)
]

-- With the cursor inside the text, backspace undoes the typing of one character: the text and the
-- cursor are as before.
pub backspace-insert :
    (e : CellEditor) (c : ℕ)
    → IsWithin e
    → let n = delete_editor_rune (insert_editor_text e (c ∷ [])) (negsuc 0) in
      (n.buffer ≡ e.buffer) × (n.cursor ≡ e.cursor)
backspace-insert e c h =
    let n : CellEditor = insert_editor_text e (c ∷ []) in
    let (text, front, rest, within) = insert_editor_text_splits e (c ∷ []) h in
    let (cut, moved, _) = backspace_lem n within in
    let at : n.cursor ≡ suc e.cursor = cursor-insert e c h in
    (
      cut
          ∙ ap (λ k. take (k - 1) n.buffer ++ after_cursor n) at
          ∙ ap (λ t. take (suc e.cursor - 1) n.buffer ++ t) rest
          ∙ ap (λ k. take k n.buffer ++ after_cursor e) (omega arith)
          ∙ ap (λ t. take e.cursor t ++ after_cursor e) text
          ∙ ap (λ t. t ++ after_cursor e)
              (take-append_exact (before_cursor e) (c ∷ after_cursor e) e.cursor
                (omega (arith, length-take e.cursor e.buffer)))
          ∙ take-append-drop e.cursor e.buffer,
      omega (arith, moved, at),
    )
