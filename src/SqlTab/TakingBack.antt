-- ===== src/SqlTab/TakingBack.antt =====
-- Insertions of text in a row, taken back and made again.

use db_tui.Common.{
  ℕ, zero, suc, ◌+◌, ◌≤◌, ◌≡◌, refl, ap, ◌∙◌, false, List, [], ◌∷◌, take, length, length-take, Text,
  text_eq, arith,
}
use db_tui.SqlTab.State.{Area, Terminal, Model}
use db_tui.SqlTab.Editor.{replace_selection, undo_edit, redo_edit}
use db_tui.SqlTab.Undone.{insertion, undoing, redoing, edited, edited_history, edited-history}
use db_tui.SqlTab.Undoing.{
  LawfulArea, History, write, undo, redo, history, spliced, IsTidy, replace_selection-history,
}

-- the text that `n` undos show
latest : ℕ → Text → List Text → Text
latest zero text past = text
latest (suc n) text [] = text
latest (suc n) text (before ∷ past) = latest n before past

undo_steps : ℕ → History → History
undo_steps zero h = h
undo_steps (suc n) h = undo_steps n (undo h)

redo_steps : ℕ → History → History
redo_steps zero h = h
redo_steps (suc n) h = redo (redo_steps n h)

latest-nil : (n : ℕ) (text : Text) → latest n text [] ≡ text
unfolding latest
latest-nil zero text = refl
latest-nil (suc n) text = refl

undo_steps-present :
    (n : ℕ) (past : List Text) (text : Text) (future : List Text)
    → (undo_steps n (record { past = past; present = text; future = future })).present
      ≡ latest n text past
unfolding undo_steps latest undo
undo_steps-present zero past text future = refl
undo_steps-present (suc n) [] text future = undo_steps-present n [] text future ∙ latest-nil n text
undo_steps-present (suc n) (before ∷ past) text future =
    undo_steps-present n past before (text ∷ future)

redo_steps-undo_steps :
    (n : ℕ) (past : List Text) (text : Text) (future : List Text)
    → n ≤ length past
    → redo_steps n (undo_steps n (record { past = past; present = text; future = future }))
      ≡ record { past = past; present = text; future = future }
unfolding undo_steps redo_steps undo redo
redo_steps-undo_steps zero past text future le = refl
redo_steps-undo_steps (suc n) [] text future le = ground arith
redo_steps-undo_steps (suc n) (before ∷ past) text future le =
    ap redo (redo_steps-undo_steps n past before (text ∷ future) (omega arith))

latest-take :
    (k n : ℕ) (text : Text) (past : List Text)
    → k ≤ n
    → latest k text (take n past) ≡ latest k text past
unfolding latest
latest-take zero n text past le = refl
latest-take (suc k) zero text past le = ground arith
latest-take (suc k) (suc n) text [] le = refl
latest-take (suc k) (suc n) text (before ∷ past) le = latest-take k n before past (omega arith)

module _ {A : Type 0} (area : Area A) (t : Terminal) where
  unfoldable pub inserted : List Text → Model A → Model A
  inserted [] m = m
  inserted (text ∷ texts) m = inserted texts (replace_selection area t m text)

  unfoldable pub undo_edits : ℕ → Model A → Model A
  undo_edits zero m = m
  undo_edits (suc n) m = undo_edits n (undo_edit area t m)

  unfoldable pub redo_edits : ℕ → Model A → Model A
  redo_edits zero m = m
  redo_edits (suc n) m = redo_edit area t (redo_edits n m)

  -- each text differs from the one before
  unfoldable pub AllChange : List Text → Model A → Type 0
  AllChange [] m = Unit
  AllChange (text ∷ texts) m =
      (text_eq (spliced area m text) (area.value m.editor) ≡ false)
      × AllChange texts (replace_selection area t m text)

module _ {A : Type 0} (area : Area A) (laws : LawfulArea area) (t : Terminal) where
  undo_edits-history :
      (n : ℕ) (m : Model A)
      → IsTidy area laws (history area m)
      → (history area (undo_edits area t n m) ≡ undo_steps n (history area m))
        × IsTidy area laws (history area (undo_edits area t n m))
  unfolding undo_edits undo_steps edited edited_history
  undo_edits-history zero m h = (refl, h)
  undo_edits-history (suc n) m h =
      let (step, kept) = edited-history area laws t undoing m h in
      let (steps, all_kept) = undo_edits-history n (undo_edit area t m) kept in
      (steps ∙ ap (undo_steps n) step, all_kept)

  redo_edits-history :
      (n : ℕ) (m : Model A)
      → IsTidy area laws (history area m)
      → (history area (redo_edits area t n m) ≡ redo_steps n (history area m))
        × IsTidy area laws (history area (redo_edits area t n m))
  unfolding redo_edits redo_steps edited edited_history
  redo_edits-history zero m h = (refl, h)
  redo_edits-history (suc n) m h =
      let (steps, kept) = redo_edits-history n m h in
      let (step, all_kept) = edited-history area laws t redoing (redo_edits area t n m) kept in
      (step ∙ ap redo steps, all_kept)

  inserted-IsTidy :
      (texts : List Text) (m : Model A)
      → IsTidy area laws (history area m)
      → IsTidy area laws (history area (inserted area t texts m))
  unfolding inserted edited edited_history
  inserted-IsTidy [] m h = h
  inserted-IsTidy (text ∷ texts) m h =
      inserted-IsTidy texts (replace_selection area t m text)
        (edited-history area laws t (insertion text) m h).1

  -- the past after an insertion that changes the text
  past-replace_selection :
      (m : Model A) (text : Text)
      → text_eq (spliced area m text) (area.value m.editor) ≡ false
      → (history area (replace_selection area t m text)).past
        ≡ area.value m.editor ∷ take 199 (history area m).past
  unfolding write
  past-replace_selection m text changed =
      ap (λ (h : History). h.past)
        (replace_selection-history area laws t m text
          ∙ ap (λ same. write same (laws.tidy (spliced area m text)) (history area m)) changed)

  latest-inserted :
      (n k : ℕ) (texts : List Text) (m : Model A)
      → AllChange area t texts m
      → n ≡ k + length texts
      → n ≤ 200
      → latest n
          (area.value (inserted area t texts m).editor)
          (history area (inserted area t texts m)).past
        ≡ latest k (area.value m.editor) (history area m).past
  unfolding inserted AllChange latest
  latest-inserted n k [] m h e le =
      ap (λ i. latest i (area.value m.editor) (history area m).past) (omega arith)
  latest-inserted n k (text ∷ texts) m (changed, rest) e le =
      let next = replace_selection area t m text in
      latest-inserted n (suc k) texts next rest (omega arith) le
      ∙ ap (latest (suc k) (area.value next.editor)) (past-replace_selection m text changed)
      ∙ latest-take k 199 (area.value m.editor) (history area m).past (omega arith)

  length-past :
      (n k : ℕ) (texts : List Text) (m : Model A)
      → AllChange area t texts m
      → k ≤ length (history area m).past
      → n ≡ k + length texts
      → n ≤ 200
      → n ≤ length (history area (inserted area t texts m)).past
  unfolding inserted AllChange
  length-past n k [] m h le e bound = omega arith
  length-past n k (text ∷ texts) m (changed, rest) le e bound =
      let next = replace_selection area t m text in
      let longer = ap length (past-replace_selection m text changed) in
      length-past n (suc k) texts next rest
        (omega (arith, longer, length-take 199 (history area m).past)) (omega arith) bound

  -- With a lawful widget, and a history whose texts are its own: up to 200 texts, inserted area t one after
  -- another, each over the selection and changing the text, are taken back by as many undos, which leave
  -- the text that was there, and made again by as many redos, which leave the text of the last.
  pub undo_edits-inserted :
      (texts : List Text) (m : Model A)
      → IsTidy area laws (history area m)
      → AllChange area t texts m
      → length texts ≤ 200
      → (area.value (undo_edits area t (length texts) (inserted area t texts m)).editor
          ≡ area.value m.editor)
        × (area.value
              (redo_edits area t
                (length texts)
                (undo_edits area t (length texts) (inserted area t texts m))).editor
            ≡ area.value (inserted area t texts m).editor)
  unfolding latest
  undo_edits-inserted texts m h changes bound =
      let n = length texts in
      let m' = inserted area t texts m in
      let now = history area m' in
      let (undone, kept) = undo_edits-history n m' (inserted-IsTidy texts m h) in
      let (redone, _) = redo_edits-history n (undo_edits area t n m') kept in
      (
        ap (λ (g : History). g.present) undone
            ∙ undo_steps-present n now.past now.present now.future
            ∙ latest-inserted n 0 texts m changes (omega arith) bound,
        ap (λ (g : History). g.present)
            (redone
              ∙ ap (redo_steps n) undone
              ∙ redo_steps-undo_steps n now.past now.present now.future
                  (length-past n 0 texts m changes (omega arith) (omega arith) bound)),
      )
