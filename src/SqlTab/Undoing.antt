-- ===== src/SqlTab/Undoing.antt =====
-- The history of the text, without its cursors: what was, what is, and what was undone.
use db_tui.Common.{
  ℕ, zero, suc, ◌+◌, ◌≡◌, refl, ap, ◌∙◌, Bool, true, false, List, [], ◌∷◌, ◌++◌, map, take, drop,
  length, Text, text_eq, text_eq_iff, inl, inr, Bool-cases,
}
use db_tui.SqlTab.State.{Area, Terminal, Model, EditorSnapshot, RawKey, no_selection}
use db_tui.SqlTab.Offsets.{set_cursor_offset, cursor_down_by, position_at}
use db_tui.SqlTab.Editor.{
  ensure_editor_visible, push_undo, push_if_changed, replaced_bounds, replace_selection,
  restore_editor, undo_edit, redo_edit, max_undo_history, snapshot,
}
use db_tui.SqlTab.Typing.{press_key}

-- What the tab relies on: the widget keeps a text that it may first tidy, one of its own as it is,
-- and moving the cursor keeps the text.
pub record LawfulArea {A : Type 0} (area : Area A) : Type 0 where
  pub tidy : Text → Text
  pub value-set_value : (text : Text) (a : A) → area.value (area.set_value text a) ≡ tidy text
  pub tidy-value : (a : A) → tidy (area.value a) ≡ area.value a
  pub value-move_to_begin : (a : A) → area.value (area.move_to_begin a) ≡ area.value a
  pub value-cursor_down : (a : A) → area.value (area.cursor_down a) ≡ area.value a
  pub value-set_cursor_column :
      (n : ℕ) (a : A) → area.value (area.set_cursor_column n a) ≡ area.value a

pub record History : Type 0 where
  pub past : List Text
  pub present : Text
  pub future : List Text

-- a text written over the present one; `same` if it is that text
unfoldable pub write : Bool → Text → History → History
write true text h = h
write false text h = record {
  past = take max_undo_history (h.present ∷ h.past);
  present = text;
  future = [];
}

unfoldable pub undo : History → History
undo h = elim h.past [
  | [] ↦ h
  | text ∷ past ↦ record { past = past; present = text; future = h.present ∷ h.future }
]

unfoldable pub redo : History → History
redo h = elim h.future [
  | [] ↦ h
  | text ∷ future ↦ record { past = h.present ∷ h.past; present = text; future = future }
]

abbrev pub text_of : EditorSnapshot → Text
text_of saved = saved.value

module _ {A : Type 0} (area : Area A) where
  abbrev pub history : Model A → History
  history m = record {
    past = map text_of m.undo;
    present = area.value m.editor;
    future = map text_of m.redo;
  }

  -- the text that replacing the selection asks for
  abbrev pub spliced : Model A → Text → Text
  spliced m inserted =
      let (first, last) = replaced_bounds area m in
      take first (area.value m.editor) ++ (inserted ++ drop last (area.value m.editor))

  abbrev pub AllTidy : LawfulArea area → List Text → Type 0
  AllTidy laws [] = Unit
  AllTidy laws (text ∷ rest) = (laws.tidy text ≡ text) × AllTidy laws rest

  -- the texts that the tab would put back are the widget's own
  abbrev pub IsTidy : LawfulArea area → History → Type 0
  IsTidy laws h = AllTidy laws h.past × AllTidy laws h.future

map-take :
    (n : ℕ) (saved : List EditorSnapshot) → map text_of (take n saved) ≡ take n (map text_of saved)
map-take zero saved = refl
map-take (suc n) [] = refl
map-take (suc n) (s ∷ saved) = ap (λ rest. s.value ∷ rest) (map-take n saved)

module _ {A : Type 0} (area : Area A) (laws : LawfulArea area) where
  pub value-cursor_down_by : (n : ℕ) (a : A) → area.value (cursor_down_by area n a) ≡ area.value a
  unfolding cursor_down_by
  value-cursor_down_by zero a = refl
  value-cursor_down_by (suc n) a =
      value-cursor_down_by n (area.cursor_down a) ∙ laws.value-cursor_down a

module _ {A : Type 0} (area : Area A) (laws : LawfulArea area) (t : Terminal) where
  value-set_cursor_offset :
      (m : Model A) (n : ℕ) → area.value (set_cursor_offset area m n).editor ≡ area.value m.editor
  unfolding set_cursor_offset
  value-set_cursor_offset m n =
      let at = position_at (area.value m.editor) n in
      let begun = area.move_to_begin m.editor in
      laws.value-set_cursor_column at.column (cursor_down_by area at.line begun)
      ∙ value-cursor_down_by area laws at.line begun
      ∙ laws.value-move_to_begin m.editor

  restore_editor-history :
      (m : Model A) (saved : EditorSnapshot)
      → laws.tidy saved.value ≡ saved.value
      → history area (restore_editor area t m saved)
        ≡ record (history area m) { present = saved.value }
  unfolding restore_editor ensure_editor_visible set_cursor_offset
  restore_editor-history m saved h =
      let written = record m { editor = area.set_value saved.value m.editor } in
      ap (λ text. record (history area m) { present = text })
        (value-set_cursor_offset written saved.cursor
          ∙ laws.value-set_value saved.value m.editor
          ∙ h)

  -- after a push, whatever else has changed
  push_undo-history :
      (m placed : Model A) (text : Text)
      → placed.undo ≡ m.undo
      → area.value placed.editor ≡ text
      → history area (push_undo area placed (snapshot area m)) ≡ write false text (history area m)
  unfolding push_undo write
  push_undo-history m placed text hu ht = rw (hu, ht, map-take 199 m.undo) refl

  pub replace_selection-history :
      (m : Model A) (inserted : Text)
      → history area (replace_selection area t m inserted)
        ≡ write
            (text_eq (spliced area m inserted) (area.value m.editor))
            (laws.tidy (spliced area m inserted))
            (history area m)
  unfolding replace_selection ensure_editor_visible push_if_changed set_cursor_offset write
  replace_selection-history m inserted =
      let text = spliced area m inserted in
      let written = record m { editor = area.set_value text m.editor } in
      let end = (replaced_bounds area m).0 + length inserted in
      let kept = value-set_cursor_offset written end ∙ laws.value-set_value text m.editor in
      elim (Bool-cases (text_eq text (area.value m.editor))) [
        | inl same ↦ rw same (
            ap (λ present. record (history area m) { present = present })
              (kept
                ∙ ap laws.tidy ((text_eq_iff text (area.value m.editor)).0 same)
                ∙ laws.tidy-value m.editor))
        | inr new ↦ rw new (
            push_undo-history m
              (record (set_cursor_offset area written end) { selection = no_selection })
              (laws.tidy text) refl kept)
      ]

  pub press_key-history :
      (m : Model A) (raw : RawKey)
      → let typed = area.value (area.press raw m.editor).0 in
        history area (press_key area t m raw).0
        ≡ write (text_eq typed (area.value m.editor)) typed (history area m)
  unfolding press_key ensure_editor_visible push_undo write
  press_key-history m raw =
      let typed = area.value (area.press raw m.editor).0 in
      elim (Bool-cases (text_eq typed (area.value m.editor))) [
        | inl same ↦ rw same (
            ap (λ present. record (history area m) { present = present })
              ((text_eq_iff typed (area.value m.editor)).0 same))
        | inr new ↦ rw new (
            push_undo-history m (record m { editor = (area.press raw m.editor).0 }) typed refl refl)
      ]

  undo_from :
      (m : Model A) (saved : List EditorSnapshot)
      → m.undo ≡ saved
      → AllTidy area laws (map text_of saved)
      → history area (undo_edit area t m) ≡ undo (history area m)
  unfolding undo_edit undo
  undo_from m [] e h = rw e refl
  undo_from m (s ∷ older) e (h, hs) =
      rw e (restore_editor-history (record m { undo = older; redo = snapshot area m ∷ m.redo }) s h)

  pub undo_edit-history :
      (m : Model A)
      → AllTidy area laws (history area m).past
      → history area (undo_edit area t m) ≡ undo (history area m)
  undo_edit-history m h = undo_from m m.undo refl h

  redo_from :
      (m : Model A) (saved : List EditorSnapshot)
      → m.redo ≡ saved
      → AllTidy area laws (map text_of saved)
      → history area (redo_edit area t m) ≡ redo (history area m)
  unfolding redo_edit redo
  redo_from m [] e h = rw e refl
  redo_from m (s ∷ later) e (h, hs) =
      rw e (restore_editor-history (record m { redo = later; undo = snapshot area m ∷ m.undo }) s h)

  pub redo_edit-history :
      (m : Model A)
      → AllTidy area laws (history area m).future
      → history area (redo_edit area t m) ≡ redo (history area m)
  redo_edit-history m h = redo_from m m.redo refl h
