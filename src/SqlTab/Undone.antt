-- ===== src/SqlTab/Undone.antt =====
-- The edits of the text, as steps of the plain history.
use mathlib.Core.Path.{subst}
use db_tui.Common.{ℕ, zero, suc, ◌≡◌, sym, Bool, true, false, List, [], ◌∷◌, take, Text, text_eq}
use db_tui.SqlTab.State.{Area, Terminal, Model, RawKey}
use db_tui.SqlTab.Editor.{replace_selection, undo_edit, redo_edit}
use db_tui.SqlTab.Typing.{press_key}
use db_tui.SqlTab.Undoing.{
  LawfulArea, History, write, undo, redo, history, spliced, AllTidy, IsTidy,
  replace_selection-history, press_key-history, undo_edit-history, redo_edit-history,
}

pub data Edit : Type 0 where
  insertion : Text → Edit
  typing : RawKey → Edit
  undoing redoing : Edit

module _ {A : Type 0} (area : Area A) (t : Terminal) where
  -- one edit, as the keys make it
  unfoldable pub edited : Edit → Model A → Model A
  edited (insertion text) m = replace_selection area t m text
  edited (typing raw) m = (press_key area t m raw).0
  edited undoing m = undo_edit area t m
  edited redoing m = redo_edit area t m

module _ {A : Type 0} (area : Area A) (laws : LawfulArea area) where
  -- what it makes of the history
  unfoldable pub edited_history : Edit → Model A → History
  edited_history (insertion text) m =
      write (text_eq (spliced area m text) (area.value m.editor)) (laws.tidy (spliced area m text))
        (history area m)
  edited_history (typing raw) m =
      let typed = area.value (area.press raw m.editor).0 in
      write (text_eq typed (area.value m.editor)) typed (history area m)
  edited_history undoing m = undo (history area m)
  edited_history redoing m = redo (history area m)

  take-AllTidy :
      (n : ℕ) (texts : List Text) → AllTidy area laws texts → AllTidy area laws (take n texts)
  take-AllTidy zero texts h = tt
  take-AllTidy (suc n) [] h = tt
  take-AllTidy (suc n) (text ∷ texts) (h, hs) = (h, take-AllTidy n texts hs)

  write-IsTidy :
      (same : Bool) (text : Text) (h : History)
      → laws.tidy h.present ≡ h.present
      → IsTidy area laws h
      → IsTidy area laws (write same text h)
  unfolding write
  write-IsTidy true text h hp hs = hs
  write-IsTidy false text h hp hs = (take-AllTidy 200 (h.present ∷ h.past) (hp, hs.0), tt)

  undo-IsTidy :
      (past : List Text) (text : Text) (future : List Text)
      → laws.tidy text ≡ text
      → IsTidy area laws (record { past = past; present = text; future = future })
      → IsTidy area laws (undo (record { past = past; present = text; future = future }))
  unfolding undo
  undo-IsTidy [] text future hp hs = hs
  undo-IsTidy (before ∷ past) text future hp hs = (hs.0.1, (hp, hs.1))

  redo-IsTidy :
      (past : List Text) (text : Text) (future : List Text)
      → laws.tidy text ≡ text
      → IsTidy area laws (record { past = past; present = text; future = future })
      → IsTidy area laws (redo (record { past = past; present = text; future = future }))
  unfolding redo
  redo-IsTidy past text [] hp hs = hs
  redo-IsTidy past text (after ∷ future) hp hs = ((hp, hs.0), hs.1.1)

  edited_history-IsTidy :
      (e : Edit) (m : Model A)
      → IsTidy area laws (history area m)
      → IsTidy area laws (edited_history e m)
  unfolding edited_history
  edited_history-IsTidy (insertion text) m h =
      write-IsTidy (text_eq (spliced area m text) (area.value m.editor))
        (laws.tidy (spliced area m text)) (history area m) (laws.tidy-value m.editor) h
  edited_history-IsTidy (typing raw) m h =
      let typed = area.value (area.press raw m.editor).0 in
      write-IsTidy (text_eq typed (area.value m.editor)) typed (history area m)
        (laws.tidy-value m.editor) h
  edited_history-IsTidy undoing m h =
      let now = history area m in
      undo-IsTidy now.past now.present now.future (laws.tidy-value m.editor) h
  edited_history-IsTidy redoing m h =
      let now = history area m in
      redo-IsTidy now.past now.present now.future (laws.tidy-value m.editor) h

module _ {A : Type 0} (area : Area A) (laws : LawfulArea area) (t : Terminal) where
  history-edited :
      (e : Edit) (m : Model A)
      → IsTidy area laws (history area m)
      → history area (edited area t e m) ≡ edited_history area laws e m
  unfolding edited edited_history
  history-edited (insertion text) m h = replace_selection-history area laws t m text
  history-edited (typing raw) m h = press_key-history area laws t m raw
  history-edited undoing m (h, hs) = undo_edit-history area laws t m h
  history-edited redoing m (h, hs) = redo_edit-history area laws t m hs

  -- With a lawful widget, and a history whose texts are its own: an edit (a text inserted over the
  -- selection, a key that the widget handles, undo, redo) changes the texts of the history as the plain
  -- history does. A changed text drops what was undone and keeps the text before it, of the last 200;
  -- undo and redo step through it. The texts of the history stay the widget's own.
  pub edited-history :
      (e : Edit) (m : Model A)
      → IsTidy area laws (history area m)
      → (history area (edited area t e m) ≡ edited_history area laws e m)
        × IsTidy area laws (history area (edited area t e m))
  edited-history e m h =
      let step = history-edited e m h in
      (step, subst (IsTidy area laws) (sym step) (edited_history-IsTidy area laws e m h))
