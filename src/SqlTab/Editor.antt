-- ===== src/SqlTab/Editor.antt =====
-- internal/sqltab/editor.go: the selection, replacing it, the history, and the scroll offsets.
use db_tui.Common.{
  ℕ, ◌+◌, ◌-◌, min, max, Bool, ◌&&◌, not, List, [], ◌∷◌, ◌++◌, Option, none, some, Text, lit,
  text_eq, length, get_or, take, drop, if◌then◌else◌, ltb, leb, ◌==◌,
}
use db_tui.Common.Decimal.{decimal}
use db_tui.Grid.Rows.{is_control, hex4}
use db_tui.SqlTab.State.{Area, Terminal, Model, EditorSnapshot, no_selection}
use db_tui.SqlTab.Offsets.{split_lines, cursor_offset, set_cursor_offset}

abbrev pub max_undo_history : ℕ
max_undo_history = 200

-- as it is shown
unfoldable pub safe_editor_rune : ℕ → Text
unfolding hex4 lit
safe_editor_rune c =
    if c == 9
    then b' ' ∷ b' ' ∷ []
    else if c == 13
    then lit "\\r"
    else if is_control c
    then lit "\\u" ++ hex4 c
    else c ∷ []

module _ (t : Terminal) where
  unfoldable pub editor_display_width : Text → ℕ
  unfolding safe_editor_rune
  editor_display_width [] = 0
  editor_display_width (c ∷ s) = t.display_width (safe_editor_rune c) + editor_display_width s

  -- the loop of `runeIndexAtDisplayColumn`
  unfoldable pub rune_index_from : Text → ℕ → ℕ → ℕ → ℕ
  unfolding safe_editor_rune
  rune_index_from [] column width index = index
  rune_index_from (c ∷ s) column width index =
      let next = width + t.display_width (safe_editor_rune c) in
      let rest = rune_index_from s column next (index + 1) in
      if ltb column next then index else rest

  unfoldable pub rune_index_at_display_column : Text → ℕ → ℕ
  unfolding rune_index_from
  rune_index_at_display_column value column =
      if column == 0 then 0 else rune_index_from value column 0 0

-- an offset moved so that a place of one cell is inside `size` cells
unfoldable pub shown_from : ℕ → ℕ → ℕ → ℕ
shown_from offset place size =
    let above = if ltb place offset then place else offset in
    if leb (above + size) place then place - size + 1 else above

abbrev pub gutter_width : List Text → ℕ
gutter_width lines = max 2 (length (decimal (length lines))) + 2

module _ {A : Type 0} (area : Area A) where
  unfoldable pub selection_bounds : Model A → ℕ × ℕ
  selection_bounds m =
      let limit = length (area.value m.editor) in
      let first = min m.selection.anchor m.selection.head in
      let last = max m.selection.anchor m.selection.head in (min limit first, min limit last)

  unfoldable pub has_selection : Model A → Bool
  unfolding selection_bounds
  has_selection m =
      let (first, last) = selection_bounds m in m.selection.active && not (first == last)

  unfoldable pub selected_text : Model A → Option Text
  unfolding has_selection selection_bounds
  selected_text m =
      let (first, last) = selection_bounds m in
      if has_selection m
      then some (take (last - first) (drop first (area.value m.editor)))
      else none

  unfoldable pub execution_target_status : Model A → Text
  unfolding has_selection lit
  execution_target_status m =
      if has_selection m
      then lit "Editing SQL. Execute targets the selection; Run all targets the buffer."
      else lit "Editing SQL. Execute targets the full buffer."

  unfoldable pub ensure_editor_visible : Terminal → Model A → Model A
  unfolding shown_from split_lines editor_display_width
  ensure_editor_visible t m =
      let lines = split_lines (area.value m.editor) in
      let rows = max 1 m.editor_height in
      let characters = get_or lines (min (area.line m.editor) (length lines - 1)) [] in
      let column = min (area.column m.editor) (length characters) in
      let available = max 1 (m.width - gutter_width lines) in
      record m {
        editor_offset =
            min (length lines - rows) (shown_from m.editor_offset (area.line m.editor) rows);
        editor_column_offset = min (editor_display_width t characters + 1 - available) (
            shown_from m.editor_column_offset (editor_display_width t (take column characters))
              available);
      }

  abbrev pub snapshot : Model A → EditorSnapshot
  snapshot m = record { value = area.value m.editor; cursor = cursor_offset area m }

  -- The head of the list is the last snapshot; the oldest are dropped.
  unfoldable pub push_undo : Model A → EditorSnapshot → Model A
  push_undo m before = record m { undo = take max_undo_history (before ∷ m.undo); redo = [] }

  -- the bounds of what is replaced: the selection, or the cursor
  unfoldable pub replaced_bounds : Model A → ℕ × ℕ
  unfolding has_selection selection_bounds cursor_offset
  replaced_bounds m =
      if has_selection m then selection_bounds m else (cursor_offset area m, cursor_offset area m)

  -- `value != before.Value`
  unfoldable pub push_if_changed : EditorSnapshot → Text → Model A → Model A
  unfolding push_undo
  push_if_changed before value m = if text_eq value before.value then m else push_undo m before

  unfoldable pub replace_selection : Terminal → Model A → Text → Model A
  unfolding replaced_bounds push_if_changed set_cursor_offset ensure_editor_visible
      execution_target_status
  replace_selection t m inserted =
      let before = snapshot m in
      let (first, last) = replaced_bounds m in
      let value = take first before.value ++ (inserted ++ drop last before.value) in
      let written = record m { editor = area.set_value value m.editor } in
      let placed = record (set_cursor_offset area written (first + length inserted)) {
        selection = no_selection;
      } in
      let shown = ensure_editor_visible t (push_if_changed before value placed) in
      record shown { status = execution_target_status shown }

  unfoldable pub restore_editor : Terminal → Model A → EditorSnapshot → Model A
  unfolding set_cursor_offset ensure_editor_visible
  restore_editor t m saved =
      let written = record m { editor = area.set_value saved.value m.editor } in
      ensure_editor_visible t
        (record (set_cursor_offset area written saved.cursor) { selection = no_selection })

  unfoldable pub undo_edit : Terminal → Model A → Model A
  unfolding restore_editor cursor_offset lit
  undo_edit t m = elim m.undo [
    | [] ↦ record m { status = lit "Nothing to undo." }
    | saved ∷ older ↦
        record (restore_editor t (record m { undo = older; redo = snapshot m ∷ m.redo }) saved) {
          status = lit "Undid the last edit.";
        }
  ]

  unfoldable pub redo_edit : Terminal → Model A → Model A
  unfolding restore_editor cursor_offset lit
  redo_edit t m = elim m.redo [
    | [] ↦ record m { status = lit "Nothing to redo." }
    | saved ∷ later ↦
        record (restore_editor t (record m { redo = later; undo = snapshot m ∷ m.undo }) saved) {
          status = lit "Redid the last edit.";
        }
  ]
