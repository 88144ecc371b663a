-- ===== src/SqlTab/Samples.antt =====
-- A tab whose text area is a buffer with a cursor, with results of three rows, and the theorems at it.
use db_tui.Common.{
  ℕ, ◌+◌, ◌-◌, min, text_eq, ◌≡◌, ◌<◌, ◌≤◌, refl, ap, Bool, true, false, [], ◌∷◌, ◌++◌, none, some,
  List, Text, lit, arith, length, Option, ◌==◌, max, if◌then◌else◌,
}
use db_tui.Core.{RequestMeta, no_meta}
use db_tui.Grid.Types.{plain_error, Value}
use db_tui.Grid.State.{running}
use db_tui.SqlTab.Types.{Output, Cell, output_rows, no_result}
use db_tui.SqlTab.State.{
  KeyPress, key_f5, key_down, Area, Terminal, Model, new_model, pane_results, key_press, run_failed,
  run_completed,
}
use db_tui.SqlTab.Results.{current_rows, current_output}
use db_tui.SqlTab.Update.{update}
use db_tui.SqlTab.Frame.{starts}
use db_tui.SqlTab.Running.{Issues, message-Issues, reply_stale}
use db_tui.SqlTab.Answering.{completed, failed, reply_frees}
use db_tui.SqlTab.Offsets.{cursor_offset, set_cursor_offset}
use db_tui.SqlTab.Moving.{MovingArea, cursor_offset-set_cursor_offset}
use db_tui.SqlTab.Editor.{replace_selection}
use db_tui.SqlTab.Ended.{is_blank}
use db_tui.SqlTab.Runs.{busy, run_meta, target_snapshot, execute}
use db_tui.SqlTab.Undoing.{LawfulArea, IsTidy, history}
use db_tui.SqlTab.Undone.{insertion, edited, edited_history, edited-history}
use db_tui.SqlTab.Kept.{kept, kept-edited}
use db_tui.SqlTab.TakingBack.{inserted, undo_edits, redo_edits, AllChange, undo_edits-inserted}
use db_tui.SqlTab.Placing.{IsPlaced}
use db_tui.SqlTab.Placement.{update-IsPlaced}

record Buffer : Type 0 where
  content : Text
  row : ℕ
  place : ℕ

-- A key adds its text at the end.
abbrev buffer_area : Area Buffer
buffer_area = record {
  new = record { content = []; row = 0; place = 0 };
  value = λ b. b.content;
  line = λ b. b.row;
  column = λ b. b.place;
  set_value = λ text b. record b { content = text };
  set_width = λ n b. b;
  set_height = λ n b. b;
  move_to_begin = λ b. record b { row = 0; place = 0 };
  move_to_end = λ b. b;
  cursor_down = λ b. record b { row = b.row + 1 };
  set_cursor_column = λ n b. record b { place = n };
  focus = λ b. b;
  blur = λ b. b;
  press = λ raw b. (record b { content = b.content ++ raw.text }, none);
}

abbrev cells : Terminal
cells = record { display_width = length; is_space = λ c. c == 32 }

abbrev press_f5 : KeyPress
press_f5 = record {
  keystroke = key_f5;
  raw = record { code = 0; text = []; shift = false; modified = false };
}

abbrev press_down : KeyPress
press_down = record {
  keystroke = key_down;
  raw = record { code = 0; text = []; shift = false; modified = false };
}

abbrev blank_tab : Model Buffer
blank_tab = new_model buffer_area (lit "w") (lit "t") (lit "SQL")

abbrev tab : Model Buffer
tab = record blank_tab {
  width = 40;
  height = 20;
  editor_height = 10;
  editor = record { content = lit "a b"; row = 0; place = 3 };
}

abbrev cell_of : Text → Cell
cell_of text = record { raw = Value.nil_value; display = text; full = text; null = false }

abbrev three_rows : Output
three_rows = record {
  kind = output_rows;
  command_tag = [];
  affected_rows = db_tui.Common.Int.pos 3;
  columns = [];
  rows = (cell_of (lit "1") ∷ []) ∷ (cell_of (lit "2") ∷ []) ∷ (cell_of (lit "3") ∷ []) ∷ [];
  truncated = false;
  incomplete = false;
  duration = 0;
  error = none;
}

abbrev tab_with_rows : Model Buffer
tab_with_rows = record tab {
  text_mode = false;
  pane = pane_results;
  result = record no_result { outputs = three_rows ∷ [] };
  selected_row = 1;
}

message-Issues_example :
    Issues tab
      (update buffer_area cells tab (key_press press_f5)).0
      (update buffer_area cells tab (key_press press_f5)).1
message-Issues_example = message-Issues buffer_area cells tab (key_press press_f5)

reply_stale_example :
    (update buffer_area cells tab (run_completed no_result (record no_meta { request = 7 }))
      ≡ (tab, none))
    × (update buffer_area cells tab
          (run_failed no_result (plain_error (lit "no")) (record no_meta { request = 7 }))
        ≡ (tab, none))
reply_stale_example =
    reply_stale buffer_area cells tab no_result (plain_error (lit "no"))
      (record no_meta { request = 7 }) (λ e. omega (arith, ap (λ (m : RequestMeta). m.request) e))

update-IsPlaced_example : IsPlaced (update buffer_area cells tab_with_rows (key_press press_down)).0
unfolding current_rows current_output
update-IsPlaced_example =
    update-IsPlaced buffer_area cells tab_with_rows (key_press press_down)
      (omega arith, omega arith, omega arith)

abbrev run_7 : RequestMeta
run_7 = record no_meta { operation = b'r' ∷ []; request = 7 }

reply_frees_example :
    let m = record tab { active = run_7; lifecycle = running } in
    let message = run_failed no_result (plain_error (lit "no")) run_7 in
    let again = run_completed no_result run_7 in
    let n = (update buffer_area cells m message).0 in
    (busy n ≡ false)
    × (update buffer_area cells n again ≡ (n, none))
    × (starts (execute buffer_area cells n true).1 ≡ (
        if is_blank cells (target_snapshot buffer_area n true)
        then none
        else some (record { meta = run_meta n; snapshot = target_snapshot buffer_area n true })))
reply_frees_example =
    reply_frees buffer_area cells (record tab { active = run_7; lifecycle = running }) run_7
      (run_failed no_result (plain_error (lit "no")) run_7) (run_completed no_result run_7) true
      (failed no_result (plain_error (lit "no"))) (completed no_result) refl
      (λ e. omega (arith, ap length e))

-- The buffer keeps every text as it is.
abbrev buffer_laws : LawfulArea buffer_area
buffer_laws = record {
  tidy = λ text. text;
  value-set_value = λ text b. refl;
  tidy-value = λ b. refl;
  value-move_to_begin = λ b. refl;
  value-cursor_down = λ b. refl;
  value-set_cursor_column = λ n b. refl;
}

-- The buffer wraps no line.
abbrev buffer_moves : MovingArea buffer_area
buffer_moves = record {
  IsUnwrapped = λ b. Unit;
  move_to_begin-IsUnwrapped = λ b h. tt;
  cursor_down-IsUnwrapped = λ b h. tt;
  line-move_to_begin = λ b. refl;
  line-cursor_down = λ b h inside. refl;
  line-set_cursor_column = λ n b. refl;
  column-set_cursor_column = λ n b inside. refl;
}

abbrev two_line_tab : Model Buffer
two_line_tab = record tab {
  editor = record { content = b'a' ∷ 10 ∷ b'b' ∷ b'c' ∷ []; row = 0; place = 0 };
}

cursor_offset-set_cursor_offset_example :
    cursor_offset buffer_area (set_cursor_offset buffer_area two_line_tab 3) ≡ min 4 3
cursor_offset-set_cursor_offset_example =
    cursor_offset-set_cursor_offset buffer_area buffer_laws buffer_moves two_line_tab 3 tt

edited-history_example :
    (history buffer_area (edited buffer_area cells (insertion (lit "c")) tab)
      ≡ edited_history buffer_area buffer_laws (insertion (lit "c")) tab)
    × IsTidy buffer_area buffer_laws
        (history buffer_area (edited buffer_area cells (insertion (lit "c")) tab))
edited-history_example =
    edited-history buffer_area buffer_laws cells (insertion (lit "c")) tab (tt, tt)

abbrev two_texts : List Text
two_texts = lit "c" ∷ lit "d" ∷ []

undo_edits-inserted_example :
    let m = inserted buffer_area cells two_texts tab in
    ((undo_edits buffer_area cells 2 m).editor.content ≡ lit "a b")
    × ((redo_edits buffer_area cells 2 (undo_edits buffer_area cells 2 m)).editor.content
        ≡ m.editor.content)
unfolding AllChange replace_selection text_eq
undo_edits-inserted_example =
    undo_edits-inserted buffer_area buffer_laws cells two_texts tab (tt, tt) (refl, (refl, tt))
      (omega arith)

kept-edited_example : kept (edited buffer_area cells (insertion (lit "c")) tab) ≤ 200
kept-edited_example = kept-edited buffer_area cells (insertion (lit "c")) tab (omega arith)
