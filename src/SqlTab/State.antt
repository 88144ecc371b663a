-- ===== src/SqlTab/State.antt =====
-- internal/sqltab/model.go: the state of the tab, and the messages, keys and intents that it
-- exchanges. The text area is a widget of a library: `Area` holds the calls that the tab makes of it.
use db_tui.Common.{ℕ, Bool, true, false, List, [], Option, Text, lit}
use db_tui.Core.{RequestMeta, no_meta}
use db_tui.Grid.Types.{GoError}
use db_tui.Grid.State.{Mouse, Lifecycle, idle}
use db_tui.SqlTab.Types.{RunRequest, RunResult, no_result}

-- A key as the widget reads it. `modified`: ctrl, alt, meta, super or hyper is held.
pub record RawKey : Type 0 where
  pub code : ℕ
  pub text : Text
  pub shift : Bool
  pub modified : Bool

-- the keystrokes that the package names, and all others
pub data Key : Type 0 where
  key_esc key_enter key_tab key_backspace key_delete key_f5 key_f6 key_f7 : Key
  key_ctrl_a key_ctrl_c key_ctrl_x key_ctrl_y key_ctrl_z key_ctrl_shift_z : Key
  key_ctrl_enter key_ctrl_shift_enter key_up key_down key_left key_right : Key
  key_home key_end key_pgup key_pgdown key_ctrl_home key_ctrl_end : Key
  key_alt_left key_alt_right key_shift_left key_shift_right key_shift_up : Key
  key_shift_down key_shift_home key_shift_end key_ctrl_shift_home : Key
  key_ctrl_shift_end key_alt_shift_left key_alt_shift_right : Key
  key_c key_e key_h key_j key_k key_l key_n key_p key_v key_shift_c : Key
  key_open_brace key_close_brace other_key : Key

pub record KeyPress : Type 0 where
  pub keystroke : Key
  pub raw : RawKey

-- what a command sends: to the application, or to the terminal's clipboard
pub data Intent : Type 0 where
  execute_intent : RunRequest → Intent
  cancel_intent : Text → Intent
  leave_content_intent : Text → Intent
  set_clipboard : Text → Intent
  area_command : ℕ → Intent

-- A `tea.Cmd` is nil or returns one message.
abbrev pub Cmd : Type 0
Cmd = Option Intent

-- The text area, over its own state. A key gives a command of the widget's own, or none.
pub record Area (A : Type 0) : Type 0 where
  pub new : A
  pub value : A → Text
  pub line : A → ℕ
  pub column : A → ℕ
  pub set_value : Text → A → A
  pub set_width : ℕ → A → A
  pub set_height : ℕ → A → A
  pub move_to_begin : A → A
  pub move_to_end : A → A
  pub cursor_down : A → A
  pub set_cursor_column : ℕ → A → A
  pub focus : A → A
  pub blur : A → A
  pub press : RawKey → A → A × Option ℕ

-- `display_width` is ansi.StringWidth, and `is_space` is unicode.IsSpace.
pub record Terminal : Type 0 where
  pub display_width : Text → ℕ
  pub is_space : ℕ → Bool

pub data Pane : Type 0 where
  pane_editor pane_results : Pane

abbrev pub is_results_pane : Pane → Bool
is_results_pane pane_editor = false
is_results_pane pane_results = true

pub record EditorSnapshot : Type 0 where
  pub value : Text
  pub cursor : ℕ

pub record Selection : Type 0 where
  pub anchor : ℕ
  pub head : ℕ
  pub active : Bool

abbrev pub no_selection : Selection
no_selection = record { anchor = 0; head = 0; active = false }

-- `selected_rows` are the keys of the map, each once.
pub record Model (A : Type 0) : Type 0 where
  pub workspace : Text
  pub tab : Text
  pub title : Text
  pub editor : A
  pub text_mode : Bool
  pub pane : Pane
  pub selection : Selection
  pub undo : List EditorSnapshot
  pub redo : List EditorSnapshot
  pub editor_offset : ℕ
  pub editor_column_offset : ℕ
  pub dragging : Bool
  pub width : ℕ
  pub height : ℕ
  pub editor_height : ℕ
  pub last_run : RunRequest
  pub result_snapshot : Text
  pub result : RunResult
  pub stale : Bool
  pub active_output : ℕ
  pub result_page : ℕ
  pub selected_row : ℕ
  pub result_row_offset : ℕ
  pub selected_column : ℕ
  pub column_offset : ℕ
  pub selected_rows : List ℕ
  pub inspector : Bool
  pub inspector_scroll : ℕ
  pub next_request : ℕ
  pub active : RequestMeta
  pub lifecycle : Lifecycle
  pub cancelling : Bool
  pub status : Text

abbrev pub new_model : {A : Type 0} → Area A → Text → Text → Text → Model A
new_model area workspace tab title = record {
  workspace = workspace;
  tab = tab;
  title = title;
  editor = area.focus area.new;
  text_mode = true;
  pane = pane_editor;
  selection = no_selection;
  undo = [];
  redo = [];
  editor_offset = 0;
  editor_column_offset = 0;
  dragging = false;
  width = 0;
  height = 0;
  editor_height = 0;
  last_run = record { meta = no_meta; snapshot = [] };
  result_snapshot = [];
  result = no_result;
  stale = false;
  active_output = 0;
  result_page = 0;
  selected_row = 0;
  result_row_offset = 0;
  selected_column = 0;
  column_offset = 0;
  selected_rows = [];
  inspector = false;
  inspector_scroll = 0;
  next_request = 1;
  active = no_meta;
  lifecycle = idle;
  cancelling = false;
  status = lit "Editing SQL. Execute uses the full buffer.";
}

pub data Message : Type 0 where
  run_completed : RunResult → RequestMeta → Message
  run_failed : RunResult → GoError → RequestMeta → Message
  paste : Text → Message
  key_press : KeyPress → Message
  mouse_click : Mouse → Message
  mouse_motion : Mouse → Message
  mouse_release : Mouse → Message
  mouse_wheel : Mouse → Message
  other_message : Message
