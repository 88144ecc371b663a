-- ===== src/Grid/State.antt =====
-- internal/grid/model.go: the tab's state, and the messages, keys and intents that it exchanges.
-- `Platform` is what the package takes from libraries outside the repository.
use db_tui.Common.{ℕ, Bool, true, false, List, [], Option, none, Text, Dict, lit}
use db_tui.Core.{RequestMeta, no_meta}
use db_tui.Grid.Types.{
  RelationId, Relation, Page, Sort, no_sort, PageRequest, no_page_request, ApplyRequest,
  ApplyResult, Mutation, Value, GoError, nil_error,
}

-- `display_width` is ansi.StringWidth, `encoded` is fmt.Sprintf("%T:%#v"), `parse_float` and
-- `parse_time` say whether strconv.ParseFloat and time.Parse (layout, value) succeed, and
-- `lower` is strings.ToLower.
pub record Platform : Type 0 where
  pub display_width : Text → ℕ
  pub encoded : Value → Text
  pub parse_float : Text → Bool
  pub parse_time : Text → Text → Bool
  pub lower : Text → Text

pub data Lifecycle : Type 0 where
  idle running failed : Lifecycle

-- `no_operation` is the empty string.
pub data OperationKind : Type 0 where
  no_operation describe_operation page_operation apply_operation : OperationKind

pub data OverlayKind : Type 0 where
  overlay_none overlay_apply overlay_refresh overlay_revert_all : OverlayKind
  overlay_changes overlay_mutation_error : OverlayKind

abbrev pub is_overlay_none : OverlayKind → Bool
is_overlay_none overlay_none = true
is_overlay_none _ = false

pub record ActiveOperation : Type 0 where
  pub kind : OperationKind
  pub meta : RequestMeta

abbrev pub no_active : ActiveOperation
no_active = record { kind = no_operation; meta = no_meta }

pub record CellEditor : Type 0 where
  pub row : ℕ
  pub column : ℕ
  pub buffer : Text
  pub cursor : ℕ
  pub error : Text

pub record Model : Type 0 where
  pub workspace : Text
  pub tab : Text
  pub relation_id : RelationId
  pub relation : Option Relation
  pub page : Page
  pub sort : Sort
  pub page_number : ℕ
  pub pending_page : ℕ
  pub pending_request : PageRequest
  pub width : ℕ
  pub height : ℕ
  pub selected_row : ℕ
  pub selected_column : ℕ
  pub row_offset : ℕ
  pub column_offset : ℕ
  pub column_widths : List ℕ
  pub next_request : ℕ
  pub active : ActiveOperation
  pub lifecycle : Lifecycle
  pub status : Text
  pub err : GoError
  pub failed_kind : OperationKind
  pub inserts : List Mutation
  pub updates : Dict Mutation
  pub deletes : Dict Mutation
  pub next_draft : ℕ
  pub editor : Option CellEditor
  pub overlay : OverlayKind
  pub overlay_scroll : ℕ
  pub apply_snapshot : List Mutation
  pub apply_reload_first : Bool
  pub reload_after_apply : Option ApplyResult

abbrev pub new_model : Text → Text → RelationId → Model
new_model workspace tab relation = record {
  workspace = workspace;
  tab = tab;
  relation_id = relation;
  relation = none;
  page = record { rows = []; next_cursor = []; prev_cursor = []; best_effort = false };
  sort = no_sort;
  page_number = 0;
  pending_page = 0;
  pending_request = no_page_request;
  width = 0;
  height = 0;
  selected_row = 0;
  selected_column = 0;
  row_offset = 0;
  column_offset = 0;
  column_widths = [];
  next_request = 1;
  active = no_active;
  lifecycle = idle;
  status = lit "Preparing table metadata…";
  err = nil_error;
  failed_kind = no_operation;
  inserts = [];
  updates = [];
  deletes = [];
  next_draft = 1;
  editor = none;
  overlay = overlay_none;
  overlay_scroll = 0;
  apply_snapshot = [];
  apply_reload_first = false;
  reload_after_apply = none;
}

-- what a command sends to the application
pub data Intent : Type 0 where
  describe_intent : RelationId → RequestMeta → Intent
  load_page_intent : Relation → PageRequest → RequestMeta → Intent
  apply_intent : ApplyRequest → RequestMeta → Intent
  cancel_intent : Text → Intent

-- A `tea.Cmd` is nil or returns one intent.
abbrev pub Cmd : Type 0
Cmd = Option Intent

-- The keystrokes that the package names, and all others.
pub data Key : Type 0 where
  key_up key_down key_left key_right key_home key_end key_pgup key_pgdown : Key
  key_a key_d key_e key_f key_g key_h key_i key_j key_k key_l key_n key_p : Key
  key_r key_s key_u key_v key_z key_shift_g key_shift_u key_upper_u : Key
  key_enter key_esc key_backspace key_delete key_ctrl_a key_ctrl_c key_ctrl_e : Key
  other_key : Key

-- `modified`: ctrl, alt, meta, super or hyper is held.
pub record KeyPress : Type 0 where
  pub keystroke : Key
  pub text : Text
  pub modified : Bool

pub data MouseButton : Type 0 where
  mouse_left wheel_up wheel_down wheel_left wheel_right other_button : MouseButton

pub record Mouse : Type 0 where
  pub x : ℕ
  pub y : ℕ
  pub button : MouseButton
  pub shift : Bool

pub data Message : Type 0 where
  relation_described : Relation → RequestMeta → Message
  page_loaded : Page → RequestMeta → Message
  applied : ApplyResult → RequestMeta → Message
  operation_failed : OperationKind → GoError → RequestMeta → Message
  paste : Text → Message
  key_press : KeyPress → Message
  mouse_click : Mouse → Message
  mouse_wheel : Mouse → Message
  other_message : Message
