-- ===== src/Grid/Races.antt =====
-- Clicks are handled while an operation runs, unlike keys.
use db_tui.Common.{◌+◌, ◌<◌, ◌≡◌, ◌⊎◌, true, [], ◌∷◌, none, some, arith, length, length-append}
use db_tui.Core.{RequestMeta}
use db_tui.Grid.Types.{Relation, ApplyResult}
use db_tui.Grid.State.{
  Platform, Model, Mouse, mouse_left, mouse_click, applied, apply_operation, overlay_none, KeyPress,
  key_press, cancel_intent,
}
use db_tui.Grid.Requests.{is_current, start_page, busy, clear_active}
use db_tui.Grid.Rows.{compute_column_widths}
use db_tui.Grid.Stage.{draft}
use db_tui.Grid.Actions.{stage_insert, clear_changes}
use db_tui.Grid.Results.{on_applied, after_apply}
use db_tui.Grid.Pointer.{update_mouse, click_table, click_action, grid_action_at, is_left}
use db_tui.Grid.Update.{update, update_key_message, on_cancel_key}

-- the click on `[Insert i]` of the action line
abbrev pub IsInsertClick : Mouse → Type 0
IsInsertClick mouse = (mouse.button ≡ mouse_left) × (mouse.y ≡ 2) × (mouse.x < 10)

module _ (p : Platform) (m : Model) (relation : Relation) (mouse : Mouse) (result : ApplyResult)
    (meta : RequestMeta) (known : m.relation ≡ some relation) (can : relation.can_insert ≡ true)
    (closed : m.editor ≡ none) (bare : m.overlay ≡ overlay_none)
    (applying : is_current m apply_operation meta ≡ true) (click : IsInsertClick mouse) where
  click-insert : update p m (mouse_click mouse) ≡ (stage_insert p m, none)
  unfolding update update_mouse click_table click_action grid_action_at is_left
  click-insert = ground arith

  inserted :
      let n = stage_insert p m in
      (length n.inserts ≡ length m.inserts + 1)
      × (n.apply_snapshot ≡ m.apply_snapshot)
      × (is_current n apply_operation meta ≡ true)
  unfolding stage_insert compute_column_widths is_current
  inserted = ground (arith, length-append m.inserts (draft m.next_draft ∷ []))

  applied-clears :
      (n : Model)
      → is_current n apply_operation meta ≡ true
      → (update p n (applied result meta)).0.inserts ≡ []
  unfolding update on_applied after_apply clear_changes compute_column_widths start_page
      clear_active
  applied-clears n current = ground arith

  -- A draft that is added by a click while an apply runs is lost: the tab takes it, it is not in the
  -- list that was sent, and the success of that apply clears it with the changes that were sent.
  pub clicked_draft_lost :
      let n = (update p m (mouse_click mouse)).0 in
      (length n.inserts ≡ length m.inserts + 1)
      × (n.apply_snapshot ≡ m.apply_snapshot)
      × ((update p n (applied result meta)).0.inserts ≡ [])
  clicked_draft_lost =
      rw click-insert (inserted.0, inserted.1, applied-clears (stage_insert p m) inserted.2)

-- While an operation runs, a key changes nothing but the status, and starts nothing but the
-- cancellation of that operation.
pub busy_keys :
    (p : Platform) (m : Model) (press : KeyPress)
    → busy m ≡ true
    → let (n, cmd) = update p m (key_press press) in
      (n ≡ record m { status = n.status })
      × ((cmd ≡ none) ⊎ (cmd ≡ some (cancel_intent m.active.meta.operation)))
unfolding update update_key_message on_cancel_key
busy_keys p m press h = ground arith
