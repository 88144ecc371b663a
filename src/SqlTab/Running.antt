-- ===== src/SqlTab/Running.antt =====
-- Which runs a message starts.
use db_tui.Common.{◌≡◌, ◌≢◌, refl, Bool, true, false, none, some, arith, Text}
use db_tui.Core.{RequestMeta, next_uint64, matches_iff}
use db_tui.Grid.Types.{GoError}
use db_tui.Grid.State.{Mouse}
use db_tui.SqlTab.Types.{RunResult}
use db_tui.SqlTab.State.{
  Area, Terminal, Model, Cmd, Key, KeyPress, Message, run_completed, run_failed, paste, key_press,
  mouse_click, mouse_motion, mouse_release, mouse_wheel, other_message,
}
use db_tui.SqlTab.Results.{reset_result_navigation}
use db_tui.SqlTab.Runs.{
  busy, start_run, run_meta, rerun, target_snapshot, execute, cancel_run, finish_run,
  finish_failed_run, run_cancelled, run_broken,
}
use db_tui.SqlTab.Typing.{update_editor}
use db_tui.SqlTab.Keys.{run_key, update_key}
use db_tui.SqlTab.Pointer.{SqlAction, action_at, click_action, update_mouse_click}
use db_tui.SqlTab.Update.{update, visit, update_paste}
use db_tui.SqlTab.Frame.{
  starts, replace_selection-SamePlace, editor_key-SamePlace, editor_key-starts,
}
use db_tui.SqlTab.Navigating.{
  tab_key-SameRun, inspector_key-SameRun, click_editor-SamePlace, click_result-SameRun,
  update_mouse_motion-SamePlace, update_mouse_wheel-SameRun,
}

module _ {A : Type 0} where
  -- No run is started, and the number stands; or one is, while none runs: the tab waits for its
  -- request, remembers it, and it has the number that was next.
  abbrev pub Issues : Model A → Model A → Cmd → Type 0
  Issues m n cmd = elim (starts cmd) [
    | none ↦ n.next_request ≡ m.next_request
    | some run ↦
        (busy m ≡ false)
        × (n.active ≡ run.meta)
        × (n.last_run ≡ run)
        × (run.meta.request ≡ m.next_request)
        × (n.next_request ≡ next_uint64 m.next_request)
  ]

  start_run-Issues :
      (m : Model A) (sql : Text) → busy m ≡ false → Issues m (start_run m sql).0 (start_run m sql).1
  unfolding start_run run_meta
  start_run-Issues m sql free = ground arith

  rerun-Issues : (m : Model A) → Issues m (rerun m).0 (rerun m).1
  unfolding rerun
  rerun-Issues m = ground (arith, start_run-Issues m m.last_run.snapshot)

module _ {A : Type 0} (area : Area A) (t : Terminal) where
  execute-Issues :
      (m : Model A) (every : Bool) → Issues m (execute area t m every).0 (execute area t m every).1
  unfolding execute
  execute-Issues m every = ground (arith, start_run-Issues m (target_snapshot area m every))

  run_key-Issues :
      (key : Key) (m : Model A) (press : KeyPress)
      → Issues m (run_key area t key m press).0 (run_key area t key m press).1
  unfolding run_key update_editor
  run_key-Issues key m press = ground (
    arith,
    execute-Issues m true,
    execute-Issues m false,
    rerun-Issues m,
    editor_key-SamePlace area t press.keystroke m press,
    editor_key-starts area t press.keystroke m press,
    tab_key-SameRun area t key m,
  )

  update_key-Issues :
      (m : Model A) (press : KeyPress)
      → Issues m (update_key area t m press).0 (update_key area t m press).1
  unfolding update_key cancel_run
  update_key-Issues m press = ground (
    arith,
    inspector_key-SameRun area t press.keystroke m,
    run_key-Issues press.keystroke m press,
  )

  click_action-Issues :
      (chosen : SqlAction) (m : Model A)
      → Issues m (click_action area t chosen m).0 (click_action area t chosen m).1
  unfolding click_action cancel_run
  click_action-Issues chosen m =
      ground (arith, execute-Issues m true, execute-Issues m false, rerun-Issues m)

  update_mouse_click-Issues :
      (m : Model A) (mouse : Mouse)
      → Issues m (update_mouse_click area t m mouse).0 (update_mouse_click area t m mouse).1
  unfolding update_mouse_click
  update_mouse_click-Issues m mouse = ground (
    arith,
    click_action-Issues (action_at mouse.x) m,
    click_editor-SamePlace area t m mouse,
    click_result-SameRun area t m mouse,
  )

  finish_run-next :
      (m : Model A) (result : RunResult) → (finish_run area m result).next_request ≡ m.next_request
  unfolding finish_run reset_result_navigation
  finish_run-next m result = ground arith

  finish_failed_run-next :
      (m : Model A) (partial : RunResult) (err : GoError)
      → (finish_failed_run area m partial err).next_request ≡ m.next_request
  unfolding finish_failed_run run_cancelled run_broken reset_result_navigation
  finish_failed_run-next m partial err = ground arith

  -- Every message, in every state, starts at most one run, and none while one runs: the tab then waits
  -- for exactly the request that the command carries, keeps it for another time, and has numbered it
  -- with the number that was next. Otherwise the next number stands.
  pub message-Issues :
      (m : Model A) (message : Message)
      → Issues m (update area t m message).0 (update area t m message).1
  unfolding update visit update_paste busy
  message-Issues m (run_completed result meta) = ground (arith, finish_run-next m result)
  message-Issues m (run_failed partial err meta) =
      ground (arith, finish_failed_run-next m partial err)
  message-Issues m (paste content) =
      ground (arith, replace_selection-SamePlace area t (visit area t m) content)
  message-Issues m (key_press press) = update_key-Issues (visit area t m) press
  message-Issues m (mouse_click mouse) = update_mouse_click-Issues (visit area t m) mouse
  message-Issues m (mouse_motion mouse) =
      ground (arith, update_mouse_motion-SamePlace area t (visit area t m) mouse)
  message-Issues m (mouse_release mouse) = refl
  message-Issues m (mouse_wheel mouse) =
      ground (arith, update_mouse_wheel-SameRun area t (visit area t m) mouse)
  message-Issues m other_message = refl

  -- A result for any other request than the one that runs changes nothing.
  pub reply_stale :
      (m : Model A) (result : RunResult) (err : GoError) (meta : RequestMeta)
      → m.active ≢ meta
      → (update area t m (run_completed result meta) ≡ (m, none))
        × (update area t m (run_failed result err meta) ≡ (m, none))
  unfolding update
  reply_stale m result err meta h = ground (arith, matches_iff m.active meta)
