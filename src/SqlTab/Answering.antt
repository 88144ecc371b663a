-- ===== src/SqlTab/Answering.antt =====
-- What the answer to a run leaves: a tab that is free for another.
use db_tui.Common.{
  ◌≡◌, ◌≢◌, sym, ◌∙◌, ap, Bool, false, none, some, arith, [], text_eq, not, if◌then◌else◌,
}
use db_tui.Core.{RequestMeta, no_meta, matches_iff}
use db_tui.Grid.Types.{GoError, as_core_error}
use db_tui.SqlTab.Types.{RunResult}
use db_tui.SqlTab.State.{Area, Terminal, Model, Message, run_completed, run_failed}
use db_tui.SqlTab.Results.{reset_result_navigation}
use db_tui.SqlTab.Ended.{is_blank}
use db_tui.SqlTab.Runs.{
  busy, start_run, run_meta, target_snapshot, execute, finish_run, finish_failed_run, run_cancelled,
  run_broken,
}
use db_tui.SqlTab.Update.{update}
use db_tui.SqlTab.Frame.{starts}
use db_tui.SqlTab.Running.{reply_stale}

-- the answer to a request, whether the run worked or not
pub data Answer (meta : RequestMeta) : Message → Type 0 where
  completed : (result : RunResult) → Answer meta (run_completed result meta)
  failed : (partial : RunResult) (err : GoError) → Answer meta (run_failed partial err meta)

module _ {A : Type 0} (area : Area A) (t : Terminal) where
  reply_active :
      (m : Model A) (meta : RequestMeta) (message : Message)
      → Answer meta message
      → m.active ≡ meta
      → (update area t m message).0.active ≡ no_meta
  unfolding update finish_run finish_failed_run run_cancelled run_broken reset_result_navigation
  reply_active m meta message (completed result) same = ground (arith, matches_iff m.active meta)
  reply_active m meta message (failed partial err) same = ground (arith, matches_iff m.active meta)

  reply_unheard :
      (m : Model A) (meta : RequestMeta) (message : Message)
      → Answer meta message
      → m.active ≢ meta
      → update area t m message ≡ (m, none)
  reply_unheard m meta message (completed result) other =
      (reply_stale area t m result (db_tui.Grid.Types.plain_error []) meta other).0
  reply_unheard m meta message (failed partial err) other =
      (reply_stale area t m partial err meta other).1

  execute-starts :
      (m : Model A) (every : Bool)
      → busy m ≡ false
      → starts (execute area t m every).1 ≡ (
          if is_blank t (target_snapshot area m every)
          then none
          else some (record { meta = run_meta m; snapshot = target_snapshot area m every }))
  unfolding execute start_run
  execute-starts m every free = ground arith

  -- The answer to the run that is active, a result or a failure, is taken once: it frees the tab, and
  -- any other answer to the same request changes nothing then. From there, executing a text that is not
  -- blank starts a run of that text, and executing a blank one starts none.
  pub reply_frees :
      (m : Model A) (meta : RequestMeta) (message again : Message) (every : Bool)
      → Answer meta message
      → Answer meta again
      → m.active ≡ meta
      → meta.operation ≢ []
      → let n = (update area t m message).0 in
        (busy n ≡ false)
        × (update area t n again ≡ (n, none))
        × (starts (execute area t n every).1 ≡ (
            if is_blank t (target_snapshot area n every)
            then none
            else some (record { meta = run_meta n; snapshot = target_snapshot area n every })))
  unfolding busy text_eq
  reply_frees m meta message again every first second same named =
      let n = (update area t m message).0 in
      let freed = reply_active m meta message first same in
      let free = ap (λ (meta : RequestMeta). not (text_eq meta.operation [])) freed in
      (
        free,
        reply_unheard n meta again second
            (λ e. named (ap (λ (meta : RequestMeta). meta.operation) (sym e ∙ freed))),
        execute-starts n every free,
      )
