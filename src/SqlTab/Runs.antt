-- ===== src/SqlTab/Runs.antt =====
-- internal/sqltab/model.go: runs, from the start to their result.
use db_tui.Common.{
  Bool, true, false, not, [], ◌∷◌, ◌++◌, none, some, Text, lit, text_eq, length, if◌then◌else◌,
  ◌==◌,
}
use db_tui.Common.Decimal.{decimal}
use db_tui.Core.{RequestMeta, no_meta, next_uint64}
use db_tui.Grid.Types.{GoError, as_core_error}
use db_tui.Grid.State.{idle, running, failed}
use db_tui.SqlTab.Types.{RunRequest, RunResult}
use db_tui.SqlTab.State.{Area, Terminal, Model, Cmd, execute_intent, cancel_intent, pane_results}
use db_tui.SqlTab.Editor.{selected_text}
use db_tui.SqlTab.Results.{reset_result_navigation}
use db_tui.SqlTab.Ended.{
  is_blank, with_warning, has_error, mark_incomplete, run_failure, error_output, is_cancelled_run,
}

module _ {A : Type 0} where
  unfoldable pub busy : Model A → Bool
  busy m = not (text_eq m.active.operation [])

  unfoldable pub run_meta : Model A → RequestMeta
  unfolding lit
  run_meta m = record {
    workspace = m.workspace;
    tab = m.tab;
    operation = lit "sql.run." ++ (m.tab ++ (lit "." ++ decimal m.next_request));
    request = m.next_request;
  }

  unfoldable pub start_run : Model A → Text → Model A × Cmd
  unfolding run_meta lit
  start_run m sql =
      let run : RunRequest = record { meta = run_meta m; snapshot = sql } in
      (
        record m {
          next_request = next_uint64 m.next_request;
          last_run = run;
          active = run_meta m;
          lifecycle = running;
          cancelling = false;
          stale = not (length m.result.outputs == 0);
          status = lit "Running immutable SQL snapshot…";
        },
        some (execute_intent run),
      )

  unfoldable pub rerun : Model A → Model A × Cmd
  unfolding start_run lit
  rerun m =
      if busy m
      then (record m { status = lit "This tab already has a run in progress." }, none)
      else if text_eq m.last_run.snapshot []
      then (record m { status = lit "There is no previous run to rerun." }, none)
      else start_run m m.last_run.snapshot

  -- the key and the button that cancel a run
  unfoldable pub cancel_run : Model A → Model A × Cmd
  unfolding lit
  cancel_run m = (
    record m { cancelling = true; status = lit "Cancelling… PostgreSQL is returning control." },
    some (cancel_intent m.active.operation),
  )

module _ {A : Type 0} (area : Area A) where
  -- the selection, or the whole text
  unfoldable pub target_snapshot : Model A → Bool → Text
  unfolding selected_text
  target_snapshot m true = area.value m.editor
  target_snapshot m false = elim (selected_text area m) [
    | none ↦ area.value m.editor
    | some selected ↦ selected
  ]

  unfoldable pub execute : Terminal → Model A → Bool → Model A × Cmd
  unfolding start_run target_snapshot is_blank lit
  execute t m every =
      let sql = target_snapshot m every in
      if busy m
      then (record m { status = lit "This tab already has a run in progress." }, none)
      else if is_blank t sql
      then (record m { status = lit "Enter SQL before executing." }, none)
      else start_run m sql

  -- the results in front, no longer typing
  abbrev pub shown_results : Model A → Model A
  shown_results m = record m { pane = pane_results; text_mode = false; editor = area.blur m.editor }

  abbrev run_ended : Model A → Model A
  run_ended m = record m { active = no_meta; cancelling = false; stale = false }

  unfoldable pub finish_run : Model A → RunResult → Model A
  unfolding reset_result_navigation lit
  finish_run m result =
      let shown = shown_results (
        reset_result_navigation
          (record (run_ended m) { result = result; result_snapshot = m.last_run.snapshot })) in
      if has_error result.outputs
      then record shown {
        lifecycle = failed;
        status =
            with_warning result.warning
              (lit "PostgreSQL stopped the batch on an error. Earlier outputs were preserved.");
      }
      else record shown {
        lifecycle = idle;
        status =
            with_warning result.warning
              (lit "Run completed with " ++ (decimal (length result.outputs) ++ lit " output(s)."));
      }

  -- the result that is kept, with the navigation at its start
  abbrev with_result : Model A → RunResult → Model A
  with_result m result =
      reset_result_navigation (record m { result = result; result_snapshot = m.last_run.snapshot })

  unfoldable pub run_cancelled : Model A → RunResult → Model A
  unfolding reset_result_navigation mark_incomplete lit
  run_cancelled m partial =
      record (if length partial.outputs == 0
        then m
        else with_result m (record partial { outputs = mark_incomplete partial.outputs })) {
          lifecycle = idle;
          status =
              with_warning partial.warning
                (lit "Run cancelled. Completed output is retained; rerun remains available.");
        }

  unfoldable pub run_broken : Model A → RunResult → GoError → Model A
  unfolding reset_result_navigation run_failure error_output lit
  run_broken m partial err =
      record (with_result m
        (record partial { outputs = partial.outputs ++ (error_output (run_failure err) ∷ []) })) {
          lifecycle = failed;
          status =
              with_warning partial.warning
                (lit "SQL execution failed. Earlier outputs were preserved.");
        }

  unfoldable pub finish_failed_run : Model A → RunResult → GoError → Model A
  unfolding run_cancelled run_broken
  finish_failed_run m partial err = shown_results (
      if is_cancelled_run (as_core_error err)
      then run_cancelled (run_ended m) partial
      else run_broken (run_ended m) partial err)
