-- ===== src/Grid/Outcome.antt =====
-- What the answers of the session do to the staged changes.
use db_tui.Common.{
  ℕ, ◌≡◌, refl, Bool, false, Option, none, some, arith, ◌≢◌, Bool-cases, inl, inr, Option-cases,
}
use db_tui.Core.{RequestMeta, matches, matches_iff}
use db_tui.Grid.Types.{ApplyResult, GoError, Mutation, Relation, as_mutation_error}
use db_tui.Grid.State.{
  Platform, Model, Message, OperationKind, relation_described, page_loaded, applied,
  operation_failed, load_page_intent, overlay_none, OverlayKind, no_active, Lifecycle,
  page_operation,
}
use db_tui.Grid.Requests.{is_current, clear_active, start_page}
use db_tui.Grid.Scroll.{ensure_row_visible, ensure_column_visible}
use db_tui.Grid.Rows.{column_index}
use db_tui.Grid.Snapshot.{change_count}
use db_tui.Grid.Actions.{clear_changes}
use db_tui.Grid.Results.{
  focus_mutation_error, on_failed, on_applied, select_column, focus_row, snapshot_entry,
  failure_noted, after_apply,
}
use db_tui.Grid.Update.{update}

-- The reply that a message is, with the metadata of the request that it answers.
abbrev pub reply_meta : Message → Option RequestMeta
reply_meta (relation_described _ meta) = some meta
reply_meta (page_loaded _ meta) = some meta
reply_meta (applied _ meta) = some meta
reply_meta (operation_failed _ _ meta) = some meta
reply_meta _ = none

not_current :
    (m : Model) (kind : OperationKind) (meta : RequestMeta)
    → m.active.meta ≢ meta
    → is_current m kind meta ≡ false
unfolding is_current
not_current m kind meta h = elim (Bool-cases (matches m.active.meta meta)) [
  | inl same ↦ absurd (h ((matches_iff m.active.meta meta).0 same))
  | inr other ↦ ground arith
]

-- A reply to any request but the one that runs (another workspace, tab, operation or number) changes
-- nothing and starts nothing.
pub update_stale :
    (p : Platform) (m : Model) (message : Message) (meta : RequestMeta)
    → reply_meta message ≡ some meta
    → m.active.meta ≢ meta
    → update p m message ≡ (m, none)
unfolding update
update_stale p m (relation_described r b) meta e h =
    ground (arith, not_current m OperationKind.describe_operation meta h)
update_stale p m (page_loaded r b) meta e h =
    ground (arith, not_current m OperationKind.page_operation meta h)
update_stale p m (applied r b) meta e h =
    ground (arith, not_current m OperationKind.apply_operation meta h)
update_stale p m (operation_failed kind r b) meta e h = ground (arith, not_current m kind meta h)
update_stale p m message meta e h = cc

-- The staged work is the same, and so is the number of the next request.
pub record SameChanges (m n : Model) : Type 0 where
  pub inserts : m.inserts ≡ n.inserts
  pub updates : m.updates ≡ n.updates
  pub deletes : m.deletes ≡ n.deletes
  pub next_draft : m.next_draft ≡ n.next_draft
  pub editor : m.editor ≡ n.editor
  pub next_request : m.next_request ≡ n.next_request

SameChanges-trans : {m n o : Model} → SameChanges m n → SameChanges n o → SameChanges m o
SameChanges-trans h k = ground arith

ensure_column_visible-SameChanges : (m : Model) → SameChanges m (ensure_column_visible m)
unfolding ensure_column_visible
ensure_column_visible-SameChanges m = ground arith

ensure_row_visible-SameChanges : (m : Model) → SameChanges m (ensure_row_visible m)
unfolding ensure_row_visible
ensure_row_visible-SameChanges m = ground arith

select_column-SameChanges : (m : Model) (c : Option ℕ) → SameChanges m (select_column m c)
unfolding select_column
select_column-SameChanges m none = ground arith
select_column-SameChanges m (some c) =
    ground (arith, ensure_column_visible-SameChanges (record m { selected_column = c }))

focus_row-SameChanges :
    (p : Platform) (m : Model) (mutation : Mutation) → SameChanges m (focus_row p m mutation)
unfolding focus_row
focus_row-SameChanges p m mutation = ground arith

focus-SameChanges :
    (p : Platform) (m : Model) (err : GoError) → SameChanges m (focus_mutation_error p m err)
unfolding focus_mutation_error
focus-SameChanges p m err = elim (Option-cases (as_mutation_error err)) [
  | inl other ↦ rw (other, focus_mutation_error) (ground arith)
  | inr (e, found) ↦ elim (Option-cases (snapshot_entry m e.mutation)) [
    | inl outside ↦ rw (found, focus_mutation_error, outside) (ground arith)
    | inr (mutation, entry) ↦
        rw (found, focus_mutation_error, entry)
          (let n = focus_row p m mutation in
            let o = select_column n (column_index n e.column) in
            SameChanges-trans (focus_row-SameChanges p m mutation) (
              SameChanges-trans (select_column-SameChanges n (column_index n e.column))
                (ensure_row_visible-SameChanges o)))
  ]
]

failure_noted-SameChanges :
    (p : Platform) (m : Model) (kind : OperationKind) (err : GoError)
    → SameChanges m (failure_noted p m kind err)
unfolding failure_noted clear_active
failure_noted-SameChanges p m kind err = ground (
  arith,
  focus-SameChanges p
      (record m {
        active = no_active;
        err = err;
        failed_kind = kind;
        lifecycle = Lifecycle.failed;
        overlay = OverlayKind.overlay_mutation_error;
      })
      err,
)

-- Whatever fails (a description, a page, an apply, a cancellation), every staged change and the open
-- editor stay as they were.
pub on_failed-SameChanges :
    (p : Platform) (m : Model) (kind : OperationKind) (err : GoError)
    → SameChanges m (on_failed p m kind err)
unfolding on_failed
on_failed-SameChanges p m kind err = ground (arith, failure_noted-SameChanges p m kind err)

-- In a tab with a known table, a successful apply clears every staged change, closes the editor and
-- the dialogs, and loads a page of the same table.
pub on_applied_clears :
    (p : Platform) (m : Model) (relation : Relation) (result : ApplyResult)
    → m.relation ≡ some relation
    → let (n, cmd) = on_applied p m result in
      (change_count n ≡ 0)
      × (n.editor ≡ none)
      × (n.overlay ≡ overlay_none)
      × (n.reload_after_apply ≡ some result)
      × (cmd ≡ some (load_page_intent relation n.pending_request n.active.meta))
      × (n.active.kind ≡ page_operation)
unfolding on_applied after_apply clear_changes start_page change_count clear_active
on_applied_clears p m relation result r = ground arith

-- The choice "apply, then load the first page" has no effect: what a successful apply does next is
-- the same whether the flag was set or not, since the flag is cleared with the changes before it is
-- read.
pub on_applied_ignores_reload_first :
    (p : Platform) (m : Model) (result : ApplyResult) (first : Bool)
    → on_applied p (record m { apply_reload_first = first }) result ≡ on_applied p m result
unfolding on_applied after_apply clear_changes clear_active
on_applied_ignores_reload_first p m result first = refl
