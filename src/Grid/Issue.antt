-- ===== src/Grid/Issue.antt =====
-- Which requests a message starts.
use db_tui.Common.{ℕ, ◌≡◌, none, some, arith, max}
use db_tui.Core.{RequestMeta, next_uint64}
use db_tui.Grid.Types.{PageRequest}
use db_tui.Grid.State.{
  Model, Cmd, describe_intent, load_page_intent, apply_intent, cancel_intent, OperationKind,
  describe_operation, page_operation, apply_operation,
}
use db_tui.Grid.Requests.{describe, start_page, retry, cycle_sort, start_apply}

-- The state waits for the request that it started, under the number that was next.
pub record Waits (before : ℕ) (after : Model) (kind : OperationKind) (meta : RequestMeta)
    : Type 0 where
  pub waits_kind : after.active.kind ≡ kind
  pub waits_meta : after.active.meta ≡ meta
  pub numbered : meta.request ≡ before
  pub next : after.next_request ≡ next_uint64 before

-- A result starts at most one operation, and then waits for it and nothing else; otherwise the number
-- of the next request stands.
abbrev pub Issues : ℕ → Model → Cmd → Type 0
Issues before after none = after.next_request ≡ before
Issues before after (some (describe_intent id meta)) = Waits before after describe_operation meta
Issues before after (some (load_page_intent r page meta)) = Waits before after page_operation meta
Issues before after (some (apply_intent request meta)) = Waits before after apply_operation meta
Issues before after (some (cancel_intent operation)) = after.next_request ≡ before

pub describe-Issues : (m : Model) → Issues m.next_request (describe m).0 (describe m).1
unfolding describe
describe-Issues m = ground arith

pub start_page-Issues :
    (m : Model) (page : PageRequest) (target : ℕ)
    → Issues m.next_request (start_page m page target).0 (start_page m page target).1
unfolding start_page
start_page-Issues m page target = ground arith

pub retry-Issues : (m : Model) → Issues m.next_request (retry m).0 (retry m).1
unfolding retry
retry-Issues m =
    ground (arith, describe-Issues m, start_page-Issues m m.pending_request (max 1 m.pending_page))

pub cycle_sort-Issues : (m : Model) → Issues m.next_request (cycle_sort m).0 (cycle_sort m).1
unfolding cycle_sort start_page
cycle_sort-Issues m = ground arith

pub start_apply-Issues : (m : Model) → Issues m.next_request (start_apply m).0 (start_apply m).1
unfolding start_apply
start_apply-Issues m = ground arith
