-- ===== src/Core.antt =====
-- internal/core: the identity of a request, and the structured error. The identifiers are strings;
-- a request number is a uint64.
use db_tui.Common.{
  ℕ, ◌==◌, ◌≡◌, ◌↔◌, Bool, ◌&&◌, ◌%◌, ◌+◌, ◌^◌, Text, text_eq, text_eq_iff, arith, List, Option,
}

pub record RequestMeta : Type 0 where
  pub workspace : Text
  pub tab : Text
  pub operation : Text
  pub request : ℕ

-- Go's `==` on the struct
unfoldable pub matches : RequestMeta → RequestMeta → Bool
matches m other =
    text_eq m.workspace other.workspace
    && (text_eq m.tab other.tab
        && (text_eq m.operation other.operation && m.request == other.request))

pub matches_iff : (m other : RequestMeta) → (matches m other ≡ Bool.true) ↔ (m ≡ other)
unfolding matches
matches_iff m other = ground (
  arith,
  text_eq_iff m.workspace other.workspace,
  text_eq_iff m.tab other.tab,
  text_eq_iff m.operation other.operation,
)

-- the zero value of the struct
abbrev pub no_meta : RequestMeta
no_meta = record { workspace = List.[]; tab = List.[]; operation = List.[]; request = 0 }

abbrev pub next_uint64 : ℕ → ℕ
next_uint64 n = (n + 1) % 2 ^ 64

pub data ErrorCategory : Type 0 where
  validation authentication network tls timeout cancellation permission : ErrorCategory
  conflict constraint unsupported persistence keychain internal : ErrorCategory

abbrev pub is_cancellation : ErrorCategory → Bool
is_cancellation ErrorCategory.cancellation = Bool.true
is_cancellation _ = Bool.false

pub record PostgresqlDetails : Type 0 where
  pub sql_state : Text
  pub detail : Text
  pub hint : Text
  pub constraint : Text
  pub position : ℕ
  pub context : Text

-- `Error` without its `cause`, which stands beside it in a chain of errors.
pub record CoreError : Type 0 where
  pub operation : Text
  pub category : ErrorCategory
  pub summary : Text
  pub retryable : Bool
  pub postgresql : Option PostgresqlDetails

-- `NewError`, without the cause
abbrev pub new_error : Text → ErrorCategory → Text → Bool → CoreError
new_error operation category summary retryable = record {
  operation = operation;
  category = category;
  summary = summary;
  retryable = retryable;
  postgresql = Option.none;
}
