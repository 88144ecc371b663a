-- ===== src/Profile/Types.antt =====
-- internal/profile/profile.go: the data, and the errors of the package. A time is its distance in
-- nanoseconds from the zero time.
use db_tui.Common.{ℕ, Bool, true, false, List, [], Option, Text, Dict, lit}
use db_tui.Core.{CoreError}

pub record Profile : Type 0 where
  pub id : Text
  pub name : Text
  pub host : Text
  pub port : ℕ
  pub database : Text
  pub user : Text
  pub ssl_mode : Text
  pub advanced_parameters : Dict Text
  pub save_password : Bool
  pub created_at : ℕ
  pub updated_at : ℕ
  pub last_used_at : ℕ
  pub unknown : Dict Text

pub record Document : Type 0 where
  pub version : ℕ
  pub profiles : List Profile
  pub unknown : Dict Text

abbrev pub current_document_version : ℕ
current_document_version = 1

pub record Parameter : Type 0 where
  pub name : Text
  pub value : Text

pub record Draft : Type 0 where
  pub id : Text
  pub name : Text
  pub host : Text
  pub port : Text
  pub database : Text
  pub user : Text
  pub password : Text
  pub replace_password : Bool
  pub has_stored_password : Bool
  pub save_password : Bool
  pub ssl_mode : Text
  pub advanced_parameters : List Parameter

unfoldable pub new_draft : Draft
unfolding lit
new_draft = record {
  id = [];
  name = [];
  host = [];
  port = lit "5432";
  database = [];
  user = [];
  password = [];
  replace_password = false;
  has_stored_password = false;
  save_password = true;
  ssl_mode = lit "prefer";
  advanced_parameters = [];
}

pub record FieldError : Type 0 where
  pub field : Text
  pub message : Text

-- An error with the causes that `errors.Is` looks through.
pub data Failure : Type 0 where
  secret_not_found : Failure
  other_failure : Text → Failure
  validation_errors : List FieldError → Failure
  core_failure : CoreError → Failure
  caused_failure : CoreError → Failure → Failure

-- `errors.Is(err, ErrSecretNotFound)`
abbrev pub is_not_found : Failure → Bool
is_not_found secret_not_found = true
is_not_found (other_failure _) = false
is_not_found (validation_errors _) = false
is_not_found (core_failure _) = false
is_not_found (caused_failure _ cause) = is_not_found cause

-- a value and nil, or an error
pub data Result {ℓ} (A : Type ℓ) : Type ℓ where
  failed : Failure → Result A
  ok : A → Result A

pub data CredentialSource : Type 0 where
  credential_none credential_input credential_keychain credential_session : CredentialSource

abbrev pub is_input_credential : CredentialSource → Bool
is_input_credential credential_input = true
is_input_credential _ = false

abbrev pub is_keychain_credential : CredentialSource → Bool
is_keychain_credential credential_keychain = true
is_keychain_credential _ = false

abbrev pub is_session_credential : CredentialSource → Bool
is_session_credential credential_session = true
is_session_credential _ = false

abbrev pub is_no_credential : CredentialSource → Bool
is_no_credential credential_none = true
is_no_credential _ = false

-- `previousIndex` is none where the source has -1.
pub record Prepared : Type 0 where
  pub profile : Profile
  pub password : Text
  pub credential_source : CredentialSource
  pub warning : Option Failure
  pub draft : Draft
  pub document : Document
  pub previous_index : Option ℕ

pub record SaveResult : Type 0 where
  pub profile : Profile
  pub credential_mode : CredentialSource
  pub warning : Option Failure
