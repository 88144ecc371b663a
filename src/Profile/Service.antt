-- ===== src/Profile/Service.antt =====
-- internal/profile/service.go: Load, Draft, Prepare, Save and Delete.
use db_tui.Common.{
  ℕ, zero, suc, Bool, true, false, ◌||◌, not, List, [], ◌∷◌, Option, none, some, Text, lit, text_eq,
  text_le, lookup, get_elem?, if◌then◌else◌, ltb, ◌==◌,
}
use db_tui.Common.Decimal.{decimal}
use db_tui.Core.{ErrorCategory, new_error}
use db_tui.Profile.Types.{
  Profile, Document, Draft, Failure, Result, core_failure, caused_failure, failed, ok, is_not_found,
  CredentialSource, credential_none, credential_input, credential_keychain, credential_session,
  Prepared, SaveResult,
}
use db_tui.Profile.Parameters.{Unicode, sorted_parameters}
use db_tui.Profile.Validation.{validate_draft}
use db_tui.Profile.Ports.{Context, Ports, State}
use db_tui.Profile.Secrets.{
  keychain_error, keychain_warning, secret_found, secret_absent, secret_unread, old_of,
}
use db_tui.Profile.Commit.{commit}

-- the first profile with the identifier
unfoldable pub index_of : Text → List Profile → Option ℕ
index_of id [] = none
index_of id (saved ∷ profiles) =
    if text_eq saved.id id
    then some zero
    else elim (index_of id profiles) [ none ↦ none | some index ↦ some (suc index) ]

unfoldable pub draft_from_profile : Profile → Bool → Draft
draft_from_profile saved has_stored_password = record {
  id = saved.id;
  name = saved.name;
  host = saved.host;
  port = decimal saved.port;
  database = saved.database;
  user = saved.user;
  password = [];
  replace_password = false;
  has_stored_password = has_stored_password;
  save_password = saved.save_password;
  ssl_mode = saved.ssl_mode;
  advanced_parameters = sorted_parameters saved.advanced_parameters;
}

unfoldable pub no_longer_exists : Text → Failure
unfolding lit
no_longer_exists operation = core_failure (
    new_error operation ErrorCategory.validation (lit "the selected profile no longer exists")
      false)

unfoldable pub deleted_meanwhile : Failure
unfolding lit
deleted_meanwhile = core_failure (
    new_error (lit "prepare profile") ErrorCategory.validation
      (lit "the profile was deleted by another operation") false)

unfoldable pub no_identifier : Failure → Failure
unfolding lit
no_identifier cause =
    caused_failure
      (new_error (lit "prepare profile") ErrorCategory.internal
        (lit "could not create a profile identifier") true)
      cause

module _ (u : Unicode) where
  -- the order of `Load`: the last used in front, then by name
  unfoldable pub used_before : Profile → Profile → Bool
  used_before left right =
      if left.last_used_at == right.last_used_at
      then not (text_le (u.to_lower right.name) (u.to_lower left.name))
      else ltb right.last_used_at left.last_used_at

  -- behind those that are not after it
  unfoldable pub insert_profile : Profile → List Profile → List Profile
  insert_profile p [] = p ∷ []
  insert_profile p (q ∷ profiles) =
      if used_before q p then q ∷ insert_profile p profiles else p ∷ q ∷ profiles

  -- `sort.SliceStable`; any stable sort gives this list
  unfoldable pub sort_profiles : List Profile → List Profile
  unfolding insert_profile
  sort_profiles [] = []
  sort_profiles (p ∷ profiles) = insert_profile p (sort_profiles profiles)

module _ {W : Type 0} (ports : Ports W) where
  unfoldable pub load : Unicode → Context → W → Result Document
  unfolding sort_profiles
  load u ctx w = elim (ports.load_document ctx w) [
    | failed err ↦ failed err
    | ok document ↦ ok (record document { profiles = sort_profiles u document.profiles })
  ]

  -- Is the password of a saved profile in the keychain, as far as can be told?
  unfoldable pub has_stored_password : Context → W → Profile → Bool
  has_stored_password ctx w saved =
      if saved.save_password
      then (elim (ports.get_secret ctx saved.id w) [
        | ok secret ↦ true
        | failed err ↦ not (is_not_found err)
      ])
      else false

  unfoldable pub draft : Context → Text → W → Result Draft
  unfolding has_stored_password draft_from_profile index_of no_longer_exists lit
  draft ctx id w = elim (ports.load_document ctx w) [
    | failed err ↦ failed err
    | ok document ↦ elim (index_of id document.profiles) [
      | none ↦ failed (no_longer_exists (lit "edit profile"))
      | some index ↦ elim (get_elem? document.profiles index) [
        | none ↦ failed (no_longer_exists (lit "edit profile"))
        | some saved ↦ ok (draft_from_profile saved (has_stored_password ctx w saved))
      ]
    ]
  ]

  abbrev with_credential : Prepared → CredentialSource → Text → Prepared
  with_credential prepared source password = record prepared {
    credential_source = source;
    password = password;
  }

  -- the session's password, or none
  abbrev pub from_session : Prepared → Option Text → Prepared
  from_session prepared (some password) = with_credential prepared credential_session password
  from_session prepared none = prepared

  -- the keychain is unavailable: the session's password with a warning, or an error
  unfoldable pub unavailable : Prepared → Option Text → Failure → Result Prepared
  unfolding keychain_warning keychain_error lit
  unavailable prepared (some password) err = ok (record prepared {
    credential_source = credential_session;
    password = password;
    warning = some (
        keychain_warning
          (lit "The system keychain is unavailable; using the session-only password.") err);
  })
  unavailable prepared none err = failed (
      keychain_error (lit "read password")
        (lit
          "The system keychain is unavailable. Unlock it or replace the password for this connection.")
        err)

  unfoldable pub stored_credential : Context → Prepared → Profile → State W → Result Prepared
  unfolding unavailable
  stored_credential ctx prepared previous s =
      let session = lookup previous.id s.session in
      if previous.save_password
      then (elim (old_of (ports.get_secret ctx previous.id s.outside)) [
        | secret_found password ↦ ok (with_credential prepared credential_keychain password)
        | secret_absent ↦ ok (from_session prepared session)
        | secret_unread err ↦ unavailable prepared session err
      ])
      else ok (from_session prepared session)

  -- by the profile that the draft replaces
  unfoldable pub with_credentials : Context → Prepared → Option Profile → State W → Result Prepared
  unfolding stored_credential
  with_credentials ctx prepared none s =
      if prepared.draft.replace_password || not (text_eq prepared.draft.password [])
      then ok (with_credential prepared credential_input prepared.draft.password)
      else ok prepared
  with_credentials ctx prepared (some previous) s =
      if prepared.draft.replace_password
      then ok (with_credential prepared credential_input prepared.draft.password)
      else stored_credential ctx prepared previous s

  -- a draft without an identifier gets a new one
  unfoldable pub identified : Profile → W → Result Profile
  unfolding no_identifier
  identified saved w =
      if text_eq saved.id []
      then (elim (ports.new_id w) [
        | failed err ↦ failed (no_identifier err)
        | ok id ↦ ok (record saved { id = id })
      ])
      else ok saved

  -- the times and the unknown fields of the profile that is replaced
  abbrev pub carried : Profile → Option Profile → Profile
  carried saved none = saved
  carried saved (some previous) = record saved {
    created_at = previous.created_at;
    updated_at = previous.updated_at;
    last_used_at = previous.last_used_at;
    unknown = previous.unknown;
  }

  unfoldable pub prepare_in :
      Unicode → Context → Draft → Document → Option ℕ → State W → Result Prepared
  unfolding validate_draft identified with_credentials
  prepare_in u ctx d document index s =
      let previous : Option Profile = elim index [
        | none ↦ none
        | some i ↦ get_elem? document.profiles i
      ] in
      elim (validate_draft u d document) [
        | failed err ↦ failed err
        | ok valid ↦ elim (identified valid s.outside) [
          | failed err ↦ failed err
          | ok saved ↦
              with_credentials ctx
                (record {
                  profile = carried saved previous;
                  password = [];
                  credential_source = credential_none;
                  warning = none;
                  draft = record d { id = saved.id };
                  document = document;
                  previous_index = index;
                })
                previous s
        ]
      ]

  unfoldable pub prepare : Unicode → Context → Draft → State W → Result Prepared
  unfolding prepare_in index_of deleted_meanwhile
  prepare u ctx d s = elim (ports.load_document ctx s.outside) [
    | failed err ↦ failed err
    | ok document ↦ elim (index_of d.id document.profiles) [
      | none ↦
          if text_eq d.id [] then prepare_in u ctx d document none s else failed deleted_meanwhile
      | some index ↦ prepare_in u ctx d document (some index) s
    ]
  ]

  unfoldable pub save : Unicode → Context → Draft → State W → Result SaveResult × State W
  unfolding prepare
  save u ctx d s = elim (prepare u ctx d s) [
    | failed err ↦ (failed err, s)
    | ok prepared ↦ commit ports ctx prepared false s
  ]
