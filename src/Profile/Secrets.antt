-- ===== src/Profile/Secrets.antt =====
-- internal/profile/service.go: what Commit does to the keychain and to the session before it saves.
use db_tui.Common.{
  Bool, true, false, ◌&&◌, ◌||◌, not, Option, none, some, Text, Dict, lit, insert, is_some, delete,
  get_elem?, if◌then◌else◌,
}
use db_tui.Core.{ErrorCategory, new_error}
use db_tui.Profile.Types.{
  Failure, Result, caused_failure, failed, ok, is_not_found, CredentialSource, credential_none,
  credential_keychain, credential_session, is_input_credential, is_keychain_credential,
  is_session_credential, is_no_credential, Prepared,
}
use db_tui.Profile.Ports.{Context, Ports, State}

unfoldable pub keychain_error : Text → Text → Failure → Failure
keychain_error operation summary cause =
    caused_failure (new_error operation ErrorCategory.keychain summary true) cause

unfoldable pub keychain_warning : Text → Failure → Failure
unfolding lit
keychain_warning summary cause =
    caused_failure (new_error (lit "save password") ErrorCategory.keychain summary true) cause

unfoldable pub previous_saved_password : Prepared → Bool
previous_saved_password prepared = elim prepared.previous_index [
  | none ↦ false
  | some index ↦ elim (get_elem? prepared.document.profiles index) [
    | none ↦ false
    | some previous ↦ previous.save_password
  ]
]

unfoldable pub should_write_secret : Prepared → Bool
unfolding previous_saved_password
should_write_secret prepared =
    prepared.profile.save_password
    && (prepared.draft.replace_password
        || (not (is_some prepared.previous_index) && is_input_credential prepared.credential_source
            || not (previous_saved_password prepared)
              && is_session_credential prepared.credential_source))

unfoldable pub should_delete_secret : Prepared → Bool
should_delete_secret prepared =
    not prepared.profile.save_password && is_some prepared.previous_index

-- what was read of the keychain before it is changed: `oldSecret` and `oldSecretFound`, or `getErr`
pub data OldSecret : Type 0 where
  secret_found : Text → OldSecret
  secret_absent : OldSecret
  secret_unread : Failure → OldSecret

abbrev pub old_of : Result Text → OldSecret
old_of (ok secret) = OldSecret.secret_found secret
old_of (failed err) =
    if is_not_found err then OldSecret.secret_absent else OldSecret.secret_unread err

-- what a change of the keychain and of the session came to
pub record Kept (W : Type 0) : Type 0 where
  pub save_password : Bool
  pub mutated : Bool
  pub mode : CredentialSource
  pub warning : Option Failure
  pub state : State W

module _ {W : Type 0} (ports : Ports W) where
  unfoldable pub old_secret : Context → Prepared → W → OldSecret
  unfolding should_write_secret should_delete_secret
  old_secret ctx prepared w =
      if (should_write_secret prepared || should_delete_secret prepared)
        && is_some prepared.previous_index
      then old_of (ports.get_secret ctx prepared.profile.id w)
      else OldSecret.secret_absent

  -- the keychain cannot be written: the password stays in the process
  unfoldable pub session_only : Prepared → Text → Failure → State W → Kept W
  unfolding keychain_warning
  session_only prepared summary err s = record {
    save_password = false;
    mutated = false;
    mode = credential_session;
    warning = some (keychain_warning summary err);
    state = record s { session = insert prepared.profile.id prepared.password s.session };
  }

  unfoldable pub write_to_keychain : Context → Prepared → State W → Kept W
  unfolding session_only lit
  write_to_keychain ctx prepared s =
      let (err, w) = ports.set_secret ctx prepared.profile.id prepared.password s.outside in
      elim err [
        | some e ↦
            session_only prepared
              (lit
                "The profile was saved, but its password is available only for this session because the system keychain is unavailable.")
              e (record s { outside = w })
        | none ↦ record {
          save_password = prepared.profile.save_password;
          mutated = true;
          mode = credential_keychain;
          warning = prepared.warning;
          state = record { session = delete prepared.profile.id s.session; outside = w };
        }
      ]

  unfoldable pub write_secret : Context → Prepared → OldSecret → State W → Kept W
  unfolding session_only write_to_keychain lit
  write_secret ctx prepared (OldSecret.secret_unread err) s =
      session_only prepared
        (lit
          "The new password is session-only. The keychain could not be accessed, so unlock it and save again to replace or remove any previous entry.")
        err s
  write_secret ctx prepared old s = write_to_keychain ctx prepared s

  -- the keychain's entry is gone: the password stays in the process, if there is one
  unfoldable pub secret_removed : Prepared → W → State W → Kept W
  secret_removed prepared w s =
      if is_no_credential prepared.credential_source
      then record {
        save_password = prepared.profile.save_password;
        mutated = true;
        mode = credential_none;
        warning = prepared.warning;
        state = record { session = delete prepared.profile.id s.session; outside = w };
      }
      else record {
        save_password = prepared.profile.save_password;
        mutated = true;
        mode = credential_session;
        warning = prepared.warning;
        state = record {
          session = insert prepared.profile.id prepared.password s.session;
          outside = w;
        };
      }

  -- neither written nor removed
  abbrev kept : Prepared → State W → CredentialSource → Dict Text → Kept W
  kept prepared s mode session = record {
    save_password = prepared.profile.save_password;
    mutated = false;
    mode = mode;
    warning = prepared.warning;
    state = record s { session = session };
  }

  unfoldable pub keep_secret : Prepared → State W → Kept W
  unfolding previous_saved_password
  keep_secret prepared s =
      if not prepared.profile.save_password
      then (if is_no_credential prepared.credential_source
          then kept prepared s credential_none s.session
          else kept prepared s credential_session
              (insert prepared.profile.id prepared.password s.session))
      else if previous_saved_password prepared || is_keychain_credential prepared.credential_source
      then kept prepared s credential_keychain s.session
      else if is_session_credential prepared.credential_source
      then kept prepared s credential_session s.session
      else kept prepared s credential_none s.session
