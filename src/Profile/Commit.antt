-- ===== src/Profile/Commit.antt =====
-- internal/profile/service.go: Commit and restoreSecret.
use db_tui.Common.{
  ℕ, Bool, false, ◌||◌, not, [], ◌∷◌, ◌++◌, Option, none, some, Text, lit, text_eq, lookup, insert,
  delete, set, if◌then◌else◌, ◌==◌,
}
use db_tui.Core.{ErrorCategory, new_error}
use db_tui.Profile.Types.{
  Profile, Document, current_document_version, Failure, Result, core_failure, is_not_found, failed,
  ok, Prepared, SaveResult,
}
use db_tui.Profile.Ports.{Context, without_cancel, Ports, State}
use db_tui.Profile.Secrets.{
  keychain_error, OldSecret, secret_found, secret_unread, old_secret, Kept, should_write_secret,
  should_delete_secret, write_secret, secret_removed, keep_secret,
}

unfoldable pub invalid_prepared : Failure
unfolding lit
invalid_prepared = core_failure (
    new_error (lit "save profile") ErrorCategory.internal (lit "the prepared profile is invalid")
      false)

-- the profile as it is written, with its times
unfoldable pub stamped : Prepared → Bool → Bool → ℕ → Profile
stamped prepared save_password mark_last_used now = record prepared.profile {
  save_password = save_password;
  created_at = if prepared.profile.created_at == 0 then now else prepared.profile.created_at;
  updated_at = now;
  last_used_at = if mark_last_used then now else prepared.profile.last_used_at;
}

-- the document as it is written; the assignment at an index out of range panics
unfoldable pub with_profile : Prepared → Profile → Document
with_profile prepared profile =
    let document = prepared.document in
    record document {
      version = if document.version == 0 then current_document_version else document.version;
      profiles = elim prepared.previous_index [
        | some index ↦ set document.profiles index profile
        | none ↦ document.profiles ++ (profile ∷ [])
      ];
    }

module _ {W : Type 0} (ports : Ports W) where
  -- The result of the call is dropped.
  unfoldable pub restore_secret : Context → Text → OldSecret → W → W
  restore_secret ctx id (secret_found secret) w = (ports.set_secret ctx id secret w).1
  restore_secret ctx id _ w = (ports.delete_secret ctx id w).1

  -- the session's entry as it was
  abbrev pub restore_session : Text → Option Text → State W → State W
  restore_session id (some secret) s = record s { session = insert id secret s.session }
  restore_session id none s = record s { session = delete id s.session }

  unfoldable pub undo : Context → Text → Bool → OldSecret → Option Text → State W → State W
  unfolding restore_secret
  undo ctx id mutated old session s = restore_session id session (
      if mutated
      then record s { outside = restore_secret (without_cancel ctx) id old s.outside }
      else s)

  -- from the credentials on: times, document, save, and the way back
  unfoldable pub store :
      Context → Prepared → Bool → OldSecret → Option Text → Kept W → Result SaveResult × State W
  unfolding stamped with_profile undo
  store ctx prepared mark_last_used old session kept =
      let s = kept.state in
      let profile = stamped prepared kept.save_password mark_last_used (ports.now s.outside) in
      let (err, w) = ports.save_document ctx (with_profile prepared profile) s.outside in
      elim err [
        | none ↦ (
          ok (record { profile = profile; credential_mode = kept.mode; warning = kept.warning }),
          record s { outside = w },
        )
        | some e ↦ (
          failed e,
          undo ctx prepared.profile.id kept.mutated old session (record s { outside = w }),
        )
      ]

  -- by the keychain's answer to the removal
  unfoldable pub removal_answered :
      Context
      → Prepared
      → Bool
      → OldSecret
      → State W
      → Option Failure
      → W
      → Result SaveResult × State W
  unfolding keychain_error lit
  removal_answered ctx prepared mark_last_used old s none w =
      store ctx prepared mark_last_used old (lookup prepared.profile.id s.session)
        (secret_removed ports prepared w s)
  removal_answered ctx prepared mark_last_used old s (some err) w =
      if is_not_found err
      then store ctx prepared mark_last_used old (lookup prepared.profile.id s.session)
          (secret_removed ports prepared w s)
      else (
        failed (
            keychain_error (lit "remove password")
              (lit "The saved password could not be removed from the system keychain.") err),
        record s { outside = w },
      )

  unfoldable pub removal :
      Context → Prepared → Bool → OldSecret → State W → Result SaveResult × State W
  unfolding removal_answered
  removal ctx prepared mark_last_used old s =
      let (err, w) = ports.delete_secret ctx prepared.profile.id s.outside in
      removal_answered ctx prepared mark_last_used old s err w

  unfoldable pub commit_removal :
      Context → Prepared → Bool → OldSecret → State W → Result SaveResult × State W
  unfolding keychain_error removal lit
  commit_removal ctx prepared mark_last_used (secret_unread err) s = (
    failed (
        keychain_error (lit "update password")
          (lit
            "The existing password could not be safely removed because the system keychain is unavailable.")
          err),
    s,
  )
  commit_removal ctx prepared mark_last_used old s = removal ctx prepared mark_last_used old s

  unfoldable pub commit : Context → Prepared → Bool → State W → Result SaveResult × State W
  commit ctx prepared mark_last_used s = elim ctx.err [
    | some err ↦ (failed err, s)
    | none ↦
        let id = prepared.profile.id in
        let old = old_secret ports ctx prepared s.outside in
        if text_eq id [] || not (text_eq prepared.draft.id id)
        then (failed invalid_prepared, s)
        else if should_write_secret prepared
        then store ctx prepared mark_last_used old (lookup id s.session)
            (write_secret ports ctx prepared old s)
        else if should_delete_secret prepared
        then commit_removal ctx prepared mark_last_used old s
        else store ctx prepared mark_last_used old (lookup id s.session)
            (keep_secret ports prepared s)
  ]
