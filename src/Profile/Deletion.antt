-- ===== src/Profile/Deletion.antt =====
-- internal/profile/service.go: Delete, and what it leaves when it fails.
use db_tui.Common.{Option, none, some, Text, lit, delete, remove_at, if◌then◌else◌}
use db_tui.Profile.Types.{Document, Failure, Result, failed, ok, is_not_found}
use db_tui.Profile.Ports.{Context, without_cancel, Ports, State}
use db_tui.Profile.Secrets.{keychain_error, OldSecret, secret_unread, old_of}
use db_tui.Profile.Commit.{restore_secret}
use db_tui.Profile.Service.{index_of, no_longer_exists}

module _ {W : Type 0} (ports : Ports W) where
  -- the document without the profile; the way back if it cannot be written
  unfoldable pub save_without :
      Context → Text → Document → OldSecret → State W → Option Failure × State W
  unfolding restore_secret
  save_without ctx id document old s =
      let (err, w) = ports.save_document ctx document s.outside in
      elim err [
        | none ↦ (none, record { session = delete id s.session; outside = w })
        | some e ↦
            (some e, record s { outside = restore_secret ports (without_cancel ctx) id old w })
      ]

  -- by the keychain's answer to the removal
  unfoldable pub secret_deleted :
      Context
      → Text
      → Document
      → OldSecret
      → State W
      → Option Failure
      → W
      → Option Failure × State W
  unfolding keychain_error lit
  secret_deleted ctx id document old s none w =
      save_without ctx id document old (record s { outside = w })
  secret_deleted ctx id document old s (some err) w =
      if is_not_found err then save_without ctx id document old (record s { outside = w }) else (
        some (
            keychain_error (lit "delete profile")
              (lit "The profile was not deleted because its saved password could not be removed.")
              err),
        record s { outside = w },
      )

  unfoldable pub delete_stored :
      Context → Text → Document → OldSecret → State W → Option Failure × State W
  unfolding keychain_error secret_deleted lit
  delete_stored ctx id document (secret_unread err) s = (
    some (
        keychain_error (lit "delete profile")
          (lit "The profile was not deleted because its saved password could not be accessed.")
          err),
    s,
  )
  delete_stored ctx id document old s =
      let (err, w) = ports.delete_secret ctx id s.outside in
      secret_deleted ctx id document old s err w

  -- by the document that was loaded
  unfoldable pub delete_from : Context → Text → State W → Result Document → Option Failure × State W
  unfolding index_of no_longer_exists lit
  delete_from ctx id s (failed err) = (some err, s)
  delete_from ctx id s (ok document) = elim (index_of id document.profiles) [
    | none ↦ (some (no_longer_exists (lit "delete profile")), s)
    | some index ↦
        delete_stored ctx id (record document { profiles = remove_at document.profiles index })
          (old_of (ports.get_secret ctx id s.outside)) s
  ]

  unfoldable pub delete_profile : Context → Text → State W → Option Failure × State W
  unfolding delete_from
  delete_profile ctx id s = delete_from ctx id s (ports.load_document ctx s.outside)
