-- ===== src/Profile/Forgetting.antt =====
-- A profile whose password is no longer to be saved has none in the keychain.
use db_tui.Common.{
  ℕ, ◌≡◌, ◌∙◌, ◌||◌, refl, Bool, true, false, not, [], Option, none, some, Text, text_eq,
  text_eq_refl, arith, inl, inr, Bool-cases,
}
use db_tui.Profile.Types.{Failure, Result, ok, is_not_found, Prepared, SaveResult}
use db_tui.Profile.Ports.{Context, Ports, State, Lawful}
use db_tui.Profile.Secrets.{
  OldSecret, secret_found, secret_absent, secret_unread, old_secret, Kept, should_write_secret,
  should_delete_secret, secret_removed,
}
use db_tui.Profile.Commit.{store, commit, commit_removal, removal, removal_answered}
use db_tui.Profile.Saving.{store_done-Written}

module _ {W : Type 0} (ports : Ports W) (laws : Lawful ports) where
  Forgets : Text → Result SaveResult × State W → Type 0
  Forgets id x = (r : SaveResult) → x.0 ≡ ok r → laws.held x.1.outside id ≡ none

  secret_removed-outside :
      (prepared : Prepared) (w : W) (s : State W)
      → (secret_removed ports prepared w s).state.outside ≡ w
  unfolding secret_removed
  secret_removed-outside prepared w s = ground arith

  store-Forgets :
      (ctx : Context) (prepared : Prepared) (mark : Bool) (old : OldSecret) (session : Option Text)
      (id : Text) (kept : Kept W)
      → laws.held kept.state.outside id ≡ none
      → Forgets id (store ports ctx prepared mark old session kept)
  unfolding Forgets
  store-Forgets ctx prepared mark old session id kept gone r h =
      (store_done-Written ports laws ctx prepared mark old session kept r h).held_now id ∙ gone

  removal_answered-Forgets :
      (ctx : Context) (prepared : Prepared) (mark : Bool) (old : OldSecret) (s : State W)
      (answer : Option Failure)
      → (ports.delete_secret ctx prepared.profile.id s.outside).0 ≡ answer
      → Forgets prepared.profile.id (
          removal_answered ports ctx prepared mark old s answer
            (ports.delete_secret ctx prepared.profile.id s.outside).1)
  unfolding removal_answered Forgets
  removal_answered-Forgets ctx prepared mark old s none e =
      let id = prepared.profile.id in
      let w = (ports.delete_secret ctx id s.outside).1 in
      store-Forgets ctx prepared mark old _ id (secret_removed ports prepared w s) (
        rw (secret_removed-outside prepared w s)
          (ground (arith, laws.delete_held ctx id s.outside id e, text_eq_refl id)))
  removal_answered-Forgets ctx prepared mark old s (some err) e =
      let id = prepared.profile.id in
      let w = (ports.delete_secret ctx id s.outside).1 in
      elim (Bool-cases (is_not_found err)) [
        | inl missing ↦ rw missing (
            store-Forgets ctx prepared mark old _ id (secret_removed ports prepared w s) (
              rw (secret_removed-outside prepared w s) (
                laws.not_deleted ctx id s.outside id err e
                ∙ laws.delete_missing ctx id s.outside err e missing)))
        | inr other ↦ rw other (λ r h. ground (arith, h))
      ]

  commit_removal-Forgets :
      (ctx : Context) (prepared : Prepared) (mark : Bool) (old : OldSecret) (s : State W)
      → Forgets prepared.profile.id (commit_removal ports ctx prepared mark old s)
  unfolding commit_removal removal Forgets
  commit_removal-Forgets ctx prepared mark (secret_unread err) s = λ r h. ground (arith, h)
  commit_removal-Forgets ctx prepared mark (secret_found v) s =
      removal_answered-Forgets ctx prepared mark (secret_found v) s _ refl
  commit_removal-Forgets ctx prepared mark secret_absent s =
      removal_answered-Forgets ctx prepared mark secret_absent s _ refl

  commit-Forgets :
      (prepared : Prepared) (mark : Bool) (s : State W) (cancelled : Option Failure)
      → should_write_secret prepared ≡ false
      → should_delete_secret prepared ≡ true
      → Forgets prepared.profile.id (commit ports (record { err = cancelled }) prepared mark s)
  unfolding commit Forgets
  commit-Forgets prepared mark s (some err) kept removed = λ r h. ground (arith, h)
  commit-Forgets prepared mark s none kept removed =
      let ctx : Context = record { err = none } in
      let id = prepared.profile.id in
      elim (Bool-cases (text_eq id [] || not (text_eq prepared.draft.id id))) [
        | inl invalid ↦ rw invalid (λ r h. ground (arith, h))
        | inr valid ↦
            rw (valid, kept, removed)
              (commit_removal-Forgets ctx prepared mark (old_secret ports ctx prepared s.outside) s)
      ]

  -- With ports that keep their laws, when a profile that was saved before is saved without its
  -- password, and that succeeds, the keychain holds no password for it.
  pub commit_forgets :
      (ctx : Context) (prepared : Prepared) (mark : Bool) (s : State W) (index : ℕ) (r : SaveResult)
      → prepared.profile.save_password ≡ false
      → prepared.previous_index ≡ some index
      → (commit ports ctx prepared mark s).0 ≡ ok r
      → laws.held (commit ports ctx prepared mark s).1.outside prepared.profile.id ≡ none
  unfolding Forgets should_write_secret should_delete_secret
  commit_forgets ctx prepared mark s index r off known h =
      commit-Forgets prepared mark s ctx.err (ground arith) (ground arith) r h
