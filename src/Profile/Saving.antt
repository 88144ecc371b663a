-- ===== src/Profile/Saving.antt =====
-- What a save of a profile that succeeds has written.
use mathlib.Core.Path.{subst}
use db_tui.Profile.Placing.{
  Stamped, Placed, stamped-Stamped, with_profile-positive, with_profile-Placed,
}
use db_tui.Common.{
  ◌≡◌, ◌∙◌, ◌||◌, refl, sym, ap, Bool, false, not, [], Option, none, some, Text, text_eq, lookup,
  arith, inl, inr, Bool-cases, Option-cases,
}
use db_tui.Profile.Types.{Failure, Result, ok, is_not_found, Prepared, SaveResult}
use db_tui.Profile.Ports.{Context, Ports, State, Lawful}
use db_tui.Profile.Secrets.{
  OldSecret, secret_found, secret_absent, secret_unread, old_secret, Kept, should_write_secret,
  should_delete_secret, write_secret, keep_secret,
}
use db_tui.Profile.Commit.{
  store, commit, commit_removal, removal, removal_answered, stamped, with_profile,
}
use db_tui.Profile.Undo.{Undoable}
use db_tui.Profile.Changes.{
  keep_secret-Undoable, secret_removed-Undoable, session_only-Undoable, write_to_keychain-Undoable,
}

module _ {W : Type 0} (ports : Ports W) (laws : Lawful ports) where
  -- the document has the profile, and the secrets are those that were prepared
  pub record Written (prepared : Prepared) (mark : Bool) (kept : Kept W) (r : SaveResult)
      (s' : State W) : Type 0 where
    pub profile_now : Stamped prepared mark r.profile
    pub document_now : Placed prepared r.profile (laws.stored s'.outside)
    pub held_now : (j : Text) → laws.held s'.outside j ≡ laws.held kept.state.outside j
    pub session_now : s'.session ≡ kept.state.session
    pub password_saved : r.profile.save_password ≡ kept.save_password

  pub store_done-Written :
      (ctx : Context) (prepared : Prepared) (mark : Bool) (old : OldSecret) (session : Option Text)
      (kept : Kept W) (r : SaveResult)
      → (store ports ctx prepared mark old session kept).0 ≡ ok r
      → Written prepared mark kept r (store ports ctx prepared mark old session kept).1
  unfolding store stamped
  store_done-Written ctx prepared mark old session kept r h =
      let profile = stamped prepared kept.save_password mark (ports.now kept.state.outside) in
      let d = with_profile prepared profile in
      let w = ports.save_document ctx d kept.state.outside in
      elim (Option-cases w.0) [
        | inl e ↦
            let same : profile ≡ r.profile = ground (arith, h, e) in
            rw (e, store)
              (record {
                profile_now = subst (Stamped prepared mark) same (
                    stamped-Stamped prepared kept.save_password mark
                      (ports.now kept.state.outside));
                document_now =
                    subst (λ p. Placed prepared p (laws.stored w.1)) same
                      (subst (Placed prepared profile)
                        (sym (
                          laws.saved ctx d kept.state.outside
                            (with_profile-positive prepared profile) e))
                        (with_profile-Placed prepared profile));
                held_now = λ j. laws.saved_held ctx d kept.state.outside j;
                session_now = refl;
                password_saved = sym (ap (λ p. p.save_password) same);
              })
        | inr (f, e) ↦ ground (arith, h, e)
      ]

  -- the document has the profile; the secrets of other profiles are as before
  pub record Saved (s : State W) (prepared : Prepared) (mark : Bool) (r : SaveResult) (s' : State W)
      : Type 0 where
    pub profile_now : Stamped prepared mark r.profile
    pub document_now : Placed prepared r.profile (laws.stored s'.outside)
    pub others_held :
        (j : Text)
        → text_eq prepared.profile.id j ≡ false
        → laws.held s'.outside j ≡ laws.held s.outside j
    pub others_session :
        (j : Text)
        → text_eq prepared.profile.id j ≡ false
        → lookup j s'.session ≡ lookup j s.session

  SavesWhenOk : State W → Prepared → Bool → Result SaveResult × State W → Type 0
  SavesWhenOk s prepared mark x = (r : SaveResult) → x.0 ≡ ok r → Saved s prepared mark r x.1

  stored-Saves :
      (ctx : Context) (prepared : Prepared) (mark : Bool) (old : OldSecret) (session : Option Text)
      (s : State W) (kept : Kept W)
      → Undoable ports laws s prepared.profile.id kept.mutated kept.state
      → SavesWhenOk s prepared mark (store ports ctx prepared mark old session kept)
  unfolding SavesWhenOk
  stored-Saves ctx prepared mark old session s kept only r h =
      let written = store_done-Written ctx prepared mark old session kept r h in
      record {
        profile_now = written.profile_now;
        document_now = written.document_now;
        others_held = λ j apart. written.held_now j ∙ only.held_others j apart;
        others_session = λ j apart. ap (lookup j) written.session_now ∙ only.others j apart;
      }

  write_secret-Saves :
      (ctx : Context) (prepared : Prepared) (mark : Bool) (old : OldSecret) (session : Option Text)
      (s : State W)
      → SavesWhenOk s prepared mark
          (store ports ctx prepared mark old session (write_secret ports ctx prepared old s))
  unfolding write_secret
  write_secret-Saves ctx prepared mark (secret_unread err) session s =
      stored-Saves ctx prepared mark (secret_unread err) session s _
        (session_only-Undoable ports laws prepared [] err s s refl (λ j. refl) refl)
  write_secret-Saves ctx prepared mark (secret_found v) session s =
      stored-Saves ctx prepared mark (secret_found v) session s _
        (write_to_keychain-Undoable ports laws ctx prepared s)
  write_secret-Saves ctx prepared mark secret_absent session s =
      stored-Saves ctx prepared mark secret_absent session s _
        (write_to_keychain-Undoable ports laws ctx prepared s)

  removal_answered-Saves :
      (ctx : Context) (prepared : Prepared) (mark : Bool) (old : OldSecret) (s : State W)
      (answer : Option Failure)
      → (ports.delete_secret ctx prepared.profile.id s.outside).0 ≡ answer
      → SavesWhenOk s prepared mark (
          removal_answered ports ctx prepared mark old s answer
            (ports.delete_secret ctx prepared.profile.id s.outside).1)
  unfolding removal_answered SavesWhenOk
  removal_answered-Saves ctx prepared mark old s none e =
      stored-Saves ctx prepared mark old _ s _
        (secret_removed-Undoable ports laws ctx prepared s (inl e))
  removal_answered-Saves ctx prepared mark old s (some err) e =
      elim (Bool-cases (is_not_found err)) [
        | inl missing ↦ rw missing (
            stored-Saves ctx prepared mark old _ s _
              (secret_removed-Undoable ports laws ctx prepared s (inr (err, e))))
        | inr other ↦ rw other (λ r h. ground (arith, h))
      ]

  commit_removal-Saves :
      (ctx : Context) (prepared : Prepared) (mark : Bool) (old : OldSecret) (s : State W)
      → SavesWhenOk s prepared mark (commit_removal ports ctx prepared mark old s)
  unfolding commit_removal removal SavesWhenOk
  commit_removal-Saves ctx prepared mark (secret_unread err) s = λ r h. ground (arith, h)
  commit_removal-Saves ctx prepared mark (secret_found v) s =
      removal_answered-Saves ctx prepared mark (secret_found v) s _ refl
  commit_removal-Saves ctx prepared mark secret_absent s =
      removal_answered-Saves ctx prepared mark secret_absent s _ refl

  commit-Saves :
      (prepared : Prepared) (mark : Bool) (s : State W) (cancelled : Option Failure)
      → SavesWhenOk s prepared mark (commit ports (record { err = cancelled }) prepared mark s)
  unfolding commit SavesWhenOk
  commit-Saves prepared mark s (some err) = λ r h. ground (arith, h)
  commit-Saves prepared mark s none =
      let ctx : Context = record { err = none } in
      let id = prepared.profile.id in
      let old = old_secret ports ctx prepared s.outside in
      elim (Bool-cases (text_eq id [] || not (text_eq prepared.draft.id id))) [
        | inl invalid ↦ rw invalid (λ r h. ground (arith, h))
        | inr valid ↦ elim (Bool-cases (should_write_secret prepared)) [
          | inl write ↦ rw (valid, write) (write_secret-Saves ctx prepared mark old _ s)
          | inr not_written ↦ elim (Bool-cases (should_delete_secret prepared)) [
            | inl removed ↦
                rw (valid, not_written, removed) (commit_removal-Saves ctx prepared mark old s)
            | inr kept ↦
                rw (valid, not_written, kept)
                  (stored-Saves ctx prepared mark old _ s (keep_secret ports prepared s)
                    (keep_secret-Undoable ports laws prepared s))
          ]
        ]
      ]

  -- With ports that keep their laws, a save that succeeds has written the prepared profile, with its times,
  -- in the place of the one it was made from, every other profile where it was, or at the end if it is
  -- new; the document is otherwise the same, with a version. The secrets of other profiles, in the
  -- keychain and in the session, are not touched.
  pub commit_done-Saved :
      (ctx : Context) (prepared : Prepared) (mark : Bool) (s : State W) (r : SaveResult)
      → (commit ports ctx prepared mark s).0 ≡ ok r
      → Saved s prepared mark r (commit ports ctx prepared mark s).1
  unfolding SavesWhenOk
  commit_done-Saved ctx prepared mark s r h = commit-Saves prepared mark s ctx.err r h
