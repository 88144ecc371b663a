-- ===== src/Profile/Restoring.antt =====
-- What a save of a profile leaves when it fails.
use mathlib.Core.Path.{subst}
use db_tui.Common.{
  sym, ◌≡◌, ◌≢◌, ◌∙◌, ◌||◌, refl, Bool, true, not, [], Option, none, some, text_eq, lookup, arith,
  inl, inr, Bool-cases, Option-cases,
}
use db_tui.Profile.Types.{Failure, Result, failed, is_not_found, Prepared, SaveResult}
use db_tui.Profile.Ports.{Context, Ports, State, Lawful}
use db_tui.Profile.Secrets.{
  OldSecret, secret_found, secret_absent, secret_unread, old_secret, Kept, should_write_secret,
  should_delete_secret, write_secret, session_only, keep_secret,
}
use db_tui.Profile.Commit.{
  store, commit, commit_removal, removal, removal_answered, stamped, with_profile,
}
use db_tui.Profile.Placing.{Attempted, stamped-Stamped, with_profile-positive, with_profile-Placed}
use db_tui.Profile.Undo.{Answers, Restored, OldIs, Undoable, undo-Restored}
use db_tui.Profile.Changes.{
  untouched, keep_secret-unmutated, keep_secret-Undoable, secret_removed-Undoable,
  session_only-Undoable, write_to_keychain-Undoable, old_secret-Is,
}

module _ {W : Type 0} (ports : Ports W) (laws : Lawful ports) where
  -- if it fails, then with the secrets as they were, and the file too, or with the new document
  FailsSafe : Prepared → Bool → State W → Result SaveResult × State W → Type 0
  FailsSafe prepared mark s r =
      (f : Failure) → r.0 ≡ failed f → Restored ports laws (Attempted prepared mark) s r.1

  abbrev StoreIsSafe : Context → Prepared → Bool → OldSecret → State W → Kept W → Type 0
  StoreIsSafe ctx prepared mark old s kept =
      FailsSafe prepared mark s
        (store ports ctx prepared mark old (lookup prepared.profile.id s.session) kept)

  store_failed-Restored :
      (answers : Answers ports) (ctx : Context) (prepared : Prepared) (mark : Bool)
      (old : OldSecret) (s : State W) (kept : Kept W)
      → (kept.mutated ≡ true → OldIs ports laws s.outside prepared.profile.id old)
      → (kept.mutated ≡ true → (e : Failure) → old ≢ secret_unread e)
      → Undoable ports laws s prepared.profile.id kept.mutated kept.state
      → StoreIsSafe ctx prepared mark old s kept
  unfolding store FailsSafe
  store_failed-Restored answers ctx prepared mark old s kept is read u f h =
      let profile = stamped prepared kept.save_password mark (ports.now kept.state.outside) in
      let positive = with_profile-positive prepared profile in
      let d =
        with_profile prepared
          (stamped prepared kept.save_password mark (ports.now kept.state.outside)) in
      let w = ports.save_document ctx d kept.state.outside in
      elim (Option-cases w.0) [
        | inl e ↦ ground (arith, h, e)
        | inr (e, failing) ↦
            rw (failing, store)
              (undo-Restored ports laws (Attempted prepared mark) s
                (record kept.state { outside = w.1 }) ctx prepared.profile.id kept.mutated old
                (answers ctx d kept.state.outside e failing) is read
                (record {
                  others = u.others;
                  held_others =
                      λ j apart. laws.saved_held ctx d kept.state.outside j ∙ u.held_others j apart;
                  unmutated =
                      λ same j. laws.saved_held ctx d kept.state.outside j ∙ u.unmutated same j;
                })
                (elim (laws.not_saved ctx d kept.state.outside e positive failing) [
                  | inl same ↦ inl (same ∙ u.stored_kept)
                  | inr next ↦ inr (
                      subst (Attempted prepared mark) (sym next) (
                        profile,
                        (
                          stamped-Stamped prepared kept.save_password mark
                              (ports.now kept.state.outside),
                          with_profile-Placed prepared profile,
                        ),
                      ))
                ]))
      ]

  write_secret-StoreIsSafe :
      (answers : Answers ports) (ctx : Context) (prepared : Prepared) (mark : Bool)
      (old : OldSecret) (s : State W)
      → OldIs ports laws s.outside prepared.profile.id old
      → StoreIsSafe ctx prepared mark old s (write_secret ports ctx prepared old s)
  unfolding write_secret session_only
  write_secret-StoreIsSafe answers ctx prepared mark (secret_unread err) s is =
      store_failed-Restored answers ctx prepared mark (secret_unread err) s _ (λ mutated. is)
        (λ mutated e. ground arith)
        (session_only-Undoable ports laws prepared [] err s s refl (λ j. refl) refl)
  write_secret-StoreIsSafe answers ctx prepared mark (secret_found v) s is =
      store_failed-Restored answers ctx prepared mark (secret_found v) s _ (λ mutated. is)
        (λ mutated e. ground arith) (write_to_keychain-Undoable ports laws ctx prepared s)
  write_secret-StoreIsSafe answers ctx prepared mark secret_absent s is =
      store_failed-Restored answers ctx prepared mark secret_absent s _ (λ mutated. is)
        (λ mutated e. ground arith) (write_to_keychain-Undoable ports laws ctx prepared s)

  removal_answered-Safe :
      (answers : Answers ports) (ctx : Context) (prepared : Prepared) (mark : Bool)
      (old : OldSecret) (s : State W) (answer : Option Failure)
      → OldIs ports laws s.outside prepared.profile.id old
      → ((e : Failure) → old ≢ secret_unread e)
      → (ports.delete_secret ctx prepared.profile.id s.outside).0 ≡ answer
      → let w = (ports.delete_secret ctx prepared.profile.id s.outside).1 in
        FailsSafe prepared mark s (removal_answered ports ctx prepared mark old s answer w)
  unfolding removal_answered FailsSafe
  removal_answered-Safe answers ctx prepared mark old s none is read e =
      store_failed-Restored answers ctx prepared mark old s _ (λ mutated. is) (λ mutated. read)
        (secret_removed-Undoable ports laws ctx prepared s (inl e))
  removal_answered-Safe answers ctx prepared mark old s (some err) is read e =
      elim (Bool-cases (is_not_found err)) [
        | inl missing ↦ rw missing (
            store_failed-Restored answers ctx prepared mark old s _ (λ mutated. is)
              (λ mutated. read) (secret_removed-Undoable ports laws ctx prepared s (inr (err, e))))
        | inr other ↦ rw other (λ f h. record {
          session_same = λ j. refl;
          held_same = λ j. laws.not_deleted ctx prepared.profile.id s.outside j err e;
          stored_either = inl (laws.delete_stored ctx prepared.profile.id s.outside);
        })
      ]

  commit_removal-Safe :
      (answers : Answers ports) (ctx : Context) (prepared : Prepared) (mark : Bool)
      (old : OldSecret) (s : State W)
      → OldIs ports laws s.outside prepared.profile.id old
      → FailsSafe prepared mark s (commit_removal ports ctx prepared mark old s)
  unfolding commit_removal removal FailsSafe
  commit_removal-Safe answers ctx prepared mark (secret_unread err) s is =
      λ f h. untouched ports laws (Attempted prepared mark) s
  commit_removal-Safe answers ctx prepared mark (secret_found v) s is =
      removal_answered-Safe answers ctx prepared mark (secret_found v) s _ is (λ e. ground arith)
        refl
  commit_removal-Safe answers ctx prepared mark secret_absent s is =
      removal_answered-Safe answers ctx prepared mark secret_absent s _ is (λ e. ground arith) refl

  commit-Safe :
      (answers : Answers ports) (prepared : Prepared) (mark : Bool) (s : State W)
      (cancelled : Option Failure)
      → (prepared.previous_index ≡ none → laws.held s.outside prepared.profile.id ≡ none)
      → FailsSafe prepared mark s (commit ports (record { err = cancelled }) prepared mark s)
  unfolding commit FailsSafe
  commit-Safe answers prepared mark s (some err) fresh =
      λ f h. untouched ports laws (Attempted prepared mark) s
  commit-Safe answers prepared mark s none fresh =
      let ctx : Context = record { err = none } in
      let id = prepared.profile.id in
      let old = old_secret ports ctx prepared s.outside in
      elim (Bool-cases (text_eq id [] || not (text_eq prepared.draft.id id))) [
        | inl invalid ↦ rw invalid (λ f h. untouched ports laws (Attempted prepared mark) s)
        | inr valid ↦ elim (Bool-cases (should_write_secret prepared)) [
          | inl write ↦
              rw (valid, write)
                (write_secret-StoreIsSafe answers ctx prepared mark old s
                  (old_secret-Is ports laws ctx prepared s.outside fresh (ground arith)))
          | inr not_written ↦ elim (Bool-cases (should_delete_secret prepared)) [
            | inl removed ↦
                rw (valid, not_written, removed)
                  (commit_removal-Safe answers ctx prepared mark old s
                    (old_secret-Is ports laws ctx prepared s.outside fresh (ground arith)))
            | inr kept ↦
                rw (valid, not_written, kept)
                  (store_failed-Restored answers ctx prepared mark old s
                    (keep_secret ports prepared s)
                    (λ mutated. ground (arith, keep_secret-unmutated ports laws prepared s))
                    (λ mutated e. ground (arith, keep_secret-unmutated ports laws prepared s))
                    (keep_secret-Undoable ports laws prepared s))
          ]
        ]
      ]

  -- With ports that keep their laws, a save that fails leaves the secrets of the process and the
  -- keychain as they were, and the file as it was or, where the repository failed after it had replaced
  -- the file, with the prepared document in which only the profile is put in its place, or at the end if
  -- it is new. The keychain has to answer right after a failed write of the file, where the service goes
  -- back, and to hold nothing under a new identifier; on the way in it may fail.
  pub commit_failed-Restored :
      (answers : Answers ports) (ctx : Context) (prepared : Prepared) (mark : Bool) (s : State W)
      (f : Failure)
      → (prepared.previous_index ≡ none → laws.held s.outside prepared.profile.id ≡ none)
      → (commit ports ctx prepared mark s).0 ≡ failed f
      → Restored ports laws (Attempted prepared mark) s (commit ports ctx prepared mark s).1
  unfolding FailsSafe
  commit_failed-Restored answers ctx prepared mark s f fresh h =
      commit-Safe answers prepared mark s ctx.err fresh f h
