-- ===== src/Profile/Keeping.antt =====
-- A password that was to be saved can be used afterwards.
use db_tui.Common.{
  ◌≡◌, ◌∙◌, ◌||◌, ap, Bool, true, false, not, [], Option, none, some, Text, text_eq, text_eq_refl,
  lookup, lookup-insert_self, arith, inl, inr, Bool-cases, Option-cases,
}
use db_tui.Profile.Types.{Failure, Result, ok, Prepared, SaveResult}
use db_tui.Profile.Ports.{Context, Ports, State, Lawful}
use db_tui.Profile.Secrets.{
  OldSecret, secret_found, secret_absent, secret_unread, old_secret, Kept, should_write_secret,
  write_secret, write_to_keychain, session_only,
}
use db_tui.Profile.Commit.{store, commit}
use db_tui.Profile.Saving.{store_done-Written}

module _ {W : Type 0} (ports : Ports W) (laws : Lawful ports) where
  -- where the password of a profile is
  abbrev pub Reachable : Text → Text → Bool → State W → Type 0
  Reachable id password true s = laws.held s.outside id ≡ some password
  Reachable id password false s = lookup id s.session ≡ some password

  Keeps : Prepared → Result SaveResult × State W → Type 0
  Keeps prepared x =
      (r : SaveResult)
      → x.0 ≡ ok r
      → Reachable prepared.profile.id prepared.password r.profile.save_password x.1

  Reachable-after :
      (id password : Text) (saved : Bool) (s s' : State W)
      → laws.held s'.outside id ≡ laws.held s.outside id
      → s'.session ≡ s.session
      → Reachable id password saved s
      → Reachable id password saved s'
  Reachable-after id password true s s' held session at = held ∙ at
  Reachable-after id password false s s' held session at = ap (lookup id) session ∙ at

  store-Keeps :
      (ctx : Context) (prepared : Prepared) (mark : Bool) (old : OldSecret) (session : Option Text)
      (kept : Kept W)
      → Reachable prepared.profile.id prepared.password kept.save_password kept.state
      → Keeps prepared (store ports ctx prepared mark old session kept)
  unfolding Keeps
  store-Keeps ctx prepared mark old session kept at r h =
      let written = store_done-Written ports laws ctx prepared mark old session kept r h in
      rw written.password_saved (
        Reachable-after prepared.profile.id prepared.password kept.save_password kept.state
          (store ports ctx prepared mark old session kept).1 (written.held_now prepared.profile.id)
          written.session_now at)

  session_only-Reachable :
      (prepared : Prepared) (summary : Text) (e : Failure) (s : State W)
      → let kept = session_only ports prepared summary e s in
        Reachable prepared.profile.id prepared.password kept.save_password kept.state
  unfolding session_only
  session_only-Reachable prepared summary e s =
      lookup-insert_self prepared.profile.id prepared.password s.session

  write_to_keychain-Reachable :
      (ctx : Context) (prepared : Prepared) (s : State W)
      → prepared.profile.save_password ≡ true
      → let kept = write_to_keychain ports ctx prepared s in
        Reachable prepared.profile.id prepared.password kept.save_password kept.state
  unfolding write_to_keychain session_only
  write_to_keychain-Reachable ctx prepared s on =
      let id = prepared.profile.id in
      let v = prepared.password in
      let w = ports.set_secret ctx id v s.outside in
      elim (Option-cases w.0) [
        | inl e ↦
            rw (e, write_to_keychain, on)
              (ground (arith, laws.set_held ctx id v s.outside id e, text_eq_refl id))
        | inr (f, e) ↦
            rw (e, write_to_keychain)
              (session_only-Reachable prepared [] f (record s { outside = w.1 }))
      ]

  write_secret-Keeps :
      (ctx : Context) (prepared : Prepared) (mark : Bool) (old : OldSecret) (session : Option Text)
      (s : State W)
      → prepared.profile.save_password ≡ true
      → Keeps prepared
          (store ports ctx prepared mark old session (write_secret ports ctx prepared old s))
  unfolding write_secret session_only
  write_secret-Keeps ctx prepared mark (secret_unread err) session s on =
      store-Keeps ctx prepared mark (secret_unread err) session _
        (session_only-Reachable prepared [] err s)
  write_secret-Keeps ctx prepared mark (secret_found v) session s on =
      store-Keeps ctx prepared mark (secret_found v) session _
        (write_to_keychain-Reachable ctx prepared s on)
  write_secret-Keeps ctx prepared mark secret_absent session s on =
      store-Keeps ctx prepared mark secret_absent session _
        (write_to_keychain-Reachable ctx prepared s on)

  write-on :
      (prepared : Prepared)
      → should_write_secret prepared ≡ true
      → prepared.profile.save_password ≡ true
  unfolding should_write_secret
  write-on prepared write = ground (arith, write)

  commit-Keeps :
      (prepared : Prepared) (mark : Bool) (s : State W) (cancelled : Option Failure)
      → should_write_secret prepared ≡ true
      → Keeps prepared (commit ports (record { err = cancelled }) prepared mark s)
  unfolding commit Keeps
  commit-Keeps prepared mark s (some err) write = λ r h. ground (arith, h)
  commit-Keeps prepared mark s none write =
      let ctx : Context = record { err = none } in
      let id = prepared.profile.id in
      elim (Bool-cases (text_eq id [] || not (text_eq prepared.draft.id id))) [
        | inl invalid ↦ rw invalid (λ r h. ground (arith, h))
        | inr valid ↦
            rw (valid, write)
              (write_secret-Keeps ctx prepared mark (old_secret ports ctx prepared s.outside) _ s
                (write-on prepared write))
      ]

  -- With ports that keep their laws, when a password is to be written, and the save succeeds, the
  -- password is in the keychain if the profile that was written says so, and in the session if it does
  -- not: also where the keychain cannot be read or written.
  pub commit_keeps_password :
      (ctx : Context) (prepared : Prepared) (mark : Bool) (s : State W) (r : SaveResult)
      → should_write_secret prepared ≡ true
      → (commit ports ctx prepared mark s).0 ≡ ok r
      → Reachable prepared.profile.id prepared.password r.profile.save_password
          (commit ports ctx prepared mark s).1
  unfolding Keeps
  commit_keeps_password ctx prepared mark s r write h =
      commit-Keeps prepared mark s ctx.err write r h
