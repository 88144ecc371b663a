-- ===== src/Profile/Changes.antt =====
-- What a change of one profile's secret leaves alone.
use db_tui.Common.{
  ◌≡◌, ◌||◌, refl, true, false, [], none, some, Text, text_eq, lookup-insert, lookup-delete, arith,
  ◌⊎◌, inl, inr, Bool-cases, Option-cases,
}
use db_tui.Profile.Types.{Document, Failure, Result, failed, ok, is_not_found, Prepared}
use db_tui.Profile.Ports.{Context, Ports, State, Lawful}
use db_tui.Profile.Secrets.{
  old_of, old_secret, should_write_secret, should_delete_secret, write_to_keychain, session_only,
  secret_removed, keep_secret,
}
use db_tui.Profile.Undo.{Restored, OldIs, Undoable}

module _ {W : Type 0} (ports : Ports W) (laws : Lawful ports) where
  pub untouched : (Next : Document → Type 0) (s : State W) → Restored ports laws Next s s
  untouched Next s = record {
    session_same = λ j. refl;
    held_same = λ j. refl;
    stored_either = inl refl;
  }

  pub keep_secret-unmutated :
      (prepared : Prepared) (s : State W) → (keep_secret ports prepared s).mutated ≡ false
  unfolding keep_secret
  keep_secret-unmutated prepared s = ground arith

  pub keep_secret-Undoable :
      (prepared : Prepared) (s : State W)
      → let kept = keep_secret ports prepared s in
        Undoable ports laws s prepared.profile.id kept.mutated kept.state
  unfolding keep_secret
  keep_secret-Undoable prepared s = record {
    others =
        λ j apart. ground (arith, lookup-insert prepared.profile.id j prepared.password s.session);
    held_others = λ j apart. ground arith;
    unmutated = λ same j. ground arith;
    stored_kept = ground arith;
  }

  pub secret_removed-Undoable :
      (ctx : Context) (prepared : Prepared) (s : State W)
      → ((ports.delete_secret ctx prepared.profile.id s.outside).0 ≡ none)
        ⊎ ((f : Failure) × ((ports.delete_secret ctx prepared.profile.id s.outside).0 ≡ some f))
      → let kept =
          secret_removed ports prepared
            (ports.delete_secret ctx prepared.profile.id s.outside).1
            s in
        Undoable ports laws s prepared.profile.id kept.mutated kept.state
  unfolding secret_removed
  secret_removed-Undoable ctx prepared s answer =
      let id = prepared.profile.id in
      let w = (ports.delete_secret ctx id s.outside).1 in
      let held_same : (j : Text) → text_eq id j ≡ false → laws.held w j ≡ laws.held s.outside j =
        λ j apart. elim answer [
          | inl e ↦ ground (arith, laws.delete_held ctx id s.outside j e)
          | inr (f, e) ↦ laws.not_deleted ctx id s.outside j f e
        ] in
      record {
        others = λ j apart.
            ground
              (arith, lookup-insert id j prepared.password s.session, lookup-delete id j s.session);
        held_others = λ j apart. ground (arith, held_same j apart);
        unmutated = λ same j. ground arith;
        stored_kept = ground (arith, laws.delete_stored ctx id s.outside);
      }

  pub session_only-Undoable :
      (prepared : Prepared) (summary : Text) (e : Failure) (s s' : State W)
      → s'.session ≡ s.session
      → ((j : Text) → laws.held s'.outside j ≡ laws.held s.outside j)
      → laws.stored s'.outside ≡ laws.stored s.outside
      → let kept = session_only ports prepared summary e s' in
        Undoable ports laws s prepared.profile.id kept.mutated kept.state
  unfolding session_only
  session_only-Undoable prepared summary e s s' same held stored = record {
    others =
        λ j apart. ground (arith, lookup-insert prepared.profile.id j prepared.password s'.session);
    held_others = λ j apart. held j;
    unmutated = λ not_mutated j. held j;
    stored_kept = stored;
  }

  pub write_to_keychain-Undoable :
      (ctx : Context) (prepared : Prepared) (s : State W)
      → let kept = write_to_keychain ports ctx prepared s in
        Undoable ports laws s prepared.profile.id kept.mutated kept.state
  unfolding write_to_keychain session_only
  write_to_keychain-Undoable ctx prepared s =
      let id = prepared.profile.id in
      let v = prepared.password in
      let w = ports.set_secret ctx id v s.outside in
      elim (Option-cases w.0) [
        | inl e ↦
            rw (e, write_to_keychain)
              (record {
                others = λ j apart. ground (arith, lookup-delete id j s.session);
                held_others = λ j apart. ground (arith, laws.set_held ctx id v s.outside j e);
                unmutated = λ same j. ground arith;
                stored_kept = laws.set_stored ctx id v s.outside;
              })
        | inr (f, e) ↦
            rw (e, write_to_keychain)
              (session_only-Undoable prepared [] f s (record s { outside = w.1 }) refl
                (λ j. laws.not_set ctx id v s.outside j f e) (laws.set_stored ctx id v s.outside))
      ]

  pub old_of-Is :
      (ctx : Context) (w : W) (id : Text) (r : Result Text)
      → ports.get_secret ctx id w ≡ r
      → OldIs ports laws w id (old_of r)
  old_of-Is ctx w id (ok secret) e = laws.found ctx id secret w e
  old_of-Is ctx w id (failed f) e = elim (Bool-cases (is_not_found f)) [
    | inl missing ↦ rw missing (laws.missing ctx id w f e missing)
    | inr other ↦ rw other tt
  ]

  pub old_secret-Is :
      (ctx : Context) (prepared : Prepared) (w : W)
      → (prepared.previous_index ≡ none → laws.held w prepared.profile.id ≡ none)
      → (should_write_secret prepared || should_delete_secret prepared) ≡ true
      → OldIs ports laws w prepared.profile.id (old_secret ports ctx prepared w)
  unfolding old_secret
  old_secret-Is ctx prepared w fresh should = elim (Option-cases prepared.previous_index) [
    | inl e ↦ rw (should, e) (fresh e)
    | inr (index, e) ↦
        rw (should, e)
          (old_of-Is ctx w prepared.profile.id (ports.get_secret ctx prepared.profile.id w) refl)
  ]
