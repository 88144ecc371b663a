-- ===== src/Profile/Undo.antt =====
-- The way back after a save that failed: restoreSecret and the session's entry.
use db_tui.Common.{
  ◌⊎◌, ◌≡◌, ◌≢◌, refl, Bool, true, false, Option, none, some, Text, text_eq, text_eq_iff, lookup,
  lookup-insert, lookup-delete, if◌then◌else◌, arith, inl, inr, Option-cases,
}
use db_tui.Profile.Types.{Document, Failure, is_not_found}
use db_tui.Profile.Ports.{Context, Ports, State, Lawful}
use db_tui.Profile.Secrets.{OldSecret, secret_found, secret_absent, secret_unread}
use db_tui.Profile.Commit.{undo, restore_secret, restore_session}

-- The keychain answers: a secret can be written, and one that is there can be removed.
pub record AnswersAt {W : Type 0} (ports : Ports W) (w : W) : Type 0 where
  pub sets : (id v : Text) → (ports.set_secret (record { err = none }) id v w).0 ≡ none
  pub deletes :
      (id : Text) (f : Failure)
      → (ports.delete_secret (record { err = none }) id w).0 ≡ some f
      → is_not_found f ≡ true

-- It answers where the service goes back: right after a call of Save that has failed.
abbrev pub Answers : {W : Type 0} → Ports W → Type 0
Answers {W} ports =
    (ctx : Context) (d : Document) (w : W) (f : Failure)
    → (ports.save_document ctx d w).0 ≡ some f
    → AnswersAt ports (ports.save_document ctx d w).1

module _ {W : Type 0} (ports : Ports W) (laws : Lawful ports) where
  -- The secrets are as they were, and the file is, or has the document that could not be confirmed.
  pub record Restored (Next : Document → Type 0) (s s' : State W) : Type 0 where
    pub session_same : (id : Text) → lookup id s'.session ≡ lookup id s.session
    pub held_same : (id : Text) → laws.held s'.outside id ≡ laws.held s.outside id
    pub stored_either :
        (laws.stored s'.outside ≡ laws.stored s.outside) ⊎ Next (laws.stored s'.outside)

  pub Restored-weaken :
      (Next Next' : Document → Type 0) (s s' : State W)
      → ((d : Document) → Next d → Next' d)
      → Restored Next s s'
      → Restored Next' s s'
  Restored-weaken Next Next' s s' f back = record {
    session_same = back.session_same;
    held_same = back.held_same;
    stored_either = elim back.stored_either [
      | inl same ↦ inl same
      | inr next ↦ inr (f (laws.stored s'.outside) next)
    ];
  }

  -- what was read of the keychain is what it holds
  abbrev pub OldIs : W → Text → OldSecret → Type 0
  OldIs w id (secret_found v) = laws.held w id ≡ some v
  OldIs w id secret_absent = laws.held w id ≡ none
  OldIs w id (secret_unread _) = Unit

  -- only the entries of one profile differ
  pub record Apart (s : State W) (id : Text) (mutated : Bool) (s' : State W) : Type 0 where
    pub others : (j : Text) → text_eq id j ≡ false → lookup j s'.session ≡ lookup j s.session
    pub held_others :
        (j : Text) → text_eq id j ≡ false → laws.held s'.outside j ≡ laws.held s.outside j
    pub unmutated : mutated ≡ false → (j : Text) → laws.held s'.outside j ≡ laws.held s.outside j

  -- the same, and the file is as it was
  pub record Undoable (s : State W) (id : Text) (mutated : Bool) (s' : State W) : Type 0 where
    pub others : (j : Text) → text_eq id j ≡ false → lookup j s'.session ≡ lookup j s.session
    pub held_others :
        (j : Text) → text_eq id j ≡ false → laws.held s'.outside j ≡ laws.held s.outside j
    pub unmutated : mutated ≡ false → (j : Text) → laws.held s'.outside j ≡ laws.held s.outside j
    pub stored_kept : laws.stored s'.outside ≡ laws.stored s.outside

  -- the keychain after a secret is removed, or found to be missing
  pub delete-held :
      (w : W) (id j : Text)
      → AnswersAt ports w
      → laws.held (ports.delete_secret (record { err = none }) id w).1 j
        ≡ (if text_eq id j then none else laws.held w j)
  delete-held w id j answers =
      let bg : Context = record { err = none } in
      elim (Option-cases (ports.delete_secret bg id w).0) [
        | inl e ↦ laws.delete_held bg id w j e
        | inr (f, e) ↦ ground (
          arith,
          laws.not_deleted bg id w j f e,
          laws.delete_missing bg id w f e (answers.deletes id f e),
          text_eq_iff id j,
        )
      ]

  pub restore_secret-held :
      (w w' : W) (id : Text) (old : OldSecret)
      → AnswersAt ports w'
      → OldIs w id old
      → ((e : Failure) → old ≢ secret_unread e)
      → ((j : Text) → text_eq id j ≡ false → laws.held w' j ≡ laws.held w j)
      → (j : Text)
      → laws.held (restore_secret ports (record { err = none }) id old w') j ≡ laws.held w j
  unfolding restore_secret
  restore_secret-held w w' id (secret_found v) answers is read others j = ground (
    arith,
    laws.set_held (record { err = none }) id v w' j (answers.sets id v),
    text_eq_iff id j,
    others j,
  )
  restore_secret-held w w' id secret_absent answers is read others j =
      ground (arith, delete-held w' id j answers, text_eq_iff id j, others j)
  restore_secret-held w w' id (secret_unread e) answers is read others j = absurd (read e refl)

  pub restore_secret-stored :
      (ctx : Context) (w : W) (id : Text) (old : OldSecret)
      → laws.stored (restore_secret ports ctx id old w) ≡ laws.stored w
  unfolding restore_secret
  restore_secret-stored ctx w id (secret_found v) = laws.set_stored ctx id v w
  restore_secret-stored ctx w id secret_absent = laws.delete_stored ctx id w
  restore_secret-stored ctx w id (secret_unread e) = laws.delete_stored ctx id w

  restore_session-same :
      (s s' : State W) (id : Text)
      → ((j : Text) → text_eq id j ≡ false → lookup j s'.session ≡ lookup j s.session)
      → (j : Text)
      → lookup j (restore_session ports id (lookup id s.session) s').session ≡ lookup j s.session
  restore_session-same s s' id others j = elim (Option-cases (lookup id s.session)) [
    | inl e ↦ rw e (ground (arith, lookup-delete id j s'.session, others j, text_eq_iff id j))
    | inr (v, e) ↦
        rw e (ground (arith, lookup-insert id j v s'.session, others j, text_eq_iff id j))
  ]

  restore_session-outside :
      (id : Text) (o : Option Text) (s : State W)
      → (restore_session ports id o s).outside ≡ s.outside
  restore_session-outside id none s = refl
  restore_session-outside id (some v) s = refl

  -- the way back leads back, from a file that is as it was, or the next one
  pub undo-Restored :
      (Next : Document → Type 0) (s s' : State W) (ctx : Context) (id : Text) (mutated : Bool)
      (old : OldSecret)
      → AnswersAt ports s'.outside
      → (mutated ≡ true → OldIs s.outside id old)
      → (mutated ≡ true → (e : Failure) → old ≢ secret_unread e)
      → Apart s id mutated s'
      → (laws.stored s'.outside ≡ laws.stored s.outside) ⊎ Next (laws.stored s'.outside)
      → Restored Next s (undo ports ctx id mutated old (lookup id s.session) s')
  unfolding undo
  undo-Restored Next s s' ctx id true old answers is read u stored = record {
    session_same = λ j.
        restore_session-same s
          (record s' { outside = restore_secret ports (record { err = none }) id old s'.outside })
          id u.others j;
    held_same = λ j. rw (restore_session-outside id (lookup id s.session)) (
        restore_secret-held s.outside s'.outside id old answers (is refl) (read refl) u.held_others
          j);
    stored_either =
        rw (restore_session-outside id (lookup id s.session))
          (rw (restore_secret-stored (record { err = none }) s'.outside id old) stored);
  }
  undo-Restored Next s s' ctx id false old answers is read u stored = record {
    session_same = λ j. restore_session-same s s' id u.others j;
    held_same = λ j. rw (restore_session-outside id (lookup id s.session)) (u.unmutated refl j);
    stored_either = rw (restore_session-outside id (lookup id s.session)) stored;
  }
