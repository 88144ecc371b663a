-- ===== src/Profile/Settling.antt =====
-- What a deletion with the document at hand comes to: the secret, the file and the way back.

use db_tui.Common.{
  ◌<◌, ◌≡◌, ◌≢◌, ◌∙◌, refl, Option, none, some, Text, text_eq, text_eq_iff, lookup, lookup-delete,
  if◌then◌else◌, arith, inl, inr, Bool-cases, Option-cases,
}
use db_tui.Profile.Types.{Document, Failure, is_not_found}
use db_tui.Profile.Ports.{Context, Ports, State, Lawful}
use db_tui.Profile.Secrets.{OldSecret, secret_found, secret_absent, secret_unread}
use db_tui.Profile.Deletion.{save_without, secret_deleted, delete_stored}
use db_tui.Profile.Undo.{Answers, Restored, OldIs, restore_secret-held, restore_secret-stored}
use db_tui.Profile.Changes.{untouched}

module _ {W : Type 0} (ports : Ports W) (laws : Lawful ports) where
  -- the profile's entries are gone, and nothing else changed but the document
  pub record Deleted (s : State W) (id : Text) (document : Document) (s' : State W) : Type 0 where
    pub stored_now : laws.stored s'.outside ≡ document
    pub held_now :
        (j : Text) → laws.held s'.outside j ≡ (if text_eq id j then none else laws.held s.outside j)
    pub session_now :
        (j : Text) → lookup j s'.session ≡ (if text_eq id j then none else lookup j s.session)

  -- done; or failed with the secrets as they were, and the file too, or with the new document
  abbrev pub Settled : State W → Text → Document → Option Failure × State W → Type 0
  Settled s id document (none, s') = Deleted s id document s'
  Settled s id document (some f, s') = Restored ports laws (λ d. d ≡ document) s s'

  save_without-Settled :
      (answers : Answers ports) (ctx : Context) (id : Text) (document : Document) (old : OldSecret)
      (s : State W) (w : W)
      → 0 < document.version
      → OldIs ports laws s.outside id old
      → ((e : Failure) → old ≢ secret_unread e)
      → ((j : Text) → laws.held w j ≡ (if text_eq id j then none else laws.held s.outside j))
      → laws.stored w ≡ laws.stored s.outside
      → Settled s id document (save_without ports ctx id document old (record s { outside = w }))
  unfolding save_without
  save_without-Settled answers ctx id document old s w positive is read removed same =
      let done = ports.save_document ctx document w in
      elim (Option-cases done.0) [
        | inl e ↦
            rw (e, save_without)
              (record {
                stored_now = laws.saved ctx document w positive e;
                held_now = λ j. laws.saved_held ctx document w j ∙ removed j;
                session_now = λ j. lookup-delete id j s.session;
              })
        | inr (f, e) ↦
            rw (e, save_without)
              (record {
                session_same = λ j. refl;
                held_same =
                    restore_secret-held ports laws s.outside done.1 id old
                      (answers ctx document w f e) is read
                      (λ j apart. ground (arith, laws.saved_held ctx document w j, removed j));
                stored_either =
                    rw (restore_secret-stored ports laws (record { err = none }) done.1 id old)
                      (elim (laws.not_saved ctx document w f positive e) [
                        | inl kept ↦ inl (kept ∙ same)
                        | inr next ↦ inr next
                      ]);
              })
      ]

  secret_deleted-Settled :
      (answers : Answers ports) (ctx : Context) (id : Text) (document : Document) (old : OldSecret)
      (s : State W) (answer : Option Failure)
      → 0 < document.version
      → OldIs ports laws s.outside id old
      → ((e : Failure) → old ≢ secret_unread e)
      → (ports.delete_secret ctx id s.outside).0 ≡ answer
      → Settled s id document (
          secret_deleted ports ctx id document old s answer
            (ports.delete_secret ctx id s.outside).1)
  unfolding secret_deleted
  secret_deleted-Settled answers ctx id document old s none positive is read e =
      save_without-Settled answers ctx id document old s _ positive is read
        (λ j. laws.delete_held ctx id s.outside j e) (laws.delete_stored ctx id s.outside)
  secret_deleted-Settled answers ctx id document old s (some f) positive is read e =
      elim (Bool-cases (is_not_found f)) [
        | inl missing ↦ rw missing (
            save_without-Settled answers ctx id document old s _ positive is read
              (λ j. ground (
                arith,
                laws.not_deleted ctx id s.outside j f e,
                laws.delete_missing ctx id s.outside f e missing,
                text_eq_iff id j,
              ))
              (laws.delete_stored ctx id s.outside))
        | inr other ↦ rw other (record {
          session_same = λ j. refl;
          held_same = λ j. laws.not_deleted ctx id s.outside j f e;
          stored_either = inl (laws.delete_stored ctx id s.outside);
        })
      ]

  pub delete_stored-Settled :
      (answers : Answers ports) (ctx : Context) (id : Text) (document : Document) (old : OldSecret)
      (s : State W)
      → 0 < document.version
      → OldIs ports laws s.outside id old
      → Settled s id document (delete_stored ports ctx id document old s)
  unfolding delete_stored
  delete_stored-Settled answers ctx id document (secret_unread f) s positive is =
      untouched ports laws (λ d. d ≡ document) s
  delete_stored-Settled answers ctx id document (secret_found v) s positive is =
      secret_deleted-Settled answers ctx id document (secret_found v) s _ positive is
        (λ e. ground arith) refl
  delete_stored-Settled answers ctx id document secret_absent s positive is =
      secret_deleted-Settled answers ctx id document secret_absent s _ positive is
        (λ e. ground arith) refl
