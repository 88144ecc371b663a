-- ===== src/Profile/Deleting.antt =====
-- What a deletion of a profile comes to, when it fails and when it succeeds.
use mathlib.Core.Path.{subst}
use db_tui.Common.{
  ℕ, ◌≡◌, ◌∙◌, refl, sym, ap, Option, none, some, Text, remove_at, arith, inl, inr, Option-cases,
}
use db_tui.Profile.Types.{Document, Failure, Result, failed, ok}
use db_tui.Profile.Ports.{Context, Ports, State, Lawful}
use db_tui.Profile.Secrets.{old_of}
use db_tui.Profile.Service.{index_of}
use db_tui.Profile.Deletion.{delete_stored, delete_from, delete_profile}
use db_tui.Profile.Undo.{Restored-weaken, Answers, Restored}
use db_tui.Profile.Changes.{untouched, old_of-Is}
use db_tui.Profile.Settling.{Deleted, Settled, delete_stored-Settled}

module _ {W : Type 0} (ports : Ports W) (laws : Lawful ports) where
  abbrev without : Document → ℕ → Document
  without document index = record document { profiles = remove_at document.profiles index }

  -- the document without the profile that is found first
  abbrev pub Without : Document → Text → Document → Type 0
  Without document id d =
      (index : ℕ) × ((index_of id document.profiles ≡ some index) × (d ≡ without document index))

  -- the same, for the whole handler
  abbrev Ended : State W → Text → Option Failure × State W → Type 0
  Ended s id (none, s') =
      let document = laws.stored s.outside in
      (index : ℕ) × ((index_of id document.profiles ≡ some index)
        × Deleted ports laws s id (without document index) s')
  Ended s id (some f, s') = Restored ports laws (Without (laws.stored s.outside) id) s s'

  Ended-of_Settled :
      (s : State W) (id : Text) (index : ℕ) (r : Option Failure × State W)
      → index_of id (laws.stored s.outside).profiles ≡ some index
      → Settled ports laws s id (without (laws.stored s.outside) index) r
      → Ended s id r
  Ended-of_Settled s id index (none, s') i done = (index, (i, done))
  Ended-of_Settled s id index (some f, s') i back =
      Restored-weaken ports laws (λ d. d ≡ without (laws.stored s.outside) index)
        (Without (laws.stored s.outside) id) s s' (λ d same. (index, (i, same))) back

  Restored-of_Ended :
      (s : State W) (id : Text) (r : Option Failure × State W) (f : Failure)
      → Ended s id r
      → r.0 ≡ some f
      → Restored ports laws (Without (laws.stored s.outside) id) s r.1
  Restored-of_Ended s id (none, s') f ended h = ground (arith, h)
  Restored-of_Ended s id (some g, s') f ended h = ended

  Deleted-of_Ended :
      (s : State W) (id : Text) (r : Option Failure × State W) (index : ℕ)
      → index_of id (laws.stored s.outside).profiles ≡ some index
      → Ended s id r
      → r.0 ≡ none
      → Deleted ports laws s id (without (laws.stored s.outside) index) r.1
  Deleted-of_Ended s id (none, s') index i (found, (at, done)) h =
      let same : found ≡ index = ground (arith, at, i) in
      subst (λ k. Deleted ports laws s id (without (laws.stored s.outside) k) s') same done
  Deleted-of_Ended s id (some g, s') index i ended h = ground (arith, h)

  loaded-Ended :
      (answers : Answers ports) (ctx : Context) (id : Text) (s : State W)
      (loading : Result Document)
      → ports.load_document ctx s.outside ≡ loading
      → Ended s id (delete_from ports ctx id s loading)
  unfolding delete_from
  loaded-Ended answers ctx id s (failed f) e =
      untouched ports laws (Without (laws.stored s.outside) id) s
  loaded-Ended answers ctx id s (ok document) e =
      let same : document ≡ laws.stored s.outside = laws.loaded ctx s.outside document e in
      elim (Option-cases (index_of id document.profiles)) [
        | inl absent ↦
            rw (absent, delete_from) (untouched ports laws (Without (laws.stored s.outside) id) s)
        | inr (index, i) ↦
            rw (i, delete_from)
              (Ended-of_Settled s id index _ (ap (λ d. index_of id d.profiles) (sym same) ∙ i) (
                subst
                  (λ d. Settled ports laws s id (without d index) (
                    delete_stored ports ctx id (without document index)
                      (old_of (ports.get_secret ctx id s.outside)) s))
                  same
                  (delete_stored-Settled ports laws answers ctx id (without document index)
                    (old_of (ports.get_secret ctx id s.outside)) s
                    (laws.loaded_version ctx s.outside document e)
                    (old_of-Is ports laws ctx s.outside id (ports.get_secret ctx id s.outside)
                      refl))))
      ]

  delete_profile-Ended :
      (answers : Answers ports) (ctx : Context) (id : Text) (s : State W)
      → Ended s id (delete_profile ports ctx id s)
  unfolding delete_profile
  delete_profile-Ended answers ctx id s =
      let loading = ports.load_document ctx s.outside in loaded-Ended answers ctx id s loading refl

  -- With ports that keep their laws, and a keychain that answers right after a failed write of the file,
  -- where the service goes back, a deletion that fails leaves the keychain and the session's secrets as
  -- they were, and the file as it was or, where the repository failed after it had replaced the file,
  -- without the first profile with the identifier and otherwise the same.
  pub delete_failed-Restored :
      (answers : Answers ports) (ctx : Context) (id : Text) (s : State W) (f : Failure)
      → (delete_profile ports ctx id s).0 ≡ some f
      → Restored ports laws (Without (laws.stored s.outside) id) s (delete_profile ports ctx id s).1
  delete_failed-Restored answers ctx id s f h =
      Restored-of_Ended s id (delete_profile ports ctx id s) f
        (delete_profile-Ended answers ctx id s) h

  -- With ports that keep their laws, and a keychain that answers right after a failed
  -- write of the file, a deletion that succeeds removes the
  -- first profile with the identifier, its secret in the keychain and its secret in the session, and
  -- no other profile or secret.
  pub delete_done-Deleted :
      (answers : Answers ports) (ctx : Context) (id : Text) (s : State W) (index : ℕ)
      → index_of id (laws.stored s.outside).profiles ≡ some index
      → (delete_profile ports ctx id s).0 ≡ none
      → Deleted ports laws s id
          (record (laws.stored s.outside) {
            profiles = remove_at (laws.stored s.outside).profiles index;
          })
          (delete_profile ports ctx id s).1
  delete_done-Deleted answers ctx id s index i h =
      Deleted-of_Ended s id (delete_profile ports ctx id s) index i
        (delete_profile-Ended answers ctx id s) h
