-- ===== src/Profile/Ports.antt =====
-- internal/profile/profile.go: the repository and the keychain as the service uses them, over a state
-- of theirs, and what the service relies on.
use db_tui.Common.{ℕ, ◌<◌, ◌≡◌, ◌⊎◌, true, Option, none, some, Text, Dict, text_eq, if◌then◌else◌}
use db_tui.Profile.Types.{Document, Failure, Result, failed, ok, is_not_found}

-- a `context.Context`: its error, once it is cancelled
pub record Context : Type 0 where
  pub err : Option Failure

-- `context.WithoutCancel`
abbrev pub without_cancel : Context → Context
without_cancel ctx = record { err = none }

pub record Ports (W : Type 0) : Type 0 where
  pub load_document : Context → W → Result Document
  pub save_document : Context → Document → W → Option Failure × W
  pub get_secret : Context → Text → W → Result Text
  pub set_secret : Context → Text → Text → W → Option Failure × W
  pub delete_secret : Context → Text → W → Option Failure × W
  pub now : W → ℕ
  pub new_id : W → Result Text

-- The state of the service: the process's own secrets, and everything outside.
pub record State (W : Type 0) : Type 0 where
  pub session : Dict Text
  pub outside : W

-- What the keychain holds and what the file has. A call of the keychain that fails changes nothing, one
-- that succeeds does what it says, and a missing secret is reported as such. A document that is loaded
-- has a version. A save that succeeds has written the document; one that fails may have, since
-- the repository (internal/platform/profile_repository.go) can fail after it has replaced the file.
pub record Lawful {W : Type 0} (ports : Ports W) : Type 0 where
  pub stored : W → Document
  pub held : W → Text → Option Text
  pub loaded :
      (ctx : Context) (w : W) (d : Document) → ports.load_document ctx w ≡ ok d → d ≡ stored w
  pub loaded_version :
      (ctx : Context) (w : W) (d : Document) → ports.load_document ctx w ≡ ok d → 0 < d.version
  pub saved :
      (ctx : Context) (d : Document) (w : W)
      → 0 < d.version
      → (ports.save_document ctx d w).0 ≡ none
      → stored (ports.save_document ctx d w).1 ≡ d
  pub not_saved :
      (ctx : Context) (d : Document) (w : W) (f : Failure)
      → 0 < d.version
      → (ports.save_document ctx d w).0 ≡ some f
      → (stored (ports.save_document ctx d w).1 ≡ stored w)
        ⊎ (stored (ports.save_document ctx d w).1 ≡ d)
  pub saved_held :
      (ctx : Context) (d : Document) (w : W) (id : Text)
      → held (ports.save_document ctx d w).1 id ≡ held w id
  pub found :
      (ctx : Context) (id v : Text) (w : W) → ports.get_secret ctx id w ≡ ok v → held w id ≡ some v
  pub missing :
      (ctx : Context) (id : Text) (w : W) (f : Failure)
      → ports.get_secret ctx id w ≡ failed f
      → is_not_found f ≡ true
      → held w id ≡ none
  pub set_held :
      (ctx : Context) (id v : Text) (w : W) (j : Text)
      → (ports.set_secret ctx id v w).0 ≡ none
      → held (ports.set_secret ctx id v w).1 j ≡ (if text_eq id j then some v else held w j)
  pub not_set :
      (ctx : Context) (id v : Text) (w : W) (j : Text) (f : Failure)
      → (ports.set_secret ctx id v w).0 ≡ some f
      → held (ports.set_secret ctx id v w).1 j ≡ held w j
  pub set_stored :
      (ctx : Context) (id v : Text) (w : W) → stored (ports.set_secret ctx id v w).1 ≡ stored w
  pub delete_held :
      (ctx : Context) (id : Text) (w : W) (j : Text)
      → (ports.delete_secret ctx id w).0 ≡ none
      → held (ports.delete_secret ctx id w).1 j ≡ (if text_eq id j then none else held w j)
  pub not_deleted :
      (ctx : Context) (id : Text) (w : W) (j : Text) (f : Failure)
      → (ports.delete_secret ctx id w).0 ≡ some f
      → held (ports.delete_secret ctx id w).1 j ≡ held w j
  pub delete_missing :
      (ctx : Context) (id : Text) (w : W) (f : Failure)
      → (ports.delete_secret ctx id w).0 ≡ some f
      → is_not_found f ≡ true
      → held w id ≡ none
  pub delete_stored :
      (ctx : Context) (id : Text) (w : W) → stored (ports.delete_secret ctx id w).1 ≡ stored w
