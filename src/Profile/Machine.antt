-- ===== src/Profile/Machine.antt =====
-- A keychain and a repository that may refuse to write, as ports with their laws.
use db_tui.Common.{
  ℕ, zero, suc, ◌<◌, ◌⊎◌, inl, inr, ◌≡◌, refl, ap, true, [], ◌∷◌, Option, none, some, Text, Dict,
  lookup, insert, delete, text_eq, lookup-insert, lookup-delete, if◌then◌else◌, arith,
}
use db_tui.Profile.Types.{
  Document, Failure, Result, failed, ok, secret_not_found, other_failure, is_not_found,
}
use db_tui.Profile.Ports.{Ports, Lawful}
use db_tui.Profile.Undo.{Answers}

-- how the file takes a write: it does, it does not, or its mode cannot be set after it is replaced
pub data Disk : Type 0 where
  writable read_only unsecured : Disk

pub record Machine : Type 0 where
  pub document : Document
  pub keychain : Dict Text
  pub disk : Disk

-- a document without a version is not loaded
unfoldable pub read_file : Document → ℕ → Result Document
read_file d zero = failed (other_failure [])
read_file d (suc _) = ok d

unfoldable pub read_secret : Option Text → Result Text
read_secret none = failed secret_not_found
read_secret (some secret) = ok secret

unfoldable pub drop_secret : Text → Machine → Option Text → Option Failure × Machine
drop_secret id w none = (some secret_not_found, w)
drop_secret id w (some secret) = (none, record w { keychain = delete id w.keychain })

unfoldable pub write_file : Document → Machine → Disk → Option Failure × Machine
write_file d w read_only = (some (other_failure []), w)
write_file d w unsecured = (some (other_failure []), record w { document = d })
write_file d w writable = (none, record w { document = d })

abbrev pub machine : Ports Machine
machine = record {
  load_document = λ ctx w. read_file w.document w.document.version;
  save_document = λ ctx d w. write_file d w w.disk;
  get_secret = λ ctx id w. read_secret (lookup id w.keychain);
  set_secret = λ ctx id v w. (none, record w { keychain = insert id v w.keychain });
  delete_secret = λ ctx id w. drop_secret id w (lookup id w.keychain);
  now = λ w. 1000;
  new_id = λ w. ok (b'n' ∷ []);
}

pub file_read :
    (d found : Document) (version : ℕ)
    → read_file d version ≡ ok found
    → (found ≡ d) × (0 < version)
unfolding read_file
file_read d found zero h = ground (arith, h)
file_read d found (suc n) h = ground (arith, h)

pub file_saved :
    (d : Document) (w : Machine) (disk : Disk)
    → (write_file d w disk).0 ≡ none
    → (write_file d w disk).1.document ≡ d
unfolding write_file
file_saved d w writable h = refl
file_saved d w read_only h = ground (arith, h)
file_saved d w unsecured h = refl

pub file_not_saved :
    (d : Document) (w : Machine) (f : Failure) (disk : Disk)
    → (write_file d w disk).0 ≡ some f
    → ((write_file d w disk).1.document ≡ w.document) ⊎ ((write_file d w disk).1.document ≡ d)
unfolding write_file
file_not_saved d w f writable h = inr refl
file_not_saved d w f read_only h = inl refl
file_not_saved d w f unsecured h = inr refl

pub file-keychain :
    (d : Document) (w : Machine) (disk : Disk) → (write_file d w disk).1.keychain ≡ w.keychain
unfolding write_file
file-keychain d w writable = refl
file-keychain d w read_only = refl
file-keychain d w unsecured = refl

pub file-version :
    (w : Machine) (d : Document) → read_file w.document w.document.version ≡ ok d → 0 < d.version
file-version w d h =
    let (same, positive) = file_read w.document d w.document.version h in
    omega (arith, ap (λ (found : Document). found.version) same, positive)

pub found_there : (o : Option Text) (v : Text) → read_secret o ≡ ok v → o ≡ some v
unfolding read_secret
found_there none v h = ground (arith, h)
found_there (some x) v h = ground (arith, h)

pub missing_there : (o : Option Text) (f : Failure) → read_secret o ≡ failed f → o ≡ none
unfolding read_secret
missing_there none f h = refl
missing_there (some x) f h = ground (arith, h)

pub dropped :
    (id j : Text) (w : Machine) (o : Option Text)
    → (drop_secret id w o).0 ≡ none
    → lookup j (drop_secret id w o).1.keychain
      ≡ (if text_eq id j then none else lookup j w.keychain)
unfolding drop_secret
dropped id j w none h = ground (arith, h)
dropped id j w (some v) h = lookup-delete id j w.keychain

pub not_dropped :
    (id : Text) (w : Machine) (f : Failure) (o : Option Text)
    → (drop_secret id w o).0 ≡ some f
    → ((drop_secret id w o).1.keychain ≡ w.keychain) × (o ≡ none)
unfolding drop_secret
not_dropped id w f none h = (refl, refl)
not_dropped id w f (some v) h = ground (arith, h)

pub dropped-document :
    (id : Text) (w : Machine) (o : Option Text) → (drop_secret id w o).1.document ≡ w.document
unfolding drop_secret
dropped-document id w none = refl
dropped-document id w (some v) = refl

drop-missing :
    (id : Text) (w : Machine) (f : Failure) (o : Option Text)
    → (drop_secret id w o).0 ≡ some f
    → is_not_found f ≡ true
unfolding drop_secret
drop-missing id w f none h = ground (arith, h)
drop-missing id w f (some v) h = ground (arith, h)

abbrev pub machine_laws : Lawful machine
machine_laws = record {
  stored = λ w. w.document;
  held = λ w id. lookup id w.keychain;
  loaded = λ ctx w d h. (file_read w.document d w.document.version h).0;
  loaded_version = λ ctx w d h. file-version w d h;
  saved = λ ctx d w v h. file_saved d w w.disk h;
  not_saved = λ ctx d w f v h. file_not_saved d w f w.disk h;
  saved_held = λ ctx d w id. ap (lookup id) (file-keychain d w w.disk);
  found = λ ctx id v w h. found_there (lookup id w.keychain) v h;
  missing = λ ctx id w f h k. missing_there (lookup id w.keychain) f h;
  set_held = λ ctx id v w j h. lookup-insert id j v w.keychain;
  not_set = λ ctx id v w j f h. ground (arith, h);
  set_stored = λ ctx id v w. refl;
  delete_held = λ ctx id w j h. dropped id j w (lookup id w.keychain) h;
  not_deleted = λ ctx id w j f h. ap (lookup j) (not_dropped id w f (lookup id w.keychain) h).0;
  delete_missing = λ ctx id w f h k. (not_dropped id w f (lookup id w.keychain) h).1;
  delete_stored = λ ctx id w. dropped-document id w (lookup id w.keychain);
}

pub machine-Answers : Answers machine
machine-Answers ctx d w f e = record {
  sets = λ id v. refl;
  deletes = λ id g h.
      let after = (write_file d w w.disk).1 in drop-missing id after g (lookup id after.keychain) h;
}
