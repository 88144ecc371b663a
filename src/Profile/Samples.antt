-- ===== src/Profile/Samples.antt =====
-- Two saved profiles, and the theorems at them.
use mathlib.Core.List.{Perm}
use db_tui.Common.{
  ◌≡◌, refl, Bool, true, false, [], ◌∷◌, none, some, Text, lit, lookup, text_eq, remove_at,
  if◌then◌else◌, leb, ◌&&◌, ◌==◌, arith, utf8_len, insert, filter_by,
}
use db_tui.Profile.Types.{
  Profile, Document, Draft, failed, ok, other_failure, Prepared, SaveResult, credential_input,
  credential_keychain, credential_session,
}
use db_tui.Profile.Ports.{Context, State}
use db_tui.Common.Numerals.{parse_digits}
use db_tui.Profile.Parameters.{
  Unicode, contains_control, check_parameters, parameter_issue, is_secret, valid_parameter_name,
}
use db_tui.Profile.Validation.{validate_draft, failing, field_rules, parse_port, is_taken}
use db_tui.Profile.Secrets.{
  should_write_secret, should_delete_secret, old_secret, secret_removed, write_secret,
}
use db_tui.Profile.Commit.{commit, commit_removal, store}
use db_tui.Profile.Service.{index_of, load, sort_profiles, insert_profile, used_before}
use db_tui.Profile.Deletion.{delete_profile, delete_stored, save_without}
use db_tui.Profile.Undo.{Restored}
use db_tui.Profile.Restoring.{commit_failed-Restored}
use db_tui.Profile.Placing.{Attempted}
use db_tui.Profile.Settling.{Deleted}
use db_tui.Profile.Deleting.{Without, delete_failed-Restored, delete_done-Deleted}
use db_tui.Profile.Valid.{IsValid, validate_draft-IsValid}
use db_tui.Profile.Saving.{Saved, commit_done-Saved}
use db_tui.Profile.Forgetting.{commit_forgets}
use db_tui.Profile.Keeping.{Reachable, commit_keeps_password}
use db_tui.Profile.Loading.{IsOrdered, is_tied, load-IsOrdered}
use db_tui.Profile.Machine.{
  Machine, machine, machine_laws, machine-Answers, Disk, writable, unsecured, read_file,
  read_secret, drop_secret, write_file,
}

abbrev profile : Text → Bool → Profile
profile id save_password = record {
  id = id;
  name = id;
  host = b'h' ∷ [];
  port = 5432;
  database = b'd' ∷ [];
  user = b'u' ∷ [];
  ssl_mode = b'p' ∷ [];
  advanced_parameters = [];
  save_password = save_password;
  created_at = 1;
  updated_at = 1;
  last_used_at = 0;
  unknown = [];
}

abbrev saved_profiles : Document
saved_profiles = record {
  version = 1;
  profiles = profile (b'a' ∷ []) true ∷ profile (b'b' ∷ []) true ∷ [];
  unknown = [];
}

abbrev secret : Text
secret = b's' ∷ []

abbrev state : Disk → State Machine
state disk = record {
  session = [];
  outside = record { document = saved_profiles; keychain = (b'b' ∷ [], secret) ∷ []; disk = disk };
}

abbrev background : Context
background = record { err = none }

abbrev draft_of_b : Bool → Draft
draft_of_b save_password = record {
  id = b'b' ∷ [];
  name = b'b' ∷ [];
  host = b'h' ∷ [];
  port = b'5' ∷ [];
  database = b'd' ∷ [];
  user = b'u' ∷ [];
  password = b'n' ∷ [];
  replace_password = true;
  has_stored_password = true;
  save_password = save_password;
  ssl_mode = b'p' ∷ [];
  advanced_parameters = [];
}

abbrev prepared : Bool → Prepared
prepared save_password = record {
  profile = profile (b'b' ∷ []) save_password;
  password = b'n' ∷ [];
  credential_source = credential_input;
  warning = none;
  draft = draft_of_b save_password;
  document = saved_profiles;
  previous_index = some 1;
}

refused :
    (commit machine background (prepared false) false (state unsecured)).0
    ≡ failed (other_failure [])
unfolding commit text_eq should_write_secret should_delete_secret commit_removal old_secret
    read_secret lookup drop_secret store write_file secret_removed
refused = refl

commit_failed-Restored_example :
    Restored machine machine_laws
      (Attempted (prepared false) false)
      (state unsecured)
      (commit machine background (prepared false) false (state unsecured)).1
commit_failed-Restored_example =
    commit_failed-Restored machine machine_laws machine-Answers background (prepared false) false
      (state unsecured) (other_failure []) (λ e. ground (arith, e)) refused

abbrev result : Bool → SaveResult
result save_password = record {
  profile = record (profile (b'b' ∷ []) save_password) { updated_at = 1000 };
  credential_mode = if save_password then credential_keychain else credential_session;
  warning = none;
}

forgotten :
    (commit machine background (prepared false) false (state writable)).0 ≡ ok (result false)
unfolding commit text_eq should_write_secret should_delete_secret commit_removal old_secret
    read_secret lookup drop_secret store write_file secret_removed
forgotten = refl

kept : (commit machine background (prepared true) false (state writable)).0 ≡ ok (result true)
unfolding commit text_eq should_write_secret store write_file write_secret old_secret read_secret
    lookup
kept = refl

commit_done-Saved_example :
    Saved machine machine_laws
      (state writable)
      (prepared true)
      false
      (result true)
      (commit machine background (prepared true) false (state writable)).1
commit_done-Saved_example =
    commit_done-Saved machine machine_laws background (prepared true) false (state writable)
      (result true) kept

commit_forgets_example :
    machine_laws.held
      (commit machine background (prepared false) false (state writable)).1.outside
      (b'b' ∷ [])
    ≡ none
commit_forgets_example =
    commit_forgets machine machine_laws background (prepared false) false (state writable) 1
      (result false) refl refl forgotten

to_be_written : should_write_secret (prepared true) ≡ true
unfolding should_write_secret
to_be_written = refl

commit_keeps_password_example :
    Reachable machine machine_laws
      (b'b' ∷ [])
      (b'n' ∷ [])
      true
      (commit machine background (prepared true) false (state writable)).1
commit_keeps_password_example =
    commit_keeps_password machine machine_laws background (prepared true) false (state writable)
      (result true) to_be_written kept

not_deleted :
    (delete_profile machine background (b'b' ∷ []) (state unsecured)).0 ≡ some (other_failure [])
unfolding delete_profile text_eq delete_stored read_secret lookup drop_secret save_without
    write_file read_file
not_deleted = refl

delete_failed-Restored_example :
    Restored machine machine_laws
      (Without machine machine_laws saved_profiles (b'b' ∷ []))
      (state unsecured)
      (delete_profile machine background (b'b' ∷ []) (state unsecured)).1
delete_failed-Restored_example =
    delete_failed-Restored machine machine_laws machine-Answers background (b'b' ∷ [])
      (state unsecured) (other_failure []) not_deleted

deleted : (delete_profile machine background (b'b' ∷ []) (state writable)).0 ≡ none
unfolding delete_profile text_eq delete_stored read_secret lookup drop_secret save_without
    write_file read_file
deleted = refl

second : index_of (b'b' ∷ []) saved_profiles.profiles ≡ some 1
unfolding index_of text_eq
second = refl

delete_done-Deleted_example :
    Deleted machine machine_laws
      (state writable)
      (b'b' ∷ [])
      (record saved_profiles { profiles = remove_at saved_profiles.profiles 1 })
      (delete_profile machine background (b'b' ∷ []) (state writable)).1
delete_done-Deleted_example =
    delete_done-Deleted machine machine_laws machine-Answers background (b'b' ∷ []) (state writable)
      1 second deleted

abbrev ascii : Unicode
ascii = record {
  is_space = λ c. c == b' ';
  is_control = λ c. leb c 31;
  is_letter = λ c. leb b'a' c && leb c b'z';
  is_digit = λ c. leb b'0' c && leb c b'9';
  to_lower = λ s. s;
  equal_fold = text_eq;
}

abbrev good_draft : Draft
good_draft = record (draft_of_b true) {
  host = b' ' ∷ b'h' ∷ [];
  ssl_mode = lit "require";
  advanced_parameters = record { name = b't' ∷ b'z' ∷ []; value = b'u' ∷ [] } ∷ [];
}

abbrev good_profile : Profile
good_profile = record (profile (b'b' ∷ []) true) {
  port = 5;
  ssl_mode = lit "require";
  advanced_parameters = (b't' ∷ b'z' ∷ [], b'u' ∷ []) ∷ [];
  created_at = 0;
  updated_at = 0;
}

accepted : validate_draft ascii good_draft saved_profiles ≡ ok good_profile
unfolding validate_draft failing field_rules text_eq contains_control utf8_len parse_port
    parse_digits is_taken check_parameters parameter_issue is_secret valid_parameter_name lookup
    insert
accepted = refl

validate_draft-IsValid_example : IsValid ascii good_draft saved_profiles good_profile
validate_draft-IsValid_example =
    validate_draft-IsValid ascii good_draft saved_profiles good_profile accepted

-- the second profile was used, and the first was not
abbrev used_profiles : Document
used_profiles = record saved_profiles {
  profiles = profile (b'a' ∷ []) true ∷ record (profile (b'b' ∷ []) true) { last_used_at = 2 } ∷ [];
}

used_first_test :
    sort_profiles ascii used_profiles.profiles
    ≡ record (profile (b'b' ∷ []) true) { last_used_at = 2 } ∷ profile (b'a' ∷ []) true ∷ []
unfolding sort_profiles insert_profile used_before
used_first_test = refl

load-IsOrdered_example :
    (load machine ascii background (record (state writable).outside { document = used_profiles })
      ≡ ok (record used_profiles { profiles = sort_profiles ascii used_profiles.profiles }))
    × Perm (sort_profiles ascii used_profiles.profiles) used_profiles.profiles
    × IsOrdered ascii (sort_profiles ascii used_profiles.profiles)
    × (filter_by
          (is_tied ascii (profile (b'b' ∷ []) true))
          (sort_profiles ascii used_profiles.profiles)
        ≡ filter_by (is_tied ascii (profile (b'b' ∷ []) true)) used_profiles.profiles)
unfolding read_file
load-IsOrdered_example =
    load-IsOrdered ascii machine background
      (record (state writable).outside { document = used_profiles }) used_profiles
      (profile (b'b' ∷ []) true) refl
