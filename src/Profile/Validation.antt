-- ===== src/Profile/Validation.antt =====
-- internal/profile/validation.go: the check of a draft.
use db_tui.Common.{
  ℕ, ◌^◌, Bool, true, false, ◌&&◌, not, List, [], ◌∷◌, ◌++◌, none, some, Text, Dict, lit, text_eq,
  utf8_len, any, length, if◌then◌else◌, ltb, ◌==◌,
}
use db_tui.Common.Numerals.{parse_digits}
use db_tui.Profile.Types.{
  Profile, Document, Draft, FieldError, Result, failed, ok, validation_errors,
}
use db_tui.Profile.Parameters.{Unicode, trim_space, contains_control, is_member, check_parameters}

-- `strconv.ParseUint(text, 10, 16)`, and 0 where it fails, which is refused as well
unfoldable pub parse_port : Text → ℕ
parse_port text = elim (parse_digits text) [ none ↦ 0 | some n ↦ if ltb n (2 ^ 16) then n else 0 ]

abbrev pub valid_ssl_modes : List Text
valid_ssl_modes =
    lit "disable"
    ∷ lit "allow"
    ∷ lit "prefer"
    ∷ lit "require"
    ∷ lit "verify-ca"
    ∷ lit "verify-full"
    ∷ []

-- the errors of the tests that hold, in order
unfoldable pub failing : List (Bool × FieldError) → List FieldError
failing [] = []
failing ((bad, error) ∷ rules) = if bad then error ∷ failing rules else failing rules

abbrev rule : Bool → Text → Text → Bool × FieldError
rule bad field message = (bad, record { field = field; message = message })

module _ (u : Unicode) where
  -- the trimmed profile that a draft stands for
  unfoldable pub candidate : Draft → Dict Text → Profile
  unfolding trim_space
  candidate draft parameters = record {
    id = draft.id;
    name = trim_space u draft.name;
    host = trim_space u draft.host;
    port = parse_port (trim_space u draft.port);
    database = trim_space u draft.database;
    user = trim_space u draft.user;
    ssl_mode = u.to_lower (trim_space u draft.ssl_mode);
    advanced_parameters = parameters;
    save_password = draft.save_password;
    created_at = 0;
    updated_at = 0;
    last_used_at = 0;
    unknown = [];
  }

  -- another profile of this name
  unfoldable pub is_taken : Text → Text → List Profile → Bool
  is_taken id name [] = false
  is_taken id name (saved ∷ profiles) =
      if not (text_eq saved.id id) && u.equal_fold (trim_space u saved.name) name
      then true
      else is_taken id name profiles

  unfoldable pub field_rules : Draft → Document → Profile → List (Bool × FieldError)
  unfolding lit
  field_rules draft existing p =
      rule (text_eq p.name []) (lit "name") (lit "is required")
      ∷ rule (contains_control u p.name) (lit "name") (lit "must not contain control characters")
      ∷ rule (ltb 256 (length p.name)) (lit "name") (lit "must be 256 characters or fewer")
      ∷ rule (text_eq p.host []) (lit "host") (lit "is required")
      ∷ rule (any (λ c. c == b',') p.host) (lit "host") (lit "multiple hosts are not supported")
      ∷ rule (any u.is_space p.host) (lit "host") (lit "must not contain whitespace")
      ∷ rule (contains_control u p.host) (lit "host") (lit "must not contain control characters")
      ∷ rule (ltb 1024 (length p.host)) (lit "host") (lit "must be 1024 characters or fewer")
      ∷ rule (text_eq p.database []) (lit "database") (lit "is required")
      ∷ rule (contains_control u p.database) (lit "database")
          (lit "must not contain control characters")
      ∷ rule (ltb 256 (length p.database)) (lit "database") (lit "must be 256 characters or fewer")
      ∷ rule (text_eq p.user []) (lit "user") (lit "is required")
      ∷ rule (contains_control u p.user) (lit "user") (lit "must not contain control characters")
      ∷ rule (ltb 256 (length p.user)) (lit "user") (lit "must be 256 characters or fewer")
      ∷ rule (draft.replace_password && ltb 4096 (utf8_len draft.password)) (lit "password")
          (lit "must be 4096 bytes or fewer")
      ∷ rule (p.port == 0) (lit "port") (lit "must be between 1 and 65535")
      ∷ rule (not (is_member valid_ssl_modes p.ssl_mode)) (lit "ssl_mode")
          (lit "must be disable, allow, prefer, require, verify-ca, or verify-full")
      ∷ rule (is_taken draft.id p.name existing.profiles) (lit "name") (lit "must be unique")
      ∷ rule (ltb 64 (length draft.advanced_parameters)) (lit "advanced")
          (lit "must contain 64 parameters or fewer")
      ∷ []

  unfoldable pub validate_draft : Draft → Document → Result Profile
  unfolding candidate
  validate_draft draft existing =
      let (parameter_errors, parameters) = check_parameters u 0 [] draft.advanced_parameters in
      let profile = candidate draft parameters in
      let errors = failing (field_rules draft existing profile) ++ parameter_errors in
      if length errors == 0 then ok profile else failed (validation_errors errors)
