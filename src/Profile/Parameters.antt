-- ===== src/Profile/Parameters.antt =====
-- internal/profile/validation.go: the advanced connection parameters. `Unicode` is what the package
-- takes from the standard library: the character classes, lower case and case folding.
use db_tui.Common.{
  ℕ, ◌+◌, Bool, true, false, ◌&&◌, ◌||◌, not, List, [], ◌∷◌, ◌++◌, Option, none, some, Text, Dict,
  lit, text_eq, utf8_len, any, has, insert, length, keys, lookup, if◌then◌else◌, ltb, ◌==◌,
}
use db_tui.Common.Decimal.{decimal}
use db_tui.Common.Sort.{sort_texts}
use db_tui.Profile.Types.{Parameter, FieldError}

pub record Unicode : Type 0 where
  pub is_space : ℕ → Bool
  pub is_control : ℕ → Bool
  pub is_letter : ℕ → Bool
  pub is_digit : ℕ → Bool
  pub to_lower : Text → Text
  pub equal_fold : Text → Text → Bool

starts_with : Text → Text → Bool
starts_with [] s = true
starts_with (_ ∷ _) [] = false
starts_with (a ∷ word) (b ∷ s) = (a == b) && starts_with word s

-- `strings.Contains`
unfoldable pub contains : Text → Text → Bool
unfolding starts_with
contains [] word = starts_with word []
contains (c ∷ s) word = if starts_with word (c ∷ s) then true else contains s word

trim_left : (ℕ → Bool) → Text → Text
trim_left space [] = []
trim_left space (c ∷ s) = if space c then trim_left space s else c ∷ s

trim_right : (ℕ → Bool) → Text → Text
trim_right space [] = []
trim_right space (c ∷ s) =
    let rest = trim_right space s in if space c && (length rest == 0) then [] else c ∷ rest

abbrev pub reserved_parameters : List Text
reserved_parameters =
    lit "dbname"
    ∷ lit "database"
    ∷ lit "connect_timeout"
    ∷ lit "host"
    ∷ lit "password"
    ∷ lit "passfile"
    ∷ lit "port"
    ∷ lit "sslmode"
    ∷ lit "sslpassword"
    ∷ lit "user"
    ∷ []

-- `reservedParameters[name]`, a set
abbrev pub is_member : List Text → Text → Bool
is_member set name = any (text_eq name) set

module _ (u : Unicode) where
  -- `strings.TrimSpace`
  unfoldable pub trim_space : Text → Text
  unfolding trim_left trim_right
  trim_space s = trim_right u.is_space (trim_left u.is_space s)

  unfoldable pub contains_control : Text → Bool
  contains_control value = any u.is_control value

  unfoldable pub valid_parameter_name : Text → Bool
  valid_parameter_name [] = true
  valid_parameter_name (c ∷ name) =
      (u.is_letter c || u.is_digit c || (c == b'.' || (c == b'_' || c == b'-')))
      && valid_parameter_name name

  unfoldable pub is_secret : Text → Text → Bool
  unfolding contains lit
  is_secret name value =
      contains name (lit "password")
      || (contains name (lit "passfile")
          || (contains name (lit "secret")
              || (contains (u.to_lower value) (lit "password=")
                  || contains (u.to_lower value) (lit "passfile="))))

  -- the first complaint about a parameter, given those accepted before it
  unfoldable pub parameter_issue : Dict Text → Text → Text → Option Text
  unfolding lit
  parameter_issue seen name value =
      if text_eq name []
      then some (lit "parameter name is required")
      else if is_member reserved_parameters name
      then some (lit "cannot redefine a core connection field")
      else if is_secret name value
      then some (lit "must not contain a password or secret")
      else if not (valid_parameter_name name)
      then some
          (lit "parameter name may contain only letters, numbers, dots, underscores, and hyphens")
      else if ltb 128 (length name)
      then some (lit "parameter name must be 128 characters or fewer")
      else if contains_control value
      then some (lit "parameter value must not contain control characters")
      else if ltb 8192 (utf8_len value)
      then some (lit "parameter value must be 8192 bytes or fewer")
      else if has name seen
      then some (lit "parameter names must be unique")
      else none

  abbrev pub parameter_name : Parameter → Text
  parameter_name parameter = u.to_lower (trim_space parameter.name)

  -- the complaints, and the parameters that are accepted
  unfoldable pub check_parameters : ℕ → Dict Text → List Parameter → List FieldError × Dict Text
  unfolding lit
  check_parameters index seen [] = ([], seen)
  check_parameters index seen (parameter ∷ parameters) =
      elim (parameter_issue seen (parameter_name parameter) parameter.value) [
        | none ↦
            check_parameters (index + 1) (insert (parameter_name parameter) parameter.value seen)
              parameters
        | some message ↦
            let (errors, accepted) = check_parameters (index + 1) seen parameters in
            (
              record { field = lit "advanced[" ++ (decimal index ++ lit "]"); message = message }
                  ∷ errors,
              accepted,
            )
      ]

parameters_at : List Text → Dict Text → List Parameter
parameters_at [] parameters = []
parameters_at (name ∷ names) parameters = elim (lookup name parameters) [
  | some value ↦ record { name = name; value = value } ∷ parameters_at names parameters
  | none ↦ record { name = name; value = [] } ∷ parameters_at names parameters
]

unfoldable pub sorted_parameters : Dict Text → List Parameter
unfolding parameters_at
sorted_parameters parameters = parameters_at (sort_texts (keys parameters)) parameters
