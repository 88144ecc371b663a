-- ===== src/Profile/Valid.antt =====
-- What a draft that passes the check has become.
use mathlib.Core.Path.{subst}
use db_tui.Common.{
  ℕ, suc, ◌+◌, ◌^◌, ◌≤◌, ◌<◌, ◌≡◌, ◌≢◌, refl, Bool, true, false, List, [], ◌∷◌, ◌++◌, none, some,
  Text, Dict, text_eq, text_eq_iff, utf8_len, any, insert, lookup, lookup-insert, length,
  length-append, ◌==◌, arith, inl, inr, Bool-cases, Option-cases,
}
use db_tui.Profile.Types.{Profile, Document, Draft, Parameter, FieldError, ok}
use db_tui.Profile.Parameters.{
  Unicode, trim_space, contains_control, is_member, is_secret, reserved_parameters,
  valid_parameter_name, parameter_issue, parameter_name, check_parameters,
}
use db_tui.Profile.Validation.{
  parse_port, valid_ssl_modes, failing, candidate, is_taken, field_rules, validate_draft,
}

length-insert_absent :
    (k : Text) (v : Text) (m : Dict Text)
    → lookup k m ≡ none
    → length (insert k v m) ≡ suc (length m)
unfolding lookup insert
length-insert_absent k v [] h = refl
length-insert_absent k v ((j, w) ∷ m) h = ground (arith, length-insert_absent k v m)

-- no test holds
abbrev pub Clean : List (Bool × FieldError) → Type 0
Clean [] = Unit
Clean ((bad, error) ∷ rules) = (bad ≡ false) × Clean rules

failing-Clean : (rules : List (Bool × FieldError)) → length (failing rules) ≡ 0 → Clean rules
unfolding failing
failing-Clean [] h = tt
failing-Clean ((true, error) ∷ rules) h = absurd (omega arith)
failing-Clean ((false, error) ∷ rules) h = (refl, failing-Clean rules h)

port-bound : (text : Text) → parse_port text < 2 ^ 16
unfolding parse_port
port-bound text = ground arith

module _ (u : Unicode) where
  -- what a parameter of a profile may be
  pub record IsAllowed (name value : Text) : Type 0 where
    pub named : name ≢ []
    pub unreserved : is_member reserved_parameters name ≡ false
    pub no_secret : is_secret u name value ≡ false
    pub plain_name : valid_parameter_name u name ≡ true
    pub short_name : length name ≤ 128
    pub no_control : contains_control u value ≡ false
    pub short_value : utf8_len value ≤ 8192

  issue-IsAllowed :
      (seen : Dict Text) (name value : Text)
      → parameter_issue u seen name value ≡ none
      → IsAllowed name value
  unfolding parameter_issue
  issue-IsAllowed seen name value h = record {
    named = ground (arith, text_eq_iff name []);
    unreserved = ground arith;
    no_secret = ground arith;
    plain_name = ground arith;
    short_name = ground arith;
    no_control = ground arith;
    short_value = ground arith;
  }

  issue_new :
      (seen : Dict Text) (name value : Text)
      → parameter_issue u seen name value ≡ none
      → lookup name seen ≡ none
  unfolding parameter_issue
  issue_new seen name value h = ground arith

  abbrev AllAllowed : Dict Text → Type 0
  AllAllowed m = (name value : Text) → lookup name m ≡ some value → IsAllowed name value

  nil-AllAllowed : AllAllowed []
  unfolding lookup
  nil-AllAllowed name value h = ground (arith, h)

  insert-AllAllowed :
      (name value : Text) (m : Dict Text)
      → IsAllowed name value
      → AllAllowed m
      → AllAllowed (insert name value m)
  insert-AllAllowed name value m allowed all k v h = elim (Bool-cases (text_eq name k)) [
    | inl same ↦
        let key : name ≡ k = (text_eq_iff name k).0 same in
        let entry : value ≡ v = ground (arith, lookup-insert name k value m, same, h) in
        subst (λ x. IsAllowed k x) entry (subst (λ x. IsAllowed x value) key allowed)
    | inr other ↦ all k v (ground (arith, lookup-insert name k value m, other, h))
  ]

  -- without a complaint every parameter is accepted
  Accepts : ℕ → List FieldError × Dict Text → Type 0
  Accepts n r = length r.0 ≡ 0 → AllAllowed r.1 × (length r.1 ≡ n)

  check_parameters-Accepts :
      (index : ℕ) (seen : Dict Text) (parameters : List Parameter)
      → AllAllowed seen
      → Accepts (length seen + length parameters) (check_parameters u index seen parameters)
  unfolding check_parameters Accepts
  check_parameters-Accepts index seen [] all = λ h. (all, omega arith)
  check_parameters-Accepts index seen (parameter ∷ parameters) all =
      let name = parameter_name u parameter in
      let value = parameter.value in
      elim (Option-cases (parameter_issue u seen name value)) [
        | inl e ↦
            rw (e, check_parameters)
              (subst
                (λ n.
                  Accepts n (check_parameters u (index + 1) (insert name value seen) parameters))
                (omega (arith, length-insert_absent name value seen (issue_new seen name value e)))
                (check_parameters-Accepts (index + 1) (insert name value seen) parameters
                  (insert-AllAllowed name value seen (issue-IsAllowed seen name value e) all)))
        | inr (message, e) ↦ rw (e, check_parameters) (λ h. absurd (omega (arith, h)))
      ]

  -- what the check promises of the profile that a draft becomes
  pub record IsValid (draft : Draft) (existing : Document) (p : Profile) : Type 0 where
    pub name_given : p.name ≢ []
    pub name_short : length p.name ≤ 256
    pub name_plain : contains_control u p.name ≡ false
    pub name_new : is_taken u draft.id p.name existing.profiles ≡ false
    pub host_given : p.host ≢ []
    pub host_single : any (λ c. c == b',') p.host ≡ false
    pub host_solid : any u.is_space p.host ≡ false
    pub host_plain : contains_control u p.host ≡ false
    pub host_short : length p.host ≤ 1024
    pub database_given : p.database ≢ []
    pub database_plain : contains_control u p.database ≡ false
    pub database_short : length p.database ≤ 256
    pub user_given : p.user ≢ []
    pub user_plain : contains_control u p.user ≡ false
    pub user_short : length p.user ≤ 256
    pub port_given : 0 < p.port
    pub port_short : p.port < 2 ^ 16
    pub known_mode : is_member valid_ssl_modes p.ssl_mode ≡ true
    pub allowed :
        (name value : Text) → lookup name p.advanced_parameters ≡ some value → IsAllowed name value
    pub none_lost : length p.advanced_parameters ≡ length draft.advanced_parameters
    pub few : length p.advanced_parameters ≤ 64

  Clean-IsValid :
      (draft : Draft) (existing : Document) (p : Profile)
      → Clean (field_rules u draft existing p)
      → p.port < 2 ^ 16
      → AllAllowed p.advanced_parameters
      → length p.advanced_parameters ≡ length draft.advanced_parameters
      → IsValid draft existing p
  unfolding field_rules
  Clean-IsValid draft existing p clean bound all lost = record {
    name_given = ground (arith, text_eq_iff p.name []);
    name_short = ground arith;
    name_plain = ground arith;
    name_new = ground arith;
    host_given = ground (arith, text_eq_iff p.host []);
    host_single = ground arith;
    host_solid = ground arith;
    host_plain = ground arith;
    host_short = ground arith;
    database_given = ground (arith, text_eq_iff p.database []);
    database_plain = ground arith;
    database_short = ground arith;
    user_given = ground (arith, text_eq_iff p.user []);
    user_plain = ground arith;
    user_short = ground arith;
    port_given = ground arith;
    port_short = bound;
    known_mode = ground arith;
    allowed = all;
    none_lost = lost;
    few = ground arith;
  }

  -- A draft that passes the check has become a profile in which the name, host, database and user
  -- are given, within their lengths and without control characters, the host is one host without
  -- spaces, no other profile has the name, the port is from 1 to 65535, the mode of encryption is
  -- known, and the parameters are as many as the draft's, at most 64, and each one allowed.
  pub validate_draft-IsValid :
      (draft : Draft) (existing : Document) (p : Profile)
      → validate_draft u draft existing ≡ ok p
      → IsValid draft existing p
  unfolding validate_draft candidate Accepts
  validate_draft-IsValid draft existing p h =
      let checked = check_parameters u 0 [] draft.advanced_parameters in
      let c : Profile = candidate u draft checked.1 in
      let rules = field_rules u draft existing c in
      let passed : length (failing rules ++ checked.0) ≡ 0 = ground (arith, h) in
      let same : c ≡ p = ground (arith, h) in
      let split = length-append (failing rules) checked.0 in
      let accepted : AllAllowed checked.1
          × (length checked.1 ≡ 0 + length draft.advanced_parameters) =
        check_parameters-Accepts 0 [] draft.advanced_parameters nil-AllAllowed
          (omega (arith, passed, split)) in
      subst (IsValid draft existing) same (
        Clean-IsValid draft existing c (failing-Clean rules (omega (arith, passed, split)))
          (port-bound (trim_space u draft.port)) accepted.0 (omega (arith, accepted.1)))
