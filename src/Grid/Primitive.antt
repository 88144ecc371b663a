-- ===== src/Grid/Primitive.antt =====
-- internal/grid/staging.go: the check of a typed value before it is staged. ParseInt, ParseUint and
-- the two patterns are written out; ParseFloat, time.Parse and ToLower are the platform's.
use db_tui.Common.{
  ℕ, zero, suc, ◌+◌, ◌^◌, Bool, true, false, ◌&&◌, ◌||◌, List, [], ◌∷◌, ◌++◌, Option, none, some,
  Text, lit, text_eq, any, if◌then◌else◌, leb, ◌==◌,
}
use db_tui.Common.Numerals.{is_digit, parse_digits, below}
use db_tui.Grid.Types.{Column}
use db_tui.Grid.State.{Platform}

abbrev is_sign : ℕ → Bool
is_sign c = c == b'+' || c == b'-'

abbrev is_hex : ℕ → Bool
is_hex c = is_digit c || (leb b'a' c && leb c b'f') || (leb b'A' c && leb c b'F')

-- strconv.ParseInt (value, 10, 64) succeeds
unfoldable pub parses_int64 : Text → Bool
unfolding parse_digits
parses_int64 [] = false
parses_int64 (c ∷ s) =
    if c == b'-'
    then below (2 ^ 63 + 1) (parse_digits s)
    else if c == b'+'
    then below (2 ^ 63) (parse_digits s)
    else below (2 ^ 63) (parse_digits (c ∷ s))

-- strconv.ParseUint (value, 10, 32) succeeds
unfoldable pub parses_uint32 : Text → Bool
unfolding parse_digits
parses_uint32 value = below (2 ^ 32) (parse_digits value)

unsigned : Text → Text
unsigned [] = []
unsigned (c ∷ s) = if is_sign c then s else c ∷ s

skip_digits : Text → Text
skip_digits [] = []
skip_digits (c ∷ s) = if is_digit c then skip_digits s else c ∷ s

starts_with_digit : Text → Bool
starts_with_digit [] = false
starts_with_digit (c ∷ s) = is_digit c

-- `(?:[eE][+-]?\d+)?$`
exponent : Text → Bool
unfolding unsigned skip_digits starts_with_digit
exponent [] = true
exponent (c ∷ s) =
    (c == b'e' || c == b'E')
    && (starts_with_digit (unsigned s) && text_eq (skip_digits (unsigned s)) [])

-- what follows the digits in front: `(?:\.\d*)?` and the exponent
fraction : Text → Bool
unfolding exponent skip_digits
fraction [] = true
fraction (c ∷ s) = if c == b'.' then exponent (skip_digits s) else exponent (c ∷ s)

-- `(?:\d+(?:\.\d*)?|\.\d+)` and the exponent
unsigned_numeric : Text → Bool
unfolding fraction exponent skip_digits starts_with_digit
unsigned_numeric [] = false
unsigned_numeric (c ∷ s) =
    if is_digit c
    then fraction (skip_digits s)
    else c == b'.' && (starts_with_digit s && exponent (skip_digits s))

unfoldable pub matches_numeric : Text → Bool
unfolding unsigned_numeric unsigned
matches_numeric value = unsigned_numeric (unsigned value)

hex_then : ℕ → (Text → Bool) → Text → Bool
hex_then zero rest s = rest s
hex_then (suc n) rest [] = false
hex_then (suc n) rest (c ∷ s) = is_hex c && hex_then n rest s

dash_then : (Text → Bool) → Text → Bool
dash_then rest [] = false
dash_then rest (c ∷ s) = c == b'-' && rest s

unfoldable pub matches_uuid : Text → Bool
unfolding hex_then dash_then
matches_uuid = hex_then 8 (
    dash_then (
      hex_then 4 (
        dash_then
          (hex_then 4 (dash_then (hex_then 4 (dash_then (hex_then 12 (λ s. text_eq s [])))))))))

abbrev one_of : List Text → Text → Bool
one_of words value = any (text_eq value) words

abbrev boolean_words : List Text
boolean_words =
    lit "true"
    ∷ lit "false"
    ∷ lit "t"
    ∷ lit "f"
    ∷ lit "yes"
    ∷ lit "no"
    ∷ lit "on"
    ∷ lit "off"
    ∷ lit "1"
    ∷ lit "0"
    ∷ []

abbrev infinities : List Text
infinities = lit "infinity" ∷ lit "-infinity" ∷ []

abbrev time_layouts : List Text
time_layouts = lit "15:04" ∷ lit "15:04:05" ∷ lit "15:04:05.999999999" ∷ []

abbrev timestamp_layouts : List Text
timestamp_layouts =
    lit "2006-01-02 15:04"
    ∷ lit "2006-01-02 15:04:05"
    ∷ lit "2006-01-02 15:04:05.999999999"
    ∷ lit "2006-01-02T15:04"
    ∷ lit "2006-01-02T15:04:05"
    ∷ lit "2006-01-02T15:04:05.999999999"
    ∷ []

abbrev zoned_timestamp_layouts : List Text
zoned_timestamp_layouts =
    lit "2006-01-02T15:04:05Z07:00"
    ∷ lit "2006-01-02T15:04:05.999999999Z07:00"
    ∷ lit "2006-01-02 15:04:05Z07:00"
    ∷ lit "2006-01-02 15:04:05.999999999Z07:00"
    ∷ []

abbrev zoned_time_layouts : List Text
zoned_time_layouts = lit "15:04Z07:00" ∷ lit "15:04:05Z07:00" ∷ lit "15:04:05.999999999Z07:00" ∷ []

module _ (p : Platform) where
  unfoldable pub parse_any_time : Text → List Text → Bool
  parse_any_time value layouts = any (λ layout. p.parse_time layout value) layouts

  -- what is wrong with the value, by the type's object identifier; `none` is nothing
  unfoldable pub expected_form : ℕ → Text → Option Text
  unfolding parses_int64 parses_uint32 matches_numeric matches_uuid parse_any_time lit text_eq
  expected_form oid value =
      let unless = λ (ok : Bool) (expected : Text). if ok then none else some expected in
      if oid == 16
      then unless (one_of boolean_words (p.lower value)) (lit "a PostgreSQL boolean")
      else if oid == 20 || oid == 21 || oid == 23
      then unless (parses_int64 value) (lit "an integer")
      else if oid == 26
      then unless (parses_uint32 value) (lit "an unsigned object identifier")
      else if oid == 700 || oid == 701
      then unless (p.parse_float value) (lit "a floating-point number")
      else if oid == 1700
      then unless (text_eq value (lit "NaN") || matches_numeric value) (lit "a numeric value")
      else if oid == 1082
      then unless (one_of infinities value || p.parse_time (lit "2006-01-02") value)
          (lit "a date in YYYY-MM-DD form")
      else if oid == 1083
      then unless (parse_any_time value time_layouts) (lit "a time value")
      else if oid == 1114
      then unless (one_of infinities value || parse_any_time value timestamp_layouts)
          (lit "a timestamp")
      else if oid == 1184
      then unless (one_of infinities value || parse_any_time value zoned_timestamp_layouts)
          (lit "a timestamp with time zone")
      else if oid == 1266
      then unless (parse_any_time value zoned_time_layouts) (lit "a time with time zone")
      else if oid == 2950
      then unless (matches_uuid value) (lit "a UUID")
      else none

  -- `none` is the empty string.
  unfoldable pub validate_primitive : Column → Text → Option Text
  unfolding expected_form lit
  validate_primitive column value = elim (expected_form column.type_oid value) [
    | none ↦ none
    | some expected ↦ some (column.name ++ (lit " expects " ++ (expected ++ lit ".")))
  ]
