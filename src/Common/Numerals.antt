-- ===== src/Common/Numerals.antt =====
-- strconv.ParseUint with base 10: the digits, and the bound of the bit size.
use db_tui.Common.Tests.{ltb, leb, if◌then◌else◌}
use db_tui.Common.Texts.{Text}
use Prim.Native.Nat.{ℕ, ◌+◌, ◌-◌, ◌*◌}
use mathlib.Core.Bool.{Bool, false, ◌&&◌}
use mathlib.Core.Option.{Option, none, some}
use mathlib.Core.List.{[], ◌∷◌}

abbrev pub is_digit : ℕ → Bool
is_digit c = leb b'0' c && leb c b'9'

digits_value : ℕ → Text → Option ℕ
digits_value n [] = some n
digits_value n (c ∷ s) = if is_digit c then digits_value (n * 10 + (c - b'0')) s else none

-- the value of a text of one digit or more
unfoldable pub parse_digits : Text → Option ℕ
unfolding digits_value
parse_digits [] = none
parse_digits (c ∷ s) = digits_value 0 (c ∷ s)

abbrev pub below : ℕ → Option ℕ → Bool
below bound none = false
below bound (some n) = ltb n bound
