-- ===== src/Common/Decimal.antt =====
-- `%d` of a number that is not negative, and the reading of it back up to the first other byte.
use db_tui.Common.Tests.{ltb, leb, if◌then◌else◌, Bool-cases, ltb→lt}
use db_tui.Common.Texts.{Text}
use Prim.Native.Nat.{ℕ, zero, suc, ◌+◌, ◌-◌, ◌*◌, ◌/◌, ◌%◌, ◌<◌}
use mathlib.Core.Path.{◌≡◌, refl, ap, ◌∙◌}
use mathlib.Core.Bool.{Bool, ◌&&◌}
use mathlib.Core.Logic.{inl, inr}
use mathlib.Core.List.{[], ◌∷◌, ◌++◌, append_assoc}
use native.Mathlib.Omega.{arith}

digits : ℕ → ℕ → Text
digits zero n = []
digits (suc f) n =
    let front = digits f (n / 10) ++ (b'0' + n % 10) ∷ [] in
    if ltb n 10 then (b'0' + n) ∷ [] else front

-- The fuel is enough: each round divides by ten.
unfoldable pub decimal : ℕ → Text
unfolding digits
decimal n = digits (suc n) n

is_digit : ℕ → Bool
is_digit c = leb b'0' c && leb c b'9'

record Reading : Type 0 where
  value : ℕ
  rest : Text

read : ℕ → Text → Reading
read acc [] = record { value = acc; rest = [] }
read acc (c ∷ s) =
    if is_digit c then read (acc * 10 + (c - b'0')) s else record { value = acc; rest = c ∷ s }

read-digit : (acc d : ℕ) (r : Text) → d < 10 → read acc ((b'0' + d) ∷ r) ≡ read (acc * 10 + d) r
unfolding read is_digit
read-digit acc d r h = ground arith

read-digits : (f n : ℕ) (r : Text) → n < f → read 0 (digits f n ++ r) ≡ read n r
unfolding digits
read-digits zero n r h = absurd (omega arith)
read-digits (suc f) n r h = elim (Bool-cases (ltb n 10)) [
  | inl small ↦ rw small (read-digit 0 n r (ltb→lt n 10 small) ∙ ap (λ a. read a r) (omega arith))
  | inr large ↦
      rw (large, append_assoc)
        (read-digits f (n / 10) ((b'0' + n % 10) ∷ r) (ground arith)
          ∙ read-digit (n / 10) (n % 10) r (omega arith)
          ∙ ap (λ a. read a r) (omega arith))
]

read-colon : (n : ℕ) (r : Text) → read n (b':' ∷ r) ≡ record { value = n; rest = b':' ∷ r }
unfolding read is_digit
read-colon n r = refl

read-decimal :
    (n : ℕ) (r : Text) → read 0 (decimal n ++ b':' ∷ r) ≡ record { value = n; rest = b':' ∷ r }
unfolding decimal
read-decimal n r = read-digits (suc n) n (b':' ∷ r) (omega arith) ∙ read-colon n r

-- A number in front of a colon is read in one way only.
pub decimal_colon_inj :
    (a b : ℕ) (u v : Text) → decimal a ++ b':' ∷ u ≡ decimal b ++ b':' ∷ v → (a ≡ b) × (u ≡ v)
decimal_colon_inj a b u v e = ground (arith, read-decimal a u, read-decimal b v, ap (read 0) e)

decimal_1234 : decimal 1234 ≡ b'1' ∷ b'2' ∷ b'3' ∷ b'4' ∷ []
unfolding decimal
decimal_1234 = refl
