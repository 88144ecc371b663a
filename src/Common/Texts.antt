-- ===== src/Common/Texts.antt =====
-- Go's strings as lists of code points. A literal of the source is `lit "…"`, which stays shut in
-- proofs.
use Prim.Native.Char.{code}
use Prim.Native.String.{String}
use Prim.Native.Nat.{ℕ, ◌+◌}
use mathlib.Core.Path.{◌≡◌, refl}
use mathlib.Core.Bool.{Bool, true, false, ◌&&◌}
use mathlib.Core.Logic.{◌↔◌}
use mathlib.Core.List.{List, [], ◌∷◌, ◌++◌}
use native.Mathlib.Omega.{arith}
use db_tui.Common.Tests.{◌==◌, ltb, if◌then◌else◌}

abbrev pub Text : Type 0
Text = List ℕ

codes : String → Text
codes String.[] = []
codes (String.◌∷◌ c s) = code c ∷ codes s

unfoldable pub lit : String → Text
unfolding codes
lit s = codes s

-- `==` on strings
unfoldable pub text_eq : Text → Text → Bool
text_eq [] [] = true
text_eq [] (_ ∷ _) = false
text_eq (_ ∷ _) [] = false
text_eq (a ∷ s) (b ∷ t) = (a == b) && text_eq s t

pub text_eq_refl : (s : Text) → text_eq s s ≡ true
unfolding text_eq
text_eq_refl [] = refl
text_eq_refl (a ∷ s) = ground (arith, text_eq_refl s)

pub text_eq→eq : (s t : Text) → text_eq s t ≡ true → s ≡ t
unfolding text_eq
text_eq→eq [] [] h = refl
text_eq→eq [] (b ∷ t) h = cc
text_eq→eq (a ∷ s) [] h = cc
text_eq→eq (a ∷ s) (b ∷ t) h = ground (arith, text_eq→eq s t)

pub text_eq_iff : (s t : Text) → (text_eq s t ≡ true) ↔ (s ≡ t)
text_eq_iff s t = (text_eq→eq s t, λ e. ground (arith, text_eq_refl s))

-- `s <= t` on strings, byte order, which in UTF-8 is the order of the code points
unfoldable pub text_le : Text → Text → Bool
text_le [] _ = true
text_le (_ ∷ _) [] = false
text_le (a ∷ s) (b ∷ t) = if ltb a b then true else (a == b) && text_le s t

-- the bytes of a code point in UTF-8
abbrev pub utf8_width : ℕ → ℕ
utf8_width c = if ltb c 0x80 then 1 else if ltb c 0x800 then 2 else if ltb c 0x10000 then 3 else 4

-- `len` of a string, in bytes
unfoldable pub utf8_len : Text → ℕ
utf8_len [] = 0
utf8_len (c ∷ s) = utf8_width c + utf8_len s

-- Two prefixes of one text that are equally long in bytes are equal, and so are the rests.
pub utf8_prefix : (s t u v : Text) → s ++ u ≡ t ++ v → utf8_len s ≡ utf8_len t → (s ≡ t) × (u ≡ v)
unfolding utf8_len
utf8_prefix [] [] u v e h = (refl, e)
utf8_prefix [] (b ∷ t) u v e h = ground arith
utf8_prefix (a ∷ s) [] u v e h = ground arith
utf8_prefix (a ∷ s) (b ∷ t) u v e h = ground (arith, utf8_prefix s t u v)

-- `strings.Join`
unfoldable pub join : Text → List Text → Text
join separator [] = []
join separator (s ∷ []) = s
join separator (s ∷ t ∷ rest) = s ++ (separator ++ join separator (t ∷ rest))
