-- ===== src/Grid/Identity.antt =====
-- The keys by which staged updates and deletions are stored.
use mathlib.Core.List.{append_cancel_left}
use db_tui.Common.{◌≡◌, refl, ◌↔◌, List, [], ◌∷◌, Text, Dict, utf8_len, utf8_prefix, arith}
use db_tui.Common.Decimal.{decimal_colon_inj}
use db_tui.Grid.Types.{Value}
use db_tui.Grid.State.{Platform}
use db_tui.Grid.Rows.{identity_value, key_part, identity_key_of}

key_part_inj :
    (column : Text) (d e r s : Text) → key_part column d r ≡ key_part column e s → (d ≡ e) × (r ≡ s)
unfolding key_part
key_part_inj column d e r s h =
    let named = (decimal_colon_inj (utf8_len column) (utf8_len column) _ _ h).1 in
    let (long, rest) =
      decimal_colon_inj (utf8_len d) (utf8_len e) _ _ (append_cancel_left column _ _ named) in
    utf8_prefix d e r s rest long

-- Two rows print alike in every column of the identity.
abbrev pub AgreeOn : Platform → List Text → Dict Value → Dict Value → Type 0
AgreeOn p [] a b = Unit
AgreeOn p (column ∷ columns) a b =
    (p.encoded (identity_value column a) ≡ p.encoded (identity_value column b))
    × AgreeOn p columns a b

agree-of_key :
    (p : Platform) (columns : List Text) (a b : Dict Value)
    → identity_key_of p columns a ≡ identity_key_of p columns b
    → AgreeOn p columns a b
unfolding identity_key_of
agree-of_key p [] a b h = tt
agree-of_key p (column ∷ columns) a b h =
    let (same, rest) = key_part_inj column _ _ _ _ h in (same, agree-of_key p columns a b rest)

key-of_agree :
    (p : Platform) (columns : List Text) (a b : Dict Value)
    → AgreeOn p columns a b
    → identity_key_of p columns a ≡ identity_key_of p columns b
unfolding identity_key_of
key-of_agree p [] a b h = refl
key-of_agree p (column ∷ columns) a b h = ground (arith, h.0, key-of_agree p columns a b h.1)

-- Two rows have one identity key exactly when the values of all identity columns print alike: no
-- choice of lengths or separators inside the values makes two identities collide.
pub identity_key_inj :
    (p : Platform) (columns : List Text) (a b : Dict Value)
    → (identity_key_of p columns a ≡ identity_key_of p columns b) ↔ AgreeOn p columns a b
identity_key_inj p columns a b = (agree-of_key p columns a b, key-of_agree p columns a b)
