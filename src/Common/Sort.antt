-- ===== src/Common/Sort.antt =====
-- `sort.Strings`: any correct sort gives the same list; this one inserts.
use db_tui.Common.Tests.{if◌then◌else◌, Bool-cases}
use db_tui.Common.Texts.{Text, text_le}
use Prim.Native.Nat.{ℕ, ◌+◌}
use mathlib.Core.Path.{◌≡◌, refl}
use mathlib.Core.Bool.{true, false}
use mathlib.Core.Logic.{inl, inr}
use mathlib.Core.List.{List, [], ◌∷◌, Perm}
use mathlib.Core.List.Perm
use native.Mathlib.Omega.{arith}

insert_sorted : Text → List Text → List Text
insert_sorted k [] = k ∷ []
insert_sorted k (j ∷ ks) = if text_le k j then k ∷ j ∷ ks else j ∷ insert_sorted k ks

unfoldable pub sort_texts : List Text → List Text
unfolding insert_sorted
sort_texts [] = []
sort_texts (k ∷ ks) = insert_sorted k (sort_texts ks)

insert_sorted-perm : (k : Text) (ks : List Text) → Perm (insert_sorted k ks) (k ∷ ks)
unfolding insert_sorted
insert_sorted-perm k [] = Perm.rfl
insert_sorted-perm k (j ∷ ks) = elim (Bool-cases (text_le k j)) [
  | inl here ↦ rw here Perm.rfl
  | inr later ↦ rw later (Perm.trans (Perm.cons j (insert_sorted-perm k ks)) (Perm.swap k j ks))
]

-- The sorted list has the same entries.
pub sort_texts-perm : (ks : List Text) → Perm (sort_texts ks) ks
unfolding sort_texts
sort_texts-perm [] = Perm.rfl
sort_texts-perm (k ∷ ks) =
    Perm.trans (insert_sorted-perm k (sort_texts ks)) (Perm.cons k (sort_texts-perm ks))

pub text_le_total : (s t : Text) → text_le s t ≡ false → text_le t s ≡ true
unfolding text_le
text_le_total [] t h = cc
text_le_total (a ∷ s) [] h = refl
text_le_total (a ∷ s) (b ∷ t) h = ground (arith, text_le_total s t)

pub text_le_trans : (s t u : Text) → text_le s t ≡ true → text_le t u ≡ true → text_le s u ≡ true
unfolding text_le
text_le_trans [] t u h k = refl
text_le_trans (a ∷ s) [] u h k = cc
text_le_trans (a ∷ s) (b ∷ t) [] h k = cc
text_le_trans (a ∷ s) (b ∷ t) (c ∷ u) h k = ground (arith, text_le_trans s t u)

-- neighbours ascend
abbrev pub IsAscending : List Text → Type 0
IsAscending [] = Unit
IsAscending (k ∷ []) = Unit
IsAscending (k ∷ j ∷ ks) = (text_le k j ≡ true) × IsAscending (j ∷ ks)

insert_sorted-IsAscending :
    (k : Text) (ks : List Text) → IsAscending ks → IsAscending (insert_sorted k ks)
unfolding insert_sorted
insert_sorted-IsAscending k [] h = tt
insert_sorted-IsAscending k (j ∷ []) h = ground (arith, text_le_total k j)
insert_sorted-IsAscending k (j ∷ i ∷ ks) h =
    ground (arith, text_le_total k j, insert_sorted-IsAscending k (i ∷ ks))

pub sort_texts-IsAscending : (ks : List Text) → IsAscending (sort_texts ks)
unfolding sort_texts
sort_texts-IsAscending [] = tt
sort_texts-IsAscending (k ∷ ks) =
    insert_sorted-IsAscending k (sort_texts ks) (sort_texts-IsAscending ks)

-- a sum over the entries
unfoldable pub tally : (Text → ℕ) → List Text → ℕ
tally f [] = 0
tally f (k ∷ ks) = f k + tally f ks

tally-insert_sorted :
    (f : Text → ℕ) (k : Text) (ks : List Text) → tally f (insert_sorted k ks) ≡ f k + tally f ks
unfolding tally insert_sorted
tally-insert_sorted f k [] = refl
tally-insert_sorted f k (j ∷ ks) = ground (arith, tally-insert_sorted f k ks)

pub tally-sort_texts : (f : Text → ℕ) (ks : List Text) → tally f (sort_texts ks) ≡ tally f ks
unfolding tally sort_texts
tally-sort_texts f [] = refl
tally-sort_texts f (k ∷ ks) =
    omega (arith, tally-insert_sorted f k (sort_texts ks), tally-sort_texts f ks)
