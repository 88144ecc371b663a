-- ===== src/Profile/Placing.antt =====
-- Where a save puts the profile in the document, and what it writes of it.
use db_tui.Common.{
  ℕ, zero, suc, ◌<◌, ◌≡◌, refl, Bool, ◌&&◌, List, [], ◌∷◌, ◌++◌, Option, none, some, length,
  length-set, get_elem?, set, ltb, ◌==◌, if◌then◌else◌, arith, Option-cases, inl, inr,
}
use db_tui.Profile.Types.{Profile, Document, Prepared}
use db_tui.Profile.Commit.{with_profile, stamped}

-- one entry is the profile, and all the others are as they were
abbrev pub Replaced : List Profile → ℕ → Profile → List Profile → Type 0
Replaced old index profile new =
    (length new ≡ length old)
    × ((j : ℕ)
        → get_elem? new j
          ≡ (if j == index && ltb index (length old) then some profile else get_elem? old j))

abbrev pub PlacedAt : Option ℕ → List Profile → Profile → List Profile → Type 0
PlacedAt none old profile new = new ≡ old ++ (profile ∷ [])
PlacedAt (some index) old profile new = Replaced old index profile new

-- In its place, or at the end if it is new, in a document that is otherwise the same.
pub record Placed (prepared : Prepared) (profile : Profile) (d : Document) : Type 0 where
  pub version_now :
      d.version ≡ (if prepared.document.version == 0 then 1 else prepared.document.version)
  pub unknown_same : d.unknown ≡ prepared.document.unknown
  pub profiles_now : PlacedAt prepared.previous_index prepared.document.profiles profile d.profiles

-- the profile that was prepared, with its password kept or not, and its times
abbrev pub Stamped : Prepared → Bool → Profile → Type 0
Stamped prepared mark p = p ≡ record prepared.profile {
  save_password = p.save_password;
  created_at =
      if prepared.profile.created_at == 0 then p.updated_at else prepared.profile.created_at;
  updated_at = p.updated_at;
  last_used_at = if mark then p.updated_at else prepared.profile.last_used_at;
}

pub stamped-Stamped :
    (prepared : Prepared) (keep mark : Bool) (now : ℕ)
    → Stamped prepared mark (stamped prepared keep mark now)
unfolding stamped
stamped-Stamped prepared keep mark now = refl

get_elem?-set :
    (old : List Profile) (index j : ℕ) (profile : Profile)
    → get_elem? (set old index profile) j
      ≡ (if j == index && ltb index (length old) then some profile else get_elem? old j)
get_elem?-set [] index j profile = ground arith
get_elem?-set (p ∷ old) zero zero profile = ground arith
get_elem?-set (p ∷ old) zero (suc j) profile = ground arith
get_elem?-set (p ∷ old) (suc index) zero profile = ground arith
get_elem?-set (p ∷ old) (suc index) (suc j) profile =
    ground (arith, get_elem?-set old index j profile)

-- the document that a save writes
abbrev pub Attempted : Prepared → Bool → Document → Type 0
Attempted prepared mark d = (p : Profile) × (Stamped prepared mark p × Placed prepared p d)

pub with_profile-positive :
    (prepared : Prepared) (profile : Profile) → 0 < (with_profile prepared profile).version
unfolding with_profile
with_profile-positive prepared profile = ground arith

pub with_profile-Placed :
    (prepared : Prepared) (profile : Profile)
    → Placed prepared profile (with_profile prepared profile)
unfolding with_profile
with_profile-Placed prepared profile = record {
  version_now = refl;
  unknown_same = refl;
  profiles_now = elim (Option-cases prepared.previous_index) [
    | inl new ↦ rw new refl
    | inr (index, known) ↦ rw known (
      length-set prepared.document.profiles index profile,
      λ j. get_elem?-set prepared.document.profiles index j profile,
    )
  ];
}
