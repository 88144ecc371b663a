-- ===== src/Profile/Loading.antt =====
-- The list that Load shows.
use mathlib.Core.List.{Perm}
use mathlib.Core.List.Perm
use db_tui.Common.{
  ◌≡◌, ◌<◌, ◌⊎◌, ◌==◌, ◌&&◌, refl, Bool, true, false, List, [], ◌∷◌, arith, inl, inr, Bool-cases,
  filter_by, text_eq, text_eq_iff, text_le,
}
use db_tui.Common.Sort.{text_le_total}
use db_tui.Profile.Types.{Profile, Document, ok}
use db_tui.Profile.Parameters.{Unicode}
use db_tui.Profile.Ports.{Context, Ports}
use db_tui.Profile.Service.{used_before, insert_profile, sort_profiles, load}

module _ (u : Unicode) where
  -- used later; or at the same time, with a name that is not greater
  abbrev InOrder : Profile → Profile → Type 0
  InOrder p q =
      (q.last_used_at < p.last_used_at)
      ⊎ ((q.last_used_at ≡ p.last_used_at)
          × (text_le (u.to_lower p.name) (u.to_lower q.name) ≡ true))

  -- neighbours are in order
  abbrev pub IsOrdered : List Profile → Type 0
  IsOrdered [] = Unit
  IsOrdered (p ∷ []) = Unit
  IsOrdered (p ∷ q ∷ profiles) = InOrder p q × IsOrdered (q ∷ profiles)

  -- used at the same time, with the same name but for case
  abbrev pub is_tied : Profile → Profile → Bool
  is_tied p q =
      (p.last_used_at == q.last_used_at) && text_eq (u.to_lower p.name) (u.to_lower q.name)

  InOrder-of_used_before : (p q : Profile) → used_before u q p ≡ false → InOrder p q
  unfolding used_before
  InOrder-of_used_before p q h = elim (Bool-cases (q.last_used_at == p.last_used_at)) [
    | inl same ↦ inr (ground (arith, h, same), ground (arith, h, same))
    | inr apart ↦ inl (ground (arith, h, apart))
  ]

  used_before_asym : (p q : Profile) → used_before u q p ≡ true → used_before u p q ≡ false
  unfolding used_before
  used_before_asym p q h = ground (arith, h, text_le_total (u.to_lower p.name) (u.to_lower q.name))

  insert_profile-perm :
      (p : Profile) (profiles : List Profile) → Perm (insert_profile u p profiles) (p ∷ profiles)
  unfolding insert_profile
  insert_profile-perm p [] = Perm.rfl
  insert_profile-perm p (q ∷ profiles) = elim (Bool-cases (used_before u q p)) [
    | inl later ↦
        rw later
          (Perm.trans (Perm.cons q (insert_profile-perm p profiles)) (Perm.swap p q profiles))
    | inr here ↦ rw here Perm.rfl
  ]

  sort_profiles-perm : (profiles : List Profile) → Perm (sort_profiles u profiles) profiles
  unfolding sort_profiles
  sort_profiles-perm [] = Perm.rfl
  sort_profiles-perm (p ∷ profiles) =
      Perm.trans (insert_profile-perm p (sort_profiles u profiles))
        (Perm.cons p (sort_profiles-perm profiles))

  -- the profile is in order with the first of the list
  abbrev IsBefore : Profile → List Profile → Type 0
  IsBefore p [] = Unit
  IsBefore p (q ∷ profiles) = InOrder p q

  IsOrdered-cons :
      (p : Profile) (profiles : List Profile)
      → IsBefore p profiles
      → IsOrdered profiles
      → IsOrdered (p ∷ profiles)
  IsOrdered-cons p [] first rest = tt
  IsOrdered-cons p (q ∷ profiles) first rest = (first, rest)

  IsOrdered-parts :
      (p : Profile) (profiles : List Profile)
      → IsOrdered (p ∷ profiles)
      → IsBefore p profiles × IsOrdered profiles
  IsOrdered-parts p [] h = (tt, tt)
  IsOrdered-parts p (q ∷ profiles) h = h

  insert_profile-IsBefore :
      (p q : Profile) (profiles : List Profile)
      → InOrder q p
      → IsBefore q profiles
      → IsBefore q (insert_profile u p profiles)
  unfolding insert_profile
  insert_profile-IsBefore p q [] before first = before
  insert_profile-IsBefore p q (r ∷ profiles) before first = elim (Bool-cases (used_before u r p)) [
    | inl later ↦ rw later first
    | inr here ↦ rw here before
  ]

  insert_profile-IsOrdered :
      (p : Profile) (profiles : List Profile)
      → IsOrdered profiles
      → IsOrdered (insert_profile u p profiles)
  unfolding insert_profile
  insert_profile-IsOrdered p [] h = tt
  insert_profile-IsOrdered p (q ∷ profiles) h =
      let (first, rest) = IsOrdered-parts q profiles h in
      let inserted = insert_profile-IsOrdered p profiles rest in
      elim (Bool-cases (used_before u q p)) [
        | inl later ↦ rw later (
            IsOrdered-cons q (insert_profile u p profiles)
              (insert_profile-IsBefore p q profiles
                (InOrder-of_used_before q p (used_before_asym p q later)) first)
              inserted)
        | inr here ↦ rw here (InOrder-of_used_before p q here, h)
      ]

  sort_profiles-IsOrdered : (profiles : List Profile) → IsOrdered (sort_profiles u profiles)
  unfolding sort_profiles
  sort_profiles-IsOrdered [] = tt
  sort_profiles-IsOrdered (p ∷ profiles) =
      insert_profile-IsOrdered p (sort_profiles u profiles) (sort_profiles-IsOrdered profiles)

  tied_apart :
      (k p q : Profile) → is_tied k p ≡ true → is_tied k q ≡ true → used_before u q p ≡ false
  unfolding used_before
  tied_apart k p q h g = ground (
    arith,
    h,
    g,
    text_eq_iff (u.to_lower k.name) (u.to_lower p.name),
    text_eq_iff (u.to_lower k.name) (u.to_lower q.name),
    text_le_total (u.to_lower p.name) (u.to_lower q.name),
  )

  insert_profile-tied :
      (k p : Profile) (profiles : List Profile)
      → filter_by (is_tied k) (insert_profile u p profiles) ≡ filter_by (is_tied k) (p ∷ profiles)
  unfolding insert_profile
  insert_profile-tied k p [] = refl
  insert_profile-tied k p (q ∷ profiles) =
      ground (arith, tied_apart k p q, insert_profile-tied k p profiles)

  sort_profiles-tied :
      (k : Profile) (profiles : List Profile)
      → filter_by (is_tied k) (sort_profiles u profiles) ≡ filter_by (is_tied k) profiles
  unfolding sort_profiles
  sort_profiles-tied k [] = refl
  sort_profiles-tied k (p ∷ profiles) =
      ground
        (arith, insert_profile-tied k p (sort_profiles u profiles), sort_profiles-tied k profiles)

  -- When the repository gives a document, loading succeeds with the profiles of the document, each as
  -- often as it is there, the last used in front and by name where the times agree, and those that
  -- are tied with any one profile, in the time and in the name but for case, in the order of the
  -- document.
  pub load-IsOrdered :
      {W : Type 0} (ports : Ports W) (ctx : Context) (w : W) (document : Document) (k : Profile)
      → ports.load_document ctx w ≡ ok document
      → (load ports u ctx w ≡ ok (record document { profiles = sort_profiles u document.profiles }))
        × Perm (sort_profiles u document.profiles) document.profiles
        × IsOrdered (sort_profiles u document.profiles)
        × (filter_by (is_tied k) (sort_profiles u document.profiles)
            ≡ filter_by (is_tied k) document.profiles)
  unfolding load
  load-IsOrdered ports ctx w document k h = (
    ground (arith, h),
    sort_profiles-perm document.profiles,
    sort_profiles-IsOrdered document.profiles,
    sort_profiles-tied k document.profiles,
  )
