-- ===== src/Common/Dicts.antt =====
-- Go's `map[string]V` as an association list: a write replaces in place or appends. Get, Set and
-- Delete of internal/profile/session_secrets.go are `lookup`, `insert` and `delete`.
use Prim.Native.Nat.{◌<◌}
use mathlib.Core.Path.{◌≡◌, refl}
use mathlib.Core.Bool.{Bool, true, false}
use mathlib.Core.List.{List, [], ◌∷◌}
use mathlib.Core.Option.{Option, none, some}
use native.Mathlib.Omega.{arith}
use db_tui.Common.Tests.{if◌then◌else◌}
use db_tui.Common.Texts.{Text, text_eq, text_eq_refl, text_eq_iff}
use db_tui.Common.Lists.{length}

abbrev pub Dict {ℓ} : Type ℓ → Type ℓ
Dict V = List (Text × V)

abbrev pub is_some {ℓ} : {A : Type ℓ} → Option A → Bool
is_some none = false
is_some (some _) = true

module _ {ℓ} {V : Type ℓ} where
  unfoldable pub lookup : Text → Dict V → Option V
  lookup k [] = none
  lookup k ((j, v) ∷ m) = if text_eq j k then some v else lookup k m

  unfoldable pub insert : Text → V → Dict V → Dict V
  insert k v [] = (k, v) ∷ []
  insert k v ((j, w) ∷ m) = if text_eq j k then (k, v) ∷ m else (j, w) ∷ insert k v m

  -- `delete(m, k)`
  unfoldable pub delete : Text → Dict V → Dict V
  delete k [] = []
  delete k ((j, w) ∷ m) = if text_eq j k then delete k m else (j, w) ∷ delete k m

  abbrev pub keys : Dict V → List Text
  keys [] = []
  keys ((k, _) ∷ m) = k ∷ keys m

  -- `_, ok := m[k]`
  abbrev pub has : Text → Dict V → Bool
  has k m = is_some (lookup k m)

module _ {ℓ} {V : Type ℓ} where
  pub lookup-insert :
      (k j : Text) (v : V) (m : Dict V)
      → lookup j (insert k v m) ≡ (if text_eq k j then some v else lookup j m)
  unfolding lookup insert
  lookup-insert k j v [] = refl
  lookup-insert k j v ((i, w) ∷ m) =
      ground (arith, text_eq_iff k j, text_eq_iff i k, text_eq_iff i j, lookup-insert k j v m)

  pub lookup-delete :
      (k j : Text) (m : Dict V) → lookup j (delete k m) ≡ (if text_eq k j then none else lookup j m)
  unfolding lookup delete
  lookup-delete k j [] = ground arith
  lookup-delete k j ((i, w) ∷ m) =
      ground (arith, text_eq_iff k j, text_eq_iff i k, text_eq_iff i j, lookup-delete k j m)

  pub lookup-insert_self : (k : Text) (v : V) (m : Dict V) → lookup k (insert k v m) ≡ some v
  lookup-insert_self k v m = ground (arith, lookup-insert k k v m, text_eq_refl k)

  pub lookup-delete_self : (k : Text) (m : Dict V) → lookup k (delete k m) ≡ none
  lookup-delete_self k m = ground (arith, lookup-delete k k m, text_eq_refl k)

  pub delete_absent : (k : Text) (m : Dict V) → lookup k m ≡ none → delete k m ≡ m
  unfolding lookup delete
  delete_absent k [] h = refl
  delete_absent k ((i, w) ∷ m) h = ground (arith, delete_absent k m)

  pub delete-insert_absent :
      (k : Text) (v : V) (m : Dict V) → lookup k m ≡ none → delete k (insert k v m) ≡ m
  unfolding lookup insert delete
  delete-insert_absent k v [] h = ground (arith, text_eq_refl k)
  delete-insert_absent k v ((i, w) ∷ m) h = ground (arith, delete-insert_absent k v m)

  pub insert-ne-nil : (k : Text) (v : V) (m : Dict V) → 0 < length (insert k v m)
  unfolding insert
  insert-ne-nil k v [] = omega arith
  insert-ne-nil k v ((i, w) ∷ m) = ground arith

  -- no key stands twice
  abbrev pub NoKey : Text → Dict V → Type 0
  NoKey k [] = Unit
  NoKey k ((j, _) ∷ m) = (text_eq j k ≡ false) × NoKey k m

  abbrev pub Distinct : Dict V → Type 0
  Distinct [] = Unit
  Distinct ((k, _) ∷ m) = NoKey k m × Distinct m
