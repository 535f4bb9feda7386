-- ===== src/Base/Maps.antt =====
-- Go maps with text keys, as association lists. A Go map has each key once (`NodupKeys`).
use Prim.Native.String.{String}
use mathlib.Core.Path.{◌≡◌, refl}
use mathlib.Core.Option.{Option, none, some}
use mathlib.Core.List.{List, [], ◌∷◌}
use native.Mathlib.Omega.{arith}
use text.Mathlib.Text.{◌==◌}
use text.Mathlib.TextEquality.{eq_iff}
use text.Mathlib.TextPositions.{eq_refl}
use kubauth.Base.Tests.{if◌then◌else◌}

abbrev pub Dict {ℓ} : Type ℓ → Type ℓ
Dict V = List (String × V)

module _ {ℓ} {V : Type ℓ} where
  -- `v, ok := m[k]`
  unfoldable pub lookup : String → Dict V → Option V
  lookup k [] = none
  lookup k ((a, v) ∷ m) = if a == k then some v else lookup k m

  -- `m[k] = v`
  unfoldable pub insert : String → V → Dict V → Dict V
  insert k v [] = (k, v) ∷ []
  insert k v ((a, old) ∷ m) = if a == k then (a, v) ∷ m else (a, old) ∷ insert k v m

  -- `delete(m, k)`
  unfoldable pub erase : String → Dict V → Dict V
  erase k [] = []
  erase k ((a, old) ∷ m) = let rest = erase k m in if a == k then rest else (a, old) ∷ rest

  abbrev pub NodupKeys : Dict V → Type ℓ
  NodupKeys [] = Unit
  NodupKeys ((k, _) ∷ m) = (lookup k m ≡ none) × NodupKeys m

  pub lookup-insert :
      (k a : String) (v : V) (m : Dict V)
      → lookup a (insert k v m) ≡ (if k == a then some v else lookup a m)
  unfolding lookup insert
  lookup-insert k a v [] = refl
  lookup-insert k a v ((b, old) ∷ m) =
      ground (arith, lookup-insert k a v m, eq_iff b a, eq_iff b k, eq_iff k a)

  pub lookup-insert_self : (k : String) (v : V) (m : Dict V) → lookup k (insert k v m) ≡ some v
  lookup-insert_self k v m = simp (lookup-insert, eq_refl)

  pub lookup-erase :
      (k a : String) (m : Dict V) → lookup a (erase k m) ≡ (if k == a then none else lookup a m)
  unfolding lookup erase
  lookup-erase k a [] = ground arith
  lookup-erase k a ((b, old) ∷ m) =
      ground (arith, eq_iff k a, eq_iff b k, eq_iff b a, lookup-erase k a m)

  pub lookup-erase_self : (k : String) (m : Dict V) → lookup k (erase k m) ≡ none
  lookup-erase_self k m = simp (lookup-erase, eq_refl)

  pub insert-NodupKeys : (k : String) (v : V) (m : Dict V) → NodupKeys m → NodupKeys (insert k v m)
  unfolding insert
  insert-NodupKeys k v [] h = (unfold lookup in refl, tt)
  insert-NodupKeys k v ((a, old) ∷ m) h =
      ground (arith, eq_iff a k, eq_iff k a, insert-NodupKeys k v m, lookup-insert k a v m)

  pub erase-NodupKeys : (k : String) (m : Dict V) → NodupKeys m → NodupKeys (erase k m)
  unfolding erase
  erase-NodupKeys k [] h = tt
  erase-NodupKeys k ((a, old) ∷ m) h = ground (arith, erase-NodupKeys k m, lookup-erase k a m)

pub ruleset dict_laws = (lookup-insert, lookup-erase, eq_refl)
