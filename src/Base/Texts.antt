-- ===== src/Base/Texts.antt =====
-- Lists of texts seen as sets: membership, distinctness, and the first occurrences of a list.
use Prim.Native.String.{String}
use mathlib.Core.Path.{◌≡◌, refl, ap}
use mathlib.Core.Logic.{inl, inr}
use mathlib.Core.Bool.{Bool, true, false, ◌||◌}
use mathlib.Core.List.{List, [], ◌∷◌, ◌++◌}
use native.Mathlib.Omega.{arith}
use text.Mathlib.Text.{◌==◌}
use text.Mathlib.TextEquality.{eq_iff}
use text.Mathlib.TextPositions.{eq_refl}
use kubauth.Base.Tests.{if◌then◌else◌, Bool-cases}

abbrev pub contains : List String → String → Bool
contains [] s = false
contains (x ∷ xs) s = x == s || contains xs s

abbrev pub Distinct : List String → Type 0
Distinct [] = Unit
Distinct (x ∷ xs) = (contains xs x ≡ false) × Distinct xs

pub contains-append :
    (xs ys : List String) (s : String) → contains (xs ++ ys) s ≡ (contains xs s || contains ys s)
contains-append [] ys s = refl
contains-append (x ∷ xs) ys s = ground (arith, contains-append xs ys s)

-- The items of the second list that the first lacks, each once, in the order of the list.
abbrev pub fresh : List String → List String → List String
fresh seen [] = []
fresh seen (x ∷ xs) = if contains seen x then fresh seen xs else x ∷ fresh (x ∷ seen) xs

-- `fresh` reads its first list as a set.
abbrev pub SameTexts : List String → List String → Type 0
SameTexts xs ys = (s : String) → contains xs s ≡ contains ys s

pub fresh-congr : (xs ys zs : List String) → SameTexts xs ys → fresh xs zs ≡ fresh ys zs
fresh-congr xs ys [] h = refl
fresh-congr xs ys (z ∷ zs) h = ground (
  arith,
  h z,
  fresh-congr xs ys zs h,
  fresh-congr (z ∷ xs) (z ∷ ys) zs (λ s. ground (arith, h s)),
)

pub contains-fresh :
    (seen xs : List String) (s : String)
    → (contains seen s || contains (fresh seen xs) s) ≡ (contains seen s || contains xs s)
contains-fresh seen [] s = refl
contains-fresh seen (x ∷ xs) s =
    ground (arith, eq_iff x s, contains-fresh seen xs s, contains-fresh (x ∷ seen) xs s)

pub fresh-avoids :
    (seen xs : List String) (s : String)
    → contains seen s ≡ true
    → contains (fresh seen xs) s ≡ false
fresh-avoids seen [] s h = refl
fresh-avoids seen (x ∷ xs) s h =
    ground (arith, eq_iff x s, fresh-avoids seen xs s, fresh-avoids (x ∷ seen) xs s)

pub fresh-Distinct : (seen xs : List String) → Distinct (fresh seen xs)
fresh-Distinct seen [] = tt
fresh-Distinct seen (x ∷ xs) = ground (
  arith,
  eq_refl x,
  fresh-Distinct seen xs,
  fresh-Distinct (x ∷ seen) xs,
  fresh-avoids (x ∷ seen) xs x,
)

-- A list in two parts: the second part is read against all that came before.
pub fresh-append :
    (seen all xs ys : List String)
    → ((s : String) → contains all s ≡ (contains seen s || contains xs s))
    → fresh seen (xs ++ ys) ≡ fresh seen xs ++ fresh all ys
fresh-append seen all [] ys h = fresh-congr seen all ys (λ s. ground (arith, h s))
fresh-append seen all (x ∷ xs) ys h = elim (Bool-cases (contains seen x)) [
  | inl old ↦ rw old (fresh-append seen all xs ys (λ s. ground (arith, h s, eq_iff x s)))
  | inr new ↦ rw new (
      ap (λ (l : List String). x ∷ l)
        (fresh-append (x ∷ seen) all xs ys (λ s. ground (arith, h s))))
]
