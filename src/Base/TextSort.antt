-- ===== src/Base/TextSort.antt =====
-- Go's `sort.Strings`, and what a sorted list without duplicates is determined by.
use Prim.Native.Nat.{Ordering}
use Prim.Native.String.{String, compare}
use mathlib.Core.Path.{◌≡◌, refl, ap, ◌∙◌}
use mathlib.Core.Bool.{true, false, ◌||◌}
use mathlib.Core.List.{List, [], ◌∷◌}
use native.Mathlib.Omega.{arith}
use text.Mathlib.Text.{◌==◌}
use text.Mathlib.TextEquality.{eq_iff, path_by_compare}
use text.Mathlib.TextPositions.{eq_refl}
use kubauth.Base.Texts.{contains, Distinct, SameTexts}
use kubauth.Base.TextOrder.{Before, compare-flip, Before-trans, Before-irrefl}

-- The place of a text in a sorted list. Equal texts are the same, so stability does not show.
unfoldable pub insert_text : String → List String → List String
insert_text s [] = s ∷ []
insert_text s (x ∷ xs) = elim (compare s x) [
  | Ordering.lt ↦ s ∷ x ∷ xs
  | Ordering.eq ↦ s ∷ x ∷ xs
  | Ordering.gt ↦ x ∷ insert_text s xs
]

unfoldable pub sort_texts : List String → List String
unfolding insert_text
sort_texts [] = []
sort_texts (x ∷ xs) = insert_text x (sort_texts xs)

-- `s` comes before each text of the list.
abbrev pub BeforeAll : String → List String → Type 0
BeforeAll s [] = Unit
BeforeAll s (x ∷ xs) = Before s x × BeforeAll s xs

-- Sorted, each text once.
abbrev pub Ascending : List String → Type 0
Ascending [] = Unit
Ascending (x ∷ xs) = BeforeAll x xs × Ascending xs

contains-insert_text :
    (s : String) (xs : List String) (t : String)
    → contains (insert_text s xs) t ≡ (s == t || contains xs t)
unfolding insert_text
contains-insert_text s [] t = refl
contains-insert_text s (x ∷ xs) t = ground (arith, contains-insert_text s xs t)

pub contains-sort_texts : (xs : List String) → SameTexts (sort_texts xs) xs
unfolding sort_texts
contains-sort_texts [] t = refl
contains-sort_texts (x ∷ xs) t =
    contains-insert_text x (sort_texts xs) t ∙ ap (λ b. x == t || b) (contains-sort_texts xs t)

BeforeAll-trans : (s t : String) (xs : List String) → Before s t → BeforeAll t xs → BeforeAll s xs
BeforeAll-trans s t [] h k = tt
BeforeAll-trans s t (x ∷ xs) h k = (Before-trans s t x h k.0, BeforeAll-trans s t xs h k.1)

BeforeAll-insert_text :
    (s t : String) (xs : List String) → Before s t → BeforeAll s xs → BeforeAll s (insert_text t xs)
unfolding insert_text
BeforeAll-insert_text s t [] h k = (h, tt)
BeforeAll-insert_text s t (x ∷ xs) h k = ground (arith, BeforeAll-insert_text s t xs h k.1)

insert_text-Ascending :
    (s : String) (xs : List String)
    → contains xs s ≡ false
    → Ascending xs
    → Ascending (insert_text s xs)
unfolding insert_text
insert_text-Ascending s [] h a = (tt, tt)
insert_text-Ascending s (x ∷ xs) h a = ground (
  arith,
  compare-flip s x,
  eq_iff x s,
  path_by_compare s x,
  BeforeAll-trans s x xs,
  BeforeAll-insert_text x s xs,
  insert_text-Ascending s xs,
)

pub sort_texts-Ascending : (xs : List String) → Distinct xs → Ascending (sort_texts xs)
unfolding sort_texts
sort_texts-Ascending [] d = tt
sort_texts-Ascending (x ∷ xs) d =
    insert_text-Ascending x (sort_texts xs) (contains-sort_texts xs x ∙ d.0)
      (sort_texts-Ascending xs d.1)

not-contains_of_BeforeAll : (s : String) (xs : List String) → BeforeAll s xs → contains xs s ≡ false
not-contains_of_BeforeAll s [] h = refl
not-contains_of_BeforeAll s (x ∷ xs) h =
    ground (arith, eq_iff x s, Before-irrefl x, not-contains_of_BeforeAll s xs h.1)

Before-of_contains :
    (s t : String) (xs : List String) → BeforeAll s xs → contains xs t ≡ true → Before s t
Before-of_contains s t [] h c = ground arith
Before-of_contains s t (x ∷ xs) h c = ground (arith, eq_iff x t, Before-of_contains s t xs h.1)

head_eq :
    (x y : String) (xs ys : List String)
    → BeforeAll x xs
    → BeforeAll y ys
    → SameTexts (x ∷ xs) (y ∷ ys)
    → x ≡ y
head_eq x y xs ys h k e = ground (
  arith,
  e x,
  e y,
  eq_refl x,
  eq_refl y,
  eq_iff y x,
  eq_iff x y,
  Before-of_contains x y xs h,
  Before-of_contains y x ys k,
  compare-flip x y,
)

tail_same :
    (x : String) (xs ys : List String)
    → BeforeAll x xs
    → BeforeAll x ys
    → SameTexts (x ∷ xs) (x ∷ ys)
    → SameTexts xs ys
tail_same x xs ys h k e s =
    ground
      (arith, e s, eq_iff x s, not-contains_of_BeforeAll x xs h, not-contains_of_BeforeAll x ys k)

-- An ascending list is determined by its members.
pub Ascending-unique :
    (xs ys : List String) → Ascending xs → Ascending ys → SameTexts xs ys → xs ≡ ys
Ascending-unique [] [] a b e = refl
Ascending-unique [] (y ∷ ys) a b e = ground (arith, e y, eq_refl y)
Ascending-unique (x ∷ xs) [] a b e = ground (arith, e x, eq_refl x)
Ascending-unique (x ∷ xs) (y ∷ ys) a b e =
    let same = head_eq x y xs ys a.0 b.0 e in
    let b' = rw (← same) at b in
    rw (← same) (
      ap (λ (l : List String). x ∷ l)
        (Ascending-unique xs ys a.1 b.1 (tail_same x xs ys a.0 b'.0 (rw (← same) at e))))
