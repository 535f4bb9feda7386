-- ===== src/Misc/Slices/Laws.antt =====
-- What the slice helpers of internal/misc return, against the first occurrences of a list.
use mathlib.Core.List.{append_assoc, append-nil}
use kubauth.Base.{
  String, ◌≡◌, sym, ap, ◌∙◌, true, false, ◌||◌, List, [], ◌∷◌, ◌++◌, arith, contains,
  contains-append, Distinct, SameTexts, fresh, contains-fresh, fresh-avoids, fresh-Distinct,
  fresh-append, eq_iff,
}
use kubauth.Base.TextSort.{Ascending, contains-sort_texts, sort_texts-Ascending, Ascending-unique}
use kubauth.Misc.Slices.{
  dedup, dedup_and_sort, append_missing, append_if_not_present, merge_loop,
  merge_string_slices_deduped,
}

dedup-eq-fresh : (keys list xs : List String) → dedup keys list xs ≡ list ++ fresh keys xs
unfolding dedup
dedup-eq-fresh keys list [] = sym (append-nil list)
dedup-eq-fresh keys list (x ∷ xs) = ground (
  arith,
  dedup-eq-fresh keys list xs,
  dedup-eq-fresh (x ∷ keys) (list ++ x ∷ []) xs,
  append_assoc list (x ∷ []) (fresh (x ∷ keys) xs),
)

append_missing-eq-fresh :
    (existing slice xs : List String)
    → append_missing existing slice xs ≡ slice ++ fresh existing xs
unfolding append_missing
append_missing-eq-fresh existing slice [] = sym (append-nil slice)
append_missing-eq-fresh existing slice (x ∷ xs) = ground (
  arith,
  append_missing-eq-fresh existing slice xs,
  append_missing-eq-fresh (x ∷ existing) (slice ++ x ∷ []) xs,
  append_assoc slice (x ∷ []) (fresh (x ∷ existing) xs),
)

merge_loop-eq-fresh :
    (seen out xs : List String) → (merge_loop seen out xs).1 ≡ out ++ fresh seen xs
unfolding merge_loop
merge_loop-eq-fresh seen out [] = sym (append-nil out)
merge_loop-eq-fresh seen out (x ∷ xs) = ground (
  arith,
  merge_loop-eq-fresh seen out xs,
  merge_loop-eq-fresh (x ∷ seen) (out ++ x ∷ []) xs,
  append_assoc out (x ∷ []) (fresh (x ∷ seen) xs),
)

-- The set of the loop holds what it started with and the items read.
merge_loop-seen :
    (seen out xs : List String) (s : String)
    → contains (merge_loop seen out xs).0 s ≡ (contains seen s || contains xs s)
unfolding merge_loop
merge_loop-seen seen out [] s = ground arith
merge_loop-seen seen out (x ∷ xs) s = ground (
  arith,
  eq_iff x s,
  merge_loop-seen seen out xs s,
  merge_loop-seen (x ∷ seen) (out ++ x ∷ []) xs s,
)

-- Merging two slices keeps the first occurrences of the one followed by the other.
pub merge_string_slices_deduped-eq-fresh :
    (a b : List String) → merge_string_slices_deduped a b ≡ fresh [] (a ++ b)
unfolding merge_string_slices_deduped
merge_string_slices_deduped-eq-fresh a b =
    merge_loop-eq-fresh (merge_loop [] [] a).0 (merge_loop [] [] a).1 b
    ∙ ap (λ (l : List String). l ++ fresh (merge_loop [] [] a).0 b) (merge_loop-eq-fresh [] [] a)
    ∙ sym (fresh-append [] (merge_loop [] [] a).0 a b (merge_loop-seen [] [] a))

-- The merge of two slices has no text twice, and its members are those of the two.
pub merge_string_slices_deduped-set :
    (a b : List String)
    → Distinct (merge_string_slices_deduped a b)
      × ((s : String)
          → contains (merge_string_slices_deduped a b) s ≡ (contains a s || contains b s))
merge_string_slices_deduped-set a b =
    rw (merge_string_slices_deduped-eq-fresh a b)
      (fresh-Distinct [] (a ++ b), λ s. contains-fresh [] (a ++ b) s ∙ contains-append a b s)

-- The slice stays in front as it was, and what is added is what it lacks, each once: the members
-- are those of the slice and of the items.
pub append_if_not_present_lem :
    (slice items : List String)
    → (added : List String) × (append_if_not_present slice items ≡ slice ++ added)
      × Distinct added
      × ((s : String) → contains slice s ≡ true → contains added s ≡ false)
      × ((s : String)
          → contains (append_if_not_present slice items) s ≡ (contains slice s || contains items s))
unfolding append_if_not_present
append_if_not_present_lem slice items = (
  fresh slice items,
  append_missing-eq-fresh slice slice items,
  fresh-Distinct slice items,
  fresh-avoids slice items,
  λ s.
      rw (append_missing-eq-fresh slice slice items)
        (contains-append slice (fresh slice items) s ∙ contains-fresh slice items s),
)

dedup-set : (xs : List String) → Distinct (dedup [] [] xs) × SameTexts (dedup [] [] xs) xs
dedup-set xs = rw (dedup-eq-fresh [] [] xs) (fresh-Distinct [] xs, contains-fresh [] xs)

-- The result is strictly ascending and has the members of the slice.
pub dedup_and_sort-Ascending :
    (xs : List String) → Ascending (dedup_and_sort xs) × SameTexts (dedup_and_sort xs) xs
unfolding dedup_and_sort
dedup_and_sort-Ascending xs = (
  sort_texts-Ascending (dedup [] [] xs) (dedup-set xs).0,
  λ s. contains-sort_texts (dedup [] [] xs) s ∙ (dedup-set xs).1 s,
)

-- Slices with the same members have one result, whatever their order and repetitions.
pub dedup_and_sort-congr :
    (xs ys : List String) → SameTexts xs ys → dedup_and_sort xs ≡ dedup_and_sort ys
dedup_and_sort-congr xs ys h =
    Ascending-unique (dedup_and_sort xs) (dedup_and_sort ys) (dedup_and_sort-Ascending xs).0
      (dedup_and_sort-Ascending ys).0
      (λ s. (dedup_and_sort-Ascending xs).1 s ∙ h s ∙ sym ((dedup_and_sort-Ascending ys).1 s))
