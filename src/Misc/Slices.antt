-- ===== src/Misc/Slices.antt =====
-- internal/misc/misc.go, and the slice merge of internal/misc/merge.go.
-- A `map[string]bool` that serves as a set is the list of its keys.
pub mod Laws
use kubauth.Base.{
  ℕ, suc, String, Bool, true, false, Option, none, some, List, [], ◌∷◌, ◌++◌, if◌then◌else◌,
  contains,
}
use kubauth.Base.TextSort.{sort_texts}

-- `BoolPtrFalse` and `BoolPtrTrue`: a pointer to a flag, and the value of `nil`.
unfoldable pub bool_ptr_false : Option Bool → Bool
bool_ptr_false none = false
bool_ptr_false (some b) = b

unfoldable pub bool_ptr_true : Option Bool → Bool
bool_ptr_true none = true
bool_ptr_true (some b) = b

-- The loop of `DedupAndSort`, over its set and its list.
dedup : List String → List String → List String → List String
dedup keys list [] = list
dedup keys list (entry ∷ rest) =
    let more = dedup (entry ∷ keys) (list ++ entry ∷ []) rest in
    let same = dedup keys list rest in if contains keys entry then same else more

unfoldable pub dedup_and_sort : List String → List String
unfolding dedup sort_texts
dedup_and_sort slice = sort_texts (dedup [] [] slice)

-- The second loop of `AppendIfNotPresent`; its set starts as the items of the slice.
append_missing : List String → List String → List String → List String
append_missing existing slice [] = slice
append_missing existing slice (item ∷ items) =
    let more = append_missing (item ∷ existing) (slice ++ item ∷ []) items in
    let same = append_missing existing slice items in if contains existing item then same else more

unfoldable pub append_if_not_present : List String → List String → List String
unfolding append_missing
append_if_not_present slice items = append_missing slice slice items

unfoldable pub count_true : List Bool → ℕ
count_true [] = 0
count_true (true ∷ xs) = suc (count_true xs)
count_true (false ∷ xs) = count_true xs

-- One of the two loops of `mergeStringSlicesDeduped`: the set and the output after it.
merge_loop : List String → List String → List String → List String × List String
merge_loop seen out [] = (seen, out)
merge_loop seen out (s ∷ rest) =
    let more = merge_loop (s ∷ seen) (out ++ s ∷ []) rest in
    let same = merge_loop seen out rest in if contains seen s then same else more

unfoldable pub merge_string_slices_deduped : List String → List String → List String
unfolding merge_loop
merge_string_slices_deduped a b = let (seen, out) = merge_loop [] [] a in (merge_loop seen out b).1
