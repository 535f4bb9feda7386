-- ===== src/Misc/Claims.antt =====
-- internal/misc/merge.go: claim sets, `map[string]interface{}` in Go, and their merge.
-- A nil map or slice is the empty one. No code modelled here looks into a number: a claim that
-- is a number is an integer.
pub mod Merge
pub mod Normalize
pub mod Json
use kubauth.Base.{String, Bool, Option, none, some, List, [], ◌∷◌, ◌==◌, if◌then◌else◌}
use mathlib.Core.Option
use kubauth.Base.Int.{ℤ}
use kubauth.Misc.Slices.{merge_string_slices_deduped}

-- An `interface{}` as JSON gives it; `strings` is a `[]string`, which only Go code makes.
mutual
  pub data Value : Type 0 where
    nil : Value
    flag : Bool → Value
    int : ℤ → Value
    str : String → Value
    strings : List String → Value
    slice : Items → Value
    object : Claims → Value

  pub data Items : Type 0 where
    no_items : Items
    item : Value → Items → Items

  pub data Claims : Type 0 where
    no_claims : Claims
    claim : String → Value → Claims → Claims

-- `v, ok := m[k]`
unfoldable pub get : String → Claims → Option Value
get k no_claims = none
get k (claim j v m) = if j == k then some v else get k m

-- `m[k] = v`
unfoldable pub put : String → Value → Claims → Claims
put k v no_claims = claim k v no_claims
put k v (claim j w m) = if j == k then claim j v m else claim j w (put k v m)

-- `delete(m, k)`
unfoldable pub delete : String → Claims → Claims
delete k no_claims = no_claims
delete k (claim j w m) = let rest = delete k m in if j == k then rest else claim j w rest

-- The loop over the second map, which writes into a copy of the first one, and the value that it
-- writes at a key, given the one that stands there.
unfoldable mutual
  unfolding get put merge_string_slices_deduped

  pub merge_maps : Claims → Claims → Claims
  merge_maps out no_claims = out
  merge_maps out (claim k v b) = merge_maps (put k (merge_value (get k out) v) out) b

  pub merge_value : Option Value → Value → Value
  merge_value (some (object bv)) (object v) = object (merge_maps bv v)
  merge_value (some (strings va)) (strings vb) = strings (merge_string_slices_deduped va vb)
  merge_value _ v = v

-- `interfaceSliceToStringSlice`: the texts of a slice that holds nothing else.
unfoldable pub interface_slice_to_string_slice : Items → Option (List String)
interface_slice_to_string_slice no_items = some []
interface_slice_to_string_slice (item (str s) xs) =
    Option.map (λ (ss : List String). s ∷ ss) (interface_slice_to_string_slice xs)
interface_slice_to_string_slice (item v xs) = none

abbrev pub normalized_slice : Option (List String) → Items → Value
normalized_slice (some ss) out = strings ss
normalized_slice none out = slice out

unfoldable mutual
  unfolding interface_slice_to_string_slice

  pub normalize_string_array : Claims → Claims
  normalize_string_array no_claims = no_claims
  normalize_string_array (claim k v m) =
      claim k (normalize_string_array_value v) (normalize_string_array m)

  pub normalize_string_array_value : Value → Value
  normalize_string_array_value (object m) = object (normalize_string_array m)
  normalize_string_array_value (slice xs) =
      normalized_slice (interface_slice_to_string_slice xs) (normalize_items xs)
  normalize_string_array_value v = v

  pub normalize_items : Items → Items
  normalize_items no_items = no_items
  normalize_items (item v xs) = item (normalize_string_array_value v) (normalize_items xs)
