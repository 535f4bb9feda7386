-- ===== src/Misc/Claims/Merge.antt =====
-- `MergeMaps` of internal/misc/merge.go, key by key.
use kubauth.Base.{String, ◌≡◌, refl, Option, none, some, arith, ◌==◌, eq_iff, if◌then◌else◌}
use kubauth.Misc.Claims.{
  Value, nil, Claims, no_claims, claim, get, put, delete, merge_maps, merge_value,
}

pub get-put :
    (k j : String) (v : Value) (m : Claims)
    → get j (put k v m) ≡ (if k == j then some v else get j m)
unfolding get put
get-put k j v no_claims = refl
get-put k j v (claim i w m) = ground (arith, eq_iff k j, eq_iff i k, eq_iff i j, get-put k j v m)

pub get-delete :
    (k j : String) (m : Claims) → get j (delete k m) ≡ (if k == j then none else get j m)
unfolding get delete
get-delete k j no_claims = ground arith
get-delete k j (claim i w m) = ground (arith, eq_iff k j, eq_iff i k, eq_iff i j, get-delete k j m)

-- A Go map has each key once.
abbrev pub UniqueKeys : Claims → Type 0
UniqueKeys no_claims = Unit
UniqueKeys (claim k v m) = (get k m ≡ none) × UniqueKeys m

pub put-UniqueKeys : (k : String) (v : Value) (m : Claims) → UniqueKeys m → UniqueKeys (put k v m)
unfolding put
put-UniqueKeys k v no_claims h = (unfold get in refl, tt)
put-UniqueKeys k v (claim j w m) h =
    ground (arith, eq_iff k j, eq_iff j k, get-put k j v m, put-UniqueKeys k v m)

pub delete-UniqueKeys : (k : String) (m : Claims) → UniqueKeys m → UniqueKeys (delete k m)
unfolding delete
delete-UniqueKeys k no_claims h = tt
delete-UniqueKeys k (claim j w m) h = ground (arith, get-delete k j m, delete-UniqueKeys k m)

-- What stands at a key after a merge, given what stands there in the two maps.
abbrev pub merged : Option Value → Option Value → Option Value
merged va none = va
merged va (some vb) = some (merge_value va vb)

-- At every key the merge holds the value of the second map, merged into that of the first, or
-- where the second map has none that of the first.
pub get-merge_maps :
    (k : String) (a b : Claims) → UniqueKeys b → get k (merge_maps a b) ≡ merged (get k a) (get k b)
unfolding merge_maps get
get-merge_maps k a no_claims u = refl
get-merge_maps k a (claim j v b) u = ground (
  arith,
  eq_iff j k,
  get-merge_maps k (put j (merge_value (get j a) v) a) b u.1,
  get-put j k (merge_value (get j a) v) a,
)

-- The merge of two Go maps has each key once.
pub merge_maps-UniqueKeys : (a b : Claims) → UniqueKeys a → UniqueKeys (merge_maps a b)
unfolding merge_maps
merge_maps-UniqueKeys a no_claims h = h
merge_maps-UniqueKeys a (claim k v b) h =
    merge_maps-UniqueKeys (put k (merge_value (get k a) v) a) b
      (put-UniqueKeys k (merge_value (get k a) v) a h)

-- A null of the second map replaces whatever the first one holds.
pub get-merge_maps-nil :
    (k : String) (a b : Claims)
    → UniqueKeys b
    → get k b ≡ some nil
    → get k (merge_maps a b) ≡ some nil
unfolding merge_value
get-merge_maps-nil k a b u h = ground (arith, get-merge_maps k a b u)
