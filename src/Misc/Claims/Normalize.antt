-- ===== src/Misc/Claims/Normalize.antt =====
-- `NormalizeStringArray` of internal/misc/merge.go, and how it agrees with the merge.
use mathlib.Core.Option
use kubauth.Base.{
  String, ◌≡◌, refl, ap, Option, none, some, List, [], ◌∷◌, arith, ◌==◌, Option-cases, Bool-cases,
  inl, inr,
}
use kubauth.Misc.Claims.{
  Value, nil, flag, int, str, strings, slice, object, Items, no_items, item, Claims, no_claims,
  claim, get, put, merge_maps, merge_value, interface_slice_to_string_slice, normalize_string_array,
  normalized_slice, normalize_string_array_value, normalize_items,
}

-- No slice that holds texts only is left, at any depth.
abbrev mutual
  pub IsNormal : Value → Type 0
  IsNormal (slice xs) = (interface_slice_to_string_slice xs ≡ none) × AreNormal xs
  IsNormal (object m) = IsNormalMap m
  IsNormal _ = Unit

  pub AreNormal : Items → Type 0
  AreNormal no_items = Unit
  AreNormal (item v xs) = IsNormal v × AreNormal xs

  pub IsNormalMap : Claims → Type 0
  IsNormalMap no_claims = Unit
  IsNormalMap (claim k v m) = IsNormal v × IsNormalMap m

-- Elements that are no texts stay so, and texts stay as they are.
interface_slice-normalize_items :
    (xs : Items)
    → interface_slice_to_string_slice (normalize_items xs) ≡ interface_slice_to_string_slice xs
unfolding interface_slice_to_string_slice normalize_string_array
interface_slice-normalize_items no_items = refl
interface_slice-normalize_items (item (str s) xs) =
    ap (Option.map (λ (ss : List String). s ∷ ss)) (interface_slice-normalize_items xs)
interface_slice-normalize_items (item (slice ys) xs) =
    elim (Option-cases (interface_slice_to_string_slice ys)) [ inl e ↦ rw e | inr (ss, e) ↦ rw e ]
interface_slice-normalize_items (item _ xs) = refl

normalized_slice-IsNormal :
    (o : Option (List String)) (out : Items)
    → interface_slice_to_string_slice out ≡ o
    → AreNormal out
    → IsNormal (normalized_slice o out)
normalized_slice-IsNormal none out e h = (e, h)
normalized_slice-IsNormal (some ss) out e h = tt

-- What `NormalizeStringArray` returns is normal.
mutual
  unfolding normalize_string_array interface_slice_to_string_slice

  normalize-IsNormalMap : (m : Claims) → IsNormalMap (normalize_string_array m)
  normalize-IsNormalMap no_claims = tt
  normalize-IsNormalMap (claim k v m) = (normalize-IsNormal v, normalize-IsNormalMap m)

  normalize-IsNormal : (v : Value) → IsNormal (normalize_string_array_value v)
  normalize-IsNormal (object m) = normalize-IsNormalMap m
  normalize-IsNormal (slice xs) =
      normalized_slice-IsNormal (interface_slice_to_string_slice xs) (normalize_items xs)
        (interface_slice-normalize_items xs) (normalize-AreNormal xs)
  normalize-IsNormal nil = tt
  normalize-IsNormal (flag b) = tt
  normalize-IsNormal (int n) = tt
  normalize-IsNormal (str s) = tt
  normalize-IsNormal (strings ss) = tt

  normalize-AreNormal : (xs : Items) → AreNormal (normalize_items xs)
  normalize-AreNormal no_items = tt
  normalize-AreNormal (item v xs) = (normalize-IsNormal v, normalize-AreNormal xs)

-- What is normal is returned as it is.
mutual
  unfolding normalize_string_array interface_slice_to_string_slice

  normalize_fixes : (m : Claims) → IsNormalMap m → normalize_string_array m ≡ m
  normalize_fixes no_claims h = refl
  normalize_fixes (claim k v m) h = cc (normalize_fixes_value v h.0, normalize_fixes m h.1)

  normalize_fixes_value : (v : Value) → IsNormal v → normalize_string_array_value v ≡ v
  normalize_fixes_value (object m) h = ap object (normalize_fixes m h)
  normalize_fixes_value (slice xs) h = rw h.0 (ap slice (normalize_fixes_items xs h.1))
  normalize_fixes_value nil h = refl
  normalize_fixes_value (flag b) h = refl
  normalize_fixes_value (int n) h = refl
  normalize_fixes_value (str s) h = refl
  normalize_fixes_value (strings ss) h = refl

  normalize_fixes_items : (xs : Items) → AreNormal xs → normalize_items xs ≡ xs
  normalize_fixes_items no_items h = refl
  normalize_fixes_items (item v xs) h =
      cc (normalize_fixes_value v h.0, normalize_fixes_items xs h.1)

-- Normalising twice is normalising once.
pub normalize_idempotent :
    (m : Claims) → normalize_string_array (normalize_string_array m) ≡ normalize_string_array m
normalize_idempotent m = normalize_fixes (normalize_string_array m) (normalize-IsNormalMap m)

abbrev slice_of : List String → Items
slice_of [] = no_items
slice_of (s ∷ ss) = item (str s) (slice_of ss)

-- The JSON that a claim set stands for: there a `[]string` is a slice like any other.
unfoldable mutual
  pub plain : Claims → Claims
  plain no_claims = no_claims
  plain (claim k v m) = claim k (plain_value v) (plain m)

  pub plain_value : Value → Value
  plain_value (object m) = object (plain m)
  plain_value (slice xs) = slice (plain_items xs)
  plain_value (strings ss) = slice (slice_of ss)
  plain_value v = v

  pub plain_items : Items → Items
  plain_items no_items = no_items
  plain_items (item v xs) = item (plain_value v) (plain_items xs)

slice_of-plain :
    (xs : Items) (ss : List String)
    → interface_slice_to_string_slice xs ≡ some ss
    → slice_of ss ≡ plain_items xs
unfolding interface_slice_to_string_slice plain
slice_of-plain no_items ss h = ground arith
slice_of-plain (item (str s) xs) ss h = elim (Option-cases (interface_slice_to_string_slice xs)) [
  | inl e ↦ ground arith
  | inr (ts, e) ↦ ground (arith, slice_of-plain xs ts e)
]
slice_of-plain (item _ xs) ss h = cc

normalized_slice-plain :
    (o : Option (List String)) (xs out : Items)
    → interface_slice_to_string_slice xs ≡ o
    → plain_items out ≡ plain_items xs
    → plain_value (normalized_slice o out) ≡ slice (plain_items xs)
unfolding plain
normalized_slice-plain none xs out e h = ap slice h
normalized_slice-plain (some ss) xs out e h = ap slice (slice_of-plain xs ss e)

mutual
  unfolding normalize_string_array plain

  plain-normalize_map : (m : Claims) → plain (normalize_string_array m) ≡ plain m
  plain-normalize_map no_claims = refl
  plain-normalize_map (claim k v m) = cc (plain-normalize_value v, plain-normalize_map m)

  plain-normalize_value : (v : Value) → plain_value (normalize_string_array_value v) ≡ plain_value v
  plain-normalize_value (object m) = ap object (plain-normalize_map m)
  plain-normalize_value (slice xs) =
      normalized_slice-plain (interface_slice_to_string_slice xs) xs (normalize_items xs) refl
        (plain-normalize_items xs)
  plain-normalize_value nil = refl
  plain-normalize_value (flag b) = refl
  plain-normalize_value (int n) = refl
  plain-normalize_value (str s) = refl
  plain-normalize_value (strings ss) = refl

  plain-normalize_items : (xs : Items) → plain_items (normalize_items xs) ≡ plain_items xs
  plain-normalize_items no_items = refl
  plain-normalize_items (item v xs) = cc (plain-normalize_value v, plain-normalize_items xs)

-- Normalising leaves no slice of texts at any depth, does not change the JSON that the claims stand
-- for, and changes nothing in claims that are normal.
pub normalize_string_array_lem :
    (m : Claims)
    → IsNormalMap (normalize_string_array m)
      × (plain (normalize_string_array m) ≡ plain m)
      × (IsNormalMap m → normalize_string_array m ≡ m)
normalize_string_array_lem m = (normalize-IsNormalMap m, plain-normalize_map m, normalize_fixes m)

IsNormal-get : (k : String) (m : Claims) (v : Value) → IsNormalMap m → get k m ≡ some v → IsNormal v
unfolding get
IsNormal-get k no_claims v h e = cc
IsNormal-get k (claim j w m) v h e = elim (Bool-cases (j == k)) [
  | inl same ↦ let found : w ≡ v = ground arith in rw (← found) h.0
  | inr other ↦ IsNormal-get k m v h.1 (ground arith)
]

put-IsNormalMap :
    (k : String) (v : Value) (m : Claims) → IsNormal v → IsNormalMap m → IsNormalMap (put k v m)
unfolding put
put-IsNormalMap k v no_claims h n = (h, tt)
put-IsNormalMap k v (claim j w m) h n = elim (Bool-cases (j == k)) [
  | inl same ↦ rw same (h, n.1)
  | inr other ↦ rw other (n.0, put-IsNormalMap k v m h n.1)
]

-- A merge of normal claims is normal.
mutual
  unfolding merge_maps

  merge_maps-IsNormalMap :
      (a b : Claims) → IsNormalMap a → IsNormalMap b → IsNormalMap (merge_maps a b)
  merge_maps-IsNormalMap a no_claims h n = h
  merge_maps-IsNormalMap a (claim k v b) h n =
      merge_maps-IsNormalMap (put k (merge_value (get k a) v) a) b
        (put-IsNormalMap k (merge_value (get k a) v) a
          (merge_value-IsNormal (get k a) v (λ w e. IsNormal-get k a w h e) n.0) h)
        n.1

  merge_value-IsNormal :
      (o : Option Value) (v : Value)
      → ((w : Value) → o ≡ some w → IsNormal w)
      → IsNormal v
      → IsNormal (merge_value o v)
  merge_value-IsNormal (some (object bv)) (object v) h n =
      merge_maps-IsNormalMap bv v (h (object bv) refl) n
  merge_value-IsNormal (some (strings va)) (strings vb) h n = tt
  merge_value-IsNormal _ v h n = n
