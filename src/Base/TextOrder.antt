-- ===== src/Base/TextOrder.antt =====
-- The order of Go's `sort.Strings`: by bytes of UTF-8, which is the order of the code points.
use Prim.Native.Nat.{ℕ, Ordering, compare as compare_ℕ}
use Prim.Native.Char.{code}
use Prim.Native.String.{String, [], ◌∷◌, compare, then}
use Prim.Native.String.compare
use mathlib.Core.Path.{◌≡◌, refl}
use native.Mathlib.Omega.{arith}

-- The text on the left comes first.
abbrev pub Before : String → String → Type 0
Before s t = compare s t ≡ Ordering.lt

abbrev pub flip : Ordering → Ordering
flip Ordering.lt = Ordering.gt
flip Ordering.eq = Ordering.eq
flip Ordering.gt = Ordering.lt

flip-then :
    (m n : ℕ) (o r : Ordering) → r ≡ flip o → then (compare_ℕ n m) r ≡ flip (then (compare_ℕ m n) o)
flip-then m n o r h = ground arith

pub compare-flip : (s t : String) → compare t s ≡ flip (compare s t)
compare-flip [] [] = refl
compare-flip [] (d ∷ t) = rw (compare.cons-nil, compare.nil-cons)
compare-flip (c ∷ s) [] = rw (compare.cons-nil, compare.nil-cons)
compare-flip (c ∷ s) (d ∷ t) =
    rw (compare.cons-cons c d s t, compare.cons-cons d c t s)
      (flip-then (code c) (code d) (compare s t) (compare t s) (compare-flip s t))

-- Of two different texts one comes first.
pub Before-total : (s t : String) → (compare s t ≡ Ordering.gt) → Before t s
Before-total s t h = rw (compare-flip s t, h)

then_trans :
    (l m n : ℕ) (o p q : Ordering)
    → (o ≡ Ordering.lt → p ≡ Ordering.lt → q ≡ Ordering.lt)
    → then (compare_ℕ l m) o ≡ Ordering.lt
    → then (compare_ℕ m n) p ≡ Ordering.lt
    → then (compare_ℕ l n) q ≡ Ordering.lt
then_trans l m n o p q f h k = ground arith

pub Before-trans : (s t u : String) → Before s t → Before t u → Before s u
Before-trans [] t [] h k = ground (arith, compare-flip [] t)
Before-trans [] t (e ∷ u) h k = compare.nil-cons e u
Before-trans (c ∷ s) [] u h k = ground (arith, compare.cons-nil c s)
Before-trans (c ∷ s) (d ∷ t) [] h k = ground (arith, compare.cons-nil d t)
Before-trans (c ∷ s) (d ∷ t) (e ∷ u) h k = rw (compare.cons-cons c e s u) (
    then_trans (code c) (code d) (code e) (compare s t) (compare t u) (compare s u)
      (Before-trans s t u) (rw (compare.cons-cons c d s t) at h)
      (rw (compare.cons-cons d e t u) at k))

pub Before-irrefl : (s : String) → ¬ Before s s
Before-irrefl s h = ground (arith, compare-flip s s)
