-- ===== src/Base/Int.antt =====
-- Signed integers over the native numbers, and the two's complement reading of 64 bits.
use Prim.Native.Nat.{ℕ, suc, ◌+◌, ◌-◌, ◌*◌, ◌%◌, ◌^◌}
use mathlib.Core.Bool.{Bool}
use kubauth.Base.Tests.{ltb, if◌then◌else◌}

-- `negsuc n` is -(n + 1).
pub data ℤ : Type 0 where
  pos : ℕ → ℤ
  negsuc : ℕ → ℤ

abbrev pub pos_part : ℤ → ℕ
pos_part (pos n) = n
pos_part (negsuc n) = 0

abbrev pub neg_part : ℤ → ℕ
neg_part (pos n) = 0
neg_part (negsuc n) = suc n

-- `a > b`.
abbrev pub gtb_ℤ : ℤ → ℤ → Bool
gtb_ℤ a b = ltb (pos_part b + neg_part a) (pos_part a + neg_part b)

abbrev pub two_64 : ℕ
two_64 = 2 ^ 64

-- The integer that 64 bits stand for.
unfoldable pub signed_64 : ℕ → ℤ
signed_64 n =
    let bits = n % two_64 in if ltb bits (2 ^ 63) then pos bits else negsuc (two_64 - 1 - bits)

-- The 64 bits of an integer, in two's complement.
abbrev pub bits_64 : ℤ → ℕ
bits_64 a = (pos_part a + (two_64 - 1) * neg_part a) % two_64

-- `a + b`, `a - b` and `a * b` of Go's `int64`, which wrap around.
unfoldable pub add_int64 : ℤ → ℤ → ℤ
unfolding signed_64
add_int64 a b = signed_64 (bits_64 a + bits_64 b)

unfoldable pub sub_int64 : ℤ → ℤ → ℤ
unfolding signed_64
sub_int64 a b = signed_64 (bits_64 a + (two_64 - bits_64 b))

unfoldable pub mul_int64 : ℤ → ℤ → ℤ
unfolding signed_64
mul_int64 a b = signed_64 (bits_64 a * bits_64 b)
