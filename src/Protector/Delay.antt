-- ===== src/Protector/Delay.antt =====
-- `delayFromFailureCount` of internal/handlers/protector/bfa.go.
use Prim.Native.Nat.{min}
use kubauth.Base.{ℕ, ◌-◌, ◌*◌, ◌^◌, ◌≤◌, ◌<◌, ◌≡◌, false, arith}
use kubauth.Base.Int.{ℤ, pos, neg_part, gtb_ℤ, bits_64, signed_64, sub_int64, mul_int64}
use kubauth.Protector.{Config, delay_from_failure_count}

signed_64-small : (n : ℕ) → n < 2 ^ 63 → signed_64 n ≡ pos n
unfolding signed_64
signed_64-small n h = ground arith

sub_int64-pos : (m n : ℕ) → m < 2 ^ 63 → n ≤ m → sub_int64 (pos m) (pos n) ≡ pos (m - n)
unfolding sub_int64
sub_int64-pos m n h k = ground arith

bits_64-pos : (n : ℕ) → n < 2 ^ 63 → bits_64 (pos n) ≡ n
bits_64-pos n h = omega arith

mul_int64-pos :
    (m n : ℕ) → m < 2 ^ 63 → n < 2 ^ 63 → m * n < 2 ^ 63 → mul_int64 (pos m) (pos n) ≡ pos (m * n)
unfolding mul_int64
mul_int64-pos m n h k l = rw (bits_64-pos m h, bits_64-pos n k) (signed_64-small (m * n) l)

abbrev pub IsNat : ℤ → Type 0
IsNat z = neg_part z ≡ 0

-- No failure is delayed by more than the maximum, whatever the count, also where the product
-- overflows.
pub delay_le-max_penalty :
    (c : Config) (count : ℤ)
    → IsNat c.max_penalty
    → gtb_ℤ (delay_from_failure_count c count) c.max_penalty ≡ false
unfolding delay_from_failure_count
delay_le-max_penalty c count h = ground arith

-- Up to the free failures there is no delay; from there it grows by the penalty with each failure
-- until it meets the maximum. The count, the configuration and the product are below 2 ^ 63.
pub delay_lem :
    (c : Config) (n free step most : ℕ)
    → c.free_failure ≡ pos free
    → c.penalty_by_failure ≡ pos step
    → c.max_penalty ≡ pos most
    → n < 2 ^ 63
    → step < 2 ^ 63
    → (n - free) * step < 2 ^ 63
    → delay_from_failure_count c (pos n) ≡ pos (min ((n - free) * step) most)
unfolding delay_from_failure_count
delay_lem c n free step most ef es em hn hs hp =
    rw (ef, es, em) (ground (arith, sub_int64-pos n free hn, mul_int64-pos (n - free) step))
