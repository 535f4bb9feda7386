-- ===== src/Base/Numerals.antt =====
-- Go's `strconv.Atoi`, and its comparison of a text with "DN" after `strings.ToUpper`.
use Prim.Native.Nat.{ℕ, zero, suc, ◌+◌, ◌-◌, ◌*◌, ◌^◌}
use Prim.Native.Char.{code}
use Prim.Native.String.{String, [], ◌∷◌}
use mathlib.Core.Bool.{Bool, ◌&&◌, ◌||◌}
use mathlib.Core.Option.{Option, none, some}
use text.Mathlib.Text.{◌==◌}
use kubauth.Base.Tests.{leb, eqb, if◌then◌else◌}
use kubauth.Base.Int.{ℤ, pos, negsuc}

abbrev is_digit : ℕ → Bool
is_digit c = leb b'0' c && leb c b'9'

-- The value of the digits, behind those that were read.
unfoldable pub digits : ℕ → String → Option ℕ
digits acc [] = some acc
digits acc (c ∷ s) =
    let rest = digits (acc * 10 + (code c - b'0')) s in if is_digit (code c) then rest else none

unfoldable pub some_digits : String → Option ℕ
unfolding digits
some_digits [] = none
some_digits (c ∷ s) = digits 0 (c ∷ s)

-- The integer of a magnitude, if 64 bits hold it.
abbrev pub positive : Option ℕ → Option ℤ
positive none = none
positive (some n) = if leb (2 ^ 63) n then none else some (pos n)

abbrev pub negative : Option ℕ → Option ℤ
negative none = none
negative (some zero) = some (pos 0)
negative (some (suc n)) = if leb (2 ^ 63) n then none else some (negsuc n)

unfoldable pub atoi : String → Option ℤ
unfolding some_digits
atoi [] = none
atoi (c ∷ s) =
    if eqb (code c) b'-'
    then negative (some_digits s)
    else if eqb (code c) b'+'
    then positive (some_digits s)
    else positive (some_digits (c ∷ s))

-- `strings.ToUpper(s) == "DN"`: no letters but these have the capitals D and N.
unfoldable pub is_dn : String → Bool
is_dn s = s == "DN" || s == "dn" || s == "Dn" || s == "dN"
