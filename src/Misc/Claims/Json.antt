-- ===== src/Misc/Claims/Json.antt =====
-- What `encoding/json` gives back of claims that it has written, as cmd/oidc/sessioncodec/jsoncodec.go and
-- the pending user of cmd/oidc/oidcserver keep them between two requests: lists of texts come back as
-- slices of interfaces, and numbers as float64. An `int` has at most 64 bits; texts are UTF-8.
use Prim.Native.Nat.{◌/◌}
use mathlib.Core.Option
use kubauth.Base.{
  ◌≡◌, refl, String, List, [], ◌∷◌, ℕ, zero, suc, ◌+◌, ◌*◌, ◌%◌, ◌^◌, ltb, if◌then◌else◌, arith,
}
use kubauth.Base.Int.{ℤ, pos, negsuc}
use kubauth.Misc.Claims.{
  Value, nil, flag, int, str, strings, slice, object, Items, no_items, item, Claims, no_claims,
  claim, get,
}

-- The distance between two float64 at a number below `2 ^ (53 + fuel)`.
float_step : ℕ → ℕ → ℕ → ℕ
float_step zero p n = p
float_step (suc fuel) p n =
    let wider = float_step fuel (2 * p) n in if ltb (n / p) (2 ^ 53) then p else wider

-- The nearest multiple of `p`, of two the even one.
abbrev nearest : ℕ → ℕ → ℕ
nearest p n =
    let down = n / p * p in
    if ltb (2 * (n % p)) p
    then down
    else if ltb p (2 * (n % p))
    then down + p
    else down + n / p % 2 * p

-- The float64 nearest to an integer of 64 bits, which is an integer again.
unfoldable pub float64 : ℕ → ℕ
unfolding float_step
float64 n = nearest (float_step 11 1 n) n

unfoldable pub json_int : ℤ → ℤ
unfolding float64
json_int (pos n) = pos (float64 n)
json_int (negsuc n) = minus (float64 (suc n))
  where
    minus : ℕ → ℤ
    minus zero = pos zero
    minus (suc m) = negsuc m

abbrev pub texts : List String → Items
texts [] = no_items
texts (s ∷ ss) = item (str s) (texts ss)

unfoldable mutual
  unfolding json_int

  pub json_value : Value → Value
  json_value nil = nil
  json_value (flag b) = flag b
  json_value (int n) = int (json_int n)
  json_value (str s) = str s
  json_value (strings ss) = slice (texts ss)
  json_value (slice xs) = slice (json_items xs)
  json_value (object m) = object (json_claims m)

  pub json_items : Items → Items
  json_items no_items = no_items
  json_items (item v xs) = item (json_value v) (json_items xs)

  pub json_claims : Claims → Claims
  json_claims no_claims = no_claims
  json_claims (claim k v m) = claim k (json_value v) (json_claims m)

pub get-json_claims :
    (k : String) (m : Claims) → get k (json_claims m) ≡ Option.map json_value (get k m)
unfolding json_claims get
get-json_claims k no_claims = refl
get-json_claims k (claim j v m) = ground (arith, get-json_claims k m)

-- The first number that has no float64 of its own, and the largest of 64 bits.
float64_odd : float64 9007199254740993 ≡ 9007199254740992
unfolding float64
float64_odd = refl

float64_max : float64 9223372036854775807 ≡ 9223372036854775808
unfolding float64
float64_max = refl
