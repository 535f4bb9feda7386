-- ===== src/Oidc/UserInfo.antt =====
-- cmd/oidc/oidcserver/handle-user-info.go. The introspection of a token is a function that gives the
-- session, or none where it is of another kind. Headers and logs are left out.
pub mod Laws
mod Tests
use Prim.Native.Char.{Char, code}
use Prim.Native.String.{[], ◌∷◌}
use kubauth.Base.{String, Option, none, some, ℕ, eqb, ◌==◌, if◌then◌else◌}
use kubauth.Misc.Claims.{Value, str, Claims, no_claims, claim, put}
use kubauth.Proto.{Result, ok, err}
use kubauth.Oidc.Authorize.{OidcSession}

pub data UserInfoReply : Type 0 where
  http_error : ℕ → String → UserInfoReply
  user_info : Claims → UserInfoReply

-- What follows a prefix.
unfoldable pub strip_prefix : String → String → Option String
strip_prefix [] s = some s
strip_prefix (c ∷ p) [] = none
strip_prefix (c ∷ p) (d ∷ s) =
    let rest = strip_prefix p s in if eqb (code c) (code d) then rest else none

-- The loop over the claims, which leaves "azp" out. A range over a map has no order.
unfoldable pub copy_claims : Claims → Claims
copy_claims no_claims = no_claims
copy_claims (claim k v m) = let rest = copy_claims m in if k == "azp" then rest else put k v rest

unfoldable pub claims_of_session : OidcSession → Claims
unfolding copy_claims
claims_of_session session =
    put "sub" (str session.id_token_claims.subject) (copy_claims session.id_token_claims.extra)

unfoldable pub answer : Result (Option OidcSession) → UserInfoReply
unfolding claims_of_session
answer (err e) = http_error 401 "unauthorized"
answer (ok none) = http_error 500 "internal server error"
answer (ok (some session)) = user_info (claims_of_session session)

unfoldable pub with_token : (String → Result (Option OidcSession)) → Option String → UserInfoReply
unfolding answer
with_token introspect none = http_error 401 "unauthorized"
with_token introspect (some token) = answer (introspect token)

unfoldable pub handle_user_info : (String → Result (Option OidcSession)) → String → UserInfoReply
unfolding with_token strip_prefix
handle_user_info introspect authz =
    if authz == ""
    then http_error 401 "unauthorized"
    else with_token introspect (strip_prefix "Bearer " authz)
