-- ===== src/Oidc/UserInfo/Tests.antt =====
-- The claims that a token of a user gives.
use kubauth.Base.{◌≡◌, refl, String, Option, some}
use kubauth.Misc.Claims.{str, Claims, no_claims, claim, get, put}
use kubauth.Misc.Claims.Merge.{get-put}
use kubauth.Proto.{Result, ok, err}
use kubauth.Oidc.HttpProvider.{OidcUser}
use kubauth.Oidc.Authorize.{Fosite, Issuing, OidcSession, new_session}
use kubauth.Oidc.UserInfo.{user_info, handle_user_info}
use kubauth.Oidc.UserInfo.Laws.{AddsClaim, bearer, told_claim, user_info_lem}

abbrev fosite : Fosite
fosite = record {
  grant_scope = λ xs s. xs;
  grant_audience = λ xs s. xs;
  add_claim = put;
  new_request = λ raw. ok tt;
  new_authorize_request = λ raw. err "not used";
  new_authorize_response = λ ar session. ok "code";
  client_id_of = λ raw. "app";
  parse_client_id = λ raw. ok "app";
}

adds : AddsClaim fosite
adds k v m j = get-put k j v m

abbrev issuing : Issuing
issuing = record { issuer = "https://issuer"; key_id = "k1"; access_token_lifespan = 3600 }

abbrev alice : OidcUser
alice = record { login = "alice"; claims = claim "team" (str "dev") no_claims; full_name = "Alice" }

abbrev introspect : String → Result (Option OidcSession)
introspect token = ok (some (new_session fosite issuing 100 (some alice) "app"))

user_info_lem_example :
    (claims : Claims) × (handle_user_info introspect (bearer "t1") ≡ user_info claims)
    × ((j : String) → get j claims ≡ told_claim alice j)
user_info_lem_example = user_info_lem fosite issuing 100 alice "app" "t1" introspect adds refl
