-- ===== src/Oidc/UpstreamWelcome/Tests.antt =====
-- Runs of the welcome page.
use kubauth.Base.{◌≡◌, ◌≢◌, refl, String, true, false, none, some, [], ◌==◌, arith, eq_iff}
use kubauth.Misc.Claims.{str, Claims, no_claims, claim, get, delete, normalize_string_array}
use kubauth.Misc.Claims.Json.{json_claims}
use kubauth.Proto.{ok}
use kubauth.Oidc.HttpProvider.{OidcUser}
use kubauth.Oidc.Upstream.{perform_renaming, cleanup_claims}
use kubauth.Oidc.UpstreamLogin.{
  check, text_of, mapped_claims, user_of, json_user, handle_upstream_callback, CallbackRequest,
  Sessions, UpstreamProvider, Server, sso_on_demand, passed,
}
use kubauth.Oidc.UpstreamWelcome.{
  WelcomeRequest, http_error, complete, page, handle_upstream_welcome,
}
use kubauth.Oidc.UpstreamWelcome.Laws.{Confirmed, welcome_confirms, callback_then_welcome}

abbrev bob : OidcUser
bob = record { login = "42"; claims = claim "given_name" (str "Bob") no_claims; full_name = "" }

abbrev pending : Sessions
pending = record {
  login_session = record {
    upstream_state = "";
    upstream_nonce = "";
    upstream_verifier = "";
    upstream_pkce = "";
    upstream_provider = "";
    auth_query = "client_id=app";
    client_id = "app";
    pending_upstream_user = some bob;
  };
  sso_user = none;
  renewals = 1;
}

abbrev welcomed : Sessions
welcomed = record pending {
  login_session = record pending.login_session { pending_upstream_user = none };
  sso_user = some bob;
}

abbrev same : String → String
same s = s

abbrev posting : WelcomeRequest
posting = record { method = "POST"; remember = some true }

confirms :
    handle_upstream_welcome same sso_on_demand posting pending
    ≡ (complete "client_id=app" bob, welcomed)
unfolding handle_upstream_welcome json_claims
confirms = refl

shows_name :
    (handle_upstream_welcome same sso_on_demand
      (record { method = "GET"; remember = none })
      pending).0
    ≡ page "Bob"
unfolding handle_upstream_welcome get json_claims
shows_name = refl

welcome_confirms_example :
    Confirmed sso_on_demand posting pending "client_id=app" bob welcomed
    × ((handle_upstream_welcome same sso_on_demand posting welcomed).0
        ≡ http_error 400 "session expired: restart login from the client application")
welcome_confirms_example =
    welcome_confirms same sso_on_demand posting posting pending "client_id=app" bob welcomed
      confirms

abbrev upstream : UpstreamProvider
upstream = record {
  exchange = some (λ code verifier. ok (record { id_token = "t1"; access_token = "a1" }));
  parse_and_verify_id_token = λ raw. ok (claim "sub" (str "42") no_claims);
  fetch_user_info_claims = λ tok. ok no_claims;
  use_user_info = false;
  local_enrichment = false;
  claim_renamings = [];
  claim_removals = [];
}

abbrev server : Server
server = record {
  find_upstream = λ name. some upstream;
  identify = λ login password. ok none;
  sso_mode = sso_on_demand;
}

abbrev sent : Sessions
sent = record pending {
  login_session = record pending.login_session {
    upstream_state = "s1";
    upstream_provider = "up";
    pending_upstream_user = none;
  };
}

abbrev back : CallbackRequest
back = record { method = "GET"; error = ""; code = "c1"; state = "s1" }

back_checked :
    check server back sent.login_session ≡ passed (upstream, claim "sub" (str "42") no_claims)
unfolding check get normalize_string_array
back_checked = refl

not_empty : (s : String) → (s == "") ≡ false → s ≢ ""
not_empty s h e = ground (arith, eq_iff s "", h, e)

abbrev mapped : Claims
mapped = mapped_claims upstream (claim "sub" (str "42") no_claims)

has_login : ((user_of server upstream (text_of (get "sub" mapped)) mapped).1.login == "") ≡ false
unfolding user_of text_of get mapped_claims cleanup_claims perform_renaming delete
has_login = refl

callback_then_welcome_example :
    (handle_upstream_welcome same server.sso_mode posting
      (handle_upstream_callback server back sent).1).0
    ≡ complete "client_id=app"
        (json_user (user_of server upstream (text_of (get "sub" mapped)) mapped).1)
callback_then_welcome_example =
    callback_then_welcome same server back sent upstream (claim "sub" (str "42") no_claims) true
      refl back_checked (not_empty "client_id=app" refl)
      (not_empty (user_of server upstream (text_of (get "sub" mapped)) mapped).1.login has_login)
