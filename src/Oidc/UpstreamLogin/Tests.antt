-- ===== src/Oidc/UpstreamLogin/Tests.antt =====
-- Runs of the return from an upstream provider.
use kubauth.Base.{◌≡◌, refl, String, true, false, none, some, [], ◌∷◌, ◌==◌, ℕ, if◌then◌else◌}
use kubauth.Misc.Claims.{str, Claims, no_claims, claim, get, delete, normalize_string_array}
use kubauth.Proto.{ok, err}
use kubauth.Oidc.Upstream.{perform_renaming, cleanup_claims}
use kubauth.Oidc.UpstreamLogin.{
  handle_upstream_callback, CallbackRequest, Sessions, UpstreamProvider, Server, sso_always,
  http_error,
}
use kubauth.Oidc.UpstreamLogin.Checks.{Verified}
use kubauth.Oidc.UpstreamLogin.Laws.{lets_in, callback_lets_in, callback_refuses}

-- The upstream gives this ID token, whose claims are the parameter.
abbrev upstream_with : Claims → UpstreamProvider
upstream_with id_token_claims = record {
  exchange = some (λ code verifier.
      if code == "c1"
      then ok (record { id_token = "t1"; access_token = "a1" })
      else err "bad code");
  parse_and_verify_id_token = λ raw. ok id_token_claims;
  fetch_user_info_claims = λ tok. ok no_claims;
  use_user_info = false;
  local_enrichment = false;
  claim_renamings = [];
  claim_removals = [];
}

abbrev server_with : Claims → Server
server_with id_token_claims = record {
  find_upstream = λ name. if name == "up" then some (upstream_with id_token_claims) else none;
  identify = λ login password. ok none;
  sso_mode = sso_always;
}

abbrev round_trip : Sessions
round_trip = record {
  login_session = record {
    upstream_state = "s1";
    upstream_nonce = "n1";
    upstream_verifier = "";
    upstream_pkce = "";
    upstream_provider = "up";
    auth_query = "client_id=app";
    client_id = "app";
    pending_upstream_user = none;
  };
  sso_user = none;
  renewals = 0;
}

abbrev returned : String → CallbackRequest
returned state = record { method = "GET"; error = ""; code = "c1"; state = state }

abbrev good_claims : Claims
good_claims = claim "nonce" (str "n1") (claim "sub" (str "42") no_claims)

good_lets_in :
    lets_in (handle_upstream_callback (server_with good_claims) (returned "s1") round_trip).0 ≡ true
unfolding handle_upstream_callback get normalize_string_array cleanup_claims delete perform_renaming
good_lets_in = refl

callback_lets_in_example :
    Verified (server_with good_claims) (returned "s1") round_trip.login_session
    × ((again : CallbackRequest)
        → lets_in
            (handle_upstream_callback
              (server_with good_claims)
              again
              (handle_upstream_callback (server_with good_claims) (returned "s1") round_trip).1).0
          ≡ false)
callback_lets_in_example =
    callback_lets_in (server_with good_claims) (returned "s1") round_trip good_lets_in

forged_refused :
    lets_in (handle_upstream_callback (server_with good_claims) (returned "s2") round_trip).0
    ≡ false
unfolding handle_upstream_callback
forged_refused = refl

callback_refuses_example :
    ((handle_upstream_callback (server_with good_claims) (returned "s2") round_trip).1 ≡ round_trip)
    × ((code : ℕ) × (text : String) × ((handle_upstream_callback
            (server_with good_claims)
            (returned "s2")
            round_trip).0
          ≡ http_error code text ∷ []))
callback_refuses_example =
    callback_refuses (server_with good_claims) (returned "s2") round_trip forged_refused
