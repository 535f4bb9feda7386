-- ===== src/Oidc/UpstreamGo/Tests.antt =====
-- A run of the start of an upstream login.
use kubauth.Base.{◌≡◌, refl, String, Option, none, some, [], ◌∷◌, ◌<>◌, lookup}
use kubauth.Proto.{ok}
use kubauth.Oidc.Storage.{MemoryStore, get_upstream}
use kubauth.Oidc.Upstream.Provider.{Upstream, empty_spec, oidc, o_auth2_auth_code_settings}
use kubauth.Oidc.UpstreamLogin.{redirect, Sessions}
use kubauth.Oidc.UpstreamGo.{GoRequest, Draws, handle_upstream_go}
use kubauth.Oidc.UpstreamGo.Laws.{IsTrip, go-IsTrip}

abbrev store : MemoryStore (Unit {0}) Upstream (Unit {0})
store = record {
  clients = [];
  authorize_codes = [];
  id_sessions = [];
  access_tokens = [];
  refresh_tokens = [];
  pkces = [];
  blacklisted_jtis = [];
  access_token_request_ids = [];
  refresh_token_request_ids = [];
  issuer_public_keys = [];
  par_sessions = [];
  upstreams =
      (
        "up",
        record {
          name = "up";
          spec = record empty_spec { type = oidc };
          client_secret = "";
          provider = some (record {
            config = record { auth_url = "https://up"; token_url = ""; user_info_url = "" };
            code_challenge_methods = "S256" ∷ [];
          });
        },
      )
      ∷ [];
}

abbrev suffix : Option String → String
suffix none = ""
suffix (some verifier) = "&challenge=" <> verifier

abbrev draws : Draws
draws = record {
  state = ok "s1";
  nonce = ok "n1";
  verifier = "v1";
  auth_code_url = λ settings state nonce verifier.
      settings.endpoint.auth_url <> "?state=" <> state <> "&nonce=" <> nonce <> suffix verifier;
}

abbrev started : Sessions
started = record {
  login_session = record {
    upstream_state = "";
    upstream_nonce = "";
    upstream_verifier = "";
    upstream_pkce = "";
    upstream_provider = "";
    auth_query = "client_id=app";
    client_id = "app";
    pending_upstream_user = none;
  };
  sso_user = none;
  renewals = 0;
}

abbrev departed : Sessions
departed = record started {
  login_session = record started.login_session {
    upstream_state = "s1";
    upstream_nonce = "n1";
    upstream_verifier = "v1";
    upstream_pkce = "1";
    upstream_provider = "up";
  };
}

abbrev going : GoRequest
going = record { method = "GET"; upstream_provider = "up" }

goes :
    handle_upstream_go store draws going started
    ≡ (redirect "https://up?state=s1&nonce=n1&challenge=v1", departed)
unfolding handle_upstream_go lookup get_upstream o_auth2_auth_code_settings
goes = refl

go-IsTrip_example : IsTrip draws going "https://up?state=s1&nonce=n1&challenge=v1" departed
go-IsTrip_example =
    go-IsTrip store draws going started "https://up?state=s1&nonce=n1&challenge=v1" departed goes
