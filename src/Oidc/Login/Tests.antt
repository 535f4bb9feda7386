-- ===== src/Oidc/Login/Tests.antt =====
-- Runs of the login and logout handlers, and of what they use.
use kubauth.Base.{
  ◌≡◌, ◌≢◌, refl, inl, String, true, false, none, some, List, [], ◌∷◌, ◌++◌, ◌<>◌, ◌==◌, contains,
  arith, eq_iff, if◌then◌else◌, lookup,
}
use kubauth.Base.Int.{pos}
use kubauth.Misc.Claims.{int, strings, no_claims, claim, put}
use kubauth.Misc.Claims.Json.{json_claims}
use kubauth.Misc.Claims.Merge.{get-put}
use kubauth.Proto.{ok}
use kubauth.Oidc.Authorize.{
  Requester, OidcSession, Fosite, authorize_response, handle_scopes, handle_audience, with_azp,
}
use kubauth.Oidc.Client.{KubauthClient}
use kubauth.Oidc.HttpProvider.{OidcUser}
use kubauth.Oidc.LoginPage.{redirect_to, client_of, display_login_response}
use kubauth.Oidc.LoginPage.Offered.{OfferedBy}
use kubauth.Oidc.LoginPage.Laws.{Offers, display-Offers_client}
use kubauth.Oidc.Storage.{MemoryStore}
use kubauth.Oidc.Upstream.Provider.{Upstream, empty_spec, oidc}
use kubauth.Oidc.UpstreamLogin.{Sessions, sso_always}
use kubauth.Oidc.Login.{LoginForm, LoginRequest, LoginServer, answered, handle_login, handle_logout}
use kubauth.Oidc.Login.Laws.{Allowed, handle_login-Allowed}
use kubauth.Oidc.Login.Sso.{is_answered, Remembered, handle_login-Remembered, logout_ends}
use kubauth.Oidc.Login.SingleSignOn.{SameClaims, SetsClaim, Accepts, single_sign_on}

abbrev once : List String → String → List String
once xs s = if contains xs s then xs else xs ++ s ∷ []

abbrev parsed : Requester
parsed = record {
  client_id = "app2";
  kubauth_client = none;
  requested_scopes = "openid" ∷ [];
  requested_audience = [];
  granted_scopes = [];
  granted_audience = [];
}

abbrev library : Fosite
library = record {
  grant_scope = once;
  grant_audience = once;
  add_claim = put;
  new_request = λ raw. ok tt;
  new_authorize_request = λ raw. ok parsed;
  new_authorize_response = λ ar session. ok "code";
  client_id_of = λ raw. if raw == "client_id=app2" then "app2" else "app1";
  parse_client_id = λ raw. ok "app1";
}

abbrev alice : OidcUser
alice = record {
  login = "alice";
  claims =
      claim "groups" (strings ("dev" ∷ [])) (claim "uid" (int (pos 9007199254740993)) no_claims);
  full_name = "Alice";
}

abbrev login_server : LoginServer
login_server = record {
  page = record {
    default_style = "plain";
    default_login_label = "Login";
    on_demand = false;
    encode_query = λ name. "upstreamProvider=" <> name;
  };
  fosite = library;
  issuing = record { issuer = "https://issuer"; key_id = "k1"; access_token_lifespan = 3600 };
  now = 100;
  authenticate = λ login password.
      if password == "secret" then ok (some (record alice { login = login })) else ok none;
  sso_mode = sso_always;
  post_logout_url = "https://bye";
}

abbrev store : MemoryStore (Unit {0}) Upstream (Unit {0})
store = record {
  clients = [];
  authorize_codes = [];
  id_sessions = [];
  access_tokens = [];
  refresh_tokens = [];
  pkces = [];
  blacklisted_jtis = [];
  access_token_request_ids = [];
  refresh_token_request_ids = [];
  issuer_public_keys = [];
  par_sessions = [];
  upstreams =
      (
        "up",
        record {
          name = "up";
          spec = record empty_spec { type = oidc; display_name = "Up" };
          client_secret = "";
          provider = none;
        },
      )
      ∷ [];
}

abbrev app : KubauthClient
app = record {
  client_id = "app";
  spec = record {
    enabled = none;
    secrets = none;
    public = true;
    redirect_uris = [];
    grant_types = [];
    response_types = [];
    scopes = [];
    audiences = [];
    force_open_id_scope = none;
    access_token_lifespan = pos 0;
    refresh_token_lifespan = pos 0;
    id_token_lifespan = pos 0;
    style = "fancy";
    post_logout_url = "";
    display_name = "";
    entry_url = "";
    client_id = "";
    upstream_providers = [];
  };
  hashed_secrets = [];
  k8s_id = "ns:app";
}

abbrev app_store : MemoryStore (Unit {0}) Upstream (Unit {0})
app_store = record store { clients = ("app", app) ∷ [] }

abbrev started : Sessions
started = record {
  login_session = record {
    upstream_state = "";
    upstream_nonce = "";
    upstream_verifier = "";
    upstream_pkce = "";
    upstream_provider = "";
    auth_query = "client_id=app1";
    client_id = "app1";
    pending_upstream_user = none;
  };
  sso_user = none;
  renewals = 0;
}

abbrev good_form : LoginForm
good_form = record { login = "alice"; password = "secret"; remember = false }

abbrev posting : LoginRequest
posting = record { method = "POST"; raw_query = ""; form = some good_form }

app_found : client_of app_store login_server.page "app" ≡ some app
unfolding client_of lookup
app_found = refl

display-Offers_client_example :
    (us : List Upstream) × OfferedBy app_store login_server.page app.spec.upstream_providers us
    × Offers login_server.page us false
        (display_login_response app_store login_server.page "app" false)
display-Offers_client_example =
    display-Offers_client app_store login_server.page "app" app false app_found

only_upstream :
    display_login_response app_store login_server.page "app" false
    ≡ redirect_to "/upstream/go?upstreamProvider=up"
unfolding display_login_response lookup
only_upstream = refl

handle_login-Allowed_example :
    Allowed store login_server posting started (handle_login store login_server posting started).0
handle_login-Allowed_example = handle_login-Allowed store login_server posting started

handle_login-Remembered_example :
    Remembered store login_server posting started
      (handle_login store login_server posting started).1.sso_user
handle_login-Remembered_example = handle_login-Remembered store login_server posting started

logout_ends_example :
    (is_answered
        (handle_login store login_server posting
          (handle_logout store login_server "" "https://app" started).1).0
      ≡ false)
    × (◌≢◌ {A = String} "https://app" ""
        → (handle_logout store login_server "" "https://app" started).0 ≡ "https://app")
logout_ends_example = logout_ends store login_server "" "https://app" started posting

abbrev accepts : Accepts library "client_id=app2"
accepts = record {
  request = parsed;
  text = "code";
  is_url = refl;
  is_request = refl;
  is_answered = λ session. refl;
}

put_sets : SetsClaim library
put_sets j v m k = get-put j k v m

alice_checked : login_server.authenticate "alice" "secret" ≡ ok (some alice)
alice_checked = refl

not_empty : (s : String) → (s == "") ≡ false → s ≢ ""
not_empty s h e = ground (arith, eq_iff s "", h, e)

single_sign_on_example :
    (session : OidcSession) × ((handle_login store login_server
        (record { method = "GET"; raw_query = "client_id=app2"; form = none })
        (handle_login store login_server
          (record { method = "POST"; raw_query = ""; form = some good_form })
          started).1).0
      ≡ answered (
          authorize_response
            (handle_audience library (handle_scopes library parsed))
            session
            "code"))
    × (session.subject ≡ "alice")
    × SameClaims session.jwt_claims.extra (with_azp library "app2" (json_claims alice.claims))
single_sign_on_example =
    single_sign_on store login_server put_sets started good_form alice "client_id=app2"
      (not_empty "client_id=app1" refl) alice_checked (inl refl) (not_empty "alice" refl)
      (not_empty "client_id=app2" refl) (not_empty "app2" refl) accepts
