-- ===== src/Oidc/UpstreamGo.antt =====
-- cmd/oidc/oidcserver/handle-upstream-go.go: the start of a round trip to an upstream provider. The random
-- texts, the PKCE verifier and the address that the OAuth library builds are arguments.

pub mod Laws
mod Tests
use kubauth.Base.{
  String, Bool, true, false, not, Option, none, some, List, [], ◌∷◌, ◌==◌, ℕ, if◌then◌else◌,
}
use kubauth.Proto.{Result, ok, err}
use kubauth.Oidc.Storage.{MemoryStore, get_upstream}
use kubauth.Oidc.Upstream.Provider.{Upstream, AuthCodeSettings, o_auth2_auth_code_settings}
use kubauth.Oidc.UpstreamLogin.{Reply, http_error, redirect, LoginSession, Sessions}

pub record GoRequest : Type 0 where
  pub method : String
  pub upstream_provider : String

-- What is drawn for a round trip; `auth_code_url` gives the address for a state, a nonce and the
-- verifier of a challenge.
pub record Draws : Type 0 where
  pub state : Result String
  pub nonce : Result String
  pub verifier : String
  pub auth_code_url : AuthCodeSettings → String → String → Option String → String

-- The session keys of a round trip. Without PKCE an old verifier stays, unused.
unfoldable pub remember_trip : String → String → String → Draws → Bool → LoginSession → LoginSession
remember_trip name state nonce d pkce s = record s {
  upstream_state = state;
  upstream_nonce = nonce;
  upstream_provider = name;
  upstream_pkce = if pkce then "1" else "";
  upstream_verifier = if pkce then d.verifier else s.upstream_verifier;
}

unfoldable pub depart :
    String → AuthCodeSettings → Draws → Result String → Result String → Sessions → Reply × Sessions
unfolding remember_trip
depart name settings d (err e) nonce s = (http_error 500 "internal error", s)
depart name settings d (ok state) (err e) s = (http_error 500 "internal error", s)
depart name settings d (ok state) (ok nonce) s = (
  redirect (
      d.auth_code_url settings state nonce
        (if settings.supports_pkce_s256 then some d.verifier else none)),
  record s {
    login_session = remember_trip name state nonce d settings.supports_pkce_s256 s.login_session;
  },
)

unfoldable pub with_settings :
    String → Draws → Option AuthCodeSettings → Sessions → Reply × Sessions
unfolding depart
with_settings name d none s = (http_error 400 "upstream does not support external OIDC login", s)
with_settings name d (some settings) s = depart name settings d d.state d.nonce s

unfoldable pub with_upstream : String → Draws → Option Upstream → Sessions → Reply × Sessions
unfolding with_settings
with_upstream name d none s = (http_error 404 "unknown upstream provider", s)
with_upstream name d (some u) s = with_settings name d (o_auth2_auth_code_settings u) s

unfoldable pub handle_upstream_go :
    {R K : Type 0} → MemoryStore R Upstream K → Draws → GoRequest → Sessions → Reply × Sessions
unfolding with_upstream
handle_upstream_go store d q s =
    if not (q.method == "GET")
    then (http_error 405 "method not allowed", s)
    else if q.upstream_provider == ""
    then (http_error 400 "missing upstreamProvider parameter", s)
    else if s.login_session.auth_query == ""
    then (http_error 400 "session expired: restart login from the client application", s)
    else with_upstream q.upstream_provider d (get_upstream store q.upstream_provider) s
