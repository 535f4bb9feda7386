-- ===== src/Oidc/Login.antt =====
-- cmd/oidc/oidcserver/handle-login.go and handle-logout.go, on the login session and the SSO session.
-- Destroying a session succeeds. The user of the SSO session is saved and loaded between two
-- requests, so a request reads it as a map, with its claims as JSON gives them back.

pub mod Laws
pub mod Sso
pub mod SingleSignOn
mod Tests
use kubauth.Base.{
  String, Bool, true, false, Option, none, some, List, [], ◌∷◌, ◌==◌, ◌&&◌, ℕ, ◌+◌, if◌then◌else◌,
  lookup,
}
use mathlib.Core.Option
use kubauth.Misc.Claims.{Value, str, object, Claims, no_claims, claim, get}
use kubauth.Misc.Claims.Json.{json_claims}
use kubauth.Proto.{Result, ok, err}
use kubauth.Oidc.Authorize.{
  Requester, OidcSession, Fosite, Issuing, Answer, internal_error, authorize_error,
  authorize_response, rebuild,
}
use kubauth.Oidc.Client.{KubauthClient}
use kubauth.Oidc.HttpProvider.{OidcUser}
use kubauth.Oidc.LoginPage.{PageSettings, LoginResponse, display_login_response}
use kubauth.Oidc.Storage.{MemoryStore}
use kubauth.Oidc.Upstream.Provider.{Upstream}
use kubauth.Oidc.UpstreamLogin.{
  LoginSession, Sessions, SsoMode, sso_never, sso_on_demand, sso_always,
}

pub record LoginForm : Type 0 where
  pub login : String
  pub password : String
  pub remember : Bool

-- A request; a form that does not parse is `none`.
pub record LoginRequest : Type 0 where
  pub method : String
  pub raw_query : String
  pub form : Option LoginForm

pub record LoginServer : Type 0 where
  pub page : PageSettings
  pub fosite : Fosite
  pub issuing : Issuing
  pub now : ℕ
  pub authenticate : String → String → Result (Option OidcUser)
  pub sso_mode : SsoMode
  pub post_logout_url : String

-- What is written: an error, the login page, or the answer to the authorize request; a panic ends the
-- request without any.
pub data LoginReply : Type 0 where
  http_error : ℕ → String → LoginReply
  login_page : LoginResponse → LoginReply
  answered : Answer → LoginReply
  panic : LoginReply

-- The user, as the codec of the session gives it back.
unfoldable pub stored : OidcUser → Value
stored user = object (
    claim "Login" (str user.login) (
      claim "Claims" (object (json_claims user.claims))
        (claim "FullName" (str user.full_name) no_claims)))

-- The user of the SSO session. Claims that are no map make the conversion panic.
pub data Principal : Type 0 where
  nobody : Principal
  principal : String → Claims → Principal
  broken : Principal

unfoldable pub with_claims : String → Option Value → Principal
with_claims login (some (object claims)) = principal login claims
with_claims login _ = broken

unfoldable pub with_login : Option Value → Option Value → Principal
unfolding with_claims
with_login (some (str login)) claims = if login == "" then nobody else with_claims login claims
with_login _ claims = nobody

unfoldable pub principal_of : Option Value → Principal
unfolding with_login
principal_of (some (object m)) = with_login (get "Login" m) (get "Claims" m)
principal_of _ = nobody

unfoldable pub remembers : SsoMode → Bool → Bool
remembers sso_always remember = true
remembers sso_on_demand remember = remember
remembers sso_never remember = false

module _ {R K : Type 0} (store : MemoryStore R Upstream K) (server : LoginServer) where
  -- The page, unless there is a response.
  unfoldable pub or_page : String → Answer → LoginReply
  or_page client_id (authorize_response ar session text) =
      answered (authorize_response ar session text)
  or_page client_id _ = login_page (display_login_response store server.page client_id false)

  unfoldable pub try_sso : String → String → Principal → LoginReply
  unfolding or_page
  try_sso raw_query client_id nobody =
      login_page (display_login_response store server.page client_id false)
  try_sso raw_query client_id broken = panic
  try_sso raw_query client_id (principal login claims) =
      if raw_query == ""
      then login_page (display_login_response store server.page client_id false)
      else or_page client_id
          (rebuild server.fosite server.issuing server.now raw_query
            (record { login = login; claims = claims; full_name = "" }) client_id
            (server.fosite.new_request raw_query)).0

  unfoldable pub handle_get : String → Sessions → LoginReply × Sessions
  unfolding try_sso stored principal_of
  handle_get raw_query s =
      let client_id = server.fosite.client_id_of raw_query in
      (
        try_sso raw_query client_id (principal_of (Option.map stored s.sso_user)),
        record s {
          login_session = record s.login_session { auth_query = raw_query; client_id = client_id };
        },
      )

  -- An error before the library has parsed the request is written by the handler.
  unfoldable pub written : Answer → LoginReply
  written internal_error = http_error 500 "internal error"
  written answer = answered answer

  -- A user whose password was checked. The session that is made adds a claim to the user, which
  -- the SSO session holds, too.
  unfoldable pub admit : String → Bool → OidcUser → Sessions → LoginReply × Sessions
  unfolding written remembers
  admit raw_query remember user s =
      let client_id = server.fosite.client_id_of raw_query in
      let out =
        rebuild server.fosite server.issuing server.now raw_query user client_id
          (server.fosite.new_request raw_query) in
      (
        written out.0,
        record s {
          renewals = s.renewals + 1;
          sso_user = if remembers server.sso_mode remember then some out.1 else s.sso_user;
        },
      )

  unfoldable pub authenticated :
      String → Bool → Result (Option OidcUser) → Sessions → LoginReply × Sessions
  unfolding admit
  authenticated raw_query remember (err e) s = (
    http_error 500 "Internal error on ID provider subsystem. Contact your system administrator",
    s,
  )
  authenticated raw_query remember (ok none) s = (
    login_page
        (display_login_response store server.page (server.fosite.client_id_of raw_query) true),
    s,
  )
  authenticated raw_query remember (ok (some user)) s = admit raw_query remember user s

  unfoldable pub handle_post : Option LoginForm → Sessions → LoginReply × Sessions
  unfolding authenticated
  handle_post none s = (http_error 400 "bad request", s)
  handle_post (some form) s =
      if s.login_session.auth_query == ""
      then (http_error 400 "Session expired. Please restart the login flow.", s)
      else authenticated s.login_session.auth_query form.remember
          (server.authenticate form.login form.password) s

  unfoldable pub handle_login : LoginRequest → Sessions → LoginReply × Sessions
  unfolding handle_get handle_post
  handle_login q s =
      if q.method == "GET"
      then handle_get q.raw_query s
      else if q.method == "POST"
      then handle_post q.form s
      else (http_error 405 "method not allowed", s)

  -- The address that the client sets over the one of the server.
  unfoldable pub client_logout_url : Option KubauthClient → String
  client_logout_url none = server.post_logout_url
  client_logout_url (some client) =
      if client.spec.post_logout_url == ""
      then server.post_logout_url
      else client.spec.post_logout_url

  -- `handleLogout` on the parameters "client_id" and "post_logout_redirect_uri": the address that it
  -- redirects to, and the sessions, where the client of the index page is kept.
  unfoldable pub handle_logout : String → String → Sessions → String × Sessions
  unfolding client_logout_url
  handle_logout client_id plo s = (
    if plo == ""
        then (if client_id == ""
            then server.post_logout_url
            else client_logout_url (lookup client_id store.clients))
        else plo,
    record s {
      sso_user = none;
      login_session = record {
        upstream_state = "";
        upstream_nonce = "";
        upstream_verifier = "";
        upstream_pkce = "";
        upstream_provider = "";
        auth_query = "";
        client_id = s.login_session.client_id;
        pending_upstream_user = none;
      };
    },
  )
