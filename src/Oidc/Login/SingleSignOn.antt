-- ===== src/Oidc/Login/SingleSignOn.antt =====
-- A login by password and then, for another client, by the SSO session: two requests of
-- cmd/oidc/oidcserver/handle-login.go.
use kubauth.Base.{
  ◌≡◌, ◌≢◌, refl, ap, ◌∙◌, inl, inr, String, Bool, true, false, Option, none, some, ◌==◌, ℕ, arith,
  eq_iff, Bool-cases, if◌then◌else◌,
}
use kubauth.Misc.Claims.{Value, str, Claims, get}
use kubauth.Misc.Claims.Json.{json_claims, get-json_claims}
use kubauth.Proto.{Result, ok, err}
use kubauth.Oidc.Authorize.{
  Requester, OidcSession, Fosite, Issuing, authorize_response, handle_scopes, handle_audience,
  with_azp, new_session, respond, complete_request, rebuild,
}
use kubauth.Oidc.Authorize.Laws.{rebuild-AnswersFor}
use kubauth.Oidc.HttpProvider.{OidcUser}
use kubauth.Oidc.Storage.{MemoryStore}
use kubauth.Oidc.Upstream.Provider.{Upstream}
use kubauth.Oidc.UpstreamLogin.{Sessions}
use kubauth.Oidc.Login.{
  LoginForm, LoginServer, answered, remembers, or_page, try_sso, handle_get, admit, authenticated,
  handle_post, handle_login,
}
use kubauth.Oidc.Login.Laws.{principal_of-stored}
use kubauth.Oidc.Login.Sso.{Remembering, Remembering-remembers}

-- `Add` sets an entry.
abbrev pub SetsClaim : Fosite → Type 0
SetsClaim f =
    (j : String) (v : Value) (m : Claims) (k : String)
    → get k (f.add_claim j v m) ≡ (if j == k then some v else get k m)

-- The claims agree at every key.
abbrev pub SameClaims : Claims → Claims → Type 0
SameClaims a b = (k : String) → get k a ≡ get k b

-- The library answers the request of a query, whatever the session.
pub record Accepts (f : Fosite) (raw_query : String) : Type 0 where
  pub request : Requester
  pub text : String
  pub is_url : f.new_request raw_query ≡ ok tt
  pub is_request : f.new_authorize_request raw_query ≡ ok request
  pub is_answered :
      (session : OidcSession)
      → f.new_authorize_response (handle_audience f (handle_scopes f request)) session ≡ ok text

module _ (f : Fosite) (sets : SetsClaim f) where
  with_azp-SameClaims :
      (client_id : String) (a b : Claims)
      → SameClaims a b
      → SameClaims (with_azp f client_id a) (with_azp f client_id b)
  unfolding with_azp
  with_azp-SameClaims client_id a b same k = elim (Bool-cases (client_id == "")) [
    | inl e ↦ rw e (same k)
    | inr e ↦
        rw e (rw (sets "azp" (str client_id) a k, sets "azp" (str client_id) b k, same k) refl)
  ]

  -- The client that a session is made for replaces the one before it, also behind JSON.
  with_azp_twice :
      (before client_id : String) (m : Claims)
      → client_id ≢ ""
      → SameClaims
          (with_azp f client_id (json_claims (with_azp f before m)))
          (with_azp f client_id (json_claims m))
  unfolding with_azp
  with_azp_twice before client_id m ne k = ground (
    arith,
    eq_iff client_id "",
    ne,
    sets "azp" (str client_id) (json_claims m) k,
    sets "azp" (str client_id) (json_claims (f.add_claim "azp" (str before) m)) k,
    get-json_claims k m,
    get-json_claims k (f.add_claim "azp" (str before) m),
    sets "azp" (str before) m k,
  )

  -- What the first request leaves of the claims of the user is the same for the second one.
  kept_claims :
      (i : Issuing) (now : ℕ) (user : OidcUser) (before client_id : String) (r : Result Requester)
      → client_id ≢ ""
      → SameClaims
          (with_azp f client_id (json_claims (complete_request f i now user before r).1.claims))
          (with_azp f client_id (json_claims user.claims))
  unfolding complete_request
  kept_claims i now user before client_id (err e) ne k = refl
  kept_claims i now user before client_id (ok parsed) ne k =
      with_azp_twice before client_id user.claims ne k

  rebuild-kept_claims :
      (i : Issuing) (now : ℕ) (raw_query : String) (user : OidcUser) (before client_id : String)
      (r : Result (Unit {0}))
      → client_id ≢ ""
      → SameClaims
          (with_azp f client_id (json_claims (rebuild f i now raw_query user before r).1.claims))
          (with_azp f client_id (json_claims user.claims))
  unfolding rebuild
  rebuild-kept_claims i now raw_query user before client_id (err e) ne k = refl
  rebuild-kept_claims i now raw_query user before client_id (ok _) ne k =
      kept_claims i now user before client_id (f.new_authorize_request raw_query) ne k

  rebuild-accepted :
      (i : Issuing) (now : ℕ) (raw_query : String) (user : OidcUser) (client_id : String)
      (a : Accepts f raw_query)
      → (rebuild f i now raw_query user client_id (f.new_request raw_query)).0
        ≡ authorize_response
            (handle_audience f (handle_scopes f a.request))
            (new_session f i now (some user) client_id)
            a.text
  unfolding rebuild complete_request respond
  rebuild-accepted i now raw_query user client_id a =
      rw (a.is_url, a.is_request, a.is_answered (new_session f i now (some user) client_id)) refl

module _ {R K : Type 0} (store : MemoryStore R Upstream K) (server : LoginServer)
    (sets : SetsClaim server.fosite) where
  abbrev f : Fosite
  f = server.fosite

  -- The sessions after a password was checked.
  abbrev after_password : LoginForm → Sessions → Sessions
  after_password form s =
      (handle_login store server (record { method = "POST"; raw_query = ""; form = some form }) s).1

  -- The user that the SSO session keeps.
  abbrev kept : Sessions → OidcUser → OidcUser
  kept s user =
      (rebuild f server.issuing server.now s.login_session.auth_query user
        (f.client_id_of s.login_session.auth_query) (f.new_request s.login_session.auth_query)).1

  checked_kept :
      (form : LoginForm) (s : Sessions) (user : OidcUser) (r : Result (Option OidcUser))
      → r ≡ ok (some user)
      → (authenticated store server s.login_session.auth_query form.remember r s).1.sso_user
        ≡ (if remembers server.sso_mode form.remember then some (kept s user) else s.sso_user)
  unfolding authenticated admit
  checked_kept form s user (err e) h = cc
  checked_kept form s user (ok none) h = cc
  checked_kept form s user (ok (some u)) h = let same : u ≡ user = cc in rw same refl

  post-kept :
      (form : LoginForm) (s : Sessions) (user : OidcUser)
      → (s.login_session.auth_query == "") ≡ false
      → server.authenticate form.login form.password ≡ ok (some user)
      → remembers server.sso_mode form.remember ≡ true
      → (handle_post store server (some form) s).1.sso_user ≡ some (kept s user)
  unfolding handle_post
  post-kept form s user started checked remembering = rw started (
      checked_kept form s user (server.authenticate form.login form.password) checked
      ∙ ap (λ (b : Bool). if b then some (kept s user) else s.sso_user) remembering)

  after_password-kept :
      (form : LoginForm) (s : Sessions) (user : OidcUser)
      → (s.login_session.auth_query == "") ≡ false
      → server.authenticate form.login form.password ≡ ok (some user)
      → remembers server.sso_mode form.remember ≡ true
      → (after_password form s).sso_user ≡ some (kept s user)
  unfolding handle_login
  after_password-kept form s user started checked remembering =
      post-kept form s user started checked remembering

  sso_get :
      (s : Sessions) (user : OidcUser) (raw_query : String)
      → s.sso_user ≡ some user
      → (user.login == "") ≡ false
      → (raw_query == "") ≡ false
      → (a : Accepts f raw_query)
      → (handle_login store server
          (record { method = "GET"; raw_query = raw_query; form = none })
          s).0
        ≡ answered (
            authorize_response
              (handle_audience f (handle_scopes f a.request))
              (new_session f server.issuing server.now
                (some
                  (record { login = user.login; claims = json_claims user.claims; full_name = "" }))
                (f.client_id_of raw_query))
              a.text)
  unfolding handle_login handle_get try_sso or_page
  sso_get s user raw_query e has_login has_query a =
      rw
        (
          e,
          principal_of-stored user,
          has_login,
          has_query,
          rebuild-accepted f sets server.issuing server.now raw_query
              (record { login = user.login; claims = json_claims user.claims; full_name = "" })
              (f.client_id_of raw_query) a,
        )
        refl

  -- Single sign-on. A user with a login whose password was checked, and whom the SSO session
  -- remembers, is let into a second client, which has an identifier and whose request the library
  -- accepts, without a password. The session for the second client is for that user, and its claims
  -- are those of the user as JSON gives them back, lists of texts as slices and numbers as float64,
  -- with the second client as "azp": nothing of the first client is left in them.
  pub single_sign_on :
      (s : Sessions) (form : LoginForm) (user : OidcUser) (raw_query : String)
      → s.login_session.auth_query ≢ ""
      → server.authenticate form.login form.password ≡ ok (some user)
      → Remembering server.sso_mode form.remember
      → user.login ≢ ""
      → raw_query ≢ ""
      → f.client_id_of raw_query ≢ ""
      → (a : Accepts f raw_query)
      → (session : OidcSession) × ((handle_login store server
            (record { method = "GET"; raw_query = raw_query; form = none })
            (after_password form s)).0
          ≡ answered
              (authorize_response (handle_audience f (handle_scopes f a.request)) session a.text))
        × (session.subject ≡ user.login)
        × SameClaims session.jwt_claims.extra
            (with_azp f (f.client_id_of raw_query) (json_claims user.claims))
  unfolding new_session
  single_sign_on s form user raw_query started checked remembering has_login has_query has_client
        a =
      let first = s.login_session.auth_query in
      let kept_login =
        (rebuild-AnswersFor f server.issuing server.now first user (f.client_id_of first)
          (f.new_request first)).1 in
      let loaded : OidcUser = record {
        login = (kept s user).login;
        claims = json_claims (kept s user).claims;
        full_name = "";
      } in
      (
        new_session f server.issuing server.now (some loaded) (f.client_id_of raw_query),
        sso_get (after_password form s) (kept s user) raw_query
            (after_password-kept form s user (not_empty first started) checked
              (Remembering-remembers server.sso_mode form.remember remembering))
            (rw kept_login (not_empty user.login has_login)) (not_empty raw_query has_query) a,
        kept_login,
        rebuild-kept_claims f sets server.issuing server.now first user (f.client_id_of first)
            (f.client_id_of raw_query) (f.new_request first) has_client,
      )
    where
      not_empty : (t : String) → t ≢ "" → (t == "") ≡ false
      not_empty t ne = ground (arith, eq_iff t "", ne)
