-- ===== src/Oidc/Login/Laws.antt =====
-- Whom cmd/oidc/oidcserver/handle-login.go lets in, and what it remembers.
use kubauth.Base.{
  ◌≡◌, ◌≢◌, refl, inl, inr, String, Option, none, some, ◌==◌, arith, eq_iff, Bool-cases,
  if◌then◌else◌,
}
use mathlib.Core.Option
use kubauth.Misc.Claims.{get}
use kubauth.Misc.Claims.Json.{json_claims}
use kubauth.Proto.{Result, ok, err}
use kubauth.Oidc.Authorize.{Answer, internal_error, authorize_error, authorize_response, rebuild}
use kubauth.Oidc.Authorize.Laws.{AnswersFor, rebuild-AnswersFor}
use kubauth.Oidc.HttpProvider.{OidcUser}
use kubauth.Oidc.Storage.{MemoryStore}
use kubauth.Oidc.Upstream.Provider.{Upstream}
use kubauth.Oidc.UpstreamLogin.{Sessions}
use kubauth.Oidc.Login.{
  LoginForm, LoginRequest, LoginServer, LoginReply, answered, stored, nobody, principal,
  principal_of, or_page, try_sso, handle_get, written, admit, authenticated, handle_post,
  handle_login,
}

-- The user of a saved session is found again, if it has a login.
pub principal_of-stored :
    (user : OidcUser)
    → principal_of (some (stored user))
      ≡ (if user.login == "" then nobody else principal user.login (json_claims user.claims))
unfolding principal_of stored get
principal_of-stored user = refl

module _ {R K : Type 0} (store : MemoryStore R Upstream K) (server : LoginServer) where
  -- What entitles a request to a session: the user of the SSO session, or a password that was
  -- checked for a login that was started.
  pub data Entitled (q : LoginRequest) (s : Sessions) (ar_session : Answer) : Type 0 where
    by_sso :
        (user : OidcUser)
        → q.method ≡ "GET"
        → s.sso_user ≡ some user
        → user.login ≢ ""
        → AnswersFor server.fosite
            (record user { claims = json_claims user.claims })
            (server.fosite.client_id_of q.raw_query)
            ar_session
        → Entitled q s ar_session
    by_password :
        (user : OidcUser) (form : LoginForm)
        → q.method ≡ "POST"
        → q.form ≡ some form
        → s.login_session.auth_query ≢ ""
        → server.authenticate form.login form.password ≡ ok (some user)
        → AnswersFor server.fosite user
            (server.fosite.client_id_of s.login_session.auth_query)
            ar_session
        → Entitled q s ar_session

  abbrev pub Allowed : LoginRequest → Sessions → LoginReply → Type 0
  Allowed q s (answered answer) = Entitled q s answer
  Allowed q s _ = Unit

  or_page-Allowed :
      (q : LoginRequest) (s : Sessions) (client_id : String) (a : Answer)
      → Entitled q s a
      → Allowed q s (or_page store server client_id a)
  unfolding or_page
  or_page-Allowed q s client_id (authorize_response ar session text) h = h
  or_page-Allowed q s client_id internal_error h = tt
  or_page-Allowed q s client_id (authorize_error text) h = tt

  written-Allowed :
      (q : LoginRequest) (s : Sessions) (a : Answer)
      → Entitled q s a
      → Allowed q s (written store server a)
  unfolding written
  written-Allowed q s (authorize_response ar session text) h = h
  written-Allowed q s internal_error h = tt
  written-Allowed q s (authorize_error text) h = h

  -- Only the login and the claims of the user count.
  same_user :
      (user : OidcUser) (client_id : String) (a : Answer)
      → AnswersFor server.fosite
          (record { login = user.login; claims = user.claims; full_name = "" })
          client_id
          a
      → AnswersFor server.fosite user client_id a
  same_user user client_id internal_error h = tt
  same_user user client_id (authorize_error text) h = tt
  same_user user client_id (authorize_response ar session text) h = record {
    subject = h.subject;
    id_subject = h.id_subject;
    jwt_subject = h.jwt_subject;
    id_claims = h.id_claims;
    jwt_claims = h.jwt_claims;
  }

  sso-Allowed :
      (q : LoginRequest) (s : Sessions) (user : OidcUser)
      → q.method ≡ "GET"
      → s.sso_user ≡ some user
      → user.login ≢ ""
      → Allowed q s (
          try_sso store server q.raw_query
            (server.fosite.client_id_of q.raw_query)
            (principal user.login (json_claims user.claims)))
  unfolding try_sso
  sso-Allowed q s user is_get is_user has_login = elim (Bool-cases (q.raw_query == "")) [
    | inl e ↦ rw e tt
    | inr e ↦ rw e (
        let f = server.fosite in
        let client_id = f.client_id_of q.raw_query in
        let loaded : OidcUser = record {
          login = user.login;
          claims = json_claims user.claims;
          full_name = "";
        } in
        let out =
          rebuild f server.issuing server.now q.raw_query loaded client_id
            (f.new_request q.raw_query) in
        or_page-Allowed q s client_id out.0 (
          by_sso user is_get is_user has_login (
            same_user (record user { claims = json_claims user.claims }) client_id out.0
              (rebuild-AnswersFor f server.issuing server.now q.raw_query loaded client_id
                (f.new_request q.raw_query)).0)))
  ]

  get-Allowed :
      (q : LoginRequest) (s : Sessions) (o : Option OidcUser)
      → q.method ≡ "GET"
      → s.sso_user ≡ o
      → Allowed q s (
          try_sso store server q.raw_query
            (server.fosite.client_id_of q.raw_query)
            (principal_of (Option.map stored o)))
  unfolding principal_of try_sso
  get-Allowed q s none is_get e = tt
  get-Allowed q s (some user) is_get e =
      rw (principal_of-stored user) (elim (Bool-cases (user.login == "")) [
        | inl t ↦ rw t tt
        | inr t ↦
            rw t (sso-Allowed q s user is_get e (λ h. ground (arith, eq_iff user.login "", t, h)))
      ])

  authenticated-Allowed :
      (q : LoginRequest) (s : Sessions) (form : LoginForm) (r : Result (Option OidcUser))
      → q.method ≡ "POST"
      → q.form ≡ some form
      → s.login_session.auth_query ≢ ""
      → server.authenticate form.login form.password ≡ r
      → Allowed q s (authenticated store server s.login_session.auth_query form.remember r s).0
  unfolding authenticated admit
  authenticated-Allowed q s form (err e) is_post is_form started h = tt
  authenticated-Allowed q s form (ok none) is_post is_form started h = tt
  authenticated-Allowed q s form (ok (some user)) is_post is_form started h =
      let f = server.fosite in
      let raw_query = s.login_session.auth_query in
      let client_id = f.client_id_of raw_query in
      written-Allowed q s
        (rebuild f server.issuing server.now raw_query user client_id (f.new_request raw_query)).0
        (by_password user form is_post is_form started h
          (rebuild-AnswersFor f server.issuing server.now raw_query user client_id
            (f.new_request raw_query)).0)

  post-Allowed :
      (q : LoginRequest) (s : Sessions) (o : Option LoginForm)
      → q.method ≡ "POST"
      → q.form ≡ o
      → Allowed q s (handle_post store server o s).0
  unfolding handle_post
  post-Allowed q s none is_post e = tt
  post-Allowed q s (some form) is_post e = elim (Bool-cases (s.login_session.auth_query == "")) [
    | inl t ↦ rw t tt
    | inr t ↦ rw t (
        authenticated-Allowed q s form (server.authenticate form.login form.password) is_post e
          (λ h. ground (arith, eq_iff s.login_session.auth_query "", t, h)) refl)
  ]

  -- A login request is answered with a session only if it is a GET and the SSO session holds a
  -- user with a login, or a POST for which a login was started and the identity service checked
  -- the password of the form and gave a user. The session is then for that user: it has the
  -- login as its subject and the claims of the user, which those of the SSO session are as JSON gives
  -- them back, with the client that asked added to them.
  pub handle_login-Allowed :
      (q : LoginRequest) (s : Sessions) → Allowed q s (handle_login store server q s).0
  unfolding handle_login handle_get
  handle_login-Allowed q s = elim (Bool-cases (q.method == "GET")) [
    | inl g ↦ rw g (get-Allowed q s s.sso_user ((eq_iff q.method "GET").0 g) refl)
    | inr g ↦ rw g (elim (Bool-cases (q.method == "POST")) [
      | inl p ↦ rw p (post-Allowed q s q.form ((eq_iff q.method "POST").0 p) refl)
      | inr p ↦ rw p tt
    ])
  ]
