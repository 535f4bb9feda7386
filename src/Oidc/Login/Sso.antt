-- ===== src/Oidc/Login/Sso.antt =====
-- The SSO session of cmd/oidc/oidcserver/handle-login.go and handle-logout.go over several requests.
use kubauth.Base.{
  ◌≡◌, ◌≢◌, ◌⊎◌, ℕ, ap, if◌then◌else◌, refl, inl, inr, String, Bool, true, false, Option, none,
  some, ◌==◌, arith, eq_iff, Bool-cases,
}
use kubauth.Proto.{Result, ok, err}
use kubauth.Misc.Claims.{str}
use kubauth.Oidc.Authorize.{Requester, Fosite, Issuing, with_azp, complete_request, rebuild}
use kubauth.Oidc.HttpProvider.{OidcUser}
use kubauth.Oidc.Storage.{MemoryStore}
use kubauth.Oidc.Upstream.Provider.{Upstream}
use kubauth.Oidc.UpstreamLogin.{Sessions, SsoMode, sso_never, sso_on_demand, sso_always}
use kubauth.Oidc.Login.{
  LoginForm, LoginRequest, LoginServer, LoginReply, answered, principal_of, remembers, try_sso,
  handle_get, admit, authenticated, handle_post, handle_login, handle_logout,
}

-- Is an authorize request answered?
abbrev pub is_answered : LoginReply → Bool
is_answered (answered answer) = true
is_answered _ = false

-- The user is kept as it was checked, or with the client as the claim "azp".
abbrev pub KeptAs : Fosite → String → OidcUser → OidcUser → Type 0
KeptAs f client_id user kept =
    (kept ≡ user) ⊎ (kept ≡ record user { claims = f.add_claim "azp" (str client_id) user.claims })

-- The mode remembers every user, or those that ask for it.
abbrev pub Remembering : SsoMode → Bool → Type 0
Remembering mode asked = (mode ≡ sso_always) ⊎ ((mode ≡ sso_on_demand) × (asked ≡ true))

pub Remembering-remembers :
    (mode : SsoMode) (asked : Bool) → Remembering mode asked → remembers mode asked ≡ true
unfolding remembers
Remembering-remembers mode asked (inl e) = rw e refl
Remembering-remembers mode asked (inr (e, h)) = rw e h

remembers-Remembering :
    (mode : SsoMode) (asked : Bool) → remembers mode asked ≡ true → Remembering mode asked
unfolding remembers
remembers-Remembering sso_always asked h = inl refl
remembers-Remembering sso_on_demand asked h = inr (refl, h)
remembers-Remembering sso_never asked h = cc

with_azp-KeptAs :
    (f : Fosite) (client_id : String) (user : OidcUser)
    → KeptAs f client_id user (record user { claims = with_azp f client_id user.claims })
unfolding with_azp
with_azp-KeptAs f client_id user = elim (Bool-cases (client_id == "")) [
  | inl e ↦ inl (ap (λ (b : Bool). azp_if b) e)
  | inr e ↦ inr (ap (λ (b : Bool). azp_if b) e)
]
  where
    azp_if : Bool → OidcUser
    azp_if b = record user {
      claims = if b then user.claims else f.add_claim "azp" (str client_id) user.claims;
    }

complete_request-KeptAs :
    (f : Fosite) (i : Issuing) (now : ℕ) (user : OidcUser) (client_id : String)
    (r : Result Requester)
    → KeptAs f client_id user (complete_request f i now user client_id r).1
unfolding complete_request
complete_request-KeptAs f i now user client_id (err e) = inl refl
complete_request-KeptAs f i now user client_id (ok parsed) = with_azp-KeptAs f client_id user

rebuild-KeptAs :
    (f : Fosite) (i : Issuing) (now : ℕ) (raw_query : String) (user : OidcUser) (client_id : String)
    (r : Result (Unit {0}))
    → KeptAs f client_id user (rebuild f i now raw_query user client_id r).1
unfolding rebuild
rebuild-KeptAs f i now raw_query user client_id (err e) = inl refl
rebuild-KeptAs f i now raw_query user client_id (ok _) =
    complete_request-KeptAs f i now user client_id (f.new_authorize_request raw_query)

module _ {R K : Type 0} (store : MemoryStore R Upstream K) (server : LoginServer) where
  -- The user that a request puts into the SSO session.
  pub data Remembered (q : LoginRequest) (s : Sessions) (after : Option OidcUser) : Type 0 where
    unchanged : after ≡ s.sso_user → Remembered q s after
    remembered :
        (user kept : OidcUser) (form : LoginForm)
        → q.method ≡ "POST"
        → q.form ≡ some form
        → server.authenticate form.login form.password ≡ ok (some user)
        → Remembering server.sso_mode form.remember
        → after ≡ some kept
        → KeptAs server.fosite (server.fosite.client_id_of s.login_session.auth_query) user kept
        → Remembered q s after

  admit-sso_user :
      (raw_query : String) (remember : Bool) (user : OidcUser) (s : Sessions)
      → ((admit store server raw_query remember user s).1.sso_user ≡ s.sso_user)
        ⊎ ((kept : OidcUser) × Remembering server.sso_mode remember
            × ((admit store server raw_query remember user s).1.sso_user ≡ some kept)
            × KeptAs server.fosite (server.fosite.client_id_of raw_query) user kept)
  unfolding admit
  admit-sso_user raw_query remember user s =
      let f = server.fosite in
      let client_id = f.client_id_of raw_query in
      let out =
        rebuild f server.issuing server.now raw_query user client_id (f.new_request raw_query) in
      elim (Bool-cases (remembers server.sso_mode remember)) [
        | inl e ↦ inr (
          out.1,
          remembers-Remembering server.sso_mode remember e,
          rw e refl,
          rebuild-KeptAs f server.issuing server.now raw_query user client_id
              (f.new_request raw_query),
        )
        | inr e ↦ inl (rw e refl)
      ]

  authenticated-Remembered :
      (q : LoginRequest) (s : Sessions) (form : LoginForm) (r : Result (Option OidcUser))
      → q.method ≡ "POST"
      → q.form ≡ some form
      → server.authenticate form.login form.password ≡ r
      → Remembered q s
          (authenticated store server s.login_session.auth_query form.remember r s).1.sso_user
  unfolding authenticated
  authenticated-Remembered q s form (err e) is_post is_form h = unchanged refl
  authenticated-Remembered q s form (ok none) is_post is_form h = unchanged refl
  authenticated-Remembered q s form (ok (some user)) is_post is_form h =
      elim (admit-sso_user s.login_session.auth_query form.remember user s) [
        | inl e ↦ unchanged e
        | inr x ↦ remembered user x.0 form is_post is_form h x.1 x.2 x.3
      ]

  post-Remembered :
      (q : LoginRequest) (s : Sessions) (o : Option LoginForm)
      → q.method ≡ "POST"
      → q.form ≡ o
      → Remembered q s (handle_post store server o s).1.sso_user
  unfolding handle_post
  post-Remembered q s none is_post e = unchanged refl
  post-Remembered q s (some form) is_post e = elim (Bool-cases (s.login_session.auth_query == "")) [
    | inl t ↦ rw t (unchanged refl)
    | inr t ↦ rw t (
        authenticated-Remembered q s form (server.authenticate form.login form.password) is_post e
          refl)
  ]

  -- The SSO session gets a user only by a POST with a password that the identity service checked,
  -- and only if the mode is `always`, or `onDemand` and the form asks for it; the user is exactly the
  -- one that was checked, with at most the client of the authorize request as the claim "azp". Every
  -- other request leaves the user of the SSO session as it is.
  pub handle_login-Remembered :
      (q : LoginRequest) (s : Sessions) → Remembered q s (handle_login store server q s).1.sso_user
  unfolding handle_login handle_get
  handle_login-Remembered q s = elim (Bool-cases (q.method == "GET")) [
    | inl g ↦ rw g (unchanged refl)
    | inr g ↦ rw g (elim (Bool-cases (q.method == "POST")) [
      | inl p ↦ rw p (post-Remembered q s q.form ((eq_iff q.method "POST").0 p) refl)
      | inr p ↦ rw p (unchanged refl)
    ])
  ]

  no_login_no_answer :
      (q : LoginRequest) (s : Sessions)
      → s.sso_user ≡ none
      → s.login_session.auth_query ≡ ""
      → is_answered (handle_login store server q s).0 ≡ false
  unfolding handle_login handle_get handle_post try_sso principal_of
  no_login_no_answer q s no_user no_query = elim (Bool-cases (q.method == "GET")) [
    | inl g ↦ rw (g, no_user) refl
    | inr g ↦ rw g (elim (Bool-cases (q.method == "POST")) [
      | inl p ↦ rw p (posted q.form)
      | inr p ↦ rw p refl
    ])
  ]
    where
      posted : (o : Option LoginForm) → is_answered (handle_post store server o s).0 ≡ false
      posted none = refl
      posted (some form) = rw no_query refl

  -- After a logout no login request is answered with a session, whatever the sessions held
  -- before: the client has to start again and give a password. The logout redirects to the
  -- address of the request if it has one.
  pub logout_ends :
      (client_id plo : String) (s : Sessions) (q : LoginRequest)
      → (is_answered (handle_login store server q (handle_logout store server client_id plo s).1).0
          ≡ false)
        × (plo ≢ "" → (handle_logout store server client_id plo s).0 ≡ plo)
  unfolding handle_logout
  logout_ends client_id plo s q = (
    no_login_no_answer q (handle_logout store server client_id plo s).1 refl refl,
    λ ne. ground (arith, eq_iff plo "", ne),
  )
