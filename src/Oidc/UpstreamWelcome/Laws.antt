-- ===== src/Oidc/UpstreamWelcome/Laws.antt =====
-- Whom cmd/oidc/oidcserver/handle-upstream-welcome.go lets in, after the callback has sent them there.
use kubauth.Base.{
  ◌≡◌, ◌≢◌, refl, sym, ap, ◌∙◌, inl, inr, String, Bool, false, Option, none, some, ◌==◌, ◌+◌, arith,
  eq_iff, Bool-cases, if◌then◌else◌,
}
use kubauth.Misc.Claims.{Claims, get}
use kubauth.Oidc.HttpProvider.{OidcUser}
use kubauth.Oidc.UpstreamLogin.{
  Sessions, SsoMode, sso_never, sso_on_demand, sso_always, CallbackRequest, UpstreamProvider,
  Server, Checked, passed, text_of, mapped_claims, user_of, json_user, forget, settle, admit, check,
  conclude, handle_upstream_callback,
}
use kubauth.Oidc.UpstreamWelcome.{
  WelcomeRequest, WelcomeReply, not_found, http_error, complete, load_pending_upstream_user,
  confirm, welcome, handle_upstream_welcome,
}

-- A client that the welcome page lets in, and what this leaves.
pub record Confirmed (mode : SsoMode) (q : WelcomeRequest) (s : Sessions) (raw_query : String)
    (user : OidcUser) (after : Sessions) : Type 0 where
  pub remember : Bool
  pub is_on_demand : mode ≡ sso_on_demand
  pub is_post : q.method ≡ "POST"
  pub is_parsed : q.remember ≡ some remember
  pub pending : OidcUser
  pub is_pending : s.login_session.pending_upstream_user ≡ some pending
  pub is_user : user ≡ json_user pending
  pub has_login : user.login ≢ ""
  pub is_query : s.login_session.auth_query ≡ raw_query
  pub has_query : raw_query ≢ ""
  pub remembered : after.sso_user ≡ (if remember then some user else s.sso_user)
  pub nothing_pending : after.login_session.pending_upstream_user ≡ none

no_reply :
    {r : WelcomeReply} {raw_query : String} {user : OidcUser} {s after : Sessions}
    → ◌≡◌ {A = WelcomeReply × Sessions} (r, s) (complete raw_query user, after)
    → r ≡ complete raw_query user
no_reply h = ap (λ p. p.0) h

module _ (mode : SsoMode) (q : WelcomeRequest) (s : Sessions) (raw_query : String) (user : OidcUser)
    (after : Sessions) where
  confirm-Confirmed :
      (p u : OidcUser) (form : Option Bool)
      → mode ≡ sso_on_demand
      → q.method ≡ "POST"
      → (s.login_session.pending_upstream_user ≡ some p) × (u ≡ json_user p)
      → u.login ≢ ""
      → q.remember ≡ form
      → confirm u form s ≡ (complete raw_query user, after)
      → Confirmed mode q s raw_query user after
  unfolding confirm
  confirm-Confirmed p u none e1 e2 e3 e4 e5 h =
      let no : http_error 400 "bad request" ≡ complete raw_query user = no_reply h in cc
  confirm-Confirmed p u (some remember) e1 e2 e3 e4 e5 h =
      elim (Bool-cases (s.login_session.auth_query == "")) [
        | inl t ↦
            let h' = no_reply (rw t at h) in
            let no : http_error 400 "session expired: restart login from the client application"
                ≡ complete raw_query user =
              h' in
            cc
        | inr t ↦
            let h' = rw t at h in
            let done : complete s.login_session.auth_query u ≡ complete raw_query user =
              no_reply h' in
            let same_user : u ≡ user = cc in
            let same_query : s.login_session.auth_query ≡ raw_query = cc in
            let left = sym (ap (λ p. p.1) h') in
            record {
              remember = remember;
              is_on_demand = e1;
              is_post = e2;
              is_parsed = e5;
              pending = p;
              is_pending = e3.0;
              is_user = sym same_user ∙ e3.1;
              has_login = λ e. e4 (ap (λ (v : OidcUser). v.login) same_user ∙ e);
              is_query = same_query;
              has_query =
                  λ e. ground (arith, eq_iff s.login_session.auth_query "", t, same_query, e);
              remembered =
                  rw left
                    (ap (λ (v : OidcUser). if remember then some v else s.sso_user) same_user);
              nothing_pending = rw left refl;
            }
      ]

  pending_inv :
      (o : Option OidcUser) (u : OidcUser)
      → load_pending_upstream_user o ≡ some u
      → (p : OidcUser) × ((o ≡ some p) × (u ≡ json_user p)) × (u.login ≢ "")
  unfolding load_pending_upstream_user
  pending_inv none u h = cc
  pending_inv (some v) u h = elim (Bool-cases (v.login == "")) [
    | inl t ↦ let no : none ≡ some u = rw t at h in cc
    | inr t ↦
        let same : some (json_user v) ≡ some u = rw t at h in
        let eq : json_user v ≡ u = cc in
        (
          v,
          (refl, sym eq),
          λ e. ground (arith, eq_iff v.login "", t, ap (λ (w : OidcUser). w.login) eq, e),
        )
  ]

  welcome-Confirmed :
      (trim_space : String → String) (o : Option OidcUser)
      → mode ≡ sso_on_demand
      → load_pending_upstream_user s.login_session.pending_upstream_user ≡ o
      → welcome trim_space q o s ≡ (complete raw_query user, after)
      → Confirmed mode q s raw_query user after
  unfolding welcome
  welcome-Confirmed trim_space none e1 e h =
      let no : http_error 400 "session expired: restart login from the client application"
          ≡ complete raw_query user =
        no_reply h in
      cc
  welcome-Confirmed trim_space (some u) e1 e h =
      let known = pending_inv s.login_session.pending_upstream_user u e in
      elim (Bool-cases (q.method == "GET")) [
        | inl g ↦ let no = no_reply (rw g at h) in cc
        | inr g ↦ elim (Bool-cases (q.method == "POST")) [
          | inr p ↦
              let no : http_error 405 "method not allowed" ≡ complete raw_query user =
                no_reply (rw (g, p) at h) in
              cc
          | inl p ↦
              confirm-Confirmed known.0 u q.remember e1 ((eq_iff q.method "POST").0 p) known.1
                known.2 refl (rw (g, p) at h)
        ]
      ]

  mode-Confirmed :
      (trim_space : String → String) (m : SsoMode)
      → mode ≡ m
      → handle_upstream_welcome trim_space m q s ≡ (complete raw_query user, after)
      → Confirmed mode q s raw_query user after
  unfolding handle_upstream_welcome
  mode-Confirmed trim_space sso_on_demand e h =
      welcome-Confirmed trim_space
        (load_pending_upstream_user s.login_session.pending_upstream_user) e refl h
  mode-Confirmed trim_space sso_always e h =
      let no : not_found ≡ complete raw_query user = no_reply h in cc
  mode-Confirmed trim_space sso_never e h =
      let no : not_found ≡ complete raw_query user = no_reply h in cc

nothing_pending_refuses :
    (trim_space : String → String) (q : WelcomeRequest) (s : Sessions)
    → s.login_session.pending_upstream_user ≡ none
    → (handle_upstream_welcome trim_space sso_on_demand q s).0
      ≡ http_error 400 "session expired: restart login from the client application"
unfolding handle_upstream_welcome load_pending_upstream_user welcome
nothing_pending_refuses trim_space q s e = rw e refl

-- The welcome page lets a client in only in the mode `onDemand`, by a POST whose form parses, for the
-- pending user of the session, who has a login, with the claims as JSON gives them back, and for the
-- query that the session keeps. The user is remembered in the SSO session only if the form asks for it, and the pending user is
-- used once: the next request of any kind is refused.
pub welcome_confirms :
    (trim_space : String → String) (mode : SsoMode) (q again : WelcomeRequest) (s : Sessions)
    (raw_query : String) (user : OidcUser) (after : Sessions)
    → handle_upstream_welcome trim_space mode q s ≡ (complete raw_query user, after)
    → Confirmed mode q s raw_query user after
      × ((handle_upstream_welcome trim_space mode again after).0
          ≡ http_error 400 "session expired: restart login from the client application")
welcome_confirms trim_space mode q again s raw_query user after h =
    let confirmed = mode-Confirmed mode q s raw_query user after trim_space mode refl h in
    (
      confirmed,
      rw confirmed.is_on_demand
          (nothing_pending_refuses trim_space again after confirmed.nothing_pending),
    )

settle_pending :
    (mode : SsoMode) (user : OidcUser) (s : Sessions)
    → mode ≡ sso_on_demand
    → ((settle mode user s).1.login_session.pending_upstream_user ≡ some user)
      × ((settle mode user s).1.login_session.auth_query ≡ s.login_session.auth_query)
unfolding settle
settle_pending sso_on_demand user s e = (refl, refl)
settle_pending sso_always user s e = cc
settle_pending sso_never user s e = cc

admit_pending :
    (server : Server) (u : UpstreamProvider) (c : Claims) (s : Sessions)
    → server.sso_mode ≡ sso_on_demand
    → ((admit server u c s).1.login_session.pending_upstream_user
        ≡ some (user_of server u (text_of (get "sub" (mapped_claims u c))) (mapped_claims u c)).1)
      × ((admit server u c s).1.login_session.auth_query ≡ s.login_session.auth_query)
unfolding admit forget
admit_pending server u c s e =
    settle_pending server.sso_mode
      (user_of server u (text_of (get "sub" (mapped_claims u c))) (mapped_claims u c)).1
      (record s { login_session = forget s.login_session; renewals = s.renewals + 1 }) e

callback_admits :
    (server : Server) (o : Checked (UpstreamProvider × Claims)) (u : UpstreamProvider) (c : Claims)
    (s : Sessions)
    → o ≡ passed (u, c)
    → conclude server o s ≡ admit server u c s
unfolding conclude
callback_admits server o u c s e = rw e refl

post_completes :
    (trim_space : String → String) (mode : SsoMode) (remember : Bool) (s : Sessions)
    (user : OidcUser)
    → mode ≡ sso_on_demand
    → s.login_session.pending_upstream_user ≡ some user
    → (user.login == "") ≡ false
    → (s.login_session.auth_query == "") ≡ false
    → (handle_upstream_welcome trim_space mode
        (record { method = "POST"; remember = some remember })
        s).0
      ≡ complete s.login_session.auth_query (json_user user)
unfolding handle_upstream_welcome load_pending_upstream_user welcome confirm
post_completes trim_space mode remember s user e pending has_login has_query =
    rw (e, pending, has_login) (rw has_query refl)

-- The two pages of an upstream login fit together. In the mode `onDemand`, where the checks of the
-- callback pass for a user with a login in a session with a query, a POST of the welcome page
-- that follows completes the authorize request of that query for that user, with its login and full
-- name and with its claims as JSON gives them back.
pub callback_then_welcome :
    (trim_space : String → String) (server : Server) (back : CallbackRequest) (s : Sessions)
    (u : UpstreamProvider) (c : Claims) (remember : Bool)
    → server.sso_mode ≡ sso_on_demand
    → check server back s.login_session ≡ passed (u, c)
    → s.login_session.auth_query ≢ ""
    → (user_of server u (text_of (get "sub" (mapped_claims u c))) (mapped_claims u c)).1.login ≢ ""
    → (handle_upstream_welcome trim_space server.sso_mode
        (record { method = "POST"; remember = some remember })
        (handle_upstream_callback server back s).1).0
      ≡ complete s.login_session.auth_query (
          json_user
            (user_of server u (text_of (get "sub" (mapped_claims u c))) (mapped_claims u c)).1)
unfolding handle_upstream_callback
callback_then_welcome trim_space server back s u c remember on_demand checked has_query has_login =
    let after = (admit server u c s).1 in
    let user = (user_of server u (text_of (get "sub" (mapped_claims u c))) (mapped_claims u c)).1 in
    let left = admit_pending server u c s on_demand in
    rw (callback_admits server (check server back s.login_session) u c s checked) (
      post_completes trim_space server.sso_mode remember after user on_demand left.0
        (not_empty user.login has_login)
        (rw left.1 (not_empty s.login_session.auth_query has_query))
      ∙ ap (λ raw. complete raw (json_user user)) left.1)
  where
    not_empty : (t : String) → t ≢ "" → (t == "") ≡ false
    not_empty t ne = ground (arith, eq_iff t "", ne)
