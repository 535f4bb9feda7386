-- ===== src/Oidc/UpstreamGo/Laws.antt =====
-- The start of a round trip in cmd/oidc/oidcserver/handle-upstream-go.go, and the return that it lets in.
use kubauth.Base.{
  ◌≡◌, ◌≢◌, refl, sym, ap, ◌∙◌, inl, inr, String, Bool, true, false, Option, none, some, ◌==◌, ℕ,
  arith, eq_iff, Bool-cases, if◌then◌else◌,
}
use kubauth.Proto.{Result, ok, err}
use kubauth.Oidc.Storage.{MemoryStore, get_upstream}
use kubauth.Oidc.Upstream.Provider.{Upstream, AuthCodeSettings, o_auth2_auth_code_settings}
use kubauth.Oidc.UpstreamLogin.{
  Reply, http_error, redirect, LoginSession, Sessions, CallbackRequest, check_request, verifier_of,
  passed,
}
use kubauth.Oidc.UpstreamLogin.Checks.{check_request-OfSession}
use kubauth.Oidc.UpstreamGo.{
  GoRequest, Draws, remember_trip, depart, with_settings, with_upstream, handle_upstream_go,
}

-- A round trip has started: what was drawn is in the session and in the address.
pub record Departed {R K : Type 0} (store : MemoryStore R Upstream K) (d : Draws) (q : GoRequest)
    (s : Sessions) (url : String) (after : Sessions) : Type 0 where
  pub state : String
  pub nonce : String
  pub settings : AuthCodeSettings
  pub upstream : Upstream
  pub is_state : d.state ≡ ok state
  pub is_nonce : d.nonce ≡ ok nonce
  pub is_known : get_upstream store q.upstream_provider ≡ some upstream
  pub has_settings : o_auth2_auth_code_settings upstream ≡ some settings
  pub has_query : s.login_session.auth_query ≢ ""
  pub has_name : q.upstream_provider ≢ ""
  pub is_url :
      url
      ≡ d.auth_code_url settings state nonce
          (if settings.supports_pkce_s256 then some d.verifier else none)
  pub is_after : after ≡ record s {
    login_session =
        remember_trip q.upstream_provider state nonce d settings.supports_pkce_s256 s.login_session;
  }

no_refusal :
    {code : ℕ} {text url : String} {s after : Sessions}
    → ¬ (◌≡◌ {A = Reply × Sessions} (http_error code text, s) (redirect url, after))
no_refusal {code} {text} {url} h =
    let no : http_error code text ≡ redirect url = ap (λ p. p.0) h in cc

module _ {R K : Type 0} (store : MemoryStore R Upstream K) (d : Draws) where
  depart-Departed :
      (q : GoRequest) (s : Sessions) (u : Upstream) (settings : AuthCodeSettings)
      (state nonce : Result String) (url : String) (after : Sessions)
      → d.state ≡ state
      → d.nonce ≡ nonce
      → get_upstream store q.upstream_provider ≡ some u
      → o_auth2_auth_code_settings u ≡ some settings
      → s.login_session.auth_query ≢ ""
      → q.upstream_provider ≢ ""
      → depart q.upstream_provider settings d state nonce s ≡ (redirect url, after)
      → Departed store d q s url after
  unfolding depart
  depart-Departed q s u settings (err e) nonce url after e1 e2 e3 e4 e5 e6 h =
      let no : http_error 500 "internal error" ≡ redirect url = ap (λ p. p.0) h in cc
  depart-Departed q s u settings (ok state) (err e) url after e1 e2 e3 e4 e5 e6 h =
      let no : http_error 500 "internal error" ≡ redirect url = ap (λ p. p.0) h in cc
  depart-Departed q s u settings (ok state) (ok nonce) url after e1 e2 e3 e4 e5 e6 h = record {
    state = state;
    nonce = nonce;
    settings = settings;
    upstream = u;
    is_state = e1;
    is_nonce = e2;
    is_known = e3;
    has_settings = e4;
    has_query = e5;
    has_name = e6;
    is_url = url_of (ap (λ p. p.0) (sym h));
    is_after = ap (λ p. p.1) (sym h);
  }
    where
      url_of : {a b : String} → redirect a ≡ redirect b → a ≡ b
      url_of e = cc

  with_upstream-Departed :
      (q : GoRequest) (s : Sessions) (o : Option Upstream) (url : String) (after : Sessions)
      → get_upstream store q.upstream_provider ≡ o
      → s.login_session.auth_query ≢ ""
      → q.upstream_provider ≢ ""
      → with_upstream q.upstream_provider d o s ≡ (redirect url, after)
      → Departed store d q s url after
  unfolding with_upstream with_settings
  with_upstream-Departed q s none url after e1 e2 e3 h =
      let no : http_error 404 "unknown upstream provider" ≡ redirect url = ap (λ p. p.0) h in cc
  with_upstream-Departed q s (some u) url after e1 e2 e3 h =
      go_on (o_auth2_auth_code_settings u) refl h
    where
      go_on :
          (o : Option AuthCodeSettings)
          → o_auth2_auth_code_settings u ≡ o
          → with_settings q.upstream_provider d o s ≡ (redirect url, after)
          → Departed store d q s url after
      go_on none e h' =
          let no : http_error 400 "upstream does not support external OIDC login" ≡ redirect url =
            ap (λ p. p.0) h' in
          cc
      go_on (some settings) e h' =
          depart-Departed q s u settings d.state d.nonce url after refl refl e1 e e2 e3 h'

  go-Departed :
      (q : GoRequest) (s : Sessions) (url : String) (after : Sessions)
      → handle_upstream_go store d q s ≡ (redirect url, after)
      → Departed store d q s url after
  unfolding handle_upstream_go
  go-Departed q s url after h = elim (Bool-cases (q.method == "GET")) [
    | inr g ↦ absurd (no_refusal (rw g at h))
    | inl g ↦ elim (Bool-cases (q.upstream_provider == "")) [
      | inl n ↦ absurd (no_refusal (rw (g, n) at h))
      | inr n ↦ elim (Bool-cases (s.login_session.auth_query == "")) [
        | inl a ↦ absurd (no_refusal (rw (g, n, a) at h))
        | inr a ↦
            with_upstream-Departed q s (get_upstream store q.upstream_provider) url after refl
              (λ e. ground (arith, eq_iff s.login_session.auth_query "", a, e))
              (λ e. ground (arith, eq_iff q.upstream_provider "", n, e)) (rw (g, n, a) at h)
      ]
    ]
  ]

-- A return without an error, with a code and this state.
abbrev pub Returns : CallbackRequest → String → Type 0
Returns q state = (q.method ≡ "GET") × (q.error ≡ "") × (q.code ≢ "") × (q.state ≡ state)

-- The verifier of the challenge that an address has, if it has one.
abbrev pub challenge : AuthCodeSettings → Draws → Option String
challenge settings d = if settings.supports_pkce_s256 then some d.verifier else none

trip-verifier :
    (name state nonce : String) (d : Draws) (pkce : Bool) (s : LoginSession)
    → verifier_of (remember_trip name state nonce d pkce s)
      ≡ (if pkce then some d.verifier else none)
unfolding verifier_of remember_trip
trip-verifier name state nonce d true s = refl
trip-verifier name state nonce d false s = refl

trip-check :
    (name state nonce : String) (d : Draws) (pkce : Bool) (s : LoginSession) (q : CallbackRequest)
    → name ≢ ""
    → state ≢ ""
    → s.auth_query ≢ ""
    → Returns q state
    → check_request q (remember_trip name state nonce d pkce s) ≡ passed tt
unfolding check_request remember_trip
trip-check name state nonce d pkce s q has_name has_state has_query r = ground (
  arith,
  eq_iff q.method "GET",
  eq_iff q.error "",
  eq_iff q.code "",
  eq_iff q.state "",
  eq_iff state "",
  eq_iff state q.state,
  eq_iff name "",
  eq_iff s.auth_query "",
  r.0,
  r.1,
  r.2,
  r.3,
  has_name,
  has_state,
  has_query,
)

-- What a started round trip is: the address carries the state, the nonce and the challenge that
-- were drawn, and the session that is left goes on with a return that has this state and with no
-- other, with the same nonce and upstream, and with the verifier of the challenge.
pub record IsTrip (d : Draws) (q : GoRequest) (url : String) (after : Sessions) : Type 0 where
  pub state : String
  pub nonce : String
  pub settings : AuthCodeSettings
  pub is_state : d.state ≡ ok state
  pub is_nonce : d.nonce ≡ ok nonce
  pub is_url : url ≡ d.auth_code_url settings state nonce (challenge settings d)
  pub same_nonce : after.login_session.upstream_nonce ≡ nonce
  pub same_upstream : after.login_session.upstream_provider ≡ q.upstream_provider
  pub same_verifier : verifier_of after.login_session ≡ challenge settings d
  pub goes_on :
      (back : CallbackRequest)
      → state ≢ ""
      → Returns back state
      → check_request back after.login_session ≡ passed tt
  pub no_other :
      (back : CallbackRequest)
      → check_request back after.login_session ≡ passed tt
      → back.state ≡ state

-- Where the start of an upstream login redirects the client, the round trip is a consistent one: the
-- address has the state and the nonce that were drawn and, with PKCE, the challenge of the verifier
-- that the session keeps; of the returns that the callback handles, every one with that state
-- passes the checks of the request, and none with another state does.
pub go-IsTrip :
    {R K : Type 0} (store : MemoryStore R Upstream K) (d : Draws) (q : GoRequest) (s : Sessions)
    (url : String) (after : Sessions)
    → handle_upstream_go store d q s ≡ (redirect url, after)
    → IsTrip d q url after
unfolding remember_trip
go-IsTrip store d q s url after h =
    let gone = go-Departed store d q s url after h in
    let pkce = gone.settings.supports_pkce_s256 in
    record {
      state = gone.state;
      nonce = gone.nonce;
      settings = gone.settings;
      is_state = gone.is_state;
      is_nonce = gone.is_nonce;
      is_url = gone.is_url;
      same_nonce = rw gone.is_after refl;
      same_upstream = rw gone.is_after refl;
      same_verifier =
          rw gone.is_after
            (trip-verifier q.upstream_provider gone.state gone.nonce d pkce s.login_session);
      goes_on = λ back ne r. rw gone.is_after (
          trip-check q.upstream_provider gone.state gone.nonce d pkce s.login_session back
            gone.has_name ne gone.has_query r);
      no_other = λ back passes.
          let back_of = check_request-OfSession back after.login_session passes in
          sym back_of.same_state ∙ rw gone.is_after refl;
    }
