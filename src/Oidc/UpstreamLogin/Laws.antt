-- ===== src/Oidc/UpstreamLogin/Laws.antt =====
-- Whom cmd/oidc/oidcserver/handle-upstream-callback.go lets in.
use kubauth.Base.{
  ◌≡◌, ◌≢◌, refl, sym, ◌∙◌, String, Bool, true, false, List, [], ◌∷◌, ◌++◌, ◌==◌, ℕ, ◌+◌, arith,
  if◌then◌else◌,
}
use kubauth.Misc.Claims.{Claims, get}
use kubauth.Oidc.HttpProvider.{OidcUser}
use kubauth.Oidc.UpstreamLogin.{
  text_of, mapped_claims, user_of, forget, settle, admit, check, conclude, handle_upstream_callback,
  CallbackRequest, LoginSession, Sessions, UpstreamProvider, SsoMode, Server, Reply, Checked,
  sso_never, sso_on_demand, sso_always, http_error, redirect, complete, refused, passed,
}
use kubauth.Oidc.UpstreamLogin.Checks.{Verified, check-Verified}

-- Is the client let in, by the answer to its authorize request or to the page that will give it?
abbrev pub lets_in : List Reply → Bool
lets_in [] = false
lets_in (http_error code text ∷ rs) = lets_in rs
lets_in (redirect to ∷ rs) = true
lets_in (complete query user ∷ rs) = true

lets_in-append : (rs ss : List Reply) → lets_in ss ≡ true → lets_in (rs ++ ss) ≡ true
lets_in-append [] ss h = h
lets_in-append (http_error code text ∷ rs) ss h = lets_in-append rs ss h
lets_in-append (redirect to ∷ rs) ss h = refl
lets_in-append (complete query user ∷ rs) ss h = refl

settle-lets_in :
    (mode : SsoMode) (user : OidcUser) (s : Sessions)
    → (lets_in (settle mode user s).0 ≡ true)
      × ((settle mode user s).1.login_session.upstream_state ≡ s.login_session.upstream_state)
unfolding settle
settle-lets_in sso_never user s = (refl, refl)
settle-lets_in sso_on_demand user s = (refl, refl)
settle-lets_in sso_always user s = (refl, refl)

admit-lets_in :
    (server : Server) (u : UpstreamProvider) (c : Claims) (s : Sessions)
    → (lets_in (admit server u c s).0 ≡ true)
      × ((admit server u c s).1.login_session.upstream_state ≡ "")
unfolding admit forget
admit-lets_in server u c s =
    let id_claims = mapped_claims u c in
    let sub = text_of (get "sub" id_claims) in
    let missing : List Reply = if sub == "" then http_error 502 "Missing sub claim" ∷ [] else [] in
    let found = user_of server u sub id_claims in
    let after : Sessions = record s {
      login_session = forget s.login_session;
      renewals = s.renewals + 1;
    } in
    let st = settle-lets_in server.sso_mode found.1 after in
    (
      lets_in-append missing (found.0 ++ (settle server.sso_mode found.1 after).0)
          (lets_in-append found.0 (settle server.sso_mode found.1 after).0 st.0),
      st.1,
    )

-- A session without a state has no callback.
check-no_state :
    (server : Server) (q : CallbackRequest) (s : LoginSession)
    → s.upstream_state ≡ ""
    → (b : UpstreamProvider × Claims) → check server q s ≢ passed b
check-no_state server q s e b h =
    let back = (check-Verified server q s b h).of_session in
    back.has_state (sym back.same_state ∙ e)

conclude-refused :
    (server : Server) (o : Checked (UpstreamProvider × Claims)) (s : Sessions)
    → ((b : UpstreamProvider × Claims) → o ≢ passed b)
    → lets_in (conclude server o s).0 ≡ false
unfolding conclude
conclude-refused server (refused code text) s h = refl
conclude-refused server (passed b) s h = elim (h b refl) [ ]

-- What the theorem says of an outcome of the checks.
abbrev Fate : Server → CallbackRequest → Sessions → List Reply × Sessions → Type 0
Fate server q s out =
    (lets_in out.0 ≡ true
      → Verified server q s.login_session
        × ((again : CallbackRequest)
            → lets_in (handle_upstream_callback server again out.1).0 ≡ false))
    × (lets_in out.0 ≡ false
        → (out.1 ≡ s) × ((code : ℕ) × (text : String) × (out.0 ≡ http_error code text ∷ [])))

conclude-Fate :
    (server : Server) (q : CallbackRequest) (s : Sessions) (o : Checked (UpstreamProvider × Claims))
    → check server q s.login_session ≡ o
    → Fate server q s (conclude server o s)
unfolding conclude handle_upstream_callback
conclude-Fate server q s (refused code text) e = (λ h. cc, λ h. (refl, (code, text, refl)))
conclude-Fate server q s (passed (u, c)) e =
    let a = admit-lets_in server u c s in
    (
      λ h. (
        check-Verified server q s.login_session (u, c) e,
        λ again.
            conclude-refused server (check server again (admit server u c s).1.login_session)
              (admit server u c s).1
              (check-no_state server again (admit server u c s).1.login_session a.1),
      ),
      λ h. ground (arith, a.0, h),
    )

-- The return from an upstream provider lets a client in only if the request is a GET without an
-- error whose state is that of the session, the upstream of the session is known and configured,
-- the exchange of the code succeeds and an ID token, if there is one, is verified and has the
-- nonce of the session. No second request can use the session that this leaves.
pub callback_lets_in :
    (server : Server) (q : CallbackRequest) (s : Sessions)
    → lets_in (handle_upstream_callback server q s).0 ≡ true
    → Verified server q s.login_session
      × ((again : CallbackRequest)
          → lets_in
              (handle_upstream_callback server again (handle_upstream_callback server q s).1).0
            ≡ false)
unfolding handle_upstream_callback
callback_lets_in server q s = (conclude-Fate server q s (check server q s.login_session) refl).0

-- A return from an upstream provider that does not let the client in is answered by one error and
-- leaves the sessions as they are.
pub callback_refuses :
    (server : Server) (q : CallbackRequest) (s : Sessions)
    → lets_in (handle_upstream_callback server q s).0 ≡ false
    → ((handle_upstream_callback server q s).1 ≡ s)
      × ((code : ℕ) × (text : String) × ((handle_upstream_callback server q s).0
            ≡ http_error code text ∷ []))
unfolding handle_upstream_callback
callback_refuses server q s = (conclude-Fate server q s (check server q s.login_session) refl).1

-- Where the checks pass but the claims have no "sub" after the renaming and the cleanup, the
-- handler writes the error for it and then lets the client in all the same.
pub callback_missing_sub :
    (server : Server) (q : CallbackRequest) (s : Sessions) (u : UpstreamProvider) (c : Claims)
    → check server q s.login_session ≡ passed (u, c)
    → text_of (get "sub" (mapped_claims u c)) ≡ ""
    → (rest : List Reply) × ((handle_upstream_callback server q s).0
        ≡ http_error 502 "Missing sub claim" ∷ rest)
      × (lets_in rest ≡ true)
unfolding handle_upstream_callback
callback_missing_sub server q s u c e none_there =
    rw (e, conclude, admit, none_there)
      (let id_claims = mapped_claims u c in
        let found = user_of server u "" id_claims in
        let after : Sessions = record s {
          login_session = forget s.login_session;
          renewals = s.renewals + 1;
        } in
        (
          found.0 ++ (settle server.sso_mode found.1 after).0,
          refl,
          lets_in-append found.0 (settle server.sso_mode found.1 after).0
              (settle-lets_in server.sso_mode found.1 after).0,
        ))
