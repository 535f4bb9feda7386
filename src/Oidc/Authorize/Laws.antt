-- ===== src/Oidc/Authorize/Laws.antt =====
-- What cmd/oidc/fositepatch/scopehandler.go grants, and whom a session is for.
use kubauth.Base.{◌≡◌, refl, String, some, List, [], ◌∷◌, ◌==◌, ◌||◌, ◌&&◌, ℕ, contains, arith}
use kubauth.Proto.{Result, ok, err}
use kubauth.Oidc.HttpProvider.{OidcUser}
use kubauth.Oidc.Authorize.{
  Requester, Fosite, Issuing, Answer, OidcSession, authorize_error, authorize_response, grant_all,
  forces_open_id, handle_scopes, audience_of, handle_audience, with_azp, new_session, respond,
  complete_request, rebuild, internal_error,
}

-- Granting adds to what is granted, as a set.
abbrev pub Adds : (List String → String → List String) → Type 0
Adds grant = (xs : List String) (s t : String) → contains (grant xs s) t ≡ (contains xs t || s == t)

contains-grant_all :
    (grant : List String → String → List String) (adds : Adds grant)
    (granted requested : List String) (t : String)
    → contains (grant_all grant granted requested) t ≡ (contains granted t || contains requested t)
unfolding grant_all
contains-grant_all grant adds granted [] t = ground arith
contains-grant_all grant adds granted (s ∷ rest) t =
    ground (arith, adds granted s t, contains-grant_all grant adds (grant granted s) rest t)

-- The audience that a request stands for: the client, if it asks for none.
abbrev pub asked_audience : String → List String → List String
asked_audience client_id [] = client_id ∷ []
asked_audience client_id (a ∷ rest) = a ∷ rest

module _ (f : Fosite) (scopes_add : Adds f.grant_scope)
    (audience_adds : Adds f.grant_audience) where
  contains-audience_of :
      (client_id : String) (granted requested : List String) (t : String)
      → contains (audience_of f client_id granted requested) t
        ≡ (contains granted t || contains (asked_audience client_id requested) t)
  unfolding audience_of
  contains-audience_of client_id granted [] t = ground (arith, audience_adds granted client_id t)
  contains-audience_of client_id granted (a ∷ rest) t =
      contains-grant_all f.grant_audience audience_adds granted (a ∷ rest) t

  -- The request is granted the scopes that it had and asked for, and "openid" if the client
  -- forces it; and the audience that it had and asked for, or the client itself if it asked for
  -- none.
  pub grants_lem :
      (ar : Requester) (t : String)
      → (contains (handle_audience f (handle_scopes f ar)).granted_scopes t ≡ (
          contains ar.granted_scopes t
          || (contains ar.requested_scopes t
              || (forces_open_id ar.kubauth_client && "openid" == t))))
        × (contains (handle_audience f (handle_scopes f ar)).granted_audience t ≡ (
            contains ar.granted_audience t
            || contains (asked_audience ar.client_id ar.requested_audience) t))
  unfolding handle_scopes handle_audience
  grants_lem ar t =
      let granted = grant_all f.grant_scope ar.granted_scopes ar.requested_scopes in
      let all =
        contains-grant_all f.grant_scope scopes_add ar.granted_scopes ar.requested_scopes t in
      (
        ground (arith, all, scopes_add granted "openid" t),
        contains-audience_of ar.client_id ar.granted_audience ar.requested_audience t,
      )

-- A response is one for the user: the session has the login and the claims.
pub record IsFor (f : Fosite) (user : OidcUser) (client_id : String) (session : OidcSession)
    : Type 0 where
  pub subject : session.subject ≡ user.login
  pub id_subject : session.id_token_claims.subject ≡ user.login
  pub jwt_subject : session.jwt_claims.subject ≡ user.login
  pub id_claims : session.id_token_claims.extra ≡ with_azp f client_id user.claims
  pub jwt_claims : session.jwt_claims.extra ≡ with_azp f client_id user.claims

-- What a response says.
abbrev pub AnswersFor : Fosite → OidcUser → String → Answer → Type 0
AnswersFor f user client_id internal_error = Unit
AnswersFor f user client_id (authorize_error text) = Unit
AnswersFor f user client_id (authorize_response ar session text) = IsFor f user client_id session

new_session-IsFor :
    (f : Fosite) (i : Issuing) (now : ℕ) (user : OidcUser) (client_id : String)
    → IsFor f user client_id (new_session f i now (some user) client_id)
unfolding new_session
new_session-IsFor f i now user client_id = record {
  subject = refl;
  id_subject = refl;
  jwt_subject = refl;
  id_claims = refl;
  jwt_claims = refl;
}

respond-AnswersFor :
    (f : Fosite) (user : OidcUser) (client_id : String) (ar : Requester) (session : OidcSession)
    (r : Result String)
    → IsFor f user client_id session
    → AnswersFor f user client_id (respond f ar session r)
unfolding respond
respond-AnswersFor f user client_id ar session (ok response) h = h
respond-AnswersFor f user client_id ar session (err e) h = tt

pub complete_request-AnswersFor :
    (f : Fosite) (i : Issuing) (now : ℕ) (user : OidcUser) (client_id : String)
    (r : Result Requester)
    → AnswersFor f user client_id (complete_request f i now user client_id r).0
      × ((complete_request f i now user client_id r).1.login ≡ user.login)
unfolding complete_request
complete_request-AnswersFor f i now user client_id (err e) = (tt, refl)
complete_request-AnswersFor f i now user client_id (ok parsed) = (
  respond-AnswersFor f user client_id (handle_audience f (handle_scopes f parsed))
      (new_session f i now (some user) client_id)
      (f.new_authorize_response (handle_audience f (handle_scopes f parsed))
        (new_session f i now (some user) client_id))
      (new_session-IsFor f i now user client_id),
  refl,
)

pub rebuild-AnswersFor :
    (f : Fosite) (i : Issuing) (now : ℕ) (raw_query : String) (user : OidcUser) (client_id : String)
    (r : Result (Unit {0}))
    → AnswersFor f user client_id (rebuild f i now raw_query user client_id r).0
      × ((rebuild f i now raw_query user client_id r).1.login ≡ user.login)
unfolding rebuild
rebuild-AnswersFor f i now raw_query user client_id (err e) = (tt, refl)
rebuild-AnswersFor f i now raw_query user client_id (ok _) =
    complete_request-AnswersFor f i now user client_id (f.new_authorize_request raw_query)
