-- ===== src/Oidc/Authorize.antt =====
-- The answer to an authorize request: cmd/oidc/fositepatch/scopehandler.go, `newSession` of
-- cmd/oidc/oidcserver/oidcserver.go and cmd/oidc/oidcserver/upstream-complete.go. The fosite library is
-- the record `Fosite`. A nil map of claims is the empty one.
pub mod Laws
use kubauth.Base.{
  String, Bool, true, false, Option, none, some, List, [], ◌∷◌, ◌<>◌, ◌==◌, ℕ, ◌+◌, if◌then◌else◌,
}
use kubauth.Misc.Claims.{Value, str, Claims, no_claims}
use kubauth.Proto.{Result, ok, err}
use kubauth.Oidc.Client.{KubauthClient, is_force_open_id_scope}
use kubauth.Oidc.HttpProvider.{OidcUser}

-- A requester, as the code uses it. The client is one of the store or another one.
pub record Requester : Type 0 where
  pub client_id : String
  pub kubauth_client : Option KubauthClient
  pub requested_scopes : List String
  pub requested_audience : List String
  pub granted_scopes : List String
  pub granted_audience : List String

pub record IdTokenClaims : Type 0 where
  pub issuer : String
  pub subject : String
  pub audience : List String
  pub issued_at : ℕ
  pub extra : Claims

pub record JwtClaims : Type 0 where
  pub issuer : String
  pub subject : String
  pub audience : List String
  pub issued_at : ℕ
  pub expires_at : Option ℕ
  pub extra : Claims

-- `OIDCSession`, without the times of expiry that the library sets. `issued_at` is the time of the
-- request and of the authentication, too.
pub record OidcSession : Type 0 where
  pub id_token_claims : IdTokenClaims
  pub jwt_claims : JwtClaims
  pub kid : String
  pub subject : String
  pub username : String

-- The library: how a scope or an audience is granted, `Add` on claims, the parts of the answer to
-- an authorize request. With the library, Go's `net/url` on the key "client_id": of a query that may
-- have faults, and of one that may have none.
pub record Fosite : Type 0 where
  pub grant_scope : List String → String → List String
  pub grant_audience : List String → String → List String
  pub add_claim : String → Value → Claims → Claims
  pub new_request : String → Result (Unit {0})
  pub new_authorize_request : String → Result Requester
  pub new_authorize_response : Requester → OidcSession → Result String
  pub client_id_of : String → String
  pub parse_client_id : String → Result String

-- The settings that a session takes from the server.
pub record Issuing : Type 0 where
  pub issuer : String
  pub key_id : String
  pub access_token_lifespan : ℕ

-- A response for a session, or an error; `internal_error` is the one without the library.
pub data Answer : Type 0 where
  internal_error : Answer
  authorize_error : String → Answer
  authorize_response : Requester → OidcSession → String → Answer

-- A loop that grants.
unfoldable pub grant_all :
    (List String → String → List String) → List String → List String → List String
grant_all grant granted [] = granted
grant_all grant granted (s ∷ rest) = grant_all grant (grant granted s) rest

unfoldable pub forces_open_id : Option KubauthClient → Bool
forces_open_id none = false
forces_open_id (some k) = is_force_open_id_scope k

module _ (f : Fosite) where
  unfoldable pub handle_scopes : Requester → Requester
  unfolding grant_all forces_open_id
  handle_scopes ar =
      let granted = grant_all f.grant_scope ar.granted_scopes ar.requested_scopes in
      record ar {
        granted_scopes =
            if forces_open_id ar.kubauth_client then f.grant_scope granted "openid" else granted;
      }

  -- The audience, given the one that is requested.
  unfoldable pub audience_of : String → List String → List String → List String
  unfolding grant_all
  audience_of client_id granted [] = f.grant_audience granted client_id
  audience_of client_id granted (a ∷ rest) = grant_all f.grant_audience granted (a ∷ rest)

  unfoldable pub handle_audience : Requester → Requester
  unfolding audience_of
  handle_audience ar = record ar {
    granted_audience = audience_of ar.client_id ar.granted_audience ar.requested_audience;
  }

  -- The claims of a user with the client: the map that both tokens and the user share.
  unfoldable pub with_azp : String → Claims → Claims
  with_azp client_id extra =
      if client_id == "" then extra else f.add_claim "azp" (str client_id) extra

  abbrev pub login_of : Option OidcUser → String
  login_of none = ""
  login_of (some user) = user.login

  abbrev pub claims_of : Option OidcUser → Claims
  claims_of none = no_claims
  claims_of (some user) = user.claims

  unfoldable pub new_session : Issuing → ℕ → Option OidcUser → String → OidcSession
  unfolding with_azp
  new_session i now user client_id =
      let subject = login_of user in
      let extra = with_azp client_id (claims_of user) in
      record {
        id_token_claims = record {
          issuer = i.issuer;
          subject = subject;
          audience = client_id ∷ [];
          issued_at = now;
          extra = extra;
        };
        jwt_claims = record {
          issuer = i.issuer;
          subject = subject;
          audience = client_id ∷ [];
          issued_at = now;
          expires_at = some (now + i.access_token_lifespan);
          extra = extra;
        };
        kid = i.key_id;
        subject = subject;
        username = subject;
      }

  -- The answer of the library for a request that it has parsed.
  unfoldable pub respond : Requester → OidcSession → Result String → Answer
  respond ar session (err e) = authorize_error e
  respond ar session (ok response) = authorize_response ar session response

  -- Scopes, audience, session and response, and the user, whose claims the session has changed.
  unfoldable pub complete_request :
      Issuing → ℕ → OidcUser → String → Result Requester → Answer × OidcUser
  unfolding handle_scopes handle_audience new_session respond
  complete_request i now user client_id (err e) = (authorize_error e, user)
  complete_request i now user client_id (ok parsed) =
      let ar = handle_audience (handle_scopes parsed) in
      let session = new_session i now (some user) client_id in
      (
        respond ar session (f.new_authorize_response ar session),
        record user { claims = with_azp client_id user.claims },
      )

  unfoldable pub rebuild :
      Issuing → ℕ → String → OidcUser → String → Result (Unit {0}) → Answer × OidcUser
  unfolding complete_request
  rebuild i now raw_query user client_id (err e) = (internal_error, user)
  rebuild i now raw_query user client_id (ok _) =
      complete_request i now user client_id (f.new_authorize_request raw_query)

  abbrev value_or_empty : Result String → String
  value_or_empty (ok s) = s
  value_or_empty (err e) = ""

  -- `clientIDFromRawQuery`
  unfoldable pub client_id_from_raw_query : String → String
  client_id_from_raw_query raw_query =
      if raw_query == "" then "" else value_or_empty (f.parse_client_id raw_query)

  -- `completeUpstreamAuthorize`
  unfoldable pub complete_upstream_authorize : Issuing → ℕ → String → OidcUser → Answer × OidcUser
  unfolding rebuild client_id_from_raw_query
  complete_upstream_authorize i now raw_query user =
      rebuild i now raw_query user (client_id_from_raw_query raw_query) (f.new_request raw_query)
