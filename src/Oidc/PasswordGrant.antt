-- ===== src/Oidc/PasswordGrant.antt =====
-- cmd/oidc/fositepatch/flow_resource_owner.go: the grant for a name and a password. The strategies of
-- the fosite library are in the record `Library`; times and lifespans are in nanoseconds. The
-- deletion of the password from the form is left out. The claims of a user that the authenticator
-- confirms are not nil, so both tokens share one map.
pub mod Laws
pub mod Issue
pub mod Tokens
mod Tests
use Prim.Native.Nat.{◌/◌}
use kubauth.Base.{
  String, Bool, true, false, not, Option, none, some, List, [], ◌∷◌, ◌||◌, ◌==◌, ℕ, suc, ◌+◌, ◌-◌,
  ◌*◌, contains, if◌then◌else◌,
}
use kubauth.Base.Int.{ℤ, pos, negsuc}
use kubauth.Misc.Claims.{Claims}
use kubauth.Proto.{Result, ok, err}
use kubauth.Oidc.Client.{
  KubauthClient, TokenType, access_token, refresh_token, id_token, get_effective_lifespan,
}
use kubauth.Oidc.HttpProvider.{OidcUser}
use kubauth.Oidc.Storage.{MemoryStore, create_open_id_connect_session}
use kubauth.Oidc.Storage.Sessions.{create_access_token_session, create_refresh_token_session}
use kubauth.Oidc.Authorize.{
  Requester, IdTokenClaims, JwtClaims, OidcSession, Fosite, Issuing, with_azp, handle_scopes,
  handle_audience,
}

-- An access request: what it shares with the authorize request, its grant types, what its client
-- may have, and the values of its form.
pub record AccessRequest : Type 0 where
  pub requester : Requester
  pub grant_types : List String
  pub client_grant_types : List String
  pub client_scopes : List String
  pub client_audience : List String
  pub username : String
  pub password : String
  pub form_client_id : String

-- The library and its settings. `has` and `has_one_of` are `Has` and `HasOneOf` of its arguments, which
-- do not tell upper from lower case; `ExactOne` does, and is `exact_one`.
pub record Library : Type 0 where
  pub fosite : Fosite
  pub scope_strategy : List String → String → Bool
  pub audience_strategy : List String → List String → Result (Unit {0})
  pub access_token_lifespan : ℤ
  pub refresh_token_lifespan : ℤ
  pub id_token_lifespan : ℤ
  pub refresh_token_scopes : List String
  pub has : List String → String → Bool
  pub has_one_of : List String → List String → Bool

-- The server that grants: its setting for password grants, and its authenticator.
pub record Granter : Type 0 where
  pub allow_password_grant : Bool
  pub issuing : Issuing
  pub authenticate : String → String → Result (Option OidcUser)

-- The times at which the tokens expire.
pub record Expiries : Type 0 where
  pub access : ℕ
  pub refresh : Option ℕ
  pub id : Option ℕ

pub data Refusal : Type 0 where
  unknown_request request_forbidden unauthorized_client invalid_request invalid_grant : Refusal
  invalid_scope : String → Refusal
  audience_error : String → Refusal
  server_error : String → Refusal

pub data Grant : Type 0 where
  refused : Refusal → Grant
  granted : Requester → OidcSession → Expiries → Grant

-- `ExactOne` of the library's arguments.
unfoldable pub exact_one : List String → String → Bool
exact_one (s ∷ []) t = s == t
exact_one _ t = false

-- The scopes that the client may not have are refused, the first first.
unfoldable pub refused_scope : (String → Bool) → List String → Option String
refused_scope allowed [] = none
refused_scope allowed (s ∷ rest) =
    let other = refused_scope allowed rest in if allowed s then other else some s

-- The lifespan of the client, if it is one of the store, or else that of the server.
unfoldable pub lifespan_of : Option KubauthClient → TokenType → ℤ → ℤ
lifespan_of none type fallback = fallback
lifespan_of (some k) type fallback = get_effective_lifespan k type fallback

-- `Add` of a duration, and `Round` to a second.
abbrev pub rounded : ℕ → ℕ
rounded t = (t + 500000000) / 1000000000 * 1000000000

abbrev pub add_lifespan : ℕ → ℤ → ℕ
add_lifespan now (pos n) = rounded (now + n)
add_lifespan now (negsuc n) = rounded (now - suc n)

-- `rtLifespan > -1`
abbrev pub has_end : ℤ → Bool
has_end (pos n) = true
has_end (negsuc n) = false

unfoldable pub expiries_of : Library → ℕ → Option KubauthClient → List String → Expiries
unfolding lifespan_of
expiries_of lib now client scopes =
    let refresh = lifespan_of client refresh_token lib.refresh_token_lifespan in
    record {
      access = add_lifespan now (lifespan_of client access_token lib.access_token_lifespan);
      refresh = if has_end refresh then some (add_lifespan now refresh) else none;
      id =
          if lib.has scopes "openid"
          then some (add_lifespan now (lifespan_of client id_token lib.id_token_lifespan))
          else none;
    }

unfoldable pub create_session_with_user_claims :
    Fosite → Issuing → ℕ → OidcUser → String → OidcSession
create_session_with_user_claims f i now user client_id =
    let extra = with_azp f client_id user.claims in
    record {
      id_token_claims = record {
        issuer = i.issuer;
        subject = user.login;
        audience = client_id ∷ [];
        issued_at = now;
        extra = extra;
      };
      jwt_claims = record {
        issuer = i.issuer;
        subject = user.login;
        audience = client_id ∷ [];
        issued_at = now;
        expires_at = none;
        extra = extra;
      };
      kid = i.key_id;
      subject = user.login;
      username = user.login;
    }

-- What follows the check of the password.
unfoldable pub grant_to : Library → Granter → ℕ → AccessRequest → OidcUser → Grant
unfolding create_session_with_user_claims expiries_of
grant_to lib g now r user =
    let ar = handle_audience lib.fosite (handle_scopes lib.fosite r.requester) in
    granted ar (create_session_with_user_claims lib.fosite g.issuing now user r.form_client_id)
      (expiries_of lib now ar.kubauth_client ar.granted_scopes)

abbrev pub authenticated : (OidcUser → Grant) → Result (Option OidcUser) → Grant
authenticated make (err e) = refused (server_error e)
authenticated make (ok none) = refused invalid_grant
authenticated make (ok (some user)) = make user

abbrev pub if_audience : Grant → Result (Unit {0}) → Grant
if_audience next (err e) = refused (audience_error e)
if_audience next (ok _) = next

abbrev pub if_scopes : Grant → Option String → Grant
if_scopes next (some scope) = refused (invalid_scope scope)
if_scopes next none = next

unfoldable pub handle_token_endpoint_request : Library → Granter → ℕ → AccessRequest → Grant
unfolding grant_to
handle_token_endpoint_request lib g now r =
    if not (exact_one r.grant_types "password")
    then refused unknown_request
    else if not g.allow_password_grant
    then refused request_forbidden
    else if not (lib.has r.client_grant_types "password")
    then refused unauthorized_client
    else if_scopes
        (if_audience
          (if r.username == "" || r.password == ""
            then refused invalid_request
            else authenticated (grant_to lib g now r) (g.authenticate r.username r.password))
          (lib.audience_strategy r.client_audience r.requester.requested_audience))
        (refused_scope (lib.scope_strategy r.client_scopes) r.requester.requested_scopes)
