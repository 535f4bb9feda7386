-- ===== src/Oidc/PasswordGrant/Tests.antt =====
-- A password that is exchanged for tokens.
use kubauth.Base.{
  ◌≡◌, refl, inl, inr, Bool, List, ◌||◌, String, true, false, none, some, [], ◌∷◌, ◌==◌, ◌<>◌,
  if◌then◌else◌,
}
use kubauth.Base.Int.{pos}
use kubauth.Misc.Claims.{str, put, claim, no_claims}
use kubauth.Proto.{ok}
use kubauth.Oidc.HttpProvider.{OidcUser}
use kubauth.Oidc.Storage.{new_memory_store}
use kubauth.Oidc.Authorize.{Requester, OidcSession, Fosite, Issuing}
use kubauth.Oidc.PasswordGrant.{
  AccessRequest, Library, Granter, grant_to, exact_one, create_session_with_user_claims,
  handle_token_endpoint_request,
}
use kubauth.Oidc.PasswordGrant.Issue.{Generators, populate_token_endpoint_response}
use kubauth.Oidc.PasswordGrant.Laws.{Granted, Accepted, password_grant_lem}
use kubauth.Oidc.PasswordGrant.Tokens.{Stores, populate-Stores}

abbrev requester : Requester
requester = record {
  client_id = "app";
  kubauth_client = none;
  requested_scopes = "openid" ∷ [];
  requested_audience = [];
  granted_scopes = "OpenID" ∷ [];
  granted_audience = [];
}

abbrev fosite : Fosite
fosite = record {
  grant_scope = λ xs s. s ∷ xs;
  grant_audience = λ xs s. s ∷ xs;
  add_claim = put;
  new_request = λ raw. ok tt;
  new_authorize_request = λ raw. ok requester;
  new_authorize_response = λ ar session. ok "code";
  client_id_of = λ raw. "app";
  parse_client_id = λ raw. ok "app";
}

-- Equal up to the case of the letters, for the names that are tried.
abbrev lower : String → String
lower s = if s == "OpenID" then "openid" else if s == "Password" then "password" else s

abbrev has : List String → String → Bool
has [] t = false
has (s ∷ rest) t = lower s == lower t || has rest t

abbrev has_one_of : List String → List String → Bool
has_one_of scopes [] = false
has_one_of scopes (t ∷ rest) = has scopes t || has_one_of scopes rest

abbrev library : Library
library = record {
  fosite = fosite;
  scope_strategy = λ scopes s. true;
  audience_strategy = λ mine asked. ok tt;
  access_token_lifespan = pos 3600;
  refresh_token_lifespan = pos 3600;
  id_token_lifespan = pos 3600;
  refresh_token_scopes = "offline_access" ∷ [];
  has = has;
  has_one_of = has_one_of;
}

abbrev issuing : Issuing
issuing = record { issuer = "https://issuer"; key_id = "k1"; access_token_lifespan = 3600 }

abbrev alice : OidcUser
alice = record { login = "alice"; claims = claim "team" (str "dev") no_claims; full_name = "Alice" }

abbrev server : Granter
server = record {
  allow_password_grant = true;
  issuing = issuing;
  authenticate = λ login password. if password == "secret" then ok (some alice) else ok none;
}

abbrev request : AccessRequest
request = record {
  requester = requester;
  grant_types = "password" ∷ [];
  client_grant_types = "Password" ∷ [];
  client_scopes = "openid" ∷ [];
  client_audience = [];
  username = "alice";
  password = "secret";
  form_client_id = "app";
}

password_grant_lem_example :
    Accepted library server 1000 request (handle_token_endpoint_request library server 1000 request)
    × ((user : OidcUser)
        → Granted library server request user
        → handle_token_endpoint_request library server 1000 request
          ≡ grant_to library server 1000 request user)
password_grant_lem_example = password_grant_lem library server 1000 request

abbrev session : OidcSession
session = create_session_with_user_claims fosite issuing 1000 alice "app"

abbrev generators : Generators
generators = record {
  access = λ ar s. ok ("access." <> s.subject, s.subject);
  refresh = λ ar s. ok ("refresh." <> s.subject, "r-" <> s.subject);
  id = λ ar s. ok ("id." <> s.subject);
}

is_password : exact_one request.grant_types "password" ≡ true
unfolding exact_one
is_password = refl

makes_access : generators.access requester session ≡ ok ("access.alice", "alice")
unfolding create_session_with_user_claims
makes_access = refl

makes_refresh : generators.refresh requester session ≡ ok ("refresh.alice", "r-alice")
unfolding create_session_with_user_claims
makes_refresh = refl

makes_id : generators.id requester session ≡ ok "id.alice"
unfolding create_session_with_user_claims
makes_id = refl

populate-Stores_example :
    Stores {U = Unit {0}} {K = Unit {0}}
      (λ (id : String). id)
      library
      new_memory_store
      requester
      "req-1"
      "access.alice"
      "alice"
      "refresh.alice"
      "r-alice"
      "id.alice"
      false
      (populate_token_endpoint_response
        (λ (id : String). id)
        library
        generators
        new_memory_store
        request
        requester
        session
        "req-1")
populate-Stores_example =
    populate-Stores (λ (id : String). id) library generators new_memory_store request requester
      session "req-1" "access.alice" "alice" "refresh.alice" "r-alice" "id.alice" is_password
      makes_access makes_refresh makes_id false (λ t. cc, λ a. elim a [ inl e ↦ cc | inr e ↦ cc ])
