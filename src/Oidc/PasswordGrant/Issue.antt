-- ===== src/Oidc/PasswordGrant/Issue.antt =====
-- The tokens of a password grant: `PopulateTokenEndpointResponse` and `IssueAccessToken` of
-- cmd/oidc/fositepatch/flow_resource_owner.go. The generators of the library are the record
-- `Generators`.
use kubauth.Base.{
  String, Bool, true, false, not, Option, none, some, List, [], ◌∷◌, ◌||◌, ◌==◌, if◌then◌else◌,
}
use kubauth.Proto.{Result, ok, err}
use kubauth.Oidc.Storage.{MemoryStore, create_open_id_connect_session}
use kubauth.Oidc.Storage.Sessions.{create_access_token_session, create_refresh_token_session}
use kubauth.Oidc.Authorize.{Requester, OidcSession}
use kubauth.Oidc.PasswordGrant.{AccessRequest, Library, exact_one}

-- The token generators of the library, each with the signature under which a token is stored.
pub record Generators : Type 0 where
  pub access : Requester → OidcSession → Result (String × String)
  pub refresh : Requester → OidcSession → Result (String × String)
  pub id : Requester → OidcSession → Result String

-- The tokens of a response; the lifespan that it tells is left out.
pub record Response : Type 0 where
  pub access_token : String
  pub scopes : List String
  pub refresh_token : Option String
  pub id_token : Option String

abbrev pub is_empty : List String → Bool
is_empty [] = true
is_empty (s ∷ rest) = false

unfoldable pub wants_refresh : Library → List String → Bool
wants_refresh lib granted_scopes =
    is_empty lib.refresh_token_scopes || lib.has_one_of granted_scopes lib.refresh_token_scopes

-- A refresh token that is the empty text is not told.
abbrev pub told : String → Option String
told token = if token == "" then none else some token

module _ {R U K : Type 0} (get_id : R → String) where
  -- A failure keeps what was stored before it.
  unfoldable pub store_refresh :
      MemoryStore R U K
      → String
      → R
      → Result (String × String)
      → MemoryStore R U K × Result (Option String)
  store_refresh store access_signature req (err e) = (store, err e)
  store_refresh store access_signature req (ok (token, signature)) =
      (create_refresh_token_session get_id store signature access_signature req, ok (told token))

  unfoldable pub add_refresh :
      Bool
      → MemoryStore R U K
      → String
      → R
      → Result (String × String)
      → MemoryStore R U K × Result (Option String)
  unfolding store_refresh
  add_refresh false store access_signature req generated = (store, ok none)
  add_refresh true store access_signature req generated =
      store_refresh store access_signature req generated

  unfoldable pub store_id :
      MemoryStore R U K → String → R → Result String → MemoryStore R U K × Result (Option String)
  store_id store access_signature req (err e) = (store, err e)
  store_id store access_signature req (ok token) =
      (create_open_id_connect_session store access_signature req, ok (some token))

  unfoldable pub add_id :
      Bool
      → MemoryStore R U K
      → String
      → R
      → Result String
      → MemoryStore R U K × Result (Option String)
  unfolding store_id
  add_id false store access_signature req generated = (store, ok none)
  add_id true store access_signature req generated = store_id store access_signature req generated

  -- The ID token, behind the access and the refresh token.
  unfoldable pub with_id :
      Library
      → Generators
      → Requester
      → OidcSession
      → R
      → String
      → String
      → MemoryStore R U K × Result (Option String)
      → MemoryStore R U K × Result Response
  unfolding add_id
  with_id lib gen ar session req token signature (store, err e) = (store, err e)
  with_id lib gen ar session req token signature (store, ok refresh) =
      let out =
        add_id (lib.has ar.granted_scopes "openid") store signature req (gen.id ar session) in
      (
        out.0,
        elim out.1 [
          | err e ↦ err e
          | ok id ↦ ok (record {
            access_token = token;
            scopes = ar.granted_scopes;
            refresh_token = refresh;
            id_token = id;
          })
        ],
      )

  unfoldable pub with_refresh :
      Library
      → Generators
      → MemoryStore R U K
      → Requester
      → OidcSession
      → R
      → Result (String × String)
      → MemoryStore R U K × Result Response
  unfolding add_refresh with_id wants_refresh
  with_refresh lib gen store ar session req (err e) = (store, err e)
  with_refresh lib gen store ar session req (ok (token, signature)) =
      with_id lib gen ar session req token signature (
        add_refresh (wants_refresh lib ar.granted_scopes)
          (create_access_token_session get_id store signature req) signature req
          (gen.refresh ar session))

  -- `PopulateTokenEndpointResponse`; `req` is the sanitized requester.
  unfoldable pub populate_token_endpoint_response :
      Library
      → Generators
      → MemoryStore R U K
      → AccessRequest
      → Requester
      → OidcSession
      → R
      → MemoryStore R U K × Result Response
  unfolding with_refresh
  populate_token_endpoint_response lib gen store r ar session req =
      if not (exact_one r.grant_types "password")
      then (store, err "unknown request")
      else with_refresh lib gen store ar session req (gen.access ar session)
