-- ===== src/Oidc/Tests.antt =====
-- Runs of cmd/oidc. A requester is its identifier.
use kubauth.Base.{
  ◌≡◌, ◌≢◌, refl, eq_iff, arith, String, true, false, none, some, List, [], ◌∷◌, ◌&&◌, ℕ, ◌<◌,
  lookup, if◌then◌else◌, ◌==◌,
}
use kubauth.Base.Int.{pos}
use kubauth.Misc.Claims.{str, Claims, no_claims, claim, get}
use kubauth.Proto.{Result, ok, err, password_checked, init_user, IdentityRequest, IdentityResponse}
use kubauth.Oidc.Client.{KubauthClient, OidcClientSpec}
use kubauth.Oidc.Storage.{
  purge, get_kubauth_client, set_client, set_client_assertion_jwt, is_jwt_used, MemoryStore,
  not_found, invalidated_authorize_code, inactive_token, jti_known, client_duplication,
}
use kubauth.Oidc.Storage.Sessions.{
  create_authorize_code_session, get_authorize_code_session, invalidate_authorize_code_session,
  get_access_token_session, create_refresh_token_session, get_refresh_token_session,
  rotate_refresh_token,
}
use kubauth.Oidc.Storage.Steps.{
  run, Op, delete_up, set_jwt, create_code, invalidate, create_pkce, create_access,
  revoke_refresh_of, rotate,
}
use kubauth.Oidc.Storage.Codes.{code_single_use}
use kubauth.Oidc.Storage.Rotation.{refresh_token_rotation}
use kubauth.Oidc.Storage.Clients.{client_ownership}
use kubauth.Oidc.Storage.Assertions.{assertion_used_once}
use kubauth.Oidc.HttpProvider.{identify}
use kubauth.Oidc.HttpProvider.Identity.{is_list, Describes, identify-Describes}
use kubauth.Oidc.Upstream.{ClaimRenamingSpec, copy, rename, perform_renaming}
use kubauth.Oidc.Upstream.Laws.{by_rules, perform_renaming_lem}

abbrev get_id : String → String
get_id r = r

abbrev empty_store : MemoryStore String String String
empty_store = record {
  clients = [];
  authorize_codes = [];
  id_sessions = [];
  access_tokens = [];
  refresh_tokens = [];
  pkces = [];
  blacklisted_jtis = [];
  access_token_request_ids = [];
  refresh_token_request_ids = [];
  issuer_public_keys = [];
  par_sessions = [];
  upstreams = [];
}

other_code : ◌≢◌ {A = String} "other" "code"
other_code e = ground (arith, eq_iff "other" "code", e)

code_single_use_example :
    let before : List (Op String String) =
      create_code "other" "r2" ∷ create_pkce "code" "r1" ∷ [] in
    let after : List (Op String String) = invalidate "code" ∷ [] in
    let stored = run get_id before (create_authorize_code_session empty_store "code" "r1") in
    let used = invalidate_authorize_code_session stored "code" in
    (get_authorize_code_session stored "code" ≡ (some "r1", none))
    × (used.1 ≡ none)
    × (get_authorize_code_session (run get_id after used.0) "code"
        ≡ (some "r1", some invalidated_authorize_code))
code_single_use_example =
    code_single_use get_id "code" "r1" empty_store
      (create_code "other" "r2" ∷ create_pkce "code" "r1" ∷ []) (invalidate "code" ∷ [])
      (other_code, (tt, tt)) ((λ e. ground (arith, e)), tt)

no_token : (j : String) → lookup j empty_store.refresh_token_request_ids ≢ some "t1"
unfolding lookup
no_token j e = cc

r2_not_r1 : ◌≢◌ {A = String} "r2" "r1"
r2_not_r1 e = ground (arith, eq_iff "r2" "r1", e)

refresh_token_rotation_example :
    let before : List (Op String String) = create_access "a1" "r1" ∷ rotate "r2" ∷ [] in
    let after : List (Op String String) = revoke_refresh_of "r1" ∷ [] in
    let stored =
      run get_id before (create_refresh_token_session get_id empty_store "t1" "a1" "r1") in
    let rotated = rotate_refresh_token stored "r1" in
    (get_refresh_token_session stored "t1" ≡ (some "r1", none))
    × (rotated.1 ≡ none)
    × ((a : String)
        → lookup "r1" stored.access_token_request_ids ≡ some a
        → get_access_token_session rotated.0 a ≡ (none, some not_found))
    × (get_refresh_token_session (run get_id after rotated.0) "t1"
        ≡ (some "r1", some inactive_token))
refresh_token_rotation_example =
    refresh_token_rotation get_id "t1" "a1" "r1" empty_store
      (create_access "a1" "r1" ∷ rotate "r2" ∷ []) (revoke_refresh_of "r1" ∷ []) no_token
      (tt, (r2_not_r1, tt)) (tt, tt)

abbrev client_spec : OidcClientSpec
client_spec = record {
  enabled = none;
  secrets = none;
  public = false;
  redirect_uris = "https://app/cb" ∷ [];
  grant_types = "authorization_code" ∷ [];
  response_types = "code" ∷ [];
  scopes = "openid" ∷ [];
  audiences = "api" ∷ [];
  force_open_id_scope = none;
  access_token_lifespan = pos 0;
  refresh_token_lifespan = pos 0;
  id_token_lifespan = pos 0;
  style = "";
  post_logout_url = "";
  display_name = "";
  entry_url = "";
  client_id = "";
  upstream_providers = [];
}

abbrev client_of : String → KubauthClient
client_of k8s_id = record {
  client_id = "app";
  spec = client_spec;
  hashed_secrets = [];
  k8s_id = k8s_id;
}

set_first : (set_client empty_store (client_of "ns:a")).1 ≡ none
unfolding set_client lookup
set_first = refl

client_ownership_example :
    let ops : List (Op String String) = delete_up "x" ∷ [] in
    let later = run get_id ops (set_client empty_store (client_of "ns:a")).0 in
    (◌≢◌ {A = String} "ns:a" "ns:b"
      → set_client later (client_of "ns:b") ≡ (later, some (client_duplication "ns:a")))
    × (◌≡◌ {A = String} "ns:a" "ns:b"
        → ((set_client later (client_of "ns:b")).1 ≡ none)
          × (get_kubauth_client (set_client later (client_of "ns:b")).0 "app"
              ≡ (some (client_of "ns:b"), none)))
client_ownership_example =
    client_ownership get_id (client_of "ns:a") (client_of "ns:b") empty_store (delete_up "x" ∷ [])
      set_first (tt, tt) refl

abbrev at : ℕ → String → ℕ
at now jti = now

set_jti : (set_client_assertion_jwt empty_store (at 1) "j" 10).1 ≡ none
unfolding set_client_assertion_jwt purge lookup
set_jti = refl

assertion_used_once_example :
    let ops : List (Op String String) = set_jwt (at 4) "k" 5 ∷ [] in
    let later = run get_id ops (set_client_assertion_jwt empty_store (at 1) "j" 10).0 in
    ((set_client_assertion_jwt later (at 7) "j" 20).1 ≡ some jti_known)
    × (8 < 10 → is_jwt_used later 8 "j" ≡ true)
assertion_used_once_example =
    assertion_used_once get_id "j" 10 20 8 (at 1) (at 7) empty_store (set_jwt (at 4) "k" 5 ∷ [])
      set_jti (omega arith, tt) (omega arith)

abbrev alice_response : IdentityResponse
alice_response = record {
  user = record (init_user "alice") {
    name = "Alice";
    groups = "ops" ∷ "dev" ∷ [];
    claims = claim "groups" (str "all") no_claims;
  };
  status = password_checked;
  details = [];
  authority = "ldap";
}

abbrev identity_service : IdentityRequest → Result IdentityResponse
identity_service i = if i.login == "alice" then ok alice_response else err "unreachable"

identify-Describes_example :
    ((r : IdentityResponse)
      → identity_service (record { login = "alice"; password = "x" }) ≡ ok r
      → is_list (get "groups" r.user.claims) ≡ true
      → is_list (get "emails" r.user.claims) ≡ true
      → (c : Claims) × (identify identity_service "alice" "x"
          ≡ ok (record { login = "alice"; claims = c; full_name = r.user.name }, r.status))
        × Describes r c)
    × ((r : IdentityResponse)
        → identity_service (record { login = "alice"; password = "x" }) ≡ ok r
        → (is_list (get "groups" r.user.claims) && is_list (get "emails" r.user.claims)) ≡ false
        → (e : String) × (identify identity_service "alice" "x" ≡ err e))
    × ((e : String)
        → identity_service (record { login = "alice"; password = "x" }) ≡ err e
        → identify identity_service "alice" "x" ≡ err e)
identify-Describes_example = identify-Describes identity_service "alice" "x"

abbrev upstream_claims : Claims
upstream_claims = claim "sub" (str "42") (claim "iss" (str "https://up") no_claims)

abbrev renamings : List ClaimRenamingSpec
renamings =
    record { old_name = "sub"; new_name = "id"; operation = copy }
    ∷ record { old_name = "iss"; new_name = "from"; operation = rename }
    ∷ []

perform_renaming_lem_example :
    get "id" (perform_renaming renamings upstream_claims)
    ≡ by_rules renamings (λ j. get j upstream_claims) "id"
perform_renaming_lem_example = perform_renaming_lem renamings upstream_claims "id"
