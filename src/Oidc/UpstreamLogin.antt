-- ===== src/Oidc/UpstreamLogin.antt =====
-- cmd/oidc/oidcserver/handle-upstream-callback.go: the return from an upstream provider. The store of
-- upstreams, the OAuth library, the ID token verifier and the identity client are arguments. What
-- is written to the client is a list, since an error does not always end the handler. The JSON of a
-- pending user always encodes, and is read by the welcome page: the session holds the user itself.
pub mod Checks
pub mod Laws
mod Tests
use kubauth.Base.{
  String, Bool, true, false, not, Option, none, some, List, [], ◌∷◌, ◌++◌, ◌==◌, ◌&&◌, ◌||◌, ℕ, ◌+◌,
  if◌then◌else◌,
}
use kubauth.Misc.Claims.{Value, str, Claims, no_claims, get, merge_maps, normalize_string_array}
use kubauth.Misc.Claims.Json.{json_claims}
use kubauth.Proto.{Result, ok, err}
use kubauth.Oidc.HttpProvider.{OidcUser}
use kubauth.Oidc.Upstream.{ClaimRenamingSpec, perform_renaming, cleanup_claims}

pub record CallbackRequest : Type 0 where
  pub method : String
  pub error : String
  pub code : String
  pub state : String

-- The keys of the login session; an absent text is the empty one.
pub record LoginSession : Type 0 where
  pub upstream_state : String
  pub upstream_nonce : String
  pub upstream_verifier : String
  pub upstream_pkce : String
  pub upstream_provider : String
  pub auth_query : String
  pub client_id : String
  pub pending_upstream_user : Option OidcUser

-- The login session, the principal of the SSO session, and how often its token was renewed.
pub record Sessions : Type 0 where
  pub login_session : LoginSession
  pub sso_user : Option OidcUser
  pub renewals : ℕ

pub record Token : Type 0 where
  pub id_token : String
  pub access_token : String

-- An upstream, as the handler uses it: `exchange` is the exchange of a code, with a verifier or not,
-- and is absent where the settings for it are.
pub record UpstreamProvider : Type 0 where
  pub exchange : Option (String → Option String → Result Token)
  pub parse_and_verify_id_token : String → Result Claims
  pub fetch_user_info_claims : Token → Result Claims
  pub use_user_info : Bool
  pub local_enrichment : Bool
  pub claim_renamings : List ClaimRenamingSpec
  pub claim_removals : List String

pub data SsoMode : Type 0 where
  sso_never sso_on_demand sso_always : SsoMode

pub record Server : Type 0 where
  pub find_upstream : String → Option UpstreamProvider
  pub identify : String → String → Result (Option OidcUser)
  pub sso_mode : SsoMode

-- What is written: an error, a redirection, or the answer to the authorize request, for a user.
pub data Reply : Type 0 where
  http_error : ℕ → String → Reply
  redirect : String → Reply
  complete : String → OidcUser → Reply

-- A check that ends the handler with an error, or goes on.
pub data Checked (A : Type 0) : Type 0 where
  refused : ℕ → String → Checked A
  passed : A → Checked A

abbrev pub and_then : {A B : Type 0} → Checked A → (A → Checked B) → Checked B
and_then (refused code text) f = refused code text
and_then (passed a) f = f a

-- The checks up to the session context.
unfoldable pub check_request : CallbackRequest → LoginSession → Checked Unit
check_request q s =
    if not (q.method == "GET")
    then refused 405 "method not allowed"
    else if not (q.error == "")
    then refused 400 "upstream login failed"
    else if q.code == "" || q.state == ""
    then refused 400 "missing code or state"
    else if s.upstream_state == "" || not (s.upstream_state == q.state)
    then refused 400 "invalid state"
    else if s.upstream_provider == "" || s.auth_query == ""
    then refused 400 "session expired"
    else passed tt

unfoldable pub known_upstream : Option UpstreamProvider → Checked UpstreamProvider
known_upstream none = refused 400 "unknown upstream"
known_upstream (some u) = passed u

unfoldable pub verifier_of : LoginSession → Option String
verifier_of s = if s.upstream_pkce == "1" then some s.upstream_verifier else none

unfoldable pub exchanged : Result Token → Checked Token
exchanged (ok tok) = passed tok
exchanged (err e) = refused 502 "token exchange failed"

unfoldable pub exchange_code :
    Option (String → Option String → Result Token) → CallbackRequest → LoginSession → Checked Token
unfolding verifier_of exchanged
exchange_code none q s = refused 400 "upstream misconfigured"
exchange_code (some exchange) q s = exchanged (exchange q.code (verifier_of s))

-- `v, _ := claims[key].(string)`, on the entry.
unfoldable pub text_of : Option Value → String
text_of (some (str s)) = s
text_of _ = ""

unfoldable pub check_nonce : LoginSession → Result Claims → Checked Claims
unfolding text_of
check_nonce s (err e) = refused 502 "invalid id_token"
check_nonce s (ok verified) =
    let id_claims = normalize_string_array verified in
    if not (s.upstream_nonce == "") && not (text_of (get "nonce" id_claims) == s.upstream_nonce)
    then refused 400 "invalid nonce"
    else passed id_claims

unfoldable pub id_claims_of : UpstreamProvider → Token → LoginSession → Checked Claims
unfolding check_nonce
id_claims_of u tok s =
    if tok.id_token == ""
    then passed no_claims
    else check_nonce s (u.parse_and_verify_id_token tok.id_token)

unfoldable pub add_user_info : Claims → Result Claims → Checked Claims
add_user_info base (err e) = refused 502 "userinfo failed"
add_user_info base (ok ui_claims) = passed (merge_maps base (normalize_string_array ui_claims))

unfoldable pub with_user_info : UpstreamProvider → Token → Claims → Checked Claims
unfolding add_user_info
with_user_info u tok id_claims =
    if u.use_user_info
    then add_user_info id_claims (u.fetch_user_info_claims tok)
    else passed id_claims

-- The renaming, and then the cleanup.
unfoldable pub mapped_claims : UpstreamProvider → Claims → Claims
mapped_claims u id_claims =
    cleanup_claims u.claim_removals (perform_renaming u.claim_renamings id_claims)

-- The user without local information.
unfoldable pub upstream_user : String → Claims → OidcUser
unfolding text_of
upstream_user sub id_claims = record {
  login = sub;
  claims = id_claims;
  full_name = text_of (get "name" id_claims);
}

-- The enrichment: the errors that it writes, and the user.
unfoldable pub enriched_user : String → Claims → Result (Option OidcUser) → List Reply × OidcUser
unfolding upstream_user
enriched_user sub id_claims (err e) =
    (http_error 500 "Error authenticating user" ∷ [], upstream_user sub id_claims)
enriched_user sub id_claims (ok none) = ([], upstream_user sub id_claims)
enriched_user sub id_claims (ok (some user)) =
    ([], record user { claims = merge_maps id_claims (normalize_string_array user.claims) })

unfoldable pub user_of : Server → UpstreamProvider → String → Claims → List Reply × OidcUser
unfolding enriched_user
user_of server u sub id_claims =
    if u.local_enrichment
    then enriched_user sub id_claims (server.identify sub "")
    else ([], upstream_user sub id_claims)

-- A user that is written as JSON, and read again.
abbrev pub json_user : OidcUser → OidcUser
json_user user = record user { claims = json_claims user.claims }

-- The session keys of the round trip are removed.
unfoldable pub forget : LoginSession → LoginSession
forget s = record s {
  upstream_state = "";
  upstream_nonce = "";
  upstream_verifier = "";
  upstream_pkce = "";
  upstream_provider = "";
}

-- The switch on the SSO mode and what follows it.
unfoldable pub settle : SsoMode → OidcUser → Sessions → List Reply × Sessions
settle sso_on_demand user s = (
  redirect "/upstream/welcome" ∷ [],
  record s { login_session = record s.login_session { pending_upstream_user = some user } },
)
settle sso_always user s =
    (complete s.login_session.auth_query user ∷ [], record s { sso_user = some user })
settle sso_never user s = (complete s.login_session.auth_query user ∷ [], s)

-- Behind the checks: the missing claim "sub" writes an error, and the handler goes on.
unfoldable pub admit : Server → UpstreamProvider → Claims → Sessions → List Reply × Sessions
unfolding mapped_claims user_of forget settle text_of
admit server u verified s =
    let id_claims = mapped_claims u verified in
    let sub = text_of (get "sub" id_claims) in
    let missing : List Reply = if sub == "" then http_error 502 "Missing sub claim" ∷ [] else [] in
    let (errors, user) = user_of server u sub id_claims in
    let (replies, after) =
      settle server.sso_mode user
        (record s { login_session = forget s.login_session; renewals = s.renewals + 1 }) in
    (missing ++ (errors ++ replies), after)

-- The checks, up to the claims that the upstream vouches for.
unfoldable pub check : Server → CallbackRequest → LoginSession → Checked (UpstreamProvider × Claims)
unfolding check_request known_upstream exchange_code id_claims_of with_user_info
check server q s = and_then (check_request q s) (λ _.
    and_then (known_upstream (server.find_upstream s.upstream_provider)) (λ u.
      and_then (exchange_code u.exchange q s) (λ tok.
        and_then (id_claims_of u tok s)
          (λ base. and_then (with_user_info u tok base) (λ c. passed (u, c))))))

unfoldable pub conclude :
    Server → Checked (UpstreamProvider × Claims) → Sessions → List Reply × Sessions
unfolding admit
conclude server (refused code text) s = (http_error code text ∷ [], s)
conclude server (passed (u, c)) s = admit server u c s

unfoldable pub handle_upstream_callback :
    Server → CallbackRequest → Sessions → List Reply × Sessions
unfolding check conclude
handle_upstream_callback server q s = conclude server (check server q s.login_session) s
