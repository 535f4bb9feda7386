-- ===== src/Oidc/Client.antt =====
-- cmd/oidc/oidcstorage/kubauthclient.go: an OIDC client, as the store keeps it.
-- Durations are integers of nanoseconds.
pub mod Laws
use kubauth.Base.{
  String, Bool, true, false, Option, none, some, List, [], ◌∷◌, ◌++◌, ◌<>◌, contains, ◌==◌, ℕ, ◌+◌,
  length, if◌then◌else◌,
}
use kubauth.Base.Int.{ℤ, pos}

-- A reference to a key of a secret, whose value is a hash or is to be hashed.
pub record SecretRef : Type 0 where
  pub name : String
  pub key : String
  pub hashed : Bool

-- `OidcClientSpec`, but for the description.
pub record OidcClientSpec : Type 0 where
  pub enabled : Option Bool
  pub secrets : Option (List SecretRef)
  pub public : Bool
  pub redirect_uris : List String
  pub grant_types : List String
  pub response_types : List String
  pub scopes : List String
  pub audiences : List String
  pub force_open_id_scope : Option Bool
  pub access_token_lifespan : ℤ
  pub refresh_token_lifespan : ℤ
  pub id_token_lifespan : ℤ
  pub style : String
  pub post_logout_url : String
  pub display_name : String
  pub entry_url : String
  pub client_id : String
  pub upstream_providers : List String

pub record KubauthClient : Type 0 where
  pub client_id : String
  pub spec : OidcClientSpec
  pub hashed_secrets : List String
  pub k8s_id : String

-- The token types of fosite that the client tells apart.
pub data TokenType : Type 0 where
  access_token refresh_token id_token other_token : TokenType

unfoldable pub new_kubauth_client :
    String → String → OidcClientSpec → String → List String → KubauthClient
new_kubauth_client namespace name spec client_id hashed_secrets = record {
  client_id = client_id;
  spec = spec;
  hashed_secrets = hashed_secrets;
  k8s_id = namespace <> ":" <> name;
}

-- The first hash; nil without one.
unfoldable pub get_hashed_secret : KubauthClient → Option String
get_hashed_secret k = elim k.hashed_secrets [ [] ↦ none | (h ∷ hs) ↦ some h ]

unfoldable pub get_rotated_hashes : KubauthClient → List String
get_rotated_hashes k = elim k.hashed_secrets [ [] ↦ [] | (h ∷ hs) ↦ hs ]

unfoldable pub get_secret_count : KubauthClient → ℕ
get_secret_count k = length k.hashed_secrets

unfoldable pub get_audience : KubauthClient → List String
get_audience k =
    if contains k.spec.audiences k.client_id
    then k.spec.audiences
    else k.spec.audiences ++ (k.client_id ∷ [])

unfoldable pub is_force_open_id_scope : KubauthClient → Bool
is_force_open_id_scope k = elim k.spec.force_open_id_scope [ none ↦ false | some b ↦ b ]

-- A lifespan that is zero is not set.
unfoldable pub or_fallback : ℤ → ℤ → ℤ
or_fallback (pos ℕ.zero) fallback = fallback
or_fallback d fallback = d

unfoldable pub get_effective_lifespan : KubauthClient → TokenType → ℤ → ℤ
unfolding or_fallback
get_effective_lifespan k access_token fallback = or_fallback k.spec.access_token_lifespan fallback
get_effective_lifespan k refresh_token fallback = or_fallback k.spec.refresh_token_lifespan fallback
get_effective_lifespan k id_token fallback = or_fallback k.spec.id_token_lifespan fallback
get_effective_lifespan k other_token fallback = fallback
