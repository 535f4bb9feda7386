-- ===== src/Oidc/Upstream/Provider.antt =====
-- cmd/oidc/upstreams/upstream.go and upstream_oauth.go: an upstream provider in memory. The HTTP client
-- and the OIDC library are arguments of its construction.
use kubauth.Base.{
  String, Bool, false, Option, none, some, List, [], ◌<>◌, ◌==◌, contains, if◌then◌else◌,
}
use kubauth.Misc.Slices.{bool_ptr_true}
use kubauth.Proto.{Result, ok, err, ◌>>=◌}

-- `UpstreamProviderType`: any other text is refused.
pub data ProviderType : Type 0 where
  oidc internal : ProviderType
  unsupported : String → ProviderType

-- A key of a secret or of a config map.
pub record KeyRef : Type 0 where
  pub name : String
  pub key : String

pub record CertificateAuthority : Type 0 where
  pub config_map : Option KeyRef
  pub secret : Option KeyRef

pub record ProviderConfig : Type 0 where
  pub auth_url : String
  pub token_url : String
  pub user_info_url : String

-- `UpstreamProviderSpec`, without the claim rules and the settings of the HTTP client.
pub record UpstreamSpec : Type 0 where
  pub enabled : Option Bool
  pub type : ProviderType
  pub display_name : String
  pub client_specific : Bool
  pub issuer_url : String
  pub redirect_url : String
  pub client_id : String
  pub client_secret : KeyRef
  pub scopes : List String
  pub explicit_config : Option ProviderConfig
  pub certificate_authority : Option CertificateAuthority
  pub local_enrichment : Option Bool

-- What the OIDC library knows of a provider, and the challenge methods of the discovery.
pub record Endpoints : Type 0 where
  pub config : ProviderConfig
  pub code_challenge_methods : List String

pub record Upstream : Type 0 where
  pub name : String
  pub spec : UpstreamSpec
  pub client_secret : String
  pub provider : Option Endpoints

pub record AuthCodeSettings : Type 0 where
  pub client_id : String
  pub client_secret : String
  pub redirect_url : String
  pub endpoint : ProviderConfig
  pub supports_pkce_s256 : Bool
  pub scopes : List String

unfoldable pub get_display_name : Upstream → String
get_display_name u = if u.spec.display_name == "" then u.name else u.spec.display_name

unfoldable pub local_enrichment : Upstream → Bool
local_enrichment u = bool_ptr_true u.spec.local_enrichment

abbrev pub empty_spec : UpstreamSpec
empty_spec = record {
  enabled = none;
  type = unsupported "";
  display_name = "";
  client_specific = false;
  issuer_url = "";
  redirect_url = "";
  client_id = "";
  client_secret = record { name = ""; key = "" };
  scopes = [];
  explicit_config = none;
  certificate_authority = none;
  local_enrichment = none;
}

unfoldable pub new_internal_upstream : String → Upstream
new_internal_upstream default_login_label = record {
  name = "internal";
  spec = record empty_spec { type = internal; display_name = default_login_label };
  client_secret = "";
  provider = none;
}

unfoldable pub supports_pkce_s256 : Endpoints → Bool
supports_pkce_s256 p = contains p.code_challenge_methods "S256"

-- The settings of a code flow, where the upstream has an OIDC provider.
unfoldable pub auth_code_settings : Upstream → Option Endpoints → Option AuthCodeSettings
unfolding supports_pkce_s256
auth_code_settings u none = none
auth_code_settings u (some p) = some (record {
  client_id = u.spec.client_id;
  client_secret = u.client_secret;
  redirect_url = u.spec.redirect_url;
  endpoint = p.config;
  supports_pkce_s256 = supports_pkce_s256 p;
  scopes = u.spec.scopes;
})

unfoldable pub o_auth2_auth_code_settings : Upstream → Option AuthCodeSettings
unfolding auth_code_settings
o_auth2_auth_code_settings u = auth_code_settings u u.provider

-- `GetEffectiveConfig`, on the endpoints of the model.
unfoldable pub get_effective_config : Upstream → Option ProviderConfig
get_effective_config u = elim u.provider [ none ↦ none | some p ↦ some p.config ]

-- The HTTP client for a certificate authority, the discovery at an issuer, and the claims of what
-- was discovered.
pub record OidcLibrary : Type 0 where
  pub http_client : Option String → Result (Unit {0})
  pub discover : String → Result ProviderConfig
  pub challenge_methods : String → Result (List String)

abbrev pub wrapped {ℓ} : {A : Type ℓ} → String → Result A → Result A
wrapped text (ok a) = ok a
wrapped text (err e) = err (text <> e)

-- The provider, by discovery or from the specification, which says nothing of challenges.
unfoldable pub endpoints_of : OidcLibrary → String → Option ProviderConfig → Result Endpoints
endpoints_of lib issuer none =
    wrapped "error on upstream oidc provider: " (lib.discover issuer) >>= λ config.
    wrapped "error fetching complementary endpoints: " (lib.challenge_methods issuer) >>= λ methods.
    ok (record { config = config; code_challenge_methods = methods })
endpoints_of lib issuer (some config) = ok (record { config = config; code_challenge_methods = [] })

-- The upstream of a provider that speaks OIDC.
unfoldable pub new_oidc_upstream :
    OidcLibrary → String → UpstreamSpec → String → Option String → Result Upstream
unfolding endpoints_of
new_oidc_upstream lib name spec client_secret ca_pem =
    wrapped "error creating http client: " (lib.http_client ca_pem) >>= λ _.
    endpoints_of lib spec.issuer_url spec.explicit_config >>= λ endpoints.
    ok (record {
      name = name;
      spec = spec;
      client_secret = client_secret;
      provider = some endpoints;
    })

unfoldable pub new_upstream :
    OidcLibrary → String → UpstreamSpec → String → Option String → Result Upstream
unfolding new_oidc_upstream
new_upstream lib name spec client_secret ca_pem = elim spec.type [
  | internal ↦ ok (record { name = name; spec = spec; client_secret = ""; provider = none })
  | other ↦ new_oidc_upstream lib name spec client_secret ca_pem
]
