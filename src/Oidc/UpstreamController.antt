-- ===== src/Oidc/UpstreamController.antt =====
-- cmd/oidc/controllers/upstream_controller.go: one reconciliation of an upstream provider as a step
-- on the resource in the cluster, the store and the count of status errors. The calls of the
-- Kubernetes client and the OIDC library are the record `Calls`; events and logs are left out.
pub mod Laws
pub mod Stale
mod Tests
use kubauth.Base.{
  String, Bool, true, false, not, Option, none, some, List, [], ◌∷◌, ◌<>◌, ◌==◌, ◌&&◌, ℕ, ◌+◌, eqb,
  if◌then◌else◌,
}
use kubauth.Misc.Slices.{bool_ptr_true}
use kubauth.Proto.{Result, ok, err, ◌>>=◌}
use kubauth.Ucrd.Authenticator.{Fetch, found, absent, failed}
use kubauth.Oidc.Storage.{MemoryStore, set_upstream, delete_upstream}
use kubauth.Oidc.Upstream.Provider.{
  ProviderType, oidc, internal, unsupported, KeyRef, CertificateAuthority, ProviderConfig,
  UpstreamSpec, Upstream, OidcLibrary, new_upstream, get_effective_config,
}
use kubauth.Oidc.ClientController.{
  Phase, ready, error, off, phase_eq, Outcome, done, requeue, failure,
}

pub record UpstreamStatus : Type 0 where
  pub phase : Phase
  pub message : String
  pub effective_config : Option ProviderConfig

-- `UpstreamProvider`, as far as the controller reads it.
pub record UpstreamProvider : Type 0 where
  pub namespace : String
  pub name : String
  pub deleting : Bool
  pub has_finalizer : Bool
  pub spec : UpstreamSpec
  pub status : UpstreamStatus

-- The outcome of the calls of a run: of a `Get` of a secret and of a config map, given their names, of
-- the OIDC library, of a patch and of the update of the status.
pub record Calls : Type 0 where
  pub get_secret : String → Fetch (String → Option String)
  pub get_config_map : String → Fetch (String → Option String)
  pub library : OidcLibrary
  pub patch : Result (Unit {0})
  pub update_status : Result (Unit {0})

pub record World (R K : Type 0) : Type 0 where
  pub resource : Fetch UpstreamProvider
  pub store : MemoryStore R Upstream K
  pub status_errors : ℕ

-- The check of the input values.
abbrev refuse_if : Bool → String → Result (Unit {0})
refuse_if true e = err e
refuse_if false e = ok tt

abbrev check_type : ProviderType → Result (Unit {0})
check_type oidc = ok tt
check_type internal = err "upstream provider type internal is not supported"
check_type (unsupported type) = err ("upstream provider type " <> type <> " is not supported")

abbrev check_explicit : Option ProviderConfig → Result (Unit {0})
check_explicit none = ok tt
check_explicit (some config) =
    refuse_if (config.auth_url == "") "upstream provider explicitConfig has no authURL"

abbrev no_scopes : List String → Bool
no_scopes [] = true
no_scopes (scope ∷ scopes) = false

unfoldable pub check_spec : UpstreamSpec → Result (Unit {0})
check_spec spec = check_type spec.type >>= λ _.
    refuse_if (spec.display_name == "") "upstream provider has no displayName" >>= λ _.
    refuse_if (spec.issuer_url == "") "upstream provider has no issuerURL" >>= λ _.
    refuse_if (spec.redirect_url == "") "upstream provider has no redirectURL" >>= λ _.
    refuse_if (spec.client_id == "") "upstream provider has no clientId" >>= λ _.
    refuse_if (no_scopes spec.scopes) "upstream provider has no scopes" >>= λ _.
    check_explicit spec.explicit_config

-- A key of a secret or of a config map that was asked for.
unfoldable pub value_of :
    String → String → String → KeyRef → Fetch (String → Option String) → Result String
value_of what kind namespace ref absent =
    err (what <> " \"" <> ref.name <> "\" not found in namespace \"" <> namespace <> "\"")
value_of what kind namespace ref (failed e) = err e
value_of what kind namespace ref (found entries) = elim (entries ref.key) [
  | some value ↦ ok value
  | none ↦ err (
      "no key \"" <> ref.key <> "\" in " <> kind <> " \"" <> namespace <> "\"/\"" <> ref.name
      <> "\"")
]

unfoldable pub fetch_client_secret : Calls → String → KeyRef → Result String
unfolding value_of
fetch_client_secret k namespace ref =
    refuse_if (ref.name == "") "clientSecret.name is required" >>= λ _.
    refuse_if (ref.key == "") "clientSecret.key is required" >>= λ _.
    value_of "client secret" "secret" namespace ref (k.get_secret ref.name)

-- A reference without a name is none.
abbrev named_ref : Option KeyRef → Option KeyRef
named_ref none = none
named_ref (some ref) = if ref.name == "" then none else some ref

abbrev with_default_key : KeyRef → KeyRef
with_default_key ref = record ref { key = if ref.key == "" then "ca.crt" else ref.key }

abbrev fetch_named : Calls → String → Option KeyRef → Option KeyRef → Result String
unfolding value_of
fetch_named k namespace (some cm) (some sec) =
    err "certificateAuthority: set only one of configMap or secret"
fetch_named k namespace none none =
    err "certificateAuthority: one of configMap or secret is required"
fetch_named k namespace (some cm) none =
    value_of "certificate authority configMap" "configmap" namespace (with_default_key cm)
      (k.get_config_map cm.name)
fetch_named k namespace none (some sec) =
    value_of "certificate authority secret" "secret" namespace (with_default_key sec)
      (k.get_secret sec.name)

unfoldable pub fetch_certificate_authority : Calls → String → CertificateAuthority → Result String
unfolding fetch_named
fetch_certificate_authority k namespace src =
    fetch_named k namespace (named_ref src.config_map) (named_ref src.secret)

-- The client secret and the certificate authority, where the specification names them.
unfoldable pub client_secret_of : Calls → UpstreamProvider → Result String
unfolding fetch_client_secret
client_secret_of k u =
    if u.spec.client_secret.name == ""
    then ok ""
    else fetch_client_secret k u.namespace u.spec.client_secret

unfoldable pub ca_of : Calls → String → Option CertificateAuthority → Result (Option String)
unfolding fetch_certificate_authority
ca_of k namespace none = ok none
ca_of k namespace (some src) = fetch_certificate_authority k namespace src >>= λ pem. ok (some pem)

-- What a run finds: a disabled provider, a configuration that is refused, an upstream that cannot be
-- made yet, or the upstream.
pub data Verdict : Type 0 where
  disabled : Verdict
  refused : String → Verdict
  broken : String → Verdict
  published : Upstream → Verdict

abbrev built : Result Upstream → Verdict
built (ok upstream) = published upstream
built (err e) = broken e

-- The secrets of a configuration that was checked, and the upstream.
abbrev resolved : Result (String × Option String) → (String → Option String → Verdict) → Verdict
resolved (err e) make = refused e
resolved (ok (secret, ca)) make = make secret ca

unfoldable pub judge_oidc : Calls → UpstreamProvider → Verdict
unfolding check_spec client_secret_of ca_of new_upstream
judge_oidc k u =
    resolved
      (check_spec u.spec >>= λ _. client_secret_of k u >>= λ secret.
        ca_of k u.namespace u.spec.certificate_authority >>= λ ca. ok (secret, ca))
      (λ secret ca. built (new_upstream k.library u.name u.spec secret ca))

unfoldable pub judge : Calls → UpstreamProvider → Verdict
unfolding judge_oidc new_upstream
judge k u = if not (bool_ptr_true u.spec.enabled) then disabled else elim u.spec.type [
  | internal ↦ built (new_upstream k.library u.name u.spec "" none)
  | other ↦ judge_oidc k u
]

unfoldable pub effective_config_of : Option Upstream → Option ProviderConfig
unfolding get_effective_config
effective_config_of none = none
effective_config_of (some upstream) = get_effective_config upstream

-- The status for an upstream and an error, if there are any.
unfoldable pub status_for : UpstreamProvider → Option Upstream → Option String → UpstreamStatus
unfolding effective_config_of
status_for u upstream e =
    let config = effective_config_of upstream in
    elim e [
      | some text ↦ record { phase = error; message = text; effective_config = config }
      | none ↦ record {
        phase = if bool_ptr_true u.spec.enabled then ready else off;
        message = "OK";
        effective_config = config;
      }
    ]

module _ {R K : Type 0} where
  -- The update of the status in the cluster; the first failure is retried. `u` is the resource there.
  unfoldable pub update_status :
      Calls → World R K → UpstreamProvider → Option Upstream → Option String → World R K × Outcome
  unfolding status_for
  update_status k w u upstream e = elim k.update_status [
    | ok _ ↦ (record w { resource = found (record u { status = status_for u upstream e }) }, done)
    | err failed_with ↦
        if eqb w.status_errors 0
        then (record w { status_errors = w.status_errors + 1 }, requeue)
        else (w, failure failed_with)
  ]

  -- An upstream that cannot be made is tried again, whatever comes of the status.
  abbrev retried : String → World R K × Outcome → World R K × Outcome
  retried e (w, failure failed_with) = (w, failure failed_with)
  retried e (w, other) = (w, failure e)

  -- The verdict on the store and on the status.
  unfoldable pub apply : Calls → World R K → UpstreamProvider → Verdict → World R K × Outcome
  unfolding update_status
  apply k w u disabled =
      update_status k (record w { store = delete_upstream w.store u.name }) u none none
  apply k w u (refused e) = update_status k w u none (some e)
  apply k w u (broken e) = retried e (update_status k w u none (some e))
  apply k w u (published upstream) =
      update_status k (record w { store = set_upstream w.store upstream.name upstream }) u
        (some upstream) none

  -- A patch of the finalizer.
  unfoldable pub patch_finalizer :
      World R K → UpstreamProvider → Bool → Result (Unit {0}) → World R K × Outcome
  patch_finalizer w u present (ok _) =
      (record w { resource = found (record u { has_finalizer = present }) }, done)
  patch_finalizer w u present (err e) = (w, failure e)

  -- The deletion: only an upstream that is ready is taken from the store.
  unfoldable pub remove : Calls → World R K → UpstreamProvider → World R K × Outcome
  unfolding patch_finalizer
  remove k w u =
      patch_finalizer
        (record w {
          store = if phase_eq u.status.phase ready then delete_upstream w.store u.name else w.store;
        })
        u false k.patch

  unfoldable pub reconcile_upstream : Calls → World R K → UpstreamProvider → World R K × Outcome
  unfolding remove patch_finalizer apply judge
  reconcile_upstream k w u =
      if u.deleting
      then remove k w u
      else if not u.has_finalizer
      then patch_finalizer w u true k.patch
      else apply k w u (judge k u)

  -- A resource of another namespace is not looked at.
  unfoldable pub reconcile :
      String → Calls → World R K → String → Fetch UpstreamProvider → World R K × Outcome
  unfolding reconcile_upstream
  reconcile upstream_namespace k w namespace resource =
      if not (namespace == upstream_namespace) then (w, done) else elim resource [
        | absent ↦ (w, done)
        | failed e ↦ (w, failure e)
        | found u ↦ reconcile_upstream k w u
      ]
