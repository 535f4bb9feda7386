-- ===== src/Oidc/UpstreamController/Laws.antt =====
-- What cmd/oidc/controllers/upstream_controller.go leaves in the store and in the status.
use mathlib.Core.Path.{subst}
use kubauth.Base.{
  ◌≡◌, refl, sym, ap, ◌∙◌, inl, inr, ◌⊎◌, String, Bool, true, false, not, Option, none, some,
  eq_refl, Bool-cases, if◌then◌else◌, lookup, insert, lookup-insert_self, lookup-erase_self,
}
use kubauth.Misc.Slices.{bool_ptr_true}
use kubauth.Proto.{Result, ok, err, ◌>>=◌}
use kubauth.Ucrd.Authenticator.{found}
use kubauth.Oidc.Storage.{MemoryStore, get_upstream, set_upstream, delete_upstream}
use kubauth.Oidc.Upstream.Provider.{
  ProviderType, oidc, internal, unsupported, UpstreamSpec, Upstream, Endpoints, OidcLibrary,
  endpoints_of, wrapped, new_oidc_upstream, new_upstream, get_effective_config,
}
use kubauth.Oidc.ClientController.{ready, error, off, Outcome, done}
use kubauth.Oidc.UpstreamController.{
  UpstreamStatus, UpstreamProvider, Calls, World, Verdict, disabled, refused, broken, published,
  built, resolved, judge_oidc, judge, status_for, effective_config_of, update_status, apply,
  reconcile_upstream, reconcile,
}

-- A verdict is right for the provider: it is disabled, or the upstream is its own.
data Fits (u : UpstreamProvider) : Verdict → Type 0 where
  disabled_fits : bool_ptr_true u.spec.enabled ≡ false → Fits u disabled
  refused_fits : (e : String) → Fits u (refused e)
  broken_fits : (e : String) → Fits u (broken e)
  published_fits :
      (up : Upstream)
      → bool_ptr_true u.spec.enabled ≡ true
      → up.name ≡ u.name
      → up.spec ≡ u.spec
      → Fits u (published up)

from_endpoints :
    (u : UpstreamProvider) (secret : String) (r : Result Endpoints)
    → bool_ptr_true u.spec.enabled ≡ true
    → Fits u (
        built (
          r >>= λ endpoints. ok (record {
            name = u.name;
            spec = u.spec;
            client_secret = secret;
            provider = some endpoints;
          })))
from_endpoints u secret (ok p) on = published_fits _ on refl refl
from_endpoints u secret (err e) on = broken_fits e

new_oidc_upstream-Fits :
    (lib : OidcLibrary) (u : UpstreamProvider) (secret : String) (r : Result (Unit {0}))
    → bool_ptr_true u.spec.enabled ≡ true
    → Fits u (
        built (
          wrapped "error creating http client: " r >>= λ _.
          endpoints_of lib u.spec.issuer_url u.spec.explicit_config >>= λ endpoints. ok (record {
            name = u.name;
            spec = u.spec;
            client_secret = secret;
            provider = some endpoints;
          })))
new_oidc_upstream-Fits lib u secret (ok _) on =
    from_endpoints u secret (endpoints_of lib u.spec.issuer_url u.spec.explicit_config) on
new_oidc_upstream-Fits lib u secret (err e) on = broken_fits _

new_upstream-cases :
    (lib : OidcLibrary) (name : String) (spec : UpstreamSpec) (secret : String) (ca : Option String)
    (type : ProviderType)
    → spec.type ≡ type
    → (new_upstream lib name spec secret ca
        ≡ ok (record { name = name; spec = spec; client_secret = ""; provider = none }))
      ⊎ (new_upstream lib name spec secret ca ≡ new_oidc_upstream lib name spec secret ca)
unfolding new_upstream
new_upstream-cases lib name spec secret ca internal e = inl (rw e refl)
new_upstream-cases lib name spec secret ca oidc e = inr (rw e refl)
new_upstream-cases lib name spec secret ca (unsupported s) e = inr (rw e refl)

new_upstream-Fits :
    (lib : OidcLibrary) (u : UpstreamProvider) (secret : String) (ca : Option String)
    → bool_ptr_true u.spec.enabled ≡ true
    → Fits u (built (new_upstream lib u.name u.spec secret ca))
unfolding new_oidc_upstream
new_upstream-Fits lib u secret ca on =
    elim (new_upstream-cases lib u.name u.spec secret ca u.spec.type refl) [
      | inl e ↦ subst (λ r. Fits u (built r)) (sym e) (published_fits _ on refl refl)
      | inr e ↦
          subst (λ r. Fits u (built r)) (sym e)
            (new_oidc_upstream-Fits lib u secret (lib.http_client ca) on)
    ]

resolved-Fits :
    (u : UpstreamProvider) (r : Result (String × Option String))
    (make : String → Option String → Verdict)
    → ((secret : String) (ca : Option String) → Fits u (make secret ca))
    → Fits u (resolved r make)
resolved-Fits u (ok (secret, ca)) make fits = fits secret ca
resolved-Fits u (err e) make fits = refused_fits e

judge_oidc-Fits :
    (k : Calls) (u : UpstreamProvider)
    → bool_ptr_true u.spec.enabled ≡ true
    → Fits u (judge_oidc k u)
unfolding judge_oidc
judge_oidc-Fits k u on =
    resolved-Fits u _ _ (λ secret ca. new_upstream-Fits k.library u secret ca on)

judge-cases :
    (k : Calls) (u : UpstreamProvider) (type : ProviderType)
    → u.spec.type ≡ type
    → bool_ptr_true u.spec.enabled ≡ true
    → (judge k u ≡ built (new_upstream k.library u.name u.spec "" none))
      ⊎ (judge k u ≡ judge_oidc k u)
unfolding judge
judge-cases k u internal e on = inl (simp (e, on))
judge-cases k u oidc e on = inr (simp (e, on))
judge-cases k u (unsupported s) e on = inr (simp (e, on))

judge-Fits : (k : Calls) (u : UpstreamProvider) → Fits u (judge k u)
unfolding judge
judge-Fits k u = elim (Bool-cases (bool_ptr_true u.spec.enabled)) [
  | inl on ↦ elim (judge-cases k u u.spec.type refl on) [
    | inl e ↦ subst (Fits u) (sym e) (new_upstream-Fits k.library u "" none on)
    | inr e ↦ subst (Fits u) (sym e) (judge_oidc-Fits k u on)
  ]
  | inr on ↦
      subst
        (λ b. Fits u (
          if not b then disabled else elim u.spec.type [
            | internal ↦ built (new_upstream k.library u.name u.spec "" none)
            | other ↦ judge_oidc k u
          ]))
        (sym on) (disabled_fits on)
]

status_for-phase :
    (u : UpstreamProvider) (up : Option Upstream)
    → (status_for u up none).phase ≡ (if bool_ptr_true u.spec.enabled then ready else off)
unfolding status_for
status_for-phase u up = refl

module _ {R K : Type 0} where
  -- What a run leaves of an upstream provider, by the phase that it writes.
  pub data Tells (store : MemoryStore R Upstream K) (u : UpstreamProvider) (w : World R K)
      : Type 0 where
    -- Ready: the upstream is in the store, made from the provider, and the status tells its endpoints.
    is_ready :
        (s : UpstreamStatus) (up : Upstream)
        → w.resource ≡ found (record u { status = s })
        → s.phase ≡ ready
        → s.effective_config ≡ get_effective_config up
        → get_upstream w.store u.name ≡ some up
        → (up.name ≡ u.name) × (up.spec ≡ u.spec)
        → Tells store u w
    -- Off: it is not in the store.
    is_off :
        (s : UpstreamStatus)
        → w.resource ≡ found (record u { status = s })
        → s.phase ≡ off
        → get_upstream w.store u.name ≡ none
        → Tells store u w
    -- An error: the store is as it was.
    in_error :
        (s : UpstreamStatus)
        → w.resource ≡ found (record u { status = s })
        → s.phase ≡ error
        → w.store ≡ store
        → Tells store u w

  pub update_status_ok :
      (k : Calls) (w : World R K) (u : UpstreamProvider) (up : Option Upstream) (e : Option String)
      → k.update_status ≡ ok tt
      → update_status k w u up e
        ≡ (record w { resource = found (record u { status = status_for u up e }) }, done)
  unfolding update_status
  update_status_ok k w u up e updated = rw updated refl

  apply-Tells :
      (k : Calls) (w : World R K) (u : UpstreamProvider) (v : Verdict)
      → k.update_status ≡ ok tt
      → Fits u v
      → Tells w.store u (apply k w u v).0
  unfolding apply status_for effective_config_of set_upstream delete_upstream get_upstream
  apply-Tells k w u _ updated (disabled_fits is_disabled) =
      rw
        (update_status_ok k (record w { store = delete_upstream w.store u.name }) u none none
          updated)
        (is_off _ refl
          (status_for-phase u none ∙ ap (λ (b : Bool). if b then ready else off) is_disabled)
          (lookup-erase_self u.name w.store.upstreams))
  apply-Tells k w u _ updated (refused_fits e) =
      rw (update_status_ok k w u none (some e) updated) (in_error _ refl refl refl)
  apply-Tells k w u _ updated (broken_fits e) =
      rw (update_status_ok k w u none (some e) updated) (in_error _ refl refl refl)
  apply-Tells k w u _ updated (published_fits up on same_name same_spec) =
      rw
        (update_status_ok k (record w { store = set_upstream w.store up.name up }) u (some up) none
          updated)
        (is_ready _ up refl
          (status_for-phase u (some up) ∙ ap (λ (b : Bool). if b then ready else off) on) refl
          (ap (λ (n : String). lookup u.name (insert n up w.store.upstreams)) same_name
            ∙ lookup-insert_self u.name up w.store.upstreams)
          (same_name, same_spec))

  pub reconcile_is :
      (namespace : String) (k : Calls) (w : World R K) (u : UpstreamProvider)
      → u.deleting ≡ false
      → u.has_finalizer ≡ true
      → reconcile namespace k w namespace (found u) ≡ apply k w u (judge k u)
  unfolding reconcile reconcile_upstream
  reconcile_is namespace k w u kept has = simp (eq_refl namespace, kept, has)

  -- A run on an upstream provider of the namespace that is not being deleted and has its finalizer,
  -- where the status can be written, leaves the store and the status in agreement: the phase is ready
  -- and the store has the upstream made from the specification, or it is off and the store has none, or
  -- it is an error and the store is as before the run.
  pub reconcile-Tells :
      (namespace : String) (k : Calls) (w : World R K) (u : UpstreamProvider)
      → u.deleting ≡ false
      → u.has_finalizer ≡ true
      → k.update_status ≡ ok tt
      → Tells w.store u (reconcile namespace k w namespace (found u)).0
  reconcile-Tells namespace k w u kept has updated =
      subst (λ (o : World R K × Outcome). Tells w.store u o.0)
        (sym (reconcile_is namespace k w u kept has))
        (apply-Tells k w u (judge k u) updated (judge-Fits k u))
