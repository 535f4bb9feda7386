-- ===== src/Oidc/UpstreamController/Stale.antt =====
-- An upstream in error that is deleted, in cmd/oidc/controllers/upstream_controller.go.
use kubauth.Base.{◌≡◌, refl, ap, ◌∙◌, String, true, false, none, some, eq_refl}
use kubauth.Misc.Slices.{bool_ptr_true}
use kubauth.Proto.{ok, err}
use kubauth.Ucrd.Authenticator.{found}
use kubauth.Oidc.Storage.{get_upstream}
use kubauth.Oidc.Upstream.Provider.{oidc, Upstream}
use kubauth.Oidc.ClientController.{error, Outcome, done}
use kubauth.Oidc.UpstreamController.{
  UpstreamProvider, Calls, World, check_spec, refused, judge_oidc, judge, status_for, apply,
  patch_finalizer, remove, reconcile_upstream, reconcile,
}
use kubauth.Oidc.UpstreamController.Laws.{update_status_ok, reconcile_is}

judge_oidc-refused :
    (k : Calls) (u : UpstreamProvider) (e : String)
    → check_spec u.spec ≡ err e
    → judge_oidc k u ≡ refused e
unfolding judge_oidc
judge_oidc-refused k u e invalid = rw invalid refl

judge-is_oidc :
    (k : Calls) (u : UpstreamProvider)
    → bool_ptr_true u.spec.enabled ≡ true
    → u.spec.type ≡ oidc
    → judge k u ≡ judge_oidc k u
unfolding judge
judge-is_oidc k u on type = simp (on, type)

module _ {R K : Type 0} where
  -- The run that refuses a configuration, and the one that deletes a provider in error.
  refused_run :
      (namespace : String) (k : Calls) (w : World R K) (u : UpstreamProvider) (e : String)
      → u.deleting ≡ false
      → u.has_finalizer ≡ true
      → k.update_status ≡ ok tt
      → judge k u ≡ refused e
      → reconcile namespace k w namespace (found u)
        ≡ (record w { resource = found (record u { status = status_for u none (some e) }) }, done)
  unfolding apply
  refused_run namespace k w u e kept has updated verdict =
      reconcile_is namespace k w u kept has
      ∙ (ap (apply k w u) verdict ∙ update_status_ok k w u none (some e) updated)

  deleting_run :
      (namespace : String) (k : Calls) (w : World R K) (u : UpstreamProvider)
      → u.deleting ≡ true
      → u.status.phase ≡ error
      → k.patch ≡ ok tt
      → reconcile namespace k w namespace (found u)
        ≡ (record w { resource = found (record u { has_finalizer = false }) }, done)
  unfolding reconcile reconcile_upstream remove patch_finalizer
  deleting_run namespace k w u deleted in_error_phase patched =
      simp (eq_refl namespace, deleted, in_error_phase, patched)

  -- An OIDC provider whose upstream is in the store gets a specification that does not pass the check,
  -- is reconciled, and is then deleted, all calls succeeding: its finalizer is removed, so that the
  -- resource goes, and its upstream is still in the store.
  pub stale_upstream :
      (namespace : String) (k l : Calls) (w : World R K) (u : UpstreamProvider) (e : String)
      (up : Upstream)
      → u.deleting ≡ false
      → u.has_finalizer ≡ true
      → bool_ptr_true u.spec.enabled ≡ true
      → u.spec.type ≡ oidc
      → check_spec u.spec ≡ err e
      → k.update_status ≡ ok tt
      → l.patch ≡ ok tt
      → get_upstream w.store u.name ≡ some up
      → (let s = status_for u none (some e) in
          let after = (reconcile namespace k w namespace (found u)).0 in
          let last =
            (reconcile namespace l after namespace
              (found (record u { status = s; deleting = true }))).0 in
          (after.resource ≡ found (record u { status = s }))
          × ((last.resource
                ≡ found (record u { status = s; deleting = true; has_finalizer = false }))
              × (get_upstream last.store u.name ≡ some up)))
  unfolding status_for
  stale_upstream namespace k l w u e up kept has on type invalid updated patched there =
      let first =
        refused_run namespace k w u e kept has updated
          (judge-is_oidc k u on type ∙ judge_oidc-refused k u e invalid) in
      let s = status_for u none (some e) in
      let d : UpstreamProvider = record u { status = s; deleting = true } in
      let second = λ (v : World R K). deleting_run namespace l v d refl refl patched in
      (
        ap (λ (o : World R K × Outcome). o.0.resource) first,
        (
          ap (λ (o : World R K × Outcome). o.0.resource) (second _),
          ap (λ (o : World R K × Outcome). get_upstream o.0.store u.name) (second _)
              ∙ (ap (λ (o : World R K × Outcome). get_upstream o.0.store u.name) first ∙ there),
        ),
      )
