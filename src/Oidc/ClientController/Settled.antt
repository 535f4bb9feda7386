-- ===== src/Oidc/ClientController/Settled.antt =====
-- What a run of cmd/oidc/controllers/oidcclient_controller.go leaves, and what the next run makes of it.
use mathlib.Core.Path.{subst}
use kubauth.Base.{◌≡◌, ◌≢◌, refl, sym, ap, ◌∙◌, String, true, false, Option}
use kubauth.Ucrd.Authenticator.{found}
use kubauth.Oidc.Storage.{MemoryStore}
use kubauth.Oidc.ClientController.{
  OidcClient, ClientStatus, Settings, Calls, World, Outcome, done, Hashes, unreachable, identified,
  with_style, status_for, secrets_of, update_storage, update_status, settle, reconcile_client,
  reconcile,
}
use kubauth.Oidc.ClientController.Store.{update_storage_over}
use kubauth.Oidc.ClientController.Hashing.{Agree, Alike-reached, secrets_of-Alike}
use kubauth.Oidc.ClientController.Status.{
  status_for-congr, update_storage-status, settle_reached, update_status_same, runs_settle,
}

module _ {R U K : Type 0} where
  -- The world after a run.
  unfoldable pub run : Settings → Calls → World R U K → World R U K
  unfolding reconcile
  run r k w = (reconcile r k w w.resource).0

  module _ (r : Settings) (store : MemoryStore R U K) (c : OidcClient) where
    abbrev pub named : OidcClient
    named = with_style r (identified r c)

    abbrev pub h : Calls → Hashes
    h k = secrets_of k (identified r c)

    abbrev pub written : Calls → MemoryStore R U K × Option String
    written k = update_storage store named (h k)

    -- The client as it is registered, with the phase and the message of a status.
    abbrev pub named_with : ClientStatus → OidcClient
    named_with t = record named {
      status = record named.status { phase = t.phase; message = t.message };
    }

    -- The store and the status are those of a run with the calls `k` on `c`.
    pub record Settled (k : Calls) (v : World R U K) : Type 0 where
      pub client : OidcClient
      pub is_resource : v.resource ≡ found client
      pub kept : client.deleting ≡ false
      pub has : client.has_finalizer ≡ true
      pub is_named : with_style r (identified r client) ≡ named_with client.status
      pub same_secrets : (l : Calls) → secrets_of l (identified r client) ≡ h l
      pub reached : (e : String) → h k ≢ unreachable e
      pub holds : v.store ≡ (written k).0
      pub tells_phase : client.status.phase ≡ (status_for named (written k).1).phase
      pub tells_message : client.status.message ≡ (status_for named (written k).1).message

    module _ (k l : Calls) (v : World R U K) (s : Settled k v) (agree : Agree k l) where
      over :
          (update_storage (written k).0 named (h l) ≡ written l) × ((written k).1 ≡ (written l).1)
      over =
          update_storage_over store named (h k) (h l) (secrets_of-Alike k l (identified r c) agree)

      -- What the next run writes to the store.
      written_next : update_storage v.store (named_with s.client.status) (h l) ≡ written l
      written_next =
          ap (λ (m : MemoryStore R U K). update_storage m (named_with s.client.status) (h l))
            s.holds
          ∙ (update_storage-status (written k).0 named s.client.status.phase s.client.status.message
                (h l)
              ∙ over.0)

      reached_next : (e : String) → h l ≢ unreachable e
      reached_next =
          Alike-reached (h k) (h l) (secrets_of-Alike k l (identified r c) agree) s.reached

      next_phase : s.client.status.phase ≡ (status_for named (written l).1).phase
      next_phase = s.tells_phase ∙ ap (λ (e : Option String). (status_for named e).phase) over.1

      next_message : s.client.status.message ≡ (status_for named (written l).1).message
      next_message =
          s.tells_message ∙ ap (λ (e : Option String). (status_for named e).message) over.1

      abbrev pub next : World R U K
      next = record v { store = (written l).0 }

      still :
          update_status l next s.client (named_with s.client.status) (written l).1 ≡ (next, done)
      still =
          let same = status_for-congr named (named_with s.client.status) (written l).1 refl in
          update_status_same l next s.client (named_with s.client.status) (written l).1
            (next_phase ∙ same.0) (next_message ∙ same.1)

      -- The next run leaves the status.
      next_run : reconcile_client r l v s.client ≡ (next, done)
      next_run =
          runs_settle r l v s.client s.kept s.has
          ∙ (ap (λ (d : OidcClient). settle l v s.client d (secrets_of l (identified r s.client)))
                s.is_named
              ∙ (ap (settle l v s.client (named_with s.client.status)) (s.same_secrets l)
                  ∙ (settle_reached l v s.client (named_with s.client.status) (h l) reached_next
                      ∙ (ap
                            (λ (out : MemoryStore R U K × Option String).
                              update_status l (record v { store = out.0 }) s.client
                                (named_with s.client.status) out.1)
                            written_next
                          ∙ still))))

      next-Settled : Settled l next
      next-Settled = record {
        client = s.client;
        is_resource = s.is_resource;
        kept = s.kept;
        has = s.has;
        is_named = s.is_named;
        same_secrets = s.same_secrets;
        reached = reached_next;
        holds = refl;
        tells_phase = next_phase;
        tells_message = next_message;
      }

      pub reconcile_next : reconcile r l v v.resource ≡ (next, done)
      unfolding reconcile
      reconcile_next = ap (reconcile r l v) s.is_resource ∙ next_run

      pub run-Settled : Settled l (run r l v)
      unfolding run
      run-Settled =
          subst (Settled l) (sym (ap (λ (o : World R U K × Outcome). o.0) reconcile_next))
            next-Settled
