-- ===== src/Oidc/ClientController/Convergence.antt =====
-- Where cmd/oidc/controllers/oidcclient_controller.go comes to rest.
use kubauth.Base.{◌≡◌, String, Bool, true, false, Option, ◌==◌, ◌&&◌}
use kubauth.Ucrd.Authenticator.{found}
use kubauth.Oidc.Storage.{MemoryStore}
use kubauth.Oidc.ClientController.{
  OidcClient, ClientStatus, Settings, Calls, World, done, phase_eq, identified, with_style,
  status_for, secrets_of, update_storage, reconcile,
}
use kubauth.Oidc.ClientController.Hashing.{Agree}
use kubauth.Oidc.ClientController.Status.{Succeeds}
use kubauth.Oidc.ClientController.Settled.{Settled, named, written}

module _ {R U K : Type 0} where
  -- `v` is at rest after runs with the calls `k`, and its store and status say of `c` what the spec and
  -- the secrets do: another run on the same secrets, with hashes of its own, writes no status, and
  -- registers the client with these hashes.
  pub record AtRest (r : Settings) (k : Calls) (store : MemoryStore R U K) (c : OidcClient)
      (v : World R U K) : Type 0 where
    pub client : OidcClient
    pub is_resource : v.resource ≡ found client
    pub is_still :
        (l : Calls)
        → Agree k l
        → reconcile r l v v.resource ≡ (
          record v {
            store =
                (update_storage store
                  (with_style r (identified r c))
                  (secrets_of l (identified r c))).0;
          },
          done,
        )
    pub holds :
        v.store
        ≡ (update_storage store (with_style r (identified r c)) (secrets_of k (identified r c))).0
    pub tells_phase :
        client.status.phase
        ≡ (status_for c
            (update_storage store
              (with_style r (identified r c))
              (secrets_of k (identified r c))).1).phase

  module _ (r : Settings) (k : Calls) (w : World R U K) (c : OidcClient) (good : Succeeds r k c)
      (there : w.resource ≡ found c) (kept : c.deleting ≡ false)
      (has : c.has_finalizer ≡ true) where
    abbrev out : MemoryStore R U K × Option String
    out = written r w.store c k

    abbrev status : ClientStatus
    status = status_for (named r w.store c) out.1

    abbrev half : World R U K
    half = record w { store = out.0 }

    -- The client with the status that was written.
    abbrev client_after : OidcClient
    client_after = record c { status = status }

    abbrev up_to_date : Bool
    up_to_date =
        phase_eq (named r w.store c).status.phase status.phase
        && (named r w.store c).status.message == status.message
