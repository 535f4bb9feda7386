-- ===== src/Oidc/ClientController/Store.antt =====
-- What cmd/oidc/controllers/oidcclient_controller.go writes to the store, once and twice.
use kubauth.Oidc.ClientController.Hashing.{Alike}
use kubauth.Base.{
  ◌≡◌, refl, ap, inl, inr, String, Option, none, some, List, [], ◌∷◌, ◌==◌, arith, eq_refl,
  Bool-cases, Dict, lookup, insert, erase, lookup-insert_self,
}
use kubauth.Misc.Slices.{bool_ptr_true}
use kubauth.Oidc.Client.{KubauthClient, new_kubauth_client}
use kubauth.Oidc.Storage.{MemoryStore, StoreError, register, set_client, delete_client}
use kubauth.Oidc.ClientController.{
  OidcClient, Hashes, hashes, misconfigured, unreachable, store_error, update_storage,
}

module _ {ℓ} {V : Type ℓ} where
  insert_over : (k : String) (u v : V) (m : Dict V) → insert k v (insert k u m) ≡ insert k v m
  unfolding insert
  insert_over k u v [] = ground (arith, eq_refl k)
  insert_over k u v ((j, old) ∷ m) = elim (Bool-cases (j == k)) [
    | inl e ↦ rw e (rw e refl)
    | inr e ↦ rw e (rw e (ap (λ (rest : Dict V). (j, old) ∷ rest) (insert_over k u v m)))
  ]

  erase_twice : (k : String) (m : Dict V) → erase k (erase k m) ≡ erase k m
  unfolding erase
  erase_twice k [] = refl
  erase_twice k ((j, old) ∷ m) = elim (Bool-cases (j == k)) [
    | inl e ↦ rw e (erase_twice k m)
    | inr e ↦ rw e (rw e (ap (λ (rest : Dict V). (j, old) ∷ rest) (erase_twice k m)))
  ]

-- The client that is registered with these hashes.
abbrev made : OidcClient → List String → KubauthClient
made c hs = new_kubauth_client c.namespace c.name c.spec c.status.client_id hs

module _ {R U K : Type 0} where
  -- A second registration with other hashes is as if the first had not been.
  register_over :
      (store : MemoryStore R U K) (c : OidcClient) (gs hs : List String) (o : Option KubauthClient)
      → lookup c.status.client_id store.clients ≡ o
      → (set_client (register store (made c gs) o).0 (made c hs) ≡ register store (made c hs) o)
        × ((register store (made c gs) o).1 ≡ (register store (made c hs) o).1)
  unfolding set_client register new_kubauth_client
  register_over store c gs hs none e = (
    rw (lookup-insert_self c.status.client_id (made c gs) store.clients, eq_refl (made c gs).k8s_id)
        (ap (λ (m : Dict KubauthClient). (record store { clients = m }, none))
          (insert_over c.status.client_id (made c gs) (made c hs) store.clients)),
    refl,
  )
  register_over store c gs hs (some old) e = elim (Bool-cases (old.k8s_id == (made c gs).k8s_id)) [
    | inl t ↦ rw t (
      rw
          (
            lookup-insert_self c.status.client_id (made c gs) store.clients,
            eq_refl (made c gs).k8s_id,
          )
          (ap (λ (m : Dict KubauthClient). (record store { clients = m }, none))
            (insert_over c.status.client_id (made c gs) (made c hs) store.clients)),
      refl,
    )
    | inr t ↦ rw t (rw (e, t) refl, refl)
  ]

  set_client_over :
      (store : MemoryStore R U K) (c : OidcClient) (gs hs : List String)
      → (set_client (set_client store (made c gs)).0 (made c hs) ≡ set_client store (made c hs))
        × ((set_client store (made c gs)).1 ≡ (set_client store (made c hs)).1)
  unfolding set_client new_kubauth_client
  set_client_over store c gs hs =
      register_over store c gs hs (lookup c.status.client_id store.clients) refl

  -- An outcome that is alike up to the hashes is written over the one before it, and tells the same error.
  pub update_storage_over :
      (store : MemoryStore R U K) (c : OidcClient) (g h : Hashes)
      → Alike g h
      → (update_storage (update_storage store c g).0 c h ≡ update_storage store c h)
        × ((update_storage store c g).1 ≡ (update_storage store c h).1)
  unfolding update_storage delete_client
  update_storage_over store c (hashes gs) (hashes hs) a =
      elim (Bool-cases (bool_ptr_true c.spec.enabled)) [
        | inl t ↦ rw t (
          ap (λ (out : MemoryStore R U K × Option StoreError). (out.0, store_error out.1))
              (set_client_over store c gs hs).0,
          ap store_error (set_client_over store c gs hs).1,
        )
        | inr t ↦ rw t (
          ap (λ (m : Dict KubauthClient). (record store { clients = m }, none))
              (erase_twice c.status.client_id store.clients),
          refl,
        )
      ]
  update_storage_over store c (misconfigured e) (misconfigured f) a = (
    ap (λ (m : Dict KubauthClient). (record store { clients = m }, some f))
        (erase_twice c.status.client_id store.clients),
    ap some a,
  )
  update_storage_over store c (unreachable e) (unreachable f) a = (refl, ap some a)
  update_storage_over store c (hashes gs) (misconfigured f) a = absurd a
  update_storage_over store c (hashes gs) (unreachable f) a = absurd a
  update_storage_over store c (misconfigured e) (hashes hs) a = absurd a
  update_storage_over store c (misconfigured e) (unreachable f) a = absurd a
  update_storage_over store c (unreachable e) (hashes hs) a = absurd a
  update_storage_over store c (unreachable e) (misconfigured f) a = absurd a
