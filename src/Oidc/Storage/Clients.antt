-- ===== src/Oidc/Storage/Clients.antt =====
-- Who owns an OIDC client of the store.
use kubauth.Base.{
  ◌≡◌, ◌≢◌, refl, sym, ◌∙◌, ap, inl, inr, String, Option, none, some, List, arith, ◌==◌, eq_iff,
  lookup, insert, lookup-insert, lookup-insert_self, lookup-erase, All, Bool-cases,
}
use mathlib.Core.Path.{subst}
use kubauth.Oidc.Client.{KubauthClient}
use kubauth.Oidc.Storage.{
  fetched, create_open_id_connect_session, delete_open_id_connect_session, set_upstream,
  delete_upstream, get_kubauth_client, register, set_client, delete_client, note_jti,
  set_client_assertion_jwt, MemoryStore, client_duplication,
}
use kubauth.Oidc.Storage.Sessions.{
  create_authorize_code_session, invalidate_code, invalidate_authorize_code_session,
  create_pkce_request_session, delete_pkce_request_session, create_access_token_session,
  delete_access_token_session, create_refresh_token_session, delete_refresh_token_session,
  deactivate, revoke_refresh, revoke_refresh_token, revoke_access, revoke_access_token,
  after_revocation, rotate_refresh_token, create_par_session, delete_par_session,
}
use kubauth.Oidc.Storage.Steps.{apply, run, run-keeps, Op, set_cl, delete_cl}

abbrev pub Keeps : {R U : Type 0} → String → Op R U → Type 0
Keeps id (delete_cl i) = i ≢ id
Keeps id _ = Unit

module _ {R U K : Type 0} (get_id : R → String) where
  -- A client with this identifier is registered, for this resource.
  abbrev pub OwnedBy : String → String → MemoryStore R U K → Type 0
  OwnedBy id k8s_id s =
      (client : KubauthClient) × (lookup id s.clients ≡ some client)
      × (client.client_id ≡ id)
      × (client.k8s_id ≡ k8s_id)

  -- The store with the client written.
  abbrev written : KubauthClient → MemoryStore R U K → MemoryStore R U K
  written client s = record s { clients = insert client.client_id client s.clients }

  written_other :
      (id k8s_id : String) (client : KubauthClient) (s : MemoryStore R U K)
      → client.client_id ≢ id
      → OwnedBy id k8s_id s
      → OwnedBy id k8s_id (written client s)
  written_other id k8s_id client s ne p = (
    p.0,
    ground (arith, lookup-insert client.client_id id client s.clients, eq_iff client.client_id id),
    p.2,
    p.3,
  )

  written_same :
      (k8s_id : String) (client : KubauthClient) (s : MemoryStore R U K)
      → client.k8s_id ≡ k8s_id
      → OwnedBy client.client_id k8s_id (written client s)
  written_same k8s_id client s e =
      (client, lookup-insert_self client.client_id client s.clients, refl, e)

  written-OwnedBy :
      (id k8s_id : String) (client old : KubauthClient) (s : MemoryStore R U K)
      → lookup client.client_id s.clients ≡ some old
      → old.k8s_id ≡ client.k8s_id
      → OwnedBy id k8s_id s
      → OwnedBy id k8s_id (written client s)
  written-OwnedBy id k8s_id client old s e same p = elim (Bool-cases (client.client_id == id)) [
    | inl h ↦
        subst (λ i. OwnedBy i k8s_id (written client s)) ((eq_iff client.client_id id).0 h)
          (written_same k8s_id client s
            (ground (arith, h, eq_iff client.client_id id, e, same, p.1, p.3)))
    | inr h ↦
        written_other id k8s_id client s (λ k. ground (arith, h, k, eq_iff client.client_id id)) p
  ]

  register-OwnedBy :
      (id k8s_id : String) (client : KubauthClient) (s : MemoryStore R U K)
      (o : Option KubauthClient)
      → lookup client.client_id s.clients ≡ o
      → OwnedBy id k8s_id s
      → OwnedBy id k8s_id (register s client o).0
  unfolding register
  register-OwnedBy id k8s_id client s none e p =
      written_other id k8s_id client s (λ k. ground (arith, e, k, p.1)) p
  register-OwnedBy id k8s_id client s (some old) e p =
      elim (Bool-cases (old.k8s_id == client.k8s_id)) [
        | inl h ↦
            rw h
              (written-OwnedBy id k8s_id client old s e ((eq_iff old.k8s_id client.k8s_id).0 h) p)
        | inr h ↦ rw h p
      ]

  apply-OwnedBy :
      (id k8s_id : String) (op : Op R U) (s : MemoryStore R U K)
      → Keeps id op
      → OwnedBy id k8s_id s
      → OwnedBy id k8s_id (apply get_id op s)
  unfolding apply set_client set_client_assertion_jwt note_jti invalidate_authorize_code_session
      invalidate_code create_authorize_code_session revoke_refresh_token revoke_refresh deactivate
      revoke_access_token revoke_access rotate_refresh_token after_revocation
      create_open_id_connect_session delete_open_id_connect_session set_upstream delete_upstream
      delete_client create_pkce_request_session delete_pkce_request_session
      create_access_token_session delete_access_token_session create_refresh_token_session
      delete_refresh_token_session create_par_session delete_par_session
  apply-OwnedBy id k8s_id (set_cl client) s ne p =
      register-OwnedBy id k8s_id client s (lookup client.client_id s.clients) refl p
  apply-OwnedBy id k8s_id (delete_cl i) s ne p =
      (p.0, ground (arith, lookup-erase i id s.clients, eq_iff i id), p.2, p.3)
  apply-OwnedBy id k8s_id op s ne p = (p.0, ground arith, p.2, p.3)

  register-ok :
      (client : KubauthClient) (s : MemoryStore R U K) (o : Option KubauthClient)
      → (register s client o).1 ≡ none
      → OwnedBy client.client_id client.k8s_id (register s client o).0
  unfolding register
  register-ok client s none h = written_same client.k8s_id client s refl
  register-ok client s (some old) h = elim (Bool-cases (old.k8s_id == client.k8s_id)) [
    | inl t ↦ rw t (written_same client.k8s_id client s refl)
    | inr t ↦ ground (arith, t, h)
  ]

  set_client-known :
      (second old : KubauthClient) (s : MemoryStore R U K)
      → lookup second.client_id s.clients ≡ some old
      → (old.k8s_id ≢ second.k8s_id
          → set_client s second ≡ (s, some (client_duplication old.k8s_id)))
        × (old.k8s_id ≡ second.k8s_id → set_client s second ≡ (written second s, none))
  unfolding set_client register
  set_client-known second old s e =
      rw (e, register)
        (
          λ ne. ground (arith, ne, eq_iff old.k8s_id second.k8s_id),
          λ h. ground (arith, h, eq_iff old.k8s_id second.k8s_id),
        )

  -- An OIDC client stays with the resource that registered it. Once a client is stored, whatever
  -- operations run that do not delete its identifier, a client of another resource with that
  -- identifier is refused, with an error that names the owner, and changes nothing; a client of
  -- the same resource is stored in its place.
  pub client_ownership :
      (first second : KubauthClient) (s : MemoryStore R U K) (ops : List (Op R U))
      → (set_client s first).1 ≡ none
      → All (Keeps first.client_id) ops
      → second.client_id ≡ first.client_id
      → let later = run get_id ops (set_client s first).0 in
        (first.k8s_id ≢ second.k8s_id
          → set_client later second ≡ (later, some (client_duplication first.k8s_id)))
        × (first.k8s_id ≡ second.k8s_id
            → ((set_client later second).1 ≡ none)
              × (get_kubauth_client (set_client later second).0 first.client_id
                  ≡ (some second, none)))
  unfolding get_kubauth_client set_client
  client_ownership first second s ops ok keep same =
      let later = run get_id ops (set_client s first).0 in
      let p =
        run-keeps get_id (OwnedBy first.client_id first.k8s_id) (Keeps first.client_id)
          (apply-OwnedBy first.client_id first.k8s_id) ops (set_client s first).0 keep
          (register-ok first s (lookup first.client_id s.clients) ok) in
      let known = set_client-known second p.0 later (ap (λ i. lookup i later.clients) same ∙ p.1) in
      (
        λ ne. known.0 (λ h. ne (sym p.3 ∙ h)) ∙ ap (λ k. (later, some (client_duplication k))) p.3,
        λ h.
            let done = known.1 (p.3 ∙ h) in
            (
              ap (λ w. w.1) done,
              ap (λ w. get_kubauth_client w.0 first.client_id) done
                  ∙ ap fetched (
                      ap (λ i. lookup first.client_id (insert i second later.clients)) same
                      ∙ lookup-insert_self first.client_id second later.clients),
            ),
      )
