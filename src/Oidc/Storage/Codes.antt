-- ===== src/Oidc/Storage/Codes.antt =====
-- The life of an authorization code in the store.
use kubauth.Base.{
  ◌≡◌, ◌≢◌, refl, String, Bool, true, false, Option, none, some, List, arith, eq_iff, lookup,
  lookup-insert, lookup-insert_self, All,
}
use kubauth.Oidc.Storage.{
  create_open_id_connect_session, delete_open_id_connect_session, set_upstream, delete_upstream,
  register, set_client, delete_client, note_jti, set_client_assertion_jwt, StoreAuthorizeCode,
  MemoryStore, invalidated_authorize_code,
}
use kubauth.Oidc.Storage.Sessions.{
  create_authorize_code_session, get_authorize_code_session, invalidate_code,
  invalidate_authorize_code_session, create_pkce_request_session, delete_pkce_request_session,
  create_access_token_session, delete_access_token_session, create_refresh_token_session,
  delete_refresh_token_session, deactivate, revoke_refresh, revoke_refresh_token, revoke_access,
  revoke_access_token, after_revocation, rotate_refresh_token, create_par_session,
  delete_par_session,
}
use kubauth.Oidc.Storage.Steps.{apply, run, run-keeps, Op, create_code, invalidate}

-- An operation that does not store the code again and, where the code is active, does not use it.
abbrev pub Leaves : {R U : Type 0} → String → Bool → Op R U → Type 0
Leaves code active (create_code c req) = c ≢ code
Leaves code active (invalidate c) = active ≡ true → c ≢ code
Leaves code active _ = Unit

module _ {R U K : Type 0} (get_id : R → String) where
  -- The store has the code, for this request, active or not.
  abbrev Holds : String → Bool → R → MemoryStore R U K → Type 0
  Holds code active req s =
      lookup code s.authorize_codes ≡ some (record { active = active; requester = req })

  invalidate_code-Holds :
      (code c : String) (active : Bool) (req : R) (s : MemoryStore R U K)
      (o : Option (StoreAuthorizeCode R))
      → lookup c s.authorize_codes ≡ o
      → (active ≡ true → c ≢ code)
      → Holds code active req s
      → Holds code active req (invalidate_code s c o).0
  unfolding invalidate_code
  invalidate_code-Holds code c active req s none e ne p = p
  invalidate_code-Holds code c true req s (some rel) e ne p = ground (
    arith,
    ne refl,
    lookup-insert c code (record rel { active = false }) s.authorize_codes,
    eq_iff c code,
  )
  invalidate_code-Holds code c false req s (some rel) e ne p =
      ground (
        arith,
        lookup-insert c code (record rel { active = false }) s.authorize_codes,
        eq_iff c code,
      )

  apply-Holds :
      (code : String) (active : Bool) (req : R) (op : Op R U) (s : MemoryStore R U K)
      → Leaves code active op
      → Holds code active req s
      → Holds code active req (apply get_id op s)
  unfolding apply set_client register set_client_assertion_jwt note_jti
      invalidate_authorize_code_session invalidate_code create_authorize_code_session
      revoke_refresh_token revoke_refresh deactivate revoke_access_token revoke_access
      rotate_refresh_token after_revocation create_open_id_connect_session
      delete_open_id_connect_session set_upstream delete_upstream delete_client
      create_pkce_request_session delete_pkce_request_session create_access_token_session
      delete_access_token_session create_refresh_token_session delete_refresh_token_session
      create_par_session delete_par_session
  apply-Holds code active req (create_code c r) s ne p = ground (
    arith,
    lookup-insert c code (record { active = true; requester = r }) s.authorize_codes,
    eq_iff c code,
  )
  apply-Holds code active req (invalidate c) s ne p =
      invalidate_code-Holds code c active req s (lookup c s.authorize_codes) refl ne p
  apply-Holds code active req op s ne p = ground arith

  run-Holds :
      (code : String) (active : Bool) (req : R) (ops : List (Op R U)) (s : MemoryStore R U K)
      → All (Leaves code active) ops
      → Holds code active req s
      → Holds code active req (run get_id ops s)
  run-Holds code active req ops s =
      run-keeps get_id (Holds code active req) (Leaves code active)
        (λ op s. apply-Holds code active req op s) ops s

  create-Holds :
      (code : String) (req : R) (s : MemoryStore R U K)
      → Holds code true req (create_authorize_code_session s code req)
  unfolding create_authorize_code_session
  create-Holds code req s =
      lookup-insert_self code (record { active = true; requester = req }) s.authorize_codes

  invalidate-Holds :
      (code : String) (req : R) (s : MemoryStore R U K)
      → Holds code true req s
      → ((invalidate_authorize_code_session s code).1 ≡ none)
        × Holds code false req (invalidate_authorize_code_session s code).0
  unfolding invalidate_authorize_code_session invalidate_code
  invalidate-Holds code req s p =
      rw p (
        refl,
        lookup-insert_self code (record { active = false; requester = req }) s.authorize_codes,
      )

  -- The life of an authorization code. A code that is stored for a request is fetched with that
  -- request, whatever operations run before it is used. Its use succeeds; from then on, until the
  -- code is stored again, whatever operations run, it is fetched with the error
  -- `ErrInvalidatedAuthorizeCode` and the same request, so that the server can tell a replay.
  pub code_single_use :
      (code : String) (req : R) (s : MemoryStore R U K) (before after : List (Op R U))
      → All (Leaves code true) before
      → All (Leaves code false) after
      → let stored = run get_id before (create_authorize_code_session s code req) in
        let used = invalidate_authorize_code_session stored code in
        (get_authorize_code_session stored code ≡ (some req, none))
        × (used.1 ≡ none)
        × (get_authorize_code_session (run get_id after used.0) code
            ≡ (some req, some invalidated_authorize_code))
  unfolding get_authorize_code_session
  code_single_use code req s before after a b =
      let stored = run get_id before (create_authorize_code_session s code req) in
      let h =
        run-Holds code true req before (create_authorize_code_session s code req) a
          (create-Holds code req s) in
      let u = invalidate-Holds code req stored h in
      (
        rw h refl,
        u.0,
        rw (run-Holds code false req after (invalidate_authorize_code_session stored code).0 b u.1)
            refl,
      )
