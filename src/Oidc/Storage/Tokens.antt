-- ===== src/Oidc/Storage/Tokens.antt =====
-- The life of a refresh token in the store, and its rotation.
use kubauth.Base.{
  ◌≡◌, ◌≢◌, refl, ap, String, true, false, Option, none, some, arith, eq_iff, lookup, lookup-insert,
  lookup-erase,
}
use kubauth.Oidc.Storage.{
  Written, create_open_id_connect_session, delete_open_id_connect_session, set_upstream,
  delete_upstream, register, set_client, delete_client, note_jti, set_client_assertion_jwt,
  StoreRefreshToken, MemoryStore,
}
use kubauth.Oidc.Storage.Sessions.{
  create_authorize_code_session, invalidate_code, invalidate_authorize_code_session,
  create_pkce_request_session, delete_pkce_request_session, create_access_token_session,
  delete_access_token_session, create_refresh_token_session, delete_refresh_token_session,
  deactivate, revoke_refresh, revoke_refresh_token, revoke_access, revoke_access_token,
  after_revocation, rotate_refresh_token, create_par_session, delete_par_session,
}
use kubauth.Oidc.Storage.Steps.{
  apply, Op, create_refresh, delete_refresh, revoke_refresh_of, revoke_access_of, rotate,
}

-- An operation that neither stores the token again nor deletes it.
abbrev pub LeavesEntry : {R U : Type 0} → String → Op R U → Type 0
LeavesEntry signature (create_refresh sig access req) = sig ≢ signature
LeavesEntry signature (delete_refresh sig) = sig ≢ signature
LeavesEntry signature _ = Unit

-- An operation that leaves the token of this request in use: it does not store or delete the
-- token, and it neither revokes nor rotates the token of the request, nor stores another one for it.
abbrev pub LeavesToken : {R U : Type 0} → (R → String) → String → String → Op R U → Type 0
LeavesToken get_id signature id (create_refresh sig access req) =
    (sig ≢ signature) × (get_id req ≢ id)
LeavesToken get_id signature id (delete_refresh sig) = sig ≢ signature
LeavesToken get_id signature id (revoke_refresh_of j) = j ≢ id
LeavesToken get_id signature id (rotate j) = j ≢ id
LeavesToken get_id signature id _ = Unit

abbrev pub off : {R : Type 0} → StoreRefreshToken R → StoreRefreshToken R
off t = record t { active = false }

module _ {R U K : Type 0} where
  abbrev pub Entry : String → StoreRefreshToken R → MemoryStore R U K → Type 0
  Entry signature t s = lookup signature s.refresh_tokens ≡ some t

  -- The token of this request, and of no other one.
  pub record Owned (signature id : String) (s : MemoryStore R U K) : Type 0 where
    pub current : lookup id s.refresh_token_request_ids ≡ some signature
    pub only : (j : String) → lookup j s.refresh_token_request_ids ≡ some signature → j ≡ id

  -- Deactivation of a token does not touch another one, and keeps one that is inactive.
  deactivate_other :
      (sig signature : String) (t : StoreRefreshToken R) (s : MemoryStore R U K)
      (o : Option (StoreRefreshToken R))
      → sig ≢ signature
      → Entry signature t s
      → Entry signature t (deactivate s sig o).0
  unfolding deactivate
  deactivate_other sig signature t s none ne e = e
  deactivate_other sig signature t s (some rel) ne e =
      ground (arith, lookup-insert sig signature (off rel) s.refresh_tokens, eq_iff sig signature)

  deactivate_inactive :
      (sig signature : String) (t : StoreRefreshToken R) (s : MemoryStore R U K)
      (o : Option (StoreRefreshToken R))
      → lookup sig s.refresh_tokens ≡ o
      → Entry signature (off t) s
      → Entry signature (off t) (deactivate s sig o).0
  unfolding deactivate
  deactivate_inactive sig signature t s none l e = e
  deactivate_inactive sig signature t s (some rel) l e =
      ground (arith, lookup-insert sig signature (off rel) s.refresh_tokens, eq_iff sig signature)

  revoke_refresh_other :
      (signature : String) (t : StoreRefreshToken R) (s : MemoryStore R U K) (o : Option String)
      → o ≢ some signature
      → Entry signature t s
      → Entry signature t (revoke_refresh s o).0
  unfolding revoke_refresh
  revoke_refresh_other signature t s none ne e = e
  revoke_refresh_other signature t s (some sig) ne e =
      deactivate_other sig signature t s (lookup sig s.refresh_tokens) (λ h. ne (ap some h)) e

  revoke_refresh_inactive :
      (signature : String) (t : StoreRefreshToken R) (s : MemoryStore R U K) (o : Option String)
      → Entry signature (off t) s
      → Entry signature (off t) (revoke_refresh s o).0
  unfolding revoke_refresh
  revoke_refresh_inactive signature t s none e = e
  revoke_refresh_inactive signature t s (some sig) e =
      deactivate_inactive sig signature t s (lookup sig s.refresh_tokens) refl e

  pub revoke_access-Entry :
      (signature : String) (t : StoreRefreshToken R) (s : MemoryStore R U K) (o : Option String)
      → Entry signature t s
      → Entry signature t (revoke_access s o)
  unfolding revoke_access delete_access_token_session
  revoke_access-Entry signature t s none e = e
  revoke_access-Entry signature t s (some sig) e = e

  after_revocation-Entry :
      (signature id : String) (t : StoreRefreshToken R) (w : Written R U K)
      → Entry signature t w.0
      → Entry signature t (after_revocation id w).0
  unfolding after_revocation revoke_access_token
  after_revocation-Entry signature id t (s, none) e =
      revoke_access-Entry signature t s (lookup id s.access_token_request_ids) e
  after_revocation-Entry signature id t (s, some x) e = e

  module _ (get_id : R → String) where
    pub apply_inactive :
        (signature : String) (t : StoreRefreshToken R) (op : Op R U) (s : MemoryStore R U K)
        → LeavesEntry signature op
        → Entry signature (off t) s
        → Entry signature (off t) (apply get_id op s)
    unfolding apply set_client register set_client_assertion_jwt note_jti
        invalidate_authorize_code_session invalidate_code create_authorize_code_session
        revoke_refresh_token revoke_refresh deactivate revoke_access_token revoke_access
        rotate_refresh_token after_revocation create_open_id_connect_session
        delete_open_id_connect_session set_upstream delete_upstream delete_client
        create_pkce_request_session delete_pkce_request_session create_access_token_session
        delete_access_token_session create_refresh_token_session delete_refresh_token_session
        create_par_session delete_par_session
    apply_inactive signature t (create_refresh sig access req) s ne e = ground (
      arith,
      lookup-insert sig signature
          (record { active = true; access_token_signature = access; requester = req })
          s.refresh_tokens,
      eq_iff sig signature,
    )
    apply_inactive signature t (delete_refresh sig) s ne e =
        ground (arith, lookup-erase sig signature s.refresh_tokens, eq_iff sig signature)
    apply_inactive signature t (revoke_refresh_of id) s ne e =
        revoke_refresh_inactive signature t s (lookup id s.refresh_token_request_ids) e
    apply_inactive signature t (revoke_access_of id) s ne e =
        revoke_access-Entry signature (off t) s (lookup id s.access_token_request_ids) e
    apply_inactive signature t (rotate id) s ne e =
        after_revocation-Entry signature id (off t)
          (revoke_refresh s (lookup id s.refresh_token_request_ids))
          (revoke_refresh_inactive signature t s (lookup id s.refresh_token_request_ids) e)
    apply_inactive signature t op s ne e = ground arith

    pub apply_active :
        (signature id : String) (t : StoreRefreshToken R) (op : Op R U) (s : MemoryStore R U K)
        → LeavesToken get_id signature id op
        → Owned signature id s
        → Entry signature t s
        → Entry signature t (apply get_id op s)
    unfolding apply set_client register set_client_assertion_jwt note_jti
        invalidate_authorize_code_session invalidate_code create_authorize_code_session
        revoke_refresh_token revoke_refresh deactivate revoke_access_token revoke_access
        rotate_refresh_token after_revocation create_open_id_connect_session
        delete_open_id_connect_session set_upstream delete_upstream delete_client
        create_pkce_request_session delete_pkce_request_session create_access_token_session
        delete_access_token_session create_refresh_token_session delete_refresh_token_session
        create_par_session delete_par_session
    apply_active signature id t (create_refresh sig access req) s ne o e = ground (
      arith,
      lookup-insert sig signature
          (record { active = true; access_token_signature = access; requester = req })
          s.refresh_tokens,
      eq_iff sig signature,
    )
    apply_active signature id t (delete_refresh sig) s ne o e =
        ground (arith, lookup-erase sig signature s.refresh_tokens, eq_iff sig signature)
    apply_active signature id t (revoke_refresh_of j) s ne o e =
        revoke_refresh_other signature t s (lookup j s.refresh_token_request_ids)
          (λ h. ne (o.only j h)) e
    apply_active signature id t (revoke_access_of j) s ne o e =
        revoke_access-Entry signature t s (lookup j s.access_token_request_ids) e
    apply_active signature id t (rotate j) s ne o e =
        after_revocation-Entry signature j t
          (revoke_refresh s (lookup j s.refresh_token_request_ids))
          (revoke_refresh_other signature t s (lookup j s.refresh_token_request_ids)
            (λ h. ne (o.only j h)) e)
    apply_active signature id t op s ne o e = ground arith
