-- ===== src/Oidc/Storage/Assertions.antt =====
-- The replay protection of client assertions: the blacklist of JWT identifiers in the store.
use kubauth.Base.{
  ◌≡◌, refl, String, true, Option, none, some, List, [], ◌∷◌, arith, eq_iff, lookup, lookup-insert,
  lookup-insert_self, All, ℕ, ◌≤◌, ◌<◌, Dict,
}
use kubauth.Oidc.Storage.{
  still_listed, purge, create_open_id_connect_session, delete_open_id_connect_session, set_upstream,
  delete_upstream, register, set_client, delete_client, client_assertion_jwt_valid, note_jti,
  set_client_assertion_jwt, is_jwt_used, MemoryStore, jti_known,
}
use kubauth.Oidc.Storage.Sessions.{
  create_authorize_code_session, invalidate_code, invalidate_authorize_code_session,
  create_pkce_request_session, delete_pkce_request_session, create_access_token_session,
  delete_access_token_session, create_refresh_token_session, delete_refresh_token_session,
  deactivate, revoke_refresh, revoke_refresh_token, revoke_access, revoke_access_token,
  after_revocation, rotate_refresh_token, create_par_session, delete_par_session,
}
use kubauth.Oidc.Storage.Steps.{apply, run, run-keeps, Op, set_jwt}

-- An operation that reads the clock at this entry no later than this instant.
abbrev pub ClockUpTo : {R U : Type 0} → String → ℕ → Op R U → Type 0
ClockUpTo jti exp (set_jwt now j e) = now jti ≤ exp
ClockUpTo jti exp _ = Unit

-- The entry of an identifier survives a purge while its time has not passed.
lookup-purge :
    (now : String → ℕ) (jti : String) (exp : ℕ) (m : Dict ℕ)
    → now jti ≤ exp
    → lookup jti m ≡ some exp
    → lookup jti (purge now m) ≡ some exp
unfolding lookup purge
lookup-purge now jti exp [] h e = e
lookup-purge now jti exp ((j, x) ∷ m) h e =
    ground (arith, lookup-purge now jti exp m h, eq_iff j jti)

module _ {R U K : Type 0} (get_id : R → String) where
  abbrev Listed : String → ℕ → MemoryStore R U K → Type 0
  Listed jti exp s = lookup jti s.blacklisted_jtis ≡ some exp

  note_jti-Listed :
      (jti j : String) (exp e : ℕ) (s : MemoryStore R U K) (o : Option ℕ)
      → lookup j s.blacklisted_jtis ≡ o
      → Listed jti exp s
      → Listed jti exp (note_jti s j e o).0
  unfolding note_jti
  note_jti-Listed jti j exp e s none l h =
      ground (arith, lookup-insert j jti e s.blacklisted_jtis, eq_iff j jti)
  note_jti-Listed jti j exp e s (some x) l h = h

  apply-Listed :
      (jti : String) (exp : ℕ) (op : Op R U) (s : MemoryStore R U K)
      → ClockUpTo jti exp op
      → Listed jti exp s
      → Listed jti exp (apply get_id op s)
  unfolding apply set_client register set_client_assertion_jwt invalidate_authorize_code_session
      invalidate_code create_authorize_code_session revoke_refresh_token revoke_refresh deactivate
      revoke_access_token revoke_access rotate_refresh_token after_revocation
      create_open_id_connect_session delete_open_id_connect_session set_upstream delete_upstream
      delete_client create_pkce_request_session delete_pkce_request_session
      create_access_token_session delete_access_token_session create_refresh_token_session
      delete_refresh_token_session create_par_session delete_par_session
  apply-Listed jti exp (set_jwt now j e) s c h =
      let kept = purge now s.blacklisted_jtis in
      note_jti-Listed jti j exp e (record s { blacklisted_jtis = kept }) (lookup j kept) refl
        (lookup-purge now jti exp s.blacklisted_jtis c h)
  apply-Listed jti exp op s c h = ground arith

  note_jti-ok :
      (jti : String) (exp : ℕ) (s : MemoryStore R U K) (o : Option ℕ)
      → (note_jti s jti exp o).1 ≡ none
      → Listed jti exp (note_jti s jti exp o).0
  unfolding note_jti
  note_jti-ok jti exp s none h = lookup-insert_self jti exp s.blacklisted_jtis
  note_jti-ok jti exp s (some x) h = ground arith

  Listed-used :
      (jti : String) (exp now : ℕ) (s : MemoryStore R U K)
      → Listed jti exp s
      → now < exp
      → is_jwt_used s now jti ≡ true
  unfolding is_jwt_used client_assertion_jwt_valid still_listed
  Listed-used jti exp now s h l = ground (arith, h, l)

  -- An assertion is not accepted twice before it expires. Once its identifier is accepted with an
  -- expiry, whatever operations run while the clock has not passed that expiry, a second attempt to
  -- store the identifier is refused with `ErrJTIKnown`, whatever expiry it comes with, and strictly
  -- before the expiry the identifier counts as used.
  pub assertion_used_once :
      (jti : String) (exp again now : ℕ) (clock clock' : String → ℕ) (s : MemoryStore R U K)
      (ops : List (Op R U))
      → (set_client_assertion_jwt s clock jti exp).1 ≡ none
      → All (ClockUpTo jti exp) ops
      → clock' jti ≤ exp
      → let later = run get_id ops (set_client_assertion_jwt s clock jti exp).0 in
        ((set_client_assertion_jwt later clock' jti again).1 ≡ some jti_known)
        × (now < exp → is_jwt_used later now jti ≡ true)
  unfolding set_client_assertion_jwt is_jwt_used client_assertion_jwt_valid still_listed
  assertion_used_once jti exp again now clock clock' s ops ok upto c =
      let later = run get_id ops (set_client_assertion_jwt s clock jti exp).0 in
      let kept = purge clock s.blacklisted_jtis in
      let h =
        run-keeps get_id (Listed jti exp) (ClockUpTo jti exp) (apply-Listed jti exp) ops
          (set_client_assertion_jwt s clock jti exp).0 upto
          (note_jti-ok jti exp (record s { blacklisted_jtis = kept }) (lookup jti kept) ok) in
      (
        rw (lookup-purge clock' jti exp later.blacklisted_jtis c h, note_jti) refl,
        Listed-used jti exp now later h,
      )
