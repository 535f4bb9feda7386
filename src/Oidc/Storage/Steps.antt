-- ===== src/Oidc/Storage/Steps.antt =====
-- Sequences of operations on the store of cmd/oidc/oidcstorage/memory.go, in the order in which
-- they take the mutexes.
use kubauth.Base.{All, String, List, [], ◌∷◌, ℕ}
use kubauth.Oidc.Client.{KubauthClient}
use kubauth.Oidc.Storage.{
  create_open_id_connect_session, delete_open_id_connect_session, set_upstream, delete_upstream,
  set_client, delete_client, set_client_assertion_jwt, MemoryStore,
}
use kubauth.Oidc.Storage.Sessions.{
  create_authorize_code_session, invalidate_authorize_code_session, create_pkce_request_session,
  delete_pkce_request_session, create_access_token_session, delete_access_token_session,
  create_refresh_token_session, delete_refresh_token_session, revoke_refresh_token,
  revoke_access_token, rotate_refresh_token, create_par_session, delete_par_session,
}

-- The operations that write.
pub data Op (R U : Type 0) : Type 0 where
  create_id_session : String → R → Op R U
  delete_id_session : String → Op R U
  set_up : String → U → Op R U
  delete_up : String → Op R U
  set_cl : KubauthClient → Op R U
  delete_cl : String → Op R U
  set_jwt : (String → ℕ) → String → ℕ → Op R U
  create_code : String → R → Op R U
  invalidate : String → Op R U
  create_pkce : String → R → Op R U
  delete_pkce : String → Op R U
  create_access : String → R → Op R U
  delete_access : String → Op R U
  create_refresh : String → String → R → Op R U
  delete_refresh : String → Op R U
  revoke_refresh_of : String → Op R U
  revoke_access_of : String → Op R U
  rotate : String → Op R U
  create_par : String → R → Op R U
  delete_par : String → Op R U

module _ {R U K : Type 0} (get_id : R → String) where
  -- One operation; its error is dropped.
  unfoldable pub apply : Op R U → MemoryStore R U K → MemoryStore R U K
  apply (create_id_session code req) s = create_open_id_connect_session s code req
  apply (delete_id_session code) s = delete_open_id_connect_session s code
  apply (set_up name u) s = set_upstream s name u
  apply (delete_up name) s = delete_upstream s name
  apply (set_cl client) s = (set_client s client).0
  apply (delete_cl id) s = delete_client s id
  apply (set_jwt now jti exp) s = (set_client_assertion_jwt s now jti exp).0
  apply (create_code code req) s = create_authorize_code_session s code req
  apply (invalidate code) s = (invalidate_authorize_code_session s code).0
  apply (create_pkce code req) s = create_pkce_request_session s code req
  apply (delete_pkce code) s = delete_pkce_request_session s code
  apply (create_access signature req) s = create_access_token_session get_id s signature req
  apply (delete_access signature) s = delete_access_token_session s signature
  apply (create_refresh signature access req) s =
      create_refresh_token_session get_id s signature access req
  apply (delete_refresh signature) s = delete_refresh_token_session s signature
  apply (revoke_refresh_of id) s = (revoke_refresh_token s id).0
  apply (revoke_access_of id) s = revoke_access_token s id
  apply (rotate id) s = (rotate_refresh_token s id).0
  apply (create_par uri req) s = create_par_session s uri req
  apply (delete_par uri) s = delete_par_session s uri

  unfoldable pub run : List (Op R U) → MemoryStore R U K → MemoryStore R U K
  unfolding apply
  run [] s = s
  run (op ∷ ops) s = run ops (apply op s)

  -- What every operation of a kind keeps, a sequence of that kind keeps.
  pub run-keeps :
      (P : MemoryStore R U K → Type 0) (Allowed : Op R U → Type 0)
      → ((op : Op R U) (s : MemoryStore R U K) → Allowed op → P s → P (apply op s))
      → (ops : List (Op R U)) (s : MemoryStore R U K) → All Allowed ops
      → P s
      → P (run ops s)
  unfolding run
  run-keeps P Allowed keeps [] s a p = p
  run-keeps P Allowed keeps (op ∷ ops) s a p =
      run-keeps P Allowed keeps ops (apply op s) a.1 (keeps op s a.0 p)
