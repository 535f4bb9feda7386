-- ===== src/Oidc/Storage/Sessions.antt =====
-- cmd/oidc/oidcstorage/memory.go: authorization codes, PKCE sessions, tokens and pushed requests.
use kubauth.Base.{String, true, false, Option, none, some, if◌then◌else◌, lookup, insert, erase}
use kubauth.Oidc.Storage.{
  Fetched, fetched, Written, StoreAuthorizeCode, StoreRefreshToken, MemoryStore, not_found,
  invalidated_authorize_code, inactive_token,
}

-- What is made of an entry of the codes.
unfoldable pub read_code : {R : Type 0} → Option (StoreAuthorizeCode R) → Fetched R
read_code none = (none, some not_found)
read_code (some rel) =
    if rel.active
    then (some rel.requester, none)
    else (some rel.requester, some invalidated_authorize_code)

-- What is made of an entry of the refresh tokens.
unfoldable pub read_refresh_token : {R : Type 0} → Option (StoreRefreshToken R) → Fetched R
read_refresh_token none = (none, some not_found)
read_refresh_token (some rel) =
    if rel.active then (some rel.requester, none) else (some rel.requester, some inactive_token)

module _ {R U K : Type 0} where
  unfoldable pub create_authorize_code_session : MemoryStore R U K → String → R → MemoryStore R U K
  create_authorize_code_session s code req = record s {
    authorize_codes = insert code (record { active = true; requester = req }) s.authorize_codes;
  }

  unfoldable pub get_authorize_code_session : MemoryStore R U K → String → Fetched R
  unfolding read_code
  get_authorize_code_session s code = read_code (lookup code s.authorize_codes)

  unfoldable pub invalidate_code :
      MemoryStore R U K → String → Option (StoreAuthorizeCode R) → Written R U K
  invalidate_code s code none = (s, some not_found)
  invalidate_code s code (some rel) = (
    record s { authorize_codes = insert code (record rel { active = false }) s.authorize_codes },
    none,
  )

  unfoldable pub invalidate_authorize_code_session : MemoryStore R U K → String → Written R U K
  unfolding invalidate_code
  invalidate_authorize_code_session s code = invalidate_code s code (lookup code s.authorize_codes)

  unfoldable pub create_pkce_request_session : MemoryStore R U K → String → R → MemoryStore R U K
  create_pkce_request_session s code req = record s { pkces = insert code req s.pkces }

  unfoldable pub get_pkce_request_session : MemoryStore R U K → String → Fetched R
  get_pkce_request_session s code = fetched (lookup code s.pkces)

  unfoldable pub delete_pkce_request_session : MemoryStore R U K → String → MemoryStore R U K
  delete_pkce_request_session s code = record s { pkces = erase code s.pkces }

  unfoldable pub create_access_token_session :
      (R → String) → MemoryStore R U K → String → R → MemoryStore R U K
  create_access_token_session get_id s signature req = record s {
    access_tokens = insert signature req s.access_tokens;
    access_token_request_ids = insert (get_id req) signature s.access_token_request_ids;
  }

  unfoldable pub get_access_token_session : MemoryStore R U K → String → Fetched R
  get_access_token_session s signature = fetched (lookup signature s.access_tokens)

  unfoldable pub delete_access_token_session : MemoryStore R U K → String → MemoryStore R U K
  delete_access_token_session s signature = record s {
    access_tokens = erase signature s.access_tokens;
  }

  unfoldable pub create_refresh_token_session :
      (R → String) → MemoryStore R U K → String → String → R → MemoryStore R U K
  create_refresh_token_session get_id s signature access_token_signature req = record s {
    refresh_tokens =
        insert signature
          (record {
            active = true;
            access_token_signature = access_token_signature;
            requester = req;
          })
          s.refresh_tokens;
    refresh_token_request_ids = insert (get_id req) signature s.refresh_token_request_ids;
  }

  unfoldable pub get_refresh_token_session : MemoryStore R U K → String → Fetched R
  unfolding read_refresh_token
  get_refresh_token_session s signature = read_refresh_token (lookup signature s.refresh_tokens)

  unfoldable pub delete_refresh_token_session : MemoryStore R U K → String → MemoryStore R U K
  delete_refresh_token_session s signature = record s {
    refresh_tokens = erase signature s.refresh_tokens;
  }

  unfoldable pub deactivate :
      MemoryStore R U K → String → Option (StoreRefreshToken R) → Written R U K
  deactivate s signature none = (s, some not_found)
  deactivate s signature (some rel) = (
    record s { refresh_tokens = insert signature (record rel { active = false }) s.refresh_tokens },
    none,
  )

  -- The revocation of the refresh token of this signature, where the request has one.
  unfoldable pub revoke_refresh : MemoryStore R U K → Option String → Written R U K
  unfolding deactivate
  revoke_refresh s none = (s, none)
  revoke_refresh s (some signature) = deactivate s signature (lookup signature s.refresh_tokens)

  unfoldable pub revoke_refresh_token : MemoryStore R U K → String → Written R U K
  unfolding revoke_refresh
  revoke_refresh_token s request_id =
      revoke_refresh s (lookup request_id s.refresh_token_request_ids)

  unfoldable pub revoke_access : MemoryStore R U K → Option String → MemoryStore R U K
  unfolding delete_access_token_session
  revoke_access s none = s
  revoke_access s (some signature) = delete_access_token_session s signature

  unfoldable pub revoke_access_token : MemoryStore R U K → String → MemoryStore R U K
  unfolding revoke_access
  revoke_access_token s request_id = revoke_access s (lookup request_id s.access_token_request_ids)

  unfoldable pub after_revocation : String → Written R U K → Written R U K
  unfolding revoke_access_token
  after_revocation request_id (s, some e) = (s, some e)
  after_revocation request_id (s, none) = (revoke_access_token s request_id, none)

  unfoldable pub rotate_refresh_token : MemoryStore R U K → String → Written R U K
  unfolding revoke_refresh_token after_revocation
  rotate_refresh_token s request_id =
      after_revocation request_id (revoke_refresh_token s request_id)

  unfoldable pub create_par_session : MemoryStore R U K → String → R → MemoryStore R U K
  create_par_session s uri req = record s { par_sessions = insert uri req s.par_sessions }

  unfoldable pub get_par_session : MemoryStore R U K → String → Fetched R
  get_par_session s uri = fetched (lookup uri s.par_sessions)

  unfoldable pub delete_par_session : MemoryStore R U K → String → MemoryStore R U K
  delete_par_session s uri = record s { par_sessions = erase uri s.par_sessions }
