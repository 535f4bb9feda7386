-- ===== src/Oidc/Storage/Rotation.antt =====
-- The rotation of a refresh token in the store: `RotateRefreshToken`.
use kubauth.Base.{
  ◌≡◌, ◌≢◌, refl, ◌∙◌, String, true, false, Option, none, some, List, arith, eq_iff, lookup, insert,
  lookup-insert, lookup-insert_self, lookup-erase_self, All,
}
use kubauth.Oidc.Storage.{
  Written, create_open_id_connect_session, delete_open_id_connect_session, set_upstream,
  delete_upstream, register, set_client, delete_client, note_jti, set_client_assertion_jwt,
  StoreRefreshToken, MemoryStore, not_found, inactive_token,
}
use kubauth.Oidc.Storage.Sessions.{
  create_authorize_code_session, invalidate_code, invalidate_authorize_code_session,
  create_pkce_request_session, delete_pkce_request_session, create_access_token_session,
  get_access_token_session, delete_access_token_session, create_refresh_token_session,
  get_refresh_token_session, delete_refresh_token_session, deactivate, revoke_refresh,
  revoke_refresh_token, revoke_access, revoke_access_token, after_revocation, rotate_refresh_token,
  create_par_session, delete_par_session,
}
use kubauth.Oidc.Storage.Steps.{
  apply, run, run-keeps, Op, create_refresh, revoke_refresh_of, revoke_access_of, rotate,
}
use kubauth.Oidc.Storage.Tokens.{
  revoke_access-Entry, Owned, LeavesEntry, LeavesToken, off, Entry, apply_inactive, apply_active,
}

module _ {R U K : Type 0} where
  -- Revocation leaves the tokens of the requests.
  deactivate-ids :
      (sig : String) (s : MemoryStore R U K) (o : Option (StoreRefreshToken R))
      → (deactivate s sig o).0.refresh_token_request_ids ≡ s.refresh_token_request_ids
  unfolding deactivate
  deactivate-ids sig s none = refl
  deactivate-ids sig s (some rel) = refl

  revoke_refresh-ids :
      (s : MemoryStore R U K) (o : Option String)
      → (revoke_refresh s o).0.refresh_token_request_ids ≡ s.refresh_token_request_ids
  unfolding revoke_refresh
  revoke_refresh-ids s none = refl
  revoke_refresh-ids s (some sig) = deactivate-ids sig s (lookup sig s.refresh_tokens)

  revoke_access-ids :
      (s : MemoryStore R U K) (o : Option String)
      → (revoke_access s o).refresh_token_request_ids ≡ s.refresh_token_request_ids
  unfolding revoke_access delete_access_token_session
  revoke_access-ids s none = refl
  revoke_access-ids s (some sig) = refl

  after_revocation-ids :
      (id : String) (w : Written R U K)
      → (after_revocation id w).0.refresh_token_request_ids ≡ w.0.refresh_token_request_ids
  unfolding after_revocation revoke_access_token
  after_revocation-ids id (s, none) = revoke_access-ids s (lookup id s.access_token_request_ids)
  after_revocation-ids id (s, some x) = refl

  Owned-congr :
      (signature id : String) (s s' : MemoryStore R U K)
      → s'.refresh_token_request_ids ≡ s.refresh_token_request_ids
      → Owned signature id s
      → Owned signature id s'
  Owned-congr signature id s s' h o = record {
    current = rw h o.current;
    only = λ j. rw h (o.only j);
  }

  module _ (get_id : R → String) where
    create-Owned :
        (signature id sig access : String) (req : R) (s : MemoryStore R U K)
        → (sig ≢ signature) × (get_id req ≢ id)
        → Owned signature id s
        → Owned signature id (create_refresh_token_session get_id s sig access req)
    unfolding create_refresh_token_session
    create-Owned signature id sig access req s ne o = record {
      current = ground (
        arith,
        o.current,
        lookup-insert (get_id req) id sig s.refresh_token_request_ids,
        eq_iff (get_id req) id,
      );
      only = λ j. ground (
        arith,
        o.only j,
        lookup-insert (get_id req) j sig s.refresh_token_request_ids,
        eq_iff (get_id req) j,
      );
    }

    apply-Owned :
        (signature id : String) (op : Op R U) (s : MemoryStore R U K)
        → LeavesToken get_id signature id op
        → Owned signature id s
        → Owned signature id (apply get_id op s)
    unfolding apply set_client register set_client_assertion_jwt note_jti
        invalidate_authorize_code_session invalidate_code create_authorize_code_session
        revoke_refresh_token revoke_refresh deactivate revoke_access_token revoke_access
        rotate_refresh_token after_revocation create_open_id_connect_session
        delete_open_id_connect_session set_upstream delete_upstream delete_client
        create_pkce_request_session delete_pkce_request_session create_access_token_session
        delete_access_token_session create_refresh_token_session delete_refresh_token_session
        create_par_session delete_par_session
    apply-Owned signature id (create_refresh sig access req) s ne o =
        create-Owned signature id sig access req s ne o
    apply-Owned signature id (revoke_refresh_of j) s ne o =
        Owned-congr signature id s (revoke_refresh s (lookup j s.refresh_token_request_ids)).0
          (revoke_refresh-ids s (lookup j s.refresh_token_request_ids)) o
    apply-Owned signature id (revoke_access_of j) s ne o =
        Owned-congr signature id s (revoke_access s (lookup j s.access_token_request_ids))
          (revoke_access-ids s (lookup j s.access_token_request_ids)) o
    apply-Owned signature id (rotate j) s ne o =
        let w = revoke_refresh s (lookup j s.refresh_token_request_ids) in
        Owned-congr signature id s (after_revocation j w).0
          (after_revocation-ids j w ∙ revoke_refresh-ids s (lookup j s.refresh_token_request_ids)) o
    apply-Owned signature id op s ne o =
        Owned-congr signature id s (apply get_id op s) (ground arith) o

    -- The token is in the store, active, and is the token of the request.
    record InUse (signature access : String) (req : R) (s : MemoryStore R U K) : Type 0 where
      entry :
          Entry signature
            (record { active = true; access_token_signature = access; requester = req })
            s
      owned : Owned signature (get_id req) s

    run-InUse :
        (signature access : String) (req : R) (ops : List (Op R U)) (s : MemoryStore R U K)
        → All (LeavesToken get_id signature (get_id req)) ops
        → InUse signature access req s
        → InUse signature access req (run get_id ops s)
    run-InUse signature access req =
        run-keeps get_id (InUse signature access req) (LeavesToken get_id signature (get_id req))
          (λ op s a u. record {
            entry =
                apply_active get_id signature (get_id req)
                  (record { active = true; access_token_signature = access; requester = req }) op s
                  a u.owned u.entry;
            owned = apply-Owned signature (get_id req) op s a u.owned;
          })

    create-InUse :
        (signature access : String) (req : R) (s : MemoryStore R U K)
        → ((j : String) → lookup j s.refresh_token_request_ids ≢ some signature)
        → InUse signature access req (create_refresh_token_session get_id s signature access req)
    unfolding create_refresh_token_session
    create-InUse signature access req s new = record {
      entry =
          lookup-insert_self signature
            (record { active = true; access_token_signature = access; requester = req })
            s.refresh_tokens;
      owned = record {
        current = lookup-insert_self (get_id req) signature s.refresh_token_request_ids;
        only = λ j. ground (
          arith,
          new j,
          lookup-insert (get_id req) j signature s.refresh_token_request_ids,
          eq_iff (get_id req) j,
        );
      };
    }

    rotate-InUse :
        (signature access : String) (req : R) (s : MemoryStore R U K)
        → InUse signature access req s
        → ((rotate_refresh_token s (get_id req)).1 ≡ none)
          × Entry signature
              (record { active = false; access_token_signature = access; requester = req })
              (rotate_refresh_token s (get_id req)).0
    unfolding rotate_refresh_token revoke_refresh_token revoke_access_token
    rotate-InUse signature access req s u =
        rw (u.owned.current, revoke_refresh, u.entry)
          (
            refl,
            revoke_access-Entry signature
                (record { active = false; access_token_signature = access; requester = req })
                (record s {
                  refresh_tokens =
                      insert signature
                        (record {
                          active = false;
                          access_token_signature = access;
                          requester = req;
                        })
                        s.refresh_tokens;
                })
                (lookup (get_id req) s.access_token_request_ids)
                (lookup-insert_self signature
                  (record { active = false; access_token_signature = access; requester = req })
                  s.refresh_tokens),
          )

    rotate-access :
        (signature access a : String) (req : R) (s : MemoryStore R U K)
        → InUse signature access req s
        → lookup (get_id req) s.access_token_request_ids ≡ some a
        → get_access_token_session (rotate_refresh_token s (get_id req)).0 a
          ≡ (none, some not_found)
    unfolding rotate_refresh_token revoke_refresh_token revoke_access_token revoke_access
        get_access_token_session delete_access_token_session
    rotate-access signature access a req s u h =
        rw (u.owned.current, revoke_refresh, u.entry, h, revoke_access, lookup-erase_self) refl

    -- The life of a refresh token. A token whose signature no request has had is stored for a
    -- request; whatever operations run that do not store, delete, revoke or rotate it or store
    -- another one for the request, it is fetched with the request. A rotation then succeeds: the
    -- access token of the request is gone, and the refresh token is, whatever operations run that
    -- do not store or delete it again, fetched with the error `ErrInactiveToken` and its request.
    pub refresh_token_rotation :
        (signature access : String) (req : R) (s : MemoryStore R U K) (before after : List (Op R U))
        → ((j : String) → lookup j s.refresh_token_request_ids ≢ some signature)
        → All (LeavesToken get_id signature (get_id req)) before
        → All (LeavesEntry signature) after
        → let stored =
            run get_id before (create_refresh_token_session get_id s signature access req) in
          let rotated = rotate_refresh_token stored (get_id req) in
          (get_refresh_token_session stored signature ≡ (some req, none))
          × (rotated.1 ≡ none)
          × ((a : String)
              → lookup (get_id req) stored.access_token_request_ids ≡ some a
              → get_access_token_session rotated.0 a ≡ (none, some not_found))
          × (get_refresh_token_session (run get_id after rotated.0) signature
              ≡ (some req, some inactive_token))
    unfolding get_refresh_token_session
    refresh_token_rotation signature access req s before after new b a =
        let stored =
          run get_id before (create_refresh_token_session get_id s signature access req) in
        let u =
          run-InUse signature access req before
            (create_refresh_token_session get_id s signature access req) b
            (create-InUse signature access req s new) in
        let t : StoreRefreshToken R = record {
          active = true;
          access_token_signature = access;
          requester = req;
        } in
        let gone =
          run-keeps get_id (Entry signature (off t)) (LeavesEntry signature)
            (apply_inactive get_id signature t) after (rotate_refresh_token stored (get_id req)).0 a
            (rotate-InUse signature access req stored u).1 in
        (
          rw u.entry refl,
          (rotate-InUse signature access req stored u).0,
          λ x h. rotate-access signature access x req stored u h,
          rw gone refl,
        )
