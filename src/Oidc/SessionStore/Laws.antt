-- ===== src/Oidc/SessionStore/Laws.antt =====
-- What the SSO store of cmd/oidc/sessionstore finds after it stored, deleted or cleaned up.
use kubauth.Base.{
  ◌≡◌, ◌≢◌, refl, ◌∙◌, ap, inl, inr, String, Option, none, some, [], ◌∷◌, ◌==◌, ◌||◌, ℕ, arith,
  eq_iff, if◌then◌else◌, Bool-cases, Dict, lookup, insert, erase, NodupKeys, lookup-insert,
  lookup-insert_self, lookup-erase, lookup-erase_self,
}
use kubauth.Proto.{Result, ok}
use kubauth.Oidc.SessionStore.{
  extract_user, session_of, raw_of, upsert, find_ctx, commit_decoded, commit_ctx, delete_ctx,
  is_past, cleanup_once, SsoSession, SessionEnvelope, Extracted,
}

lookup-insert_other :
    (k other : String) (v : SsoSession) (m : Dict SsoSession)
    → k ≢ other
    → lookup other (insert k v m) ≡ lookup other m
lookup-insert_other k other v m ne = ground (arith, lookup-insert k other v m, eq_iff k other, ne)

lookup-erase_other :
    (k other : String) (m : Dict SsoSession) → k ≢ other → lookup other (erase k m) ≡ lookup other m
lookup-erase_other k other m ne = ground (arith, lookup-erase k other m, eq_iff k other, ne)

module _ (encode_name : String → String) (decode : String → Result SessionEnvelope) where
  raw_of-session :
      (token b : String) (d e : Option ℕ) (u : Extracted)
      → b ≢ ""
      → raw_of (some (session_of token b d e u)) ≡ some b
  unfolding raw_of session_of
  raw_of-session token b d e u ne = ground (arith, eq_iff b "", ne)

  has_login_inserts :
      (login : String) (m after : Dict SsoSession)
      → login ≢ ""
      → (if login == "" then m else after) ≡ after
  has_login_inserts login m after ne = ground (arith, eq_iff login "", ne)

  commit-upsert :
      (m : Dict SsoSession) (token b : String) (expiry : Option ℕ) (env : SessionEnvelope)
      → b ≢ ""
      → decode b ≡ ok env
      → commit_ctx encode_name decode m token b expiry
        ≡ ok (upsert m (encode_name token) env token b expiry (extract_user env.values))
  unfolding commit_ctx commit_decoded
  commit-upsert m token b expiry env ne e = elim (Bool-cases (b == "")) [
    | inl t ↦ ground (arith, eq_iff b "", t, ne)
    | inr t ↦ rw (t, e) refl
  ]

  -- A session of a user with a login is found again under its token, byte for byte, and a
  -- session whose token has another name is found as before.
  pub find-commit :
      (m : Dict SsoSession) (token b : String) (expiry : Option ℕ) (env : SessionEnvelope)
      (user : Extracted)
      → b ≢ ""
      → decode b ≡ ok env
      → extract_user env.values ≡ some user
      → user.login ≢ ""
      → (after : Dict SsoSession) × (commit_ctx encode_name decode m token b expiry ≡ ok after)
        × (find_ctx encode_name decode after token ≡ some b)
        × ((other : String)
            → encode_name token ≢ encode_name other
            → find_ctx encode_name decode after other ≡ find_ctx encode_name decode m other)
  unfolding find_ctx upsert
  find-commit m token b expiry env user ne e found has_login =
      let sess = session_of token b env.deadline expiry user in
      let name = encode_name token in
      (
        insert name sess m,
        commit-upsert m token b expiry env ne e
            ∙ rw (found, upsert)
                (ap ok (has_login_inserts user.login m (insert name sess m) has_login)),
        rw (lookup-insert_self name sess m) (raw_of-session token b env.deadline expiry user ne),
        λ other apart. ap raw_of (lookup-insert_other name (encode_name other) sess m apart),
      )

  -- A session without a user is not stored, and one that stands under its token stays.
  pub commit-no_user :
      (m : Dict SsoSession) (token b : String) (expiry : Option ℕ) (env : SessionEnvelope)
      → b ≢ ""
      → decode b ≡ ok env
      → extract_user env.values ≡ none
      → commit_ctx encode_name decode m token b expiry ≡ ok m
  unfolding upsert
  commit-no_user m token b expiry env ne e found =
      commit-upsert m token b expiry env ne e ∙ rw (found, upsert) refl

  -- A deleted session is not found, and the others are found as before.
  pub find-delete :
      (m : Dict SsoSession) (token other : String)
      → encode_name token ≢ encode_name other
      → (find_ctx encode_name decode (delete_ctx encode_name decode m token) token ≡ none)
        × (find_ctx encode_name decode (delete_ctx encode_name decode m token) other
            ≡ find_ctx encode_name decode m other)
  unfolding find_ctx delete_ctx raw_of
  find-delete m token other apart = (
    rw (lookup-erase_self (encode_name token) m) refl,
    ap raw_of (lookup-erase_other (encode_name token) (encode_name other) m apart),
  )

-- Is a session past one of its times?
abbrev pub alive : ℕ → Option SsoSession → Option SsoSession
alive now none = none
alive now (some sess) =
    if is_past now sess.expiry || is_past now sess.deadline then none else some sess

-- The cleaner deletes exactly the sessions whose expiry or deadline is set and past, and changes no
-- other one.
pub lookup-cleanup_once :
    (now : ℕ) (name : String) (m : Dict SsoSession)
    → NodupKeys m
    → lookup name (cleanup_once now m) ≡ alive now (lookup name m)
unfolding lookup cleanup_once
lookup-cleanup_once now name [] u = refl
lookup-cleanup_once now name ((j, sess) ∷ m) u =
    ground (arith, eq_iff j name, lookup-cleanup_once now name m u.1, u.0)
