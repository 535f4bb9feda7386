-- ===== src/Oidc/PasswordGrant/Tokens.antt =====
-- What cmd/oidc/fositepatch/flow_resource_owner.go stores of the tokens that it hands out.
use mathlib.Core.Path.{subst}
use kubauth.Base.{
  ◌≡◌, ◌↔◌, ◌⊎◌, refl, sym, List, [], ◌∷◌, ◌||◌, ap, ◌∙◌, inl, inr, String, Bool, true, false, none,
  some, Bool-cases, if◌then◌else◌, lookup, lookup-insert_self,
}
use kubauth.Proto.{Result, ok}
use kubauth.Oidc.Storage.{MemoryStore, create_open_id_connect_session}
use kubauth.Oidc.Storage.Sessions.{create_access_token_session, create_refresh_token_session}
use kubauth.Oidc.Authorize.{Requester, OidcSession}
use kubauth.Oidc.PasswordGrant.{AccessRequest, Library, exact_one}
use kubauth.Oidc.PasswordGrant.Issue.{
  Generators, Response, is_empty, wants_refresh, told, add_refresh, add_id, with_id, with_refresh,
  populate_token_endpoint_response,
}

-- The configuration and the granted scopes ask for a refresh token.
abbrev pub AskedFor : Library → Requester → Type 0
AskedFor lib ar =
    (lib.refresh_token_scopes ≡ [])
    ⊎ (lib.has_one_of ar.granted_scopes lib.refresh_token_scopes ≡ true)

wanted-is_empty :
    (scopes : List String) (one wanted : Bool)
    → (wanted ≡ true ↔ (scopes ≡ []) ⊎ (one ≡ true))
    → wanted ≡ (is_empty scopes || one)
wanted-is_empty [] one wanted h = h.1 (inl refl)
wanted-is_empty (s ∷ scopes) true wanted h = h.1 (inr refl)
wanted-is_empty (s ∷ scopes) false wanted h = elim (Bool-cases wanted) [
  | inl t ↦ elim (h.0 t) [ inl e ↦ cc | inr e ↦ cc ]
  | inr e ↦ e
]

wanted-wants_refresh :
    (lib : Library) (ar : Requester) (wanted : Bool)
    → (wanted ≡ true ↔ AskedFor lib ar)
    → wanted ≡ wants_refresh lib ar.granted_scopes
unfolding wants_refresh
wanted-wants_refresh lib ar wanted h = wanted-is_empty lib.refresh_token_scopes _ wanted h

module _ {R U K : Type 0} (get_id : R → String) where
  -- The tokens that were made, by whether there is a refresh token and whether there is an ID token.
  pub record Stores (lib : Library) (store : MemoryStore R U K) (ar : Requester) (req : R)
      (token s refresh rs id : String) (wanted : Bool) (out : MemoryStore R U K × Result Response)
      : Type 0 where
    pub response :
        out.1
        ≡ ok (record {
          access_token = token;
          scopes = ar.granted_scopes;
          refresh_token = if wanted then told refresh else none;
          id_token = if lib.has ar.granted_scopes "openid" then some id else none;
        })
    pub access : lookup s out.0.access_tokens ≡ some req
    pub refreshed : lookup rs out.0.refresh_tokens ≡ (
        if wanted
        then some (record { active = true; access_token_signature = s; requester = req })
        else lookup rs store.refresh_tokens)
    pub identified :
        lookup s out.0.id_sessions
        ≡ (if lib.has ar.granted_scopes "openid" then some req else lookup s store.id_sessions)

  -- The ID token behind the others.
  with_id-Stores :
      (lib : Library) (gen : Generators) (store : MemoryStore R U K) (ar : Requester)
      (session : OidcSession) (req : R) (token s refresh rs id : String) (wanted : Bool)
      → gen.id ar session ≡ ok id
      → Stores lib store ar req token s refresh rs id wanted (
          with_id get_id lib gen ar session req token s (
            add_refresh get_id wanted
              (create_access_token_session get_id store s req)
              s
              req
              (ok (refresh, rs))))
  unfolding with_id add_id add_refresh create_access_token_session create_refresh_token_session
      create_open_id_connect_session
  with_id-Stores lib gen store ar session req token s refresh rs id true ids =
      elim (Bool-cases (lib.has ar.granted_scopes "openid")) [
        | inl o ↦
            rw (ids, o)
              (record {
                response = rw o refl;
                access = lookup-insert_self s req store.access_tokens;
                refreshed = lookup-insert_self rs _ store.refresh_tokens;
                identified = rw o (lookup-insert_self s req store.id_sessions);
              })
        | inr o ↦
            rw (ids, o)
              (record {
                response = rw o refl;
                access = lookup-insert_self s req store.access_tokens;
                refreshed = lookup-insert_self rs _ store.refresh_tokens;
                identified = rw o refl;
              })
      ]
  with_id-Stores lib gen store ar session req token s refresh rs id false ids =
      elim (Bool-cases (lib.has ar.granted_scopes "openid")) [
        | inl o ↦
            rw (ids, o)
              (record {
                response = rw o refl;
                access = lookup-insert_self s req store.access_tokens;
                refreshed = refl;
                identified = rw o (lookup-insert_self s req store.id_sessions);
              })
        | inr o ↦
            rw (ids, o)
              (record {
                response = rw o refl;
                access = lookup-insert_self s req store.access_tokens;
                refreshed = refl;
                identified = rw o refl;
              })
      ]

  populated :
      (lib : Library) (gen : Generators) (store : MemoryStore R U K) (r : AccessRequest)
      (ar : Requester) (session : OidcSession) (req : R) (token s : String)
      → exact_one r.grant_types "password" ≡ true
      → gen.access ar session ≡ ok (token, s)
      → populate_token_endpoint_response get_id lib gen store r ar session req
        ≡ with_id get_id lib gen ar session req token s (
            add_refresh get_id
              (wants_refresh lib ar.granted_scopes)
              (create_access_token_session get_id store s req)
              s
              req
              (gen.refresh ar session))
  unfolding populate_token_endpoint_response with_refresh
  populated lib gen store r ar session req token s one makes = rw (one, makes) refl

  -- Where the generators succeed, the response has an access token, a refresh token exactly if no refresh
  -- scopes are configured or one of them is granted, and an ID token if "openid" is granted; under the signature of the access token the
  -- store then has the access token and, in the last case, the ID session, and the refresh token is
  -- stored as active with that signature.
  pub populate-Stores :
      (lib : Library) (gen : Generators) (store : MemoryStore R U K) (r : AccessRequest)
      (ar : Requester) (session : OidcSession) (req : R) (token s refresh rs id : String)
      → exact_one r.grant_types "password" ≡ true
      → gen.access ar session ≡ ok (token, s)
      → gen.refresh ar session ≡ ok (refresh, rs)
      → gen.id ar session ≡ ok id
      → (wanted : Bool) → (wanted ≡ true ↔ AskedFor lib ar)
      → Stores lib store ar req token s refresh rs id wanted
          (populate_token_endpoint_response get_id lib gen store r ar session req)
  populate-Stores lib gen store r ar session req token s refresh rs id one makes refreshes ids
        wanted asked =
      subst
        (λ b.
          Stores lib store ar req token s refresh rs id b
            (populate_token_endpoint_response get_id lib gen store r ar session req))
        (sym (wanted-wants_refresh lib ar wanted asked))
        (subst (Stores lib store ar req token s refresh rs id computed)
          (sym (
            populated lib gen store r ar session req token s one makes
            ∙ ap
                (λ (g : Result (String × String)). with_id get_id lib gen ar session req token s (
                  add_refresh get_id computed (create_access_token_session get_id store s req) s req
                    g))
                refreshes))
          (with_id-Stores lib gen store ar session req token s refresh rs id computed ids))
    where
      computed : Bool
      computed = wants_refresh lib ar.granted_scopes
