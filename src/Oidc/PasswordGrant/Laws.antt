-- ===== src/Oidc/PasswordGrant/Laws.antt =====
-- When cmd/oidc/fositepatch/flow_resource_owner.go grants, and to whom.
use kubauth.Base.{
  ◌≡◌, ◌≢◌, refl, sym, ap, ◌∙◌, inl, inr, String, Bool, true, false, not, Option, none, some, List,
  [], ◌∷◌, ◌||◌, ◌==◌, ℕ, contains, arith, eq_iff, eq_refl, Bool-cases, if◌then◌else◌,
}
use kubauth.Proto.{Result, ok, err}
use kubauth.Oidc.HttpProvider.{OidcUser}
use kubauth.Oidc.Authorize.{handle_scopes, handle_audience}
use kubauth.Oidc.Authorize.Laws.{IsFor}
use kubauth.Oidc.PasswordGrant.{
  AccessRequest, Library, Granter, Refusal, Grant, refused, granted, unknown_request,
  request_forbidden, unauthorized_client, invalid_request, exact_one, refused_scope,
  create_session_with_user_claims, expiries_of, grant_to, authenticated, if_audience, if_scopes,
  handle_token_endpoint_request,
}

-- A request that may be granted: the server, the client, the scopes, the audience and the form are in
-- order, and the authenticator knows the name with the password.
pub record Granted (lib : Library) (g : Granter) (r : AccessRequest) (user : OidcUser)
    : Type 0 where
  pub is_password : exact_one r.grant_types "password" ≡ true
  pub is_allowed : g.allow_password_grant ≡ true
  pub client_may : lib.has r.client_grant_types "password" ≡ true
  pub scopes_may :
      (s : String)
      → contains r.requester.requested_scopes s ≡ true
      → lib.scope_strategy r.client_scopes s ≡ true
  pub audience_may : lib.audience_strategy r.client_audience r.requester.requested_audience ≡ ok tt
  pub has_form : (r.username ≢ "") × (r.password ≢ "")
  pub is_known : g.authenticate r.username r.password ≡ ok (some user)

abbrev pub Accepted : Library → Granter → ℕ → AccessRequest → Grant → Type 0
Accepted lib g now r (refused e) = Unit
Accepted lib g now r (granted ar session expiries) =
    (user : OidcUser) × Granted lib g r user
    × IsFor lib.fosite user r.form_client_id session
    × (ar ≡ handle_audience lib.fosite (handle_scopes lib.fosite r.requester))
    × (expiries ≡ expiries_of lib now ar.kubauth_client ar.granted_scopes)

refused_scope-none :
    (allowed : String → Bool) (scopes : List String)
    → refused_scope allowed scopes ≡ none
    → (s : String) → contains scopes s ≡ true
    → allowed s ≡ true
unfolding refused_scope
refused_scope-none allowed [] e s h = ground (arith, h)
refused_scope-none allowed (t ∷ scopes) e s h = elim (Bool-cases (allowed t)) [
  | inl may ↦ elim (Bool-cases (t == s)) [
    | inl same ↦ ap allowed (sym ((eq_iff t s).0 same)) ∙ may
    | inr apart ↦ refused_scope-none allowed scopes (rest_none may) s (ground (arith, h, apart))
  ]
  | inr may ↦ ground (arith, e, may)
]
  where
    rest_none : allowed t ≡ true → refused_scope allowed scopes ≡ none
    rest_none may =
        ap (λ (b : Bool). if b then refused_scope allowed scopes else some t) (sym may) ∙ e

none-refused_scope :
    (allowed : String → Bool) (scopes : List String)
    → ((s : String) → contains scopes s ≡ true → allowed s ≡ true)
    → refused_scope allowed scopes ≡ none
unfolding refused_scope
none-refused_scope allowed [] all = refl
none-refused_scope allowed (t ∷ scopes) all =
    rw (all t (ap (λ (b : Bool). b || contains scopes t) (eq_refl t)))
      (none-refused_scope allowed scopes (λ s h. all s (ground (arith, h))))

authenticated-Accepted :
    (lib : Library) (g : Granter) (now : ℕ) (r : AccessRequest) (answer : Result (Option OidcUser))
    → ((user : OidcUser) → answer ≡ ok (some user) → Granted lib g r user)
    → Accepted lib g now r (authenticated (grant_to lib g now r) answer)
unfolding grant_to create_session_with_user_claims
authenticated-Accepted lib g now r (err e) good = tt
authenticated-Accepted lib g now r (ok none) good = tt
authenticated-Accepted lib g now r (ok (some user)) good = (
  user,
  good user refl,
  record {
    subject = refl;
    id_subject = refl;
    jwt_subject = refl;
    id_claims = refl;
    jwt_claims = refl;
  },
  refl,
  refl,
)

scopes-Accepted :
    (lib : Library) (g : Granter) (now : ℕ) (r : AccessRequest) (next : Grant) (o : Option String)
    → (o ≡ none → Accepted lib g now r next)
    → Accepted lib g now r (if_scopes next o)
scopes-Accepted lib g now r next none good = good refl
scopes-Accepted lib g now r next (some s) good = tt

audience-Accepted :
    (lib : Library) (g : Granter) (now : ℕ) (r : AccessRequest) (next : Grant)
    (a : Result (Unit {0}))
    → (a ≡ ok tt → Accepted lib g now r next)
    → Accepted lib g now r (if_audience next a)
audience-Accepted lib g now r next (ok _) good = good refl
audience-Accepted lib g now r next (err e) good = tt

if-Accepted :
    (lib : Library) (g : Granter) (now : ℕ) (r : AccessRequest) (e : Refusal) (next : Grant)
    (b : Bool)
    → (b ≡ false → Accepted lib g now r next)
    → Accepted lib g now r (if b then refused e else next)
if-Accepted lib g now r e next true good = tt
if-Accepted lib g now r e next false good = good refl

handle-Accepted :
    (lib : Library) (g : Granter) (now : ℕ) (r : AccessRequest)
    → Accepted lib g now r (handle_token_endpoint_request lib g now r)
unfolding handle_token_endpoint_request
handle-Accepted lib g now r =
    if-Accepted lib g now r unknown_request _ (not (exact_one r.grant_types "password")) λ one.
      if-Accepted lib g now r request_forbidden _ (not g.allow_password_grant) λ allowed.
        if-Accepted lib g now r unauthorized_client _
          (not (lib.has r.client_grant_types "password"))
          λ may. scopes-Accepted lib g now r _ _ λ scopes.
            audience-Accepted lib g now r _ _ λ audience.
              if-Accepted lib g now r invalid_request _ (r.username == "" || r.password == "")
                λ form.
                  authenticated-Accepted lib g now r (g.authenticate r.username r.password)
                    λ user known. record {
                      is_password = ground (arith, one);
                      is_allowed = ground (arith, allowed);
                      client_may = ground (arith, may);
                      scopes_may = refused_scope-none _ _ scopes;
                      audience_may = audience;
                      has_form = ground (arith, form, eq_iff r.username "", eq_iff r.password "");
                      is_known = known;
                    }

handle-Granted :
    (lib : Library) (g : Granter) (now : ℕ) (r : AccessRequest) (user : OidcUser)
    → Granted lib g r user
    → handle_token_endpoint_request lib g now r ≡ grant_to lib g now r user
unfolding handle_token_endpoint_request
handle-Granted lib g now r user good =
    let form : (r.username == "" || r.password == "") ≡ false =
      ground (arith, good.has_form, eq_iff r.username "", eq_iff r.password "") in
    rw
      (
        good.is_password,
        good.is_allowed,
        good.client_may,
        none-refused_scope (lib.scope_strategy r.client_scopes) r.requester.requested_scopes
            good.scopes_may,
        good.audience_may,
        form,
        good.is_known,
      )
      refl

-- The password grant is given exactly to the requests of which the server, the client, the scopes,
-- the audience and the form are in order and whose password the authenticator confirms; the
-- session is that of the user that it confirms, and scopes and audience are those of an authorize
-- request.
pub password_grant_lem :
    (lib : Library) (g : Granter) (now : ℕ) (r : AccessRequest)
    → Accepted lib g now r (handle_token_endpoint_request lib g now r)
      × ((user : OidcUser)
          → Granted lib g r user
          → handle_token_endpoint_request lib g now r ≡ grant_to lib g now r user)
password_grant_lem lib g now r = (handle-Accepted lib g now r, handle-Granted lib g now r)
