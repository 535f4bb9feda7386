-- ===== src/Oidc/UserInfo/Laws.antt =====
-- What cmd/oidc/oidcserver/handle-user-info.go tells of a user who has logged in.
use Prim.Native.String.{◌∷◌}
use kubauth.Base.{
  ◌≡◌, ◌≢◌, refl, ap, ◌∙◌, inl, inr, String, Option, none, some, false, ◌==◌, arith, eq_iff,
  Bool-cases, if◌then◌else◌, ℕ,
}
use kubauth.Misc.Claims.{Value, str, Claims, no_claims, claim, get}
use kubauth.Misc.Claims.Merge.{get-put}
use kubauth.Proto.{Result, ok}
use kubauth.Oidc.HttpProvider.{OidcUser}
use kubauth.Oidc.Authorize.{Fosite, Issuing, OidcSession, with_azp, new_session}
use kubauth.Oidc.UserInfo.{
  user_info, copy_claims, claims_of_session, answer, with_token, handle_user_info,
}

get-copy_claims :
    (j : String) (m : Claims) → get j (copy_claims m) ≡ (if "azp" == j then none else get j m)
unfolding copy_claims get
get-copy_claims j no_claims = ground arith
get-copy_claims j (claim k v m) = ground (
  arith,
  eq_iff k "azp",
  eq_iff k j,
  eq_iff "azp" j,
  get-put k j v (copy_claims m),
  get-copy_claims j m,
)

-- The header with a token.
abbrev pub bearer : String → String
bearer token = "B" ∷ "e" ∷ "a" ∷ "r" ∷ "e" ∷ "r" ∷ " " ∷ token

bearer-ne-empty : (token : String) → bearer token ≢ ""
bearer-ne-empty token e = cc

bearer-is_set : (token : String) → (bearer token == "") ≡ false
bearer-is_set token = ground (arith, eq_iff (bearer token) "", bearer-ne-empty token)

-- `Add` writes the claim and no other.
abbrev pub AddsClaim : Fosite → Type 0
AddsClaim f =
    (k : String) (v : Value) (m : Claims) (j : String)
    → get j (f.add_claim k v m) ≡ (if k == j then some v else get j m)

-- The claims that are told, by their name.
abbrev pub told_claim : OidcUser → String → Option Value
told_claim user j =
    if "sub" == j then some (str user.login) else if "azp" == j then none else get j user.claims

get-with_azp :
    (f : Fosite) (client_id : String) (m : Claims) (j : String)
    → AddsClaim f
    → (if "azp" == j then none else get j (with_azp f client_id m))
      ≡ (if "azp" == j then none else get j m)
unfolding with_azp
get-with_azp f client_id m j adds = elim (Bool-cases (client_id == "")) [
  | inl e ↦ rw e refl
  | inr e ↦ rw e (ground (arith, adds "azp" (str client_id) m j))
]

get-claims :
    (f : Fosite) (i : Issuing) (now : ℕ) (user : OidcUser) (client_id : String)
    → AddsClaim f
    → (j : String)
    → get j (claims_of_session (new_session f i now (some user) client_id)) ≡ told_claim user j
unfolding claims_of_session new_session
get-claims f i now user client_id adds j =
    get-put "sub" j (str user.login) (copy_claims (with_azp f client_id user.claims))
    ∙ ap (λ (o : Option Value). if "sub" == j then some (str user.login) else o)
        (get-copy_claims j (with_azp f client_id user.claims)
          ∙ get-with_azp f client_id user.claims j adds)

-- A token whose session was made for a user gives the claims of the user, with the login as "sub" and
-- without "azp", whatever client the session was made for.
pub user_info_lem :
    (f : Fosite) (i : Issuing) (now : ℕ) (user : OidcUser) (client_id token : String)
    (introspect : String → Result (Option OidcSession))
    → AddsClaim f
    → introspect token ≡ ok (some (new_session f i now (some user) client_id))
    → (claims : Claims) × (handle_user_info introspect (bearer token) ≡ user_info claims)
      × ((j : String) → get j claims ≡ told_claim user j)
unfolding handle_user_info with_token
user_info_lem f i now user client_id token introspect adds issued = (
  claims_of_session (new_session f i now (some user) client_id),
  rw (bearer-is_set token) (ap answer issued),
  λ j. get-claims f i now user client_id adds j,
)
