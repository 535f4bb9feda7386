-- ===== src/Handlers/Identity/Laws.antt =====
-- Which requests internal/handlers/identity.go answers, and which it counts as failures.
use kubauth.Base.{◌≡◌, ◌⊎◌, String, false, none, List}
use kubauth.Proto.{
  Result, ok, IdentityRequest, IdentityResponse, Status, password_fail, invalid_old_password,
}
use kubauth.Protector.{Protector, entry_for_login}
use kubauth.Handlers.Identity.{Validator, validate, serve_http, HttpRequest, Reply, Effect}

module _ (decode : String → Result IdentityRequest) (validators : List Validator)
    (authenticate : IdentityRequest → Result IdentityResponse) where
  -- The request gets through to the authenticator, as this identity request, and this is its answer.
  pub record Passes (request : HttpRequest) (p : Protector) (i : IdentityRequest)
      (r : IdentityResponse) : Type 0 where
    pub decoded : decode request.body ≡ ok i
    pub unlocked : entry_for_login p i.login ≡ false
    pub valid : validate validators request i ≡ none
    pub answered : authenticate i ≡ ok r

  abbrev outcome : HttpRequest → Protector → Reply × Effect
  outcome request p = serve_http decode validators authenticate request p

  -- The status says that the given password, or the given old password, is wrong.
  abbrev pub IsWrongPassword : Status → Type 0
  IsWrongPassword status = (status ≡ password_fail) ⊎ (status ≡ invalid_old_password)
