-- ===== src/Handlers/Identity.antt =====
-- internal/handlers/identity.go and internal/handlers/validator. A request is its method and its
-- body; decoding the body, the clock of the protector and the authenticator are arguments. What
-- `ProtectLoginResult` leaves to run under the lock is `record_failure`; the delay that follows is
-- that of the protector.
pub mod Laws
use kubauth.Base.{
  String, Bool, true, false, Option, none, some, List, [], ◌∷◌, ℕ, ◌==◌, ◌<>◌, if◌then◌else◌,
}
use kubauth.Proto.{Result, ok, err, Status, IdentityRequest, IdentityResponse}
use kubauth.Protector.{Protector, entry_for_login, is_failure, record_failure}

pub record HttpRequest : Type 0 where
  pub method : String
  pub body : String

-- What is written: an error with its code, or the response as JSON with code 200.
pub data Reply : Type 0 where
  http_error : ℕ → String → Reply
  json : IdentityResponse → Reply

-- A validator: none, or the code and the text of the error that it wrote before it said no.
abbrev pub Validator : Type 0
Validator = HttpRequest → IdentityRequest → Option (ℕ × String)

-- `OnlyGetValidator`
unfoldable pub only_get_validator : Validator
only_get_validator request identity_request =
    if request.method == "GET" then none else some (405, "Method not allowed")

abbrev first_error : Option (ℕ × String) → Option (ℕ × String) → Option (ℕ × String)
first_error none more = more
first_error (some e) more = some e

-- The loop over the validators.
unfoldable pub validate : List Validator → HttpRequest → IdentityRequest → Option (ℕ × String)
validate [] request identity_request = none
validate (a_validator ∷ rest) request identity_request =
    let more = validate rest request identity_request in
    first_error (a_validator request identity_request) more

-- What the handler does to the protector, besides the question: a failure at an instant for a login.
pub data Effect : Type 0 where
  no_effect : Effect
  failure : String → Effect

unfoldable pub protect_login_result : String → Status → Effect
protect_login_result login status = if is_failure status then failure login else no_effect

-- Behind the authenticator.
unfoldable pub finish : IdentityRequest → Result IdentityResponse → Reply × Effect
unfolding protect_login_result
finish identity_request (err e) = (http_error 500 e, no_effect)
finish identity_request (ok response) =
    (json response, protect_login_result identity_request.login response.status)

module _ (decode : String → Result IdentityRequest) (validators : List Validator)
    (authenticate : IdentityRequest → Result IdentityResponse) where
  -- Behind the validators.
  unfoldable pub proceed : IdentityRequest → Option (ℕ × String) → Reply × Effect
  unfolding finish
  proceed identity_request (some (code, text)) = (http_error code text, no_effect)
  proceed identity_request none = finish identity_request (authenticate identity_request)

  -- Behind the decoder.
  unfoldable pub handle : HttpRequest → Protector → Result IdentityRequest → Reply × Effect
  unfolding proceed validate
  handle request p (err e) = (http_error 400 ("Payload decoding: " <> e), no_effect)
  handle request p (ok identity_request) =
      if entry_for_login p identity_request.login
      then (http_error 503 "locked", no_effect)
      else proceed identity_request (validate validators request identity_request)

  unfoldable pub serve_http : HttpRequest → Protector → Reply × Effect
  unfolding handle
  serve_http request p = handle request p (decode request.body)

-- The effect on the protector, at this instant.
unfoldable pub enact : ℕ → Effect → Protector → Protector
enact now no_effect p = p
enact now (failure login) p = (record_failure now login p).1
