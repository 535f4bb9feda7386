-- ===== src/Handlers/Tests.antt =====
-- Runs of internal/handlers.
use kubauth.Base.{String, [], ◌==◌, if◌then◌else◌}
use kubauth.Proto.{Result, ok, err, password_fail, init_user, IdentityRequest, IdentityResponse}
use kubauth.Protector.{Protector, default_config, new}
use kubauth.Handlers.Identity.{HttpRequest}

abbrev decode : String → Result IdentityRequest
decode body =
    if body == "alice" then ok (record { login = "alice"; password = "x" }) else err "no JSON"

abbrev authenticate : IdentityRequest → Result IdentityResponse
authenticate i =
    ok (record { user = init_user i.login; status = password_fail; details = []; authority = "" })

abbrev request : HttpRequest
request = record { method = "GET"; body = "alice" }

abbrev protector : Protector
protector = new default_config
