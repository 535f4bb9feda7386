-- ===== src/Oidc/SessionStore/Tests.antt =====
-- Runs of the SSO store.
use kubauth.Base.{
  ◌≡◌, ◌≢◌, refl, arith, eq_iff, String, none, some, [], ◌∷◌, ◌<>◌, ◌==◌, if◌then◌else◌, Dict,
}
use kubauth.Misc.Claims.{str, object, Claims, no_claims, claim, get}
use kubauth.Proto.{Result, ok, err}
use kubauth.Oidc.SessionStore.{
  extract_user, find_ctx, commit_ctx, SsoSession, SessionEnvelope, Extracted,
}
use kubauth.Oidc.SessionStore.Laws.{find-commit}

abbrev encoded : String → String
encoded token = "h-" <> token

abbrev alice_values : Claims
alice_values = claim "ssoUser" (object (claim "Login" (str "alice") no_claims)) no_claims

abbrev alice_envelope : SessionEnvelope
alice_envelope = record { deadline = some 90; values = alice_values }

abbrev empty_envelope : SessionEnvelope
empty_envelope = record { deadline = some 90; values = no_claims }

abbrev decode_session : String → Result SessionEnvelope
decode_session b =
    if b == "alice"
    then ok alice_envelope
    else if b == "{}"
    then ok empty_envelope
    else err "no JSON"

abbrev alice_user : Extracted
alice_user = record { login = "alice"; claims = none; full_name = "" }

abbrev old_session : SsoSession
old_session = record {
  raw_session = "alice";
  login = "alice";
  full_name = "";
  web_token = "t0";
  claims = none;
  deadline = none;
  expiry = some 5;
}

abbrev one_session : Dict SsoSession
one_session = ("h-t0", old_session) ∷ []

some_bytes : ◌≢◌ {A = String} "alice" ""
some_bytes e = ground (arith, eq_iff "alice" "", e)

alice_found : extract_user alice_values ≡ some alice_user
unfolding extract_user get
alice_found = refl

find-commit_example :
    (after : Dict SsoSession) × (commit_ctx encoded decode_session one_session "t1" "alice"
        (some 60)
      ≡ ok after)
    × (find_ctx encoded decode_session after "t1" ≡ some "alice")
    × ((other : String)
        → encoded "t1" ≢ encoded other
        → find_ctx encoded decode_session after other
          ≡ find_ctx encoded decode_session one_session other)
find-commit_example =
    find-commit encoded decode_session one_session "t1" "alice" (some 60) alice_envelope alice_user
      some_bytes refl alice_found some_bytes
