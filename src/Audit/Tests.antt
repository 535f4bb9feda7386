-- ===== src/Audit/Tests.antt =====
-- A recorded login, another one in the same millisecond, and the cleaner.
use kubauth.Base.{◌≡◌, refl, String, Option, some, [], ◌∷◌, Dict}
use kubauth.Misc.Claims.{Claims}
use kubauth.Proto.{
  IdentityRequest, IdentityResponse, init_user, password_checked, password_fail, Result, ok,
}
use kubauth.Audit.{Clock, LoginAttempt, record_name, login_record}

abbrev json : Claims → Option String
json value = some "{}"

abbrev noon : Clock
noon = record {
  now = 1000;
  year = 2025;
  month = 7;
  day = 14;
  hour = 12;
  minute = 0;
  second = 5;
  nanosecond = 42000000;
}

abbrev answered : IdentityResponse
answered = record {
  user = init_user "alice";
  status = password_checked;
  details = [];
  authority = "ldap";
}

abbrev removed : String → Result (Unit {0})
removed name = ok tt

abbrev provider : IdentityRequest → Result IdentityResponse
provider request = ok answered

abbrev request : IdentityRequest
request = record { login = "alice"; password = "secret" }

-- The name in the form of the source.
name_of_noon : record_name "alice" noon ≡ "alice-2025-07-14-12-00-05-042"
unfolding record_name
name_of_noon = refl

abbrev old : LoginAttempt
old = record (login_record json noon answered) { status = password_fail }

abbrev recorded : Dict LoginAttempt
recorded = ("alice-2025-07-14-12-00-05-042", old) ∷ []
