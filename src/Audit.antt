-- ===== src/Audit.antt =====
-- cmd/audit: authenticator/auditauthenticator.go and cleaner.go. The records of the namespace are a
-- map from names; the exchange with the provider behind, the calls of the Kubernetes client and
-- the JSON of a set of claims, which is none for a nil set, are arguments. A time is a number of
-- seconds, as the API server keeps it.
pub mod Laws
mod Tests
use Prim.Native.Nat.{◌/◌}
use kubauth.Base.{
  String, Bool, true, false, Option, none, some, List, [], ◌∷◌, ◌<>◌, ℕ, zero, suc, ◌-◌, ◌%◌, ltb,
  if◌then◌else◌, Dict, lookup, insert, map,
}
use kubauth.Base.Int.{ℤ}
use kubauth.Misc.Claims.{Claims}
use kubauth.Proto.{
  Status, User, IdentityRequest, IdentityResponse, ProviderSpec, Translated, UserDetail, Result, ok,
  err,
}

-- A reading of the clock.
pub record Clock : Type 0 where
  pub now : ℕ
  pub year : ℕ
  pub month : ℕ
  pub day : ℕ
  pub hour : ℕ
  pub minute : ℕ
  pub second : ℕ
  pub nanosecond : ℕ

pub record LoginAttemptUser : Type 0 where
  pub login : String
  pub uid : Option ℤ
  pub name : String
  pub emails : List String
  pub groups : List String
  pub claims : Option String

pub record LoginAttemptDetailTranslated : Type 0 where
  pub claims : Option String
  pub groups : List String
  pub uid : Option ℤ

pub record LoginAttemptDetail : Type 0 where
  pub provider : ProviderSpec
  pub user : LoginAttemptUser
  pub status : Status
  pub translated : LoginAttemptDetailTranslated

-- `LoginAttempt`: the label with the login, and the specification.
pub record LoginAttempt : Type 0 where
  pub login_label : String
  pub when : ℕ
  pub user : LoginAttemptUser
  pub authority : String
  pub status : Status
  pub details : List LoginAttemptDetail

abbrev nth : List String → ℕ → String
nth [] n = ""
nth (text ∷ texts) zero = text
nth (text ∷ texts) (suc n) = nth texts n

abbrev digit : ℕ → String
digit n = nth ("0" ∷ "1" ∷ "2" ∷ "3" ∷ "4" ∷ "5" ∷ "6" ∷ "7" ∷ "8" ∷ "9" ∷ []) n

-- The last digits of a number, with zeros before them: `%0wd`, for a number of at most w digits.
abbrev pub padded : ℕ → ℕ → String
padded zero n = ""
padded (suc w) n = padded w (n / 10) <> digit (n % 10)

unfoldable pub record_name : String → Clock → String
record_name login t =
    login
    <> "-"
    <> padded 4 t.year
    <> "-"
    <> padded 2 t.month
    <> "-"
    <> padded 2 t.day
    <> "-"
    <> padded 2 t.hour
    <> "-"
    <> padded 2 t.minute
    <> "-"
    <> padded 2 t.second
    <> "-"
    <> padded 3 (t.nanosecond / 1000000)

abbrev pub attempt_user : (Claims → Option String) → User → LoginAttemptUser
attempt_user json u = record {
  login = u.login;
  uid = u.uid;
  name = u.name;
  emails = u.emails;
  groups = u.groups;
  claims = json u.claims;
}

unfoldable pub convert_detail : (Claims → Option String) → UserDetail → LoginAttemptDetail
convert_detail json d = record {
  provider = d.provider;
  user = attempt_user json d.user;
  status = d.status;
  translated = record {
    claims = json d.translated.claims;
    groups = d.translated.groups;
    uid = d.translated.uid;
  };
}

unfoldable pub convert_details :
    (Claims → Option String) → List UserDetail → List LoginAttemptDetail
unfolding convert_detail
convert_details json details = map (convert_detail json) details

unfoldable pub login_record : (Claims → Option String) → Clock → IdentityResponse → LoginAttempt
unfolding convert_details
login_record json t r = record {
  login_label = r.user.login;
  when = t.now;
  user = attempt_user json r.user;
  authority = r.authority;
  status = r.status;
  details = convert_details json r.details;
}

abbrev pub created :
    String
    → LoginAttempt
    → Dict LoginAttempt
    → Option LoginAttempt
    → Dict LoginAttempt × Result (Unit {0})
created name attempt m none = (insert name attempt m, ok tt)
created name attempt m (some old) = (m, err "already exists")

-- `Create` of the API server: a name that is taken is refused, whatever becomes of the call.
unfoldable pub create :
    Result (Unit {0})
    → String
    → LoginAttempt
    → Dict LoginAttempt
    → Dict LoginAttempt × Result (Unit {0})
create (err e) name attempt m = (m, err e)
create (ok _) name attempt m = created name attempt m (lookup name m)

unfoldable pub create_login_attempt_record :
    (Claims → Option String)
    → Result (Unit {0})
    → Clock
    → IdentityResponse
    → Dict LoginAttempt
    → Dict LoginAttempt × Result (Unit {0})
unfolding create record_name login_record
create_login_attempt_record json call t r m =
    create call (record_name r.user.login t) (login_record json t r) m

-- The answer of the provider behind, which a failed record does not change.
unfoldable pub authenticate :
    (IdentityRequest → Result IdentityResponse)
    → (Claims → Option String)
    → Result (Unit {0})
    → Clock
    → Dict LoginAttempt
    → IdentityRequest
    → Dict LoginAttempt × Result IdentityResponse
unfolding create_login_attempt_record
authenticate exchange json call t m request = elim (exchange request) [
  | err e ↦ (m, err e)
  | ok response ↦ ((create_login_attempt_record json call t response m).0, ok response)
]

-- The loop of `cleanupAudit`; `delete` is the outcome of each call.
unfoldable pub cleanup_audit :
    (String → Result (Unit {0})) → ℕ → Dict LoginAttempt → Dict LoginAttempt
cleanup_audit delete cutoff [] = []
cleanup_audit delete cutoff ((name, attempt) ∷ m) =
    let rest = cleanup_audit delete cutoff m in
    if ltb attempt.when cutoff
    then elim (delete name) [ ok _ ↦ rest | err e ↦ (name, attempt) ∷ rest ]
    else (name, attempt) ∷ rest

-- The records are listed first.
unfoldable pub cleanup :
    Result (Unit {0}) → (String → Result (Unit {0})) → ℕ → ℕ → Dict LoginAttempt → Dict LoginAttempt
unfolding cleanup_audit
cleanup (err e) delete now record_lifetime m = m
cleanup (ok _) delete now record_lifetime m = cleanup_audit delete (now - record_lifetime) m
