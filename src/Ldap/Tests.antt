-- ===== src/Ldap/Tests.antt =====
-- Runs of the LDAP provider on a directory of one user.
use kubauth.Base.{
  ◌≡◌, ◌⊎◌, refl, String, true, false, Option, none, some, List, [], ◌∷◌, ◌<>◌, ◌==◌, if◌then◌else◌,
}
use kubauth.Base.Int.{pos, negsuc}
use kubauth.Base.Numerals.{atoi, is_dn}
use kubauth.Misc.Claims.{no_claims}
use kubauth.Misc.Paths.{adjust_path}
use kubauth.Misc.Slices.{count_true}
use kubauth.Proto.{
  ok, err, user_not_found, password_checked, password_fail, IdentityRequest, IdentityResponse,
}
use kubauth.Ldap.Config.{
  LdapConfig, LdapAuthenticator, Surroundings, single_level, whole_subtree, new,
}
use kubauth.Ldap.Config.Laws.{IsUsable, new-IsUsable}
use kubauth.Ldap.Directory.{
  Call, bind, LdapError, ldap_error, Entry, Directory, attribute_values, get_attrs, get_attr,
}
use kubauth.Ldap.Authenticator.{service_call, authenticate}
use kubauth.Ldap.Authenticator.Calls.{SearchedUnder, authenticate-SearchedUnder}
use kubauth.Ldap.Authenticator.Laws.{account, Found, AnswersFor, authenticate_lem}

abbrev ldap_config : LdapConfig
ldap_config = record {
  host = "ldap.example.com";
  port = "";
  timeout_sec = pos 0;
  insecure_no_ssl = false;
  insecure_skip_verify = false;
  start_tls = false;
  root_ca_path = "";
  root_ca_data = "";
  root_ca_secret = "ca";
  client_cert = "";
  client_key = "";
  bind_dn = "cn=svc";
  bind_pw = "svcpw";
  user_search = record {
    base_dn = "ou=users";
    filter = "";
    login_attr = "uid";
    scope = "one";
    numerical_id_attr = "uidNumber";
    email_attr = "mail";
    cn_attr = "cn";
  };
  group_search = record {
    base_dn = "ou=groups";
    filter = "";
    scope = "";
    name_attr = "cn";
    link_user_attr = "DN";
    link_group_attr = "member";
  };
}

abbrev surroundings : Surroundings
surroundings = record {
  file_paths = record {
    is_abs = λ path. true;
    join = λ folder path. folder <> "/" <> path;
    clean = λ path. path;
  };
  config_folder = "/etc";
  decode_base64 = λ text. ok text;
  read_file = λ path. err "no such file";
  current_namespace = ok "kubauth";
  get_secret = λ namespace name. ok (λ key. if key == "ca.crt" then some "PEM" else none);
  has_certificates = λ pem. pem == "PEM";
  load_key_pair = λ cert key. err "no such file";
  quote = λ s. "\"" <> s <> "\"";
}

abbrev ldap_authenticator : LdapAuthenticator
ldap_authenticator = record {
  config = record ldap_config { port = "636"; timeout_sec = pos 10 };
  host_port = "ldap.example.com:636";
  root_cas = some "PEM";
  certificate = none;
  user_search_scope = single_level;
  group_search_scope = whole_subtree;
}

new_runs : new surroundings ldap_config ≡ ok ldap_authenticator
unfolding new count_true adjust_path
new_runs = refl

new-IsUsable_example : IsUsable surroundings ldap_config ldap_authenticator
new-IsUsable_example = new-IsUsable surroundings ldap_config ldap_authenticator new_runs

abbrev alice : Entry
alice = record {
  dn = "uid=alice";
  attributes =
      record { name = "uidNumber"; values = "1001" ∷ [] }
      ∷ record { name = "mail"; values = "a@example.com" ∷ [] }
      ∷ [];
}

abbrev admins : Entry
admins = record {
  dn = "cn=admins";
  attributes = record { name = "cn"; values = "admins" ∷ [] } ∷ [];
}

abbrev answer_to : Call → Option LdapError
answer_to (bind dn pw) =
    if dn == "uid=alice" then (if pw == "secret" then none else some (ldap_error 49 "no")) else none
answer_to _ = none

abbrev head_or_empty : List String → String
head_or_empty [] = ""
head_or_empty (x ∷ xs) = x

abbrev directory : Directory
directory = record {
  dial = ok tt;
  dial_tls = ok tt;
  start_tls = ok tt;
  answer_bind = λ calls c. answer_to c;
  answer_search = λ calls q.
      if q.base_dn == "ou=groups"
      then ok (admins ∷ [])
      else if q.filter == "(uid=alice)"
      then ok (alice ∷ [])
      else ok [];
  escape_filter = λ s. s;
  attribute_value = λ e name. head_or_empty (attribute_values name e.attributes);
}

abbrev asking : String → IdentityRequest
asking password = record { login = "alice"; password = password }

abbrev answer_with : IdentityResponse
answer_with = record {
  user = record {
    login = "alice";
    uid = some (pos 1001);
    name = "";
    emails = "a@example.com" ∷ [];
    groups = "admins" ∷ [];
    claims = no_claims;
  };
  status = password_checked;
  details = [];
  authority = "";
}

authenticate_runs : (authenticate directory ldap_authenticator (asking "secret")).0 ≡ ok answer_with
unfolding authenticate atoi is_dn get_attrs get_attr
authenticate_runs = refl

authenticate_lem_example :
    (directory.answer_bind [] (account directory ldap_authenticator) ≡ none)
    × ((Found directory ldap_authenticator "alice" none × (answer_with.status ≡ user_not_found))
        ⊎ ((user : Entry) × AnswersFor directory ldap_authenticator user
              (asking "secret")
              answer_with))
authenticate_lem_example =
    authenticate_lem directory ldap_authenticator (asking "secret") answer_with authenticate_runs

authenticate-SearchedUnder_example :
    SearchedUnder
      (service_call "cn=svc" "svcpw")
      (authenticate directory ldap_authenticator (asking "wrong")).1
authenticate-SearchedUnder_example =
    authenticate-SearchedUnder directory ldap_authenticator (asking "wrong")

-- The directory refuses the password.
wrong_password :
    (let out = (authenticate directory ldap_authenticator (asking "wrong")).0 in out)
    ≡ ok (record answer_with { status = password_fail })
unfolding authenticate atoi is_dn get_attrs get_attr
wrong_password = refl

atoi_negative : atoi "-12" ≡ some (negsuc 11)
unfolding atoi
atoi_negative = refl

atoi_no_digits : atoi "12a" ≡ none
unfolding atoi
atoi_no_digits = refl

atoi_too_large : atoi "9223372036854775808" ≡ none
unfolding atoi
atoi_too_large = refl
