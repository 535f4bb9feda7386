-- ===== src/Merger/Tests.antt =====
-- Runs of cmd/merger: two providers know the login.
use kubauth.Base.{
  ◌≡◌, refl, String, true, false, none, some, List, [], ◌∷◌, ◌<>◌, ◌==◌, if◌then◌else◌,
}
use kubauth.Base.Int.{pos}
use kubauth.Misc.Claims.{str, no_claims, claim, get}
use kubauth.Proto.{
  Result, ok, err, password_checked, user_not_found, init_user, IdentityRequest, IdentityResponse,
  UserDetail, ProviderSpec,
}
use kubauth.Merger.Provider.{Provider, IdProviderConfig}
use kubauth.Merger.Authenticator.{authenticate}
use kubauth.Merger.Authenticator.Decision.{Answer, answers, Decides, authenticate-Decides}
use kubauth.Merger.Authenticator.Content.{Merged, authenticate-Merged, said}

abbrev everything : String → ProviderSpec
everything name = record {
  name = name;
  credential_authority = true;
  group_authority = true;
  claim_authority = true;
  name_authority = true;
  email_authority = true;
}

abbrev from_ldap : UserDetail
from_ldap = record {
  user = record (init_user "alice") { name = "Alice" };
  status = password_checked;
  provider = everything "ldap";
  translated = record {
    groups = "dev" ∷ [];
    claims = claim "team" (str "a") no_claims;
    uid = some (pos 7);
  };
}

abbrev from_ucrd : UserDetail
from_ucrd = record {
  user = init_user "alice";
  status = user_not_found;
  provider = everything "ucrd";
  translated = record {
    groups = "ops" ∷ [];
    claims = claim "team" (str "b") no_claims;
    uid = none;
  };
}

abbrev two_providers : List Provider
two_providers =
    record { get_user_detail = λ login password. ok from_ldap; get_name = "ldap" }
    ∷ record { get_user_detail = λ login password. ok from_ucrd; get_name = "ucrd" }
    ∷ []

abbrev both : List Answer
both = ("ldap", from_ldap) ∷ ("ucrd", from_ucrd) ∷ []

abbrev request : IdentityRequest
request = record { login = "alice"; password = "secret" }

answers-both : answers two_providers request ≡ ok both
unfolding answers
answers-both = refl

ldap_says : said "team" ("ldap", from_ldap) ≡ some (str "a")
unfolding get
ldap_says = refl

authenticate-Decides_example :
    (r : IdentityResponse) × (authenticate two_providers request ≡ ok r) × Decides both r
authenticate-Decides_example = authenticate-Decides two_providers request both answers-both

authenticate-Merged_example :
    (r : IdentityResponse) × (authenticate two_providers request ≡ ok r) × Merged "alice" both r
authenticate-Merged_example = authenticate-Merged two_providers request both answers-both

-- A pattern is "%s" or a prefix.
abbrev prefixed : String → String → String
prefixed pattern s = if pattern == "%s" then s else pattern <> s

abbrev ldap_config : IdProviderConfig
ldap_config = record {
  name = "ldap";
  credential_authority = none;
  group_authority = some false;
  group_pattern = "ldap-";
  claim_authority = none;
  claim_pattern = "";
  name_authority = none;
  email_authority = none;
  critical = some false;
  uid_offset = pos 1000;
}

abbrev ldap_exchange : IdentityRequest → Result IdentityResponse
ldap_exchange i =
    if i.login == "alice"
    then ok (record {
      user = record (init_user "alice") { groups = "dev" ∷ [] };
      status = password_checked;
      details = [];
      authority = "";
    })
    else err "unreachable"
