-- ===== src/Merger/Authenticator.antt =====
-- cmd/merger/authenticator/authenticator.go.
pub mod Decision
pub mod Content
use kubauth.Base.{ℕ, String, Bool, ◌&&◌, none, List, [], ◌∷◌, ◌++◌, ltb, ◌==◌, if◌then◌else◌}
use kubauth.Misc.Slices.{append_if_not_present, dedup_and_sort}
use kubauth.Misc.Claims.{merge_maps}
use kubauth.Proto.{
  Status, user_not_found, disabled, password_checked, password_fail, password_unchecked,
  password_missing, undefined, User, init_user, IdentityRequest, IdentityResponse, UserDetail,
  Result, ok, err, ◌>>=◌,
}
use kubauth.Merger.Provider.{Provider}

-- `priorityByStatus`: a status that is not in the map has priority 0.
unfoldable pub priority : Status → ℕ
priority undefined = 0
priority user_not_found = 1
priority password_missing = 2
priority password_unchecked = 3
priority password_checked = 4
priority password_fail = 4
priority disabled = 5
priority _ = 0

-- The status, and the uid and the authority where the provider is one for credentials.
merge_credentials : String → UserDetail → IdentityResponse → IdentityResponse
merge_credentials name d r =
    if d.provider.credential_authority && ltb (priority r.status) (priority d.status)
    then (if ltb (priority password_missing) (priority d.status)
        then record r {
          status = d.status;
          user = record r.user { uid = d.translated.uid };
          authority = name;
        }
        else record r { status = d.status })
    else r

merge_groups : UserDetail → User → User
merge_groups d u =
    if d.provider.group_authority then record u { groups = u.groups ++ d.translated.groups } else u

merge_emails : UserDetail → User → User
unfolding append_if_not_present
merge_emails d u =
    if d.provider.email_authority
    then record u { emails = append_if_not_present u.emails d.user.emails }
    else u

merge_name : UserDetail → User → User
merge_name d u =
    if d.provider.name_authority && (u.name == "") then record u { name = d.user.name } else u

merge_claims : UserDetail → User → User
unfolding merge_maps
merge_claims d u =
    if d.provider.claim_authority
    then record u { claims = merge_maps d.translated.claims u.claims }
    else u

-- One round of the loop over the providers.
pub merge_detail : String → UserDetail → IdentityResponse → IdentityResponse
unfolding merge_credentials merge_groups merge_emails merge_name merge_claims
merge_detail name d r =
    let r' = merge_credentials name d r in
    record r' {
      user = merge_claims d (merge_name d (merge_emails d (merge_groups d r'.user)));
      details = r'.details ++ d ∷ [];
    }

-- The loop: an error of a provider ends it.
ask_all : List Provider → IdentityRequest → IdentityResponse → Result IdentityResponse
ask_all [] request r = ok r
ask_all (p ∷ ps) request r = elim (p.get_user_detail request.login request.password) [
  | err e ↦ err e
  | ok d ↦ ask_all ps request (merge_detail p.get_name d r)
]

abbrev pub blank : String → IdentityResponse
blank login = record {
  user = init_user login;
  status = user_not_found;
  details = [];
  authority = "";
}

pub sort_groups : IdentityResponse → IdentityResponse
unfolding dedup_and_sort
sort_groups r = record r { user = record r.user { groups = dedup_and_sort r.user.groups } }

unfoldable pub authenticate : List Provider → IdentityRequest → Result IdentityResponse
unfolding ask_all merge_detail sort_groups
authenticate ps request = do r ← ask_all ps request (blank request.login); ok (sort_groups r)
