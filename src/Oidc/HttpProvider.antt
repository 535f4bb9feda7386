-- ===== src/Oidc/HttpProvider.antt =====
-- cmd/oidc/authenticator: the OIDC server's client of the identity service. The HTTP exchange is
-- the argument `exchange`.
pub mod Laws
pub mod Identity
use kubauth.Base.{
  String, Bool, true, false, Option, none, some, List, [], ◌∷◌, ◌++◌, ◌<>◌, ◌==◌, if◌then◌else◌,
}
use kubauth.Base.Int.{ℤ}
use kubauth.Misc.Claims.{
  Value, nil, flag, int, str, strings, slice, object, Items, no_items, item, Claims, get, put,
}
use kubauth.Misc.Slices.{dedup_and_sort, append_if_not_present}
use kubauth.Proto.{
  Result, ok, err, ◌>>=◌, Status, password_checked, IdentityRequest, IdentityResponse,
}

pub record OidcUser : Type 0 where
  pub login : String
  pub claims : Claims
  pub full_name : String

-- The items of a slice that are texts.
unfoldable pub texts_of : Items → List String
texts_of no_items = []
texts_of (item (str s) xs) = s ∷ texts_of xs
texts_of (item v xs) = texts_of xs

-- The type switch of `getStringArrayInMap`, on the entry of the map.
unfoldable pub string_array : String → Option Value → Result (List String)
unfolding texts_of
string_array key none = ok []
string_array key (some nil) = ok []
string_array key (some (strings v)) = ok v
string_array key (some (slice v)) = ok (texts_of v)
string_array key (some (str v)) = ok (v ∷ [])
string_array key (some v) = err ("entry Claims[" <> key <> "] is not a []string")

unfoldable pub get_string_array_in_map : Claims → String → Result (List String)
unfolding string_array
get_string_array_in_map m key = string_array key (get key m)

-- `if text != "" { claims[key] = text }`
unfoldable pub put_text : String → String → Claims → Claims
put_text key text out = if text == "" then out else put key (str text) out

unfoldable pub put_groups : List String → Claims → Claims
put_groups [] out = out
put_groups (g ∷ gs) out = put "groups" (strings (g ∷ gs)) out

unfoldable pub put_emails : List String → Claims → Claims
put_emails [] out = out
put_emails (e ∷ es) out = put "email" (str e) (put "emails" (strings (e ∷ es)) out)

unfoldable pub put_uid : Option ℤ → Claims → Claims
put_uid none out = out
put_uid (some uid) out = put "uid" (int uid) out

-- The claims of the user that a response describes.
unfoldable pub enrich : IdentityResponse → Result Claims
unfolding put_text get_string_array_in_map put_groups put_emails put_uid
enrich response =
    let named = put_text "name" response.user.name response.user.claims in
    get_string_array_in_map named "groups" >>= λ from_claims.
    let grouped = put_groups (dedup_and_sort (response.user.groups ++ from_claims)) named in
    get_string_array_in_map grouped "emails" >>= λ emails_from_claims.
    let emails = append_if_not_present response.user.emails emails_from_claims in
    ok (
      put_uid response.user.uid
        (put_text "authority" response.authority (put_emails emails grouped)))

unfoldable pub identify :
    (IdentityRequest → Result IdentityResponse) → String → String → Result (OidcUser × Status)
unfolding enrich
identify exchange login password =
    exchange (record { login = login; password = password }) >>= λ response.
    enrich response >>= λ claims.
    ok (record { login = login; claims = claims; full_name = response.user.name }, response.status)

-- No user unless the password was checked.
unfoldable pub if_checked : OidcUser × Status → Option OidcUser
if_checked (user, password_checked) = some user
if_checked (user, status) = none

unfoldable pub authenticate :
    (IdentityRequest → Result IdentityResponse) → String → String → Result (Option OidcUser)
unfolding identify if_checked
authenticate exchange login password =
    identify exchange login password >>= λ found. ok (if_checked found)
