-- ===== src/Ucrd/Authenticator.antt =====
-- cmd/ucrd/authenticator/crdAuthenticator.go. The Kubernetes client, the JSON decoder and bcrypt are
-- arguments; nothing is assumed of them. The text of an error keeps the source's words up to the
-- name.
pub mod Laws
use kubauth.Base.{
  String, Bool, true, false, Option, none, some, List, [], ◌∷◌, ◌++◌, ◌<>◌, ◌==◌, if◌then◌else◌,
}
use kubauth.Base.Int.{ℤ}
use kubauth.Base.TextSort.{sort_texts}
use kubauth.Misc.Claims.{Claims, no_claims, merge_maps}
use kubauth.Misc.Slices.{bool_ptr_false}
use kubauth.Proto.{
  Result, ok, err, ◌>>=◌, Status, user_not_found, disabled, password_checked, password_fail,
  password_unchecked, password_missing, User, init_user, IdentityRequest, IdentityResponse,
}

-- The outcome of a `Get`: the resource, the error that says it is not there, or another error.
pub data Fetch (A : Type 0) : Type 0 where
  found : A → Fetch A
  absent : Fetch A
  failed : String → Fetch A

-- `UserSpec`; the claims are JSON text.
pub record UserSpec : Type 0 where
  pub name : String
  pub emails : List String
  pub claims : Option String
  pub uid : Option ℤ
  pub is_disabled : Option Bool
  pub password_hash : String

-- The parameters: the groups of the bindings of a login, the claims of a group, a user, the
-- decoder, and the comparison of a hash with a password.
pub record Cluster : Type 0 where
  pub list_bindings : String → Result (List String)
  pub get_group : String → Fetch (Option String)
  pub get_user : String → Fetch UserSpec
  pub unmarshal : String → Result Claims
  pub compare_hash : String → String → Bool

unfoldable pub list_failed : String → Result (List String) → Result (List String)
list_failed login (ok groups) = ok groups
list_failed login (err e) = err ("failed to list groupBindings for user " <> login <> ": " <> e)

-- The claims that `claims, err = merge(claims, json)` assigns; the error is not looked at.
unfoldable pub assigned : Result Claims → Claims
assigned (ok base) = base
assigned (err e) = no_claims

module _ (cluster : Cluster) where
  unfoldable pub merge : Claims → Option String → Result Claims
  merge a none = ok a
  merge a (some raw) = cluster.unmarshal raw >>= λ b. ok (merge_maps a b)

  -- The body of the loop on the outcome for a group, over the claims.
  unfoldable pub group_claims : Claims → String → Fetch (Option String) → Result Claims
  unfolding merge assigned
  group_claims base group (found json) = ok (assigned (merge base json))
  group_claims base group absent = ok base
  group_claims base group (failed e) = err ("error fetching Group " <> group <> ": " <> e)

  -- The loop over the bindings, over the groups and the claims of the response.
  unfoldable pub add_groups : List String → List String → Claims → Result (List String × Claims)
  unfolding group_claims
  add_groups [] groups base = ok (groups, base)
  add_groups (group ∷ rest) groups base =
      group_claims base group (cluster.get_group group) >>= λ more.
      add_groups rest (groups ++ group ∷ []) more

  -- The status of a user that was found.
  unfoldable pub status_of : UserSpec → String → Status
  status_of usr password =
      if bool_ptr_false usr.is_disabled
      then disabled
      else if usr.password_hash == ""
      then password_missing
      else if password == ""
      then password_unchecked
      else if cluster.compare_hash usr.password_hash password
      then password_checked
      else password_fail

  -- The response, once the groups are known.
  unfoldable pub respond :
      IdentityRequest → List String → Claims → Fetch UserSpec → Result IdentityResponse
  unfolding merge assigned status_of
  respond request groups base (failed e) =
      err ("error fetching User '" <> request.login <> "': " <> e)
  respond request groups base absent = ok (record {
    user = record (init_user request.login) { groups = groups; claims = base };
    status = user_not_found;
    details = [];
    authority = "";
  })
  respond request groups base (found usr) = ok (record {
    user = record {
      login = request.login;
      uid = usr.uid;
      name = usr.name;
      emails = usr.emails;
      groups = groups;
      claims = assigned (merge base usr.claims);
    };
    status = status_of usr request.password;
    details = [];
    authority = "";
  })

  unfoldable pub authenticate : IdentityRequest → Result IdentityResponse
  unfolding add_groups respond list_failed
  authenticate request =
      list_failed request.login (cluster.list_bindings request.login) >>= λ bound.
      add_groups (sort_texts bound) [] no_claims >>= λ known.
      respond request known.0 known.1 (cluster.get_user request.login)
