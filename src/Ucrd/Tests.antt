-- ===== src/Ucrd/Tests.antt =====
-- Runs of cmd/ucrd/authenticator.
use kubauth.Base.{
  ◌≡◌, ◌↔◌, refl, String, Bool, true, false, none, some, List, [], ◌∷◌, ◌==◌, ◌&&◌, if◌then◌else◌,
  All,
}
use kubauth.Base.TextSort.{sort_texts}
use kubauth.Misc.Claims.{str, Claims, no_claims, claim, get, merge_maps}
use kubauth.Misc.Slices.{bool_ptr_false}
use mathlib.Core.Path.{subst}
use kubauth.Misc.Claims.Merge.{UniqueKeys}
use kubauth.Proto.{
  Result, ok, err, ok-injective, password_checked, IdentityRequest, IdentityResponse,
}
use kubauth.Ucrd.Authenticator.{Cluster, UserSpec, found, absent, authenticate}
use kubauth.Ucrd.Authenticator.Laws.{
  Proves, Answered, said_by_groups, said_by_user, authenticate_answer, authenticate_answers,
}

abbrev alice : UserSpec
alice = record {
  name = "Alice";
  emails = [];
  claims = some "team=a";
  uid = none;
  is_disabled = none;
  password_hash = "#secret";
}

-- A text of claims is "team=a" or nothing; the hash of a password has a sign in front.
abbrev decoded : String → Result Claims
decoded raw = if raw == "team=a" then ok (claim "team" (str "a") no_claims) else err "no JSON"

abbrev cluster : Cluster
cluster = record {
  list_bindings = λ login. ok ("ops" ∷ "dev" ∷ []);
  get_group = λ group. if group == "dev" then found (some "team=a") else absent;
  get_user = λ login. if login == "alice" then found alice else absent;
  unmarshal = decoded;
  compare_hash = λ hash password. hash == "#secret" && (password == "secret");
}

abbrev request : IdentityRequest
request = record { login = "alice"; password = "secret" }

team-UniqueKeys :
    (fits : Bool) (c : Claims)
    → (if fits then ok (claim "team" (str "a") no_claims) else err "no JSON") ≡ ok c
    → UniqueKeys c
team-UniqueKeys true c h = subst UniqueKeys (ok-injective h) (unfold get in refl, tt)
team-UniqueKeys false c h = cc

decoded-UniqueKeys : (raw : String) (c : Claims) → decoded raw ≡ ok c → UniqueKeys c
decoded-UniqueKeys raw c h = team-UniqueKeys (raw == "team=a") c h

groups-Answered : All (λ g. Answered (cluster.get_group g)) (sort_texts ("ops" ∷ "dev" ∷ []))
unfolding sort_texts
groups-Answered = (tt, (tt, tt))

authenticate_answers_example : (r : IdentityResponse) × (authenticate cluster request ≡ ok r)
authenticate_answers_example =
    authenticate_answers cluster request ("ops" ∷ "dev" ∷ []) refl groups-Answered tt

abbrev response : IdentityResponse
response = record {
  user = record {
    login = "alice";
    uid = none;
    name = "Alice";
    emails = [];
    groups = "dev" ∷ "ops" ∷ [];
    claims = claim "team" (str "a") no_claims;
  };
  status = password_checked;
  details = [];
  authority = "";
}

cluster_answers : authenticate cluster request ≡ ok response
unfolding authenticate sort_texts merge_maps bool_ptr_false
cluster_answers = refl

authenticate_answer_example :
    (response.user.login ≡ "alice")
    × ((response.status ≡ password_checked) ↔ Proves cluster "secret" (cluster.get_user "alice"))
    × ((bound : List String) × (cluster.list_bindings "alice" ≡ ok bound)
        × (response.user.groups ≡ sort_texts bound)
        × ((k : String)
            → get k response.user.claims
              ≡ said_by_user cluster
                  (said_by_groups cluster none k (sort_texts bound))
                  k
                  (cluster.get_user "alice")))
authenticate_answer_example =
    authenticate_answer cluster decoded-UniqueKeys request response cluster_answers
