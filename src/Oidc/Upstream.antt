-- ===== src/Oidc/Upstream.antt =====
-- cmd/oidc/upstreams/upstream.go: the claims of an upstream provider. A nil set of claims is the
-- empty one.
pub mod Laws
pub mod Provider
use kubauth.Base.{
  String, Bool, true, false, Option, none, some, List, [], ◌∷◌, ◌||◌, ◌==◌, if◌then◌else◌,
}
use kubauth.Misc.Claims.{Value, Claims, get, put, delete}

-- `ClaimRenamingSpec`: any operation but "copy" renames.
pub data RenamingOperation : Type 0 where
  copy rename : RenamingOperation

pub record ClaimRenamingSpec : Type 0 where
  pub old_name : String
  pub new_name : String
  pub operation : RenamingOperation

abbrev pub oidc_id_token_registered_claims : List String
oidc_id_token_registered_claims =
    "iss" ∷ "aud" ∷ "exp" ∷ "iat" ∷ "auth_time" ∷ "nonce" ∷ "acr" ∷ "amr" ∷ "azp" ∷ "at_hash"
    ∷ "c_hash" ∷ []

-- The first loop of `CleanupClaims`, over the keys of the table in some order.
unfoldable pub delete_all : List String → Claims → Claims
delete_all [] out = out
delete_all (k ∷ ks) out = delete_all ks (delete k out)

-- The second loop.
unfoldable pub remove_all : List String → Claims → Claims
remove_all [] out = out
remove_all (k ∷ ks) out = remove_all ks (if k == "" then out else delete k out)

-- `CleanupClaims`, where `claim_removals` is the list of the specification.
unfoldable pub cleanup_claims : List String → Claims → Claims
unfolding delete_all remove_all
cleanup_claims claim_removals claims =
    remove_all claim_removals (delete_all oidc_id_token_registered_claims claims)

-- The switch on the operation of a rule.
unfoldable pub move_by : RenamingOperation → ClaimRenamingSpec → Value → Claims → Claims
move_by copy rule val out = put rule.new_name val out
move_by rename rule val out = put rule.new_name val (delete rule.old_name out)

-- A rule on the value that it found.
unfoldable pub move_found : ClaimRenamingSpec → Option Value → Claims → Claims
unfolding move_by
move_found rule none out = out
move_found rule (some val) out = move_by rule.operation rule val out

unfoldable pub apply_rule : ClaimRenamingSpec → Claims → Claims
unfolding move_found
apply_rule rule out =
    if rule.old_name == "" || rule.new_name == ""
    then out
    else move_found rule (get rule.old_name out) out

-- The loop of `PerformRenaming`.
unfoldable pub perform_renaming : List ClaimRenamingSpec → Claims → Claims
unfolding apply_rule
perform_renaming [] out = out
perform_renaming (rule ∷ rules) out = perform_renaming rules (apply_rule rule out)
