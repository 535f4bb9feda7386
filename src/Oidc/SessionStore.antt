-- ===== src/Oidc/SessionStore.antt =====
-- cmd/oidc/sessionstore: SSO sessions as resources, and their cleaner. The resources of the
-- namespace are a map from names to sessions; the calls of the Kubernetes client succeed. The
-- name of a token, `encode_name`, and the JSON decoder are arguments. A zero time is `none`, and
-- an annotation that is missing is the empty text, as the source reads both alike.
pub mod Laws
mod Tests
use kubauth.Base.{
  String, Bool, true, false, Option, none, some, List, [], ◌∷◌, ◌||◌, ◌==◌, ℕ, ltb, if◌then◌else◌,
  Dict, lookup, insert, erase, map,
}
use kubauth.Misc.Claims.{Value, str, object, Claims, no_claims, claim, get}
use kubauth.Proto.{Result, ok, err}

-- `SsoSession`: the annotation with the raw session, and the specification.
pub record SsoSession : Type 0 where
  pub raw_session : String
  pub login : String
  pub full_name : String
  pub web_token : String
  pub claims : Option Claims
  pub deadline : Option ℕ
  pub expiry : Option ℕ

pub record SessionEnvelope : Type 0 where
  pub deadline : Option ℕ
  pub values : Claims

-- A user found among the values: its login, its claims if they are an object, its full name.
pub record Extracted : Type 0 where
  pub login : String
  pub claims : Option Claims
  pub full_name : String

-- `v, _ := c.(map[string]interface{})` and `v, _ := f.(string)`.
unfoldable pub as_object : Value → Option Claims
as_object (object m) = some m
as_object _ = none

unfoldable pub as_text : Value → String
as_text (str s) = s
as_text _ = ""

abbrev first_of : Option Value → Option Value → Option Value
first_of none other = other
first_of (some v) other = some v

-- The value under the one key, or else under the other.
unfoldable pub either_key : String → String → Claims → Option Value
either_key k j m = first_of (get k m) (get j m)

unfoldable pub object_at : Option Value → Option Claims
unfolding as_object
object_at none = none
object_at (some v) = as_object v

unfoldable pub text_at : Option Value → String
unfolding as_text
text_at none = ""
text_at (some v) = as_text v

-- `asUser` on an object, given the value of its login.
unfoldable pub user_with : Option Value → Claims → Option Extracted
unfolding either_key object_at text_at as_text
user_with none m = none
user_with (some login) m = some (record {
  login = as_text login;
  claims = object_at (either_key "Claims" "claims" m);
  full_name = text_at (either_key "FullName" "fullName" m);
})

unfoldable pub as_user : Value → Option Extracted
unfolding user_with either_key
as_user (object m) = user_with (either_key "Login" "login" m) m
as_user _ = none

abbrev prefer : Option Extracted → Option Extracted → Option Extracted
prefer none other = other
prefer (some u) other = some u

-- The first value that is a user.
unfoldable pub first_user : Claims → Option Extracted
unfolding as_user
first_user no_claims = none
first_user (claim k v rest) = prefer (as_user v) (first_user rest)

unfoldable pub preferred_user : Option Value → Option Extracted
unfolding as_user
preferred_user none = none
preferred_user (some v) = as_user v

unfoldable pub extract_user : Claims → Option Extracted
unfolding preferred_user first_user
extract_user values = prefer (preferred_user (get "ssoUser" values)) (first_user values)

unfoldable pub session_of : String → String → Option ℕ → Option ℕ → Extracted → SsoSession
session_of token b deadline expiry user = record {
  raw_session = b;
  login = user.login;
  full_name = user.full_name;
  web_token = token;
  claims = user.claims;
  deadline = deadline;
  expiry = expiry;
}

-- The raw session of the resource that was found.
unfoldable pub raw_of : Option SsoSession → Option String
raw_of none = none
raw_of (some sess) = if sess.raw_session == "" then none else some sess.raw_session

-- The upsert, where the session has a user; a session without a login is not stored.
unfoldable pub upsert :
    Dict SsoSession
    → String
    → SessionEnvelope
    → String
    → String
    → Option ℕ
    → Option Extracted
    → Dict SsoSession
unfolding session_of
upsert m name env token b expiry none = m
upsert m name env token b expiry (some user) =
    if user.login == "" then m else insert name (session_of token b env.deadline expiry user) m

module _ (encode_name : String → String) (decode : String → Result SessionEnvelope) where
  unfoldable pub find_ctx : Dict SsoSession → String → Option String
  unfolding raw_of
  find_ctx m token = raw_of (lookup (encode_name token) m)

  unfoldable pub commit_decoded :
      Dict SsoSession
      → String
      → String
      → Option ℕ
      → Result SessionEnvelope
      → Result (Dict SsoSession)
  unfolding upsert extract_user
  commit_decoded m token b expiry (err e) = err e
  commit_decoded m token b expiry (ok env) =
      ok (upsert m (encode_name token) env token b expiry (extract_user env.values))

  -- No bytes are no envelope to decode.
  unfoldable pub commit_ctx :
      Dict SsoSession → String → String → Option ℕ → Result (Dict SsoSession)
  unfolding commit_decoded
  commit_ctx m token b expiry =
      commit_decoded m token b expiry
        (if b == "" then ok (record { deadline = none; values = no_claims }) else decode b)

  unfoldable pub delete_ctx : Dict SsoSession → String → Dict SsoSession
  delete_ctx m token = erase (encode_name token) m

-- `!t.IsZero() && now.After(t)`
unfoldable pub is_past : ℕ → Option ℕ → Bool
is_past now none = false
is_past now (some t) = ltb t now

-- The loop of `cleanupOnce`, which deletes what is expired.
unfoldable pub cleanup_once : ℕ → Dict SsoSession → Dict SsoSession
unfolding is_past
cleanup_once now [] = []
cleanup_once now ((name, sess) ∷ m) =
    let rest = cleanup_once now m in
    if is_past now sess.expiry || is_past now sess.deadline then rest else (name, sess) ∷ rest
