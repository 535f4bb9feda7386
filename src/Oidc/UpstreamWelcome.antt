-- ===== src/Oidc/UpstreamWelcome.antt =====
-- cmd/oidc/oidcserver/handle-upstream-welcome.go: the page between an upstream login and its end. The
-- templates execute, and `strings.TrimSpace` is the argument `trim_space`.

pub mod Laws
mod Tests
use kubauth.Base.{
  String, Bool, true, false, not, Option, none, some, List, [], ◌∷◌, ◌<>◌, ◌==◌, ◌&&◌, ℕ,
  if◌then◌else◌,
}
use kubauth.Misc.Claims.{get}
use kubauth.Oidc.HttpProvider.{OidcUser}
use kubauth.Oidc.UpstreamLogin.{
  LoginSession, Sessions, SsoMode, sso_never, sso_on_demand, sso_always, text_of, json_user,
}

-- A request, with the field "remember" of the form, or none where the form does not parse.
pub record WelcomeRequest : Type 0 where
  pub method : String
  pub remember : Option Bool

-- What is written: a 404, an error, the page with the name of the user, or the answer to the
-- authorize request (`completeUpstreamAuthorize`) for a query and a user.
pub data WelcomeReply : Type 0 where
  not_found : WelcomeReply
  http_error : ℕ → String → WelcomeReply
  page : String → WelcomeReply
  complete : String → OidcUser → WelcomeReply

-- The first text that is not blank, or else the last one.
unfoldable pub first_set : (String → String) → List String → String → String
first_set trim_space [] last = last
first_set trim_space (t ∷ rest) last =
    let later = first_set trim_space rest last in if trim_space t == "" then later else trim_space t

-- The given name and the family name, as far as they are set.
unfoldable pub full_name_of : String → String → String
full_name_of given family =
    if not (given == "") && not (family == "")
    then given <> " " <> family
    else if not (given == "")
    then given
    else family

-- `welcomeUserName`
unfoldable pub welcome_user_name : (String → String) → OidcUser → String
unfolding first_set full_name_of text_of
welcome_user_name trim_space user =
    let names =
      full_name_of (trim_space (text_of (get "given_name" user.claims)))
        (trim_space (text_of (get "family_name" user.claims))) in
    first_set trim_space
      (user.full_name
        ∷ text_of (get "name" user.claims)
        ∷ text_of (get "preferred_username" user.claims)
        ∷ text_of (get "nickname" user.claims)
        ∷ text_of (get "email" user.claims)
        ∷ [])
      (if names == "" then trim_space user.login else names)

-- `loadPendingUpstreamUser`: the user as JSON gives it back.
unfoldable pub load_pending_upstream_user : Option OidcUser → Option OidcUser
load_pending_upstream_user none = none
load_pending_upstream_user (some user) = if user.login == "" then none else some (json_user user)

-- A POST of the form. The pending user is removed before the request is completed.
unfoldable pub confirm : OidcUser → Option Bool → Sessions → WelcomeReply × Sessions
confirm user none s = (http_error 400 "bad request", s)
confirm user (some remember) s =
    if s.login_session.auth_query == ""
    then (http_error 400 "session expired: restart login from the client application", s)
    else (
      complete s.login_session.auth_query user,
      record s {
        login_session = record s.login_session { pending_upstream_user = none };
        sso_user = if remember then some user else s.sso_user;
      },
    )

unfoldable pub welcome :
    (String → String) → WelcomeRequest → Option OidcUser → Sessions → WelcomeReply × Sessions
unfolding confirm welcome_user_name
welcome trim_space q none s =
    (http_error 400 "session expired: restart login from the client application", s)
welcome trim_space q (some user) s =
    if q.method == "GET"
    then (page (welcome_user_name trim_space user), s)
    else if q.method == "POST"
    then confirm user q.remember s
    else (http_error 405 "method not allowed", s)

unfoldable pub handle_upstream_welcome :
    (String → String) → SsoMode → WelcomeRequest → Sessions → WelcomeReply × Sessions
unfolding welcome load_pending_upstream_user
handle_upstream_welcome trim_space sso_on_demand q s =
    welcome trim_space q (load_pending_upstream_user s.login_session.pending_upstream_user) s
handle_upstream_welcome trim_space sso_always q s = (not_found, s)
handle_upstream_welcome trim_space sso_never q s = (not_found, s)
