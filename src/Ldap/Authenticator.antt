-- ===== src/Ldap/Authenticator.antt =====
-- cmd/ldap/authenticator/authenticate.go.
pub mod Calls
pub mod Laws
use kubauth.Base.{
  String, Bool, Option, none, some, List, [], ◌∷◌, ◌++◌, ◌<>◌, ◌==◌, ℕ, eqb, if◌then◌else◌,
}
use kubauth.Base.Int.{ℤ}
use kubauth.Base.Numerals.{atoi, is_dn}
use kubauth.Proto.{
  Result, ok, err, Status, user_not_found, password_checked, password_fail, password_unchecked,
  init_user, IdentityRequest, IdentityResponse,
}
use kubauth.Ldap.Config.{LdapAuthenticator, Scope, base_object, single_level, whole_subtree, wrap}
use kubauth.Ldap.Directory.{
  SearchRequest, Call, bind, unauthenticated_bind, LdapError, ldap_error, other_error, text_of,
  Entry, Directory, Conn, resume, ◌>>=◌, pure, raise, try_bind, do_search, get_attrs, get_attr,
}

-- `ldap.LDAPResultInvalidCredentials` and `ldap.LDAPResultConstraintViolation`.
abbrev pub invalid_credentials : ℕ
invalid_credentials = 49

abbrev pub constraint_violation : ℕ
constraint_violation = 19

abbrev pub scope_string : Scope → String
scope_string base_object = "base"
scope_string single_level = "one"
scope_string whole_subtree = "sub"

-- The call of `serviceBind`.
unfoldable pub service_call : String → String → Call
service_call bind_dn bind_pw =
    if bind_pw == "" then unauthenticated_bind bind_dn else bind bind_dn bind_pw

-- The names that a list of attributes is made longer by, where they are set.
abbrev pub and_set : String → List String
and_set name = if name == "" then [] else name ∷ []

-- The status for a refused bind of the user.
unfoldable pub bind_failure : String → LdapError → Conn Status
bind_failure dn (other_error text) = raise ("conn.Bind(" <> dn <> ", xxxxxxxx) => failed: " <> text)
bind_failure dn (ldap_error code text) =
    if eqb code invalid_credentials
    then pure password_fail
    else if eqb code constraint_violation
    then pure password_fail
    else raise ("conn.Bind(" <> dn <> ", xxxxxxxx) => failed: " <> text)

-- The outcome of the bind of the user.
unfoldable pub judged : String → Option LdapError → Conn Status
unfolding bind_failure
judged dn none = pure password_checked
judged dn (some e) = bind_failure dn e

unfoldable pub bound_or_fail : String → Option LdapError → Conn (Unit {0})
bound_or_fail dn none = pure tt
bound_or_fail dn (some e) = raise ("conn.Bind(" <> dn <> ", xxxxxxxx) failed: " <> text_of e)

abbrev pub search_desc : SearchRequest → String
search_desc q =
    "baseDN:'"
    <> q.base_dn
    <> "' scope:'"
    <> scope_string q.scope
    <> "' filter:'"
    <> q.filter
    <> "'"

unfoldable pub found_or_fail : SearchRequest → Result (List Entry) → Conn (List Entry)
found_or_fail q (ok entries) = pure entries
found_or_fail q (err e) = raise ("search [" <> search_desc q <> "] failed: " <> e)

module _ (d : Directory) (l : LdapAuthenticator) where
  -- The bind of the service account, whose failure ends the session.
  unfoldable pub service_bind : Conn (Unit {0})
  unfolding service_call bound_or_fail
  service_bind =
      try_bind d (service_call l.config.bind_dn l.config.bind_pw) >>= bound_or_fail l.config.bind_dn

  -- A search whose failure ends the session.
  unfoldable pub search_or_fail : SearchRequest → Conn (List Entry)
  unfolding found_or_fail
  search_or_fail q = do_search d q >>= found_or_fail q

  unfoldable pub user_request : String → SearchRequest
  user_request login =
      let by_login =
        "(" <> l.config.user_search.login_attr <> "=" <> d.escape_filter login <> ")" in
      record {
        base_dn = l.config.user_search.base_dn;
        filter =
            if l.config.user_search.filter == ""
            then by_login
            else "(&" <> l.config.user_search.filter <> by_login <> ")";
        scope = l.user_search_scope;
        attributes =
            l.config.user_search.login_attr
            ∷ (and_set l.config.user_search.numerical_id_attr
                ++ (and_set l.config.user_search.email_attr
                    ++ (and_set l.config.user_search.cn_attr
                        ++ and_set l.config.group_search.link_user_attr)));
      }

  -- The switch on the number of entries; the text stops before the count.
  unfoldable pub the_entry : List Entry → Conn (Option Entry)
  the_entry [] = pure none
  the_entry (e ∷ []) = pure (some e)
  the_entry (e ∷ f ∷ rest) = raise "filter returned multiple"

  unfoldable pub lookup_user : String → Conn (Option Entry)
  unfolding search_or_fail user_request the_entry
  lookup_user login = search_or_fail (user_request login) >>= the_entry

  unfoldable pub check_password : Entry → String → Conn Status
  unfolding judged
  check_password user password =
      if password == ""
      then pure password_fail
      else (try_bind d (bind user.dn password) >>= judged user.dn)

  -- The search for the groups of one value of the link attribute.
  unfoldable pub group_request : String → SearchRequest
  group_request attr =
      let by_link =
        "(" <> l.config.group_search.link_group_attr <> "=" <> d.escape_filter attr <> ")" in
      if is_dn l.config.group_search.link_group_attr
      then record {
        base_dn = attr;
        filter =
            if l.config.group_search.filter == ""
            then "(objectClass=top)"
            else l.config.group_search.filter;
        scope = base_object;
        attributes = l.config.group_search.name_attr ∷ [];
      }
      else record {
        base_dn = l.config.group_search.base_dn;
        filter =
            if l.config.group_search.filter == ""
            then by_link
            else "(&" <> l.config.group_search.filter <> by_link <> ")";
        scope = l.group_search_scope;
        attributes = l.config.group_search.name_attr ∷ [];
      }

  -- The loop over the values of the link attribute, over the groups found so far.
  unfoldable pub search_groups : List Entry → List String → Conn (List Entry)
  unfolding search_or_fail group_request
  search_groups found [] = pure found
  search_groups found (attr ∷ attrs) =
      search_or_fail (group_request attr) >>= λ more. search_groups (found ++ more) attrs

  -- The loop over the groups found, which collects their names.
  unfoldable pub group_names : List Entry → List String
  group_names [] = []
  group_names (group ∷ rest) =
      let name = d.attribute_value group l.config.group_search.name_attr in
      let names = group_names rest in if name == "" then names else name ∷ names

  unfoldable pub lookup_groups : Entry → Conn (List String)
  unfolding search_groups group_names
  lookup_groups user =
      search_groups [] (get_attrs user l.config.group_search.link_user_attr) >>= λ found.
      pure (group_names found)

  -- The status of a user that was found.
  unfoldable pub status_of : Entry → String → Conn Status
  unfolding check_password
  status_of user password =
      if password == "" then pure password_unchecked else check_password user password

  -- What follows the search of the user: the status, the bind of the service account once more,
  -- since the password was checked on the connection, and the groups.
  unfoldable pub ask_user : String → Option Entry → Conn (Option (Entry × Status × List String))
  unfolding status_of service_bind lookup_groups
  ask_user password none = pure none
  ask_user password (some user) = status_of user password >>= λ status.
      service_bind >>= λ _. lookup_groups user >>= λ groups. pure (some (user, status, groups))

  -- The function that `do` is called with.
  unfoldable pub session : IdentityRequest → Conn (Option (Entry × Status × List String))
  unfolding service_bind lookup_user ask_user
  session request =
      service_bind >>= λ _. lookup_user request.login >>= λ user. ask_user request.password user

  -- `do`, up to the connection.
  unfoldable pub connect : Result (Unit {0})
  connect =
      if l.config.insecure_no_ssl
      then wrap "failed to connect: " d.dial
      else if l.config.start_tls
      then elim d.dial [
        | ok _ ↦ wrap "start TLS failed: " d.start_tls
        | err e ↦ err ("failed to connect: " <> e)
      ]
      else wrap "failed to connect: " d.dial_tls

  -- The numerical id, where its attribute is a number.
  unfoldable pub uid_of : Entry → Option ℤ
  uid_of user =
      let uid_str = get_attr user l.config.user_search.numerical_id_attr in
      if uid_str == "" then none else atoi uid_str

  -- The response, once the session has ended.
  unfoldable pub respond :
      IdentityRequest → Option (Entry × Status × List String) → IdentityResponse
  unfolding uid_of
  respond request none = record {
    user = init_user request.login;
    status = user_not_found;
    details = [];
    authority = "";
  }
  respond request (some (user, status, groups)) = record {
    user = record (init_user request.login) {
      groups = groups;
      uid = uid_of user;
      emails = get_attrs user l.config.user_search.email_attr;
      name = get_attr user l.config.user_search.cn_attr;
    };
    status = status;
    details = [];
    authority = "";
  }

  -- The answer, and the calls that were made on the connection.
  unfoldable pub authenticate : IdentityRequest → Result IdentityResponse × List Call
  unfolding connect session respond
  authenticate request =
      resume connect (λ _. session request >>= λ found. pure (respond request found)) []
