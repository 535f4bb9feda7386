-- ===== src/Ldap/Config.antt =====
-- cmd/ldap/config/config.go, and `New` of cmd/ldap/authenticator/ldapauthenticator.go. Files, secrets,
-- certificates and `filepath` are arguments. The text of an error from `%w` follows its prefix.
pub mod Laws
use kubauth.Base.{
  String, Bool, true, false, not, Option, none, some, List, [], ◌∷◌, ◌<>◌, ◌==◌, ◌&&◌, ◌||◌, ℕ,
  zero, ltb, if◌then◌else◌,
}
use kubauth.Base.Int.{ℤ, pos}
use kubauth.Misc.Paths.{FilePaths, adjust_path}
use kubauth.Misc.Slices.{count_true}
use kubauth.Proto.{Result, ok, err, ◌>>=◌}

pub record UserSearch : Type 0 where
  pub base_dn : String
  pub filter : String
  pub login_attr : String
  pub scope : String
  pub numerical_id_attr : String
  pub email_attr : String
  pub cn_attr : String

pub record GroupSearch : Type 0 where
  pub base_dn : String
  pub filter : String
  pub scope : String
  pub name_attr : String
  pub link_user_attr : String
  pub link_group_attr : String

pub record LdapConfig : Type 0 where
  pub host : String
  pub port : String
  pub timeout_sec : ℤ
  pub insecure_no_ssl : Bool
  pub insecure_skip_verify : Bool
  pub start_tls : Bool
  pub root_ca_path : String
  pub root_ca_data : String
  pub root_ca_secret : String
  pub client_cert : String
  pub client_key : String
  pub bind_dn : String
  pub bind_pw : String
  pub user_search : UserSearch
  pub group_search : GroupSearch

-- The scopes of a search, `ldap.ScopeBaseObject` and so on.
pub data Scope : Type 0 where
  base_object single_level whole_subtree : Scope

-- The certificates of the TLS configuration; `none` is a nil pool.
pub record LdapAuthenticator : Type 0 where
  pub config : LdapConfig
  pub host_port : String
  pub root_cas : Option String
  pub certificate : Option String
  pub user_search_scope : Scope
  pub group_search_scope : Scope

-- What `New` asks of its surroundings. A certificate is the text that it is read from.
-- `quote` is the verb `%q`.
pub record Surroundings : Type 0 where
  pub file_paths : FilePaths
  pub config_folder : String
  pub decode_base64 : String → Result String
  pub read_file : String → Result String
  pub current_namespace : Result String
  pub get_secret : String → String → Result (String → Option String)
  pub has_certificates : String → Bool
  pub load_key_pair : String → String → Result String
  pub quote : String → String

unfoldable pub parse_scope : String → Option Scope
parse_scope s =
    if s == "" || s == "sub"
    then some whole_subtree
    else if s == "one"
    then some single_level
    else none

abbrev pub require : Bool → String → Result (Unit {0})
require present text = if present then ok tt else err text

-- The inner check of the base of the groups, left out here, cannot fail.
unfoldable pub check_groups : GroupSearch → Result (Unit {0})
check_groups g =
    if g.base_dn == ""
    then ok tt
    else (require (not (g.name_attr == "")) "missing required ldap.groupSearch.nameAttr" >>= λ _.
        require (not (g.link_group_attr == "")) "missing required ldap.groupSearch.linkGroupAttr"
        >>= λ _.
            require (not (g.link_user_attr == "")) "missing required ldap.groupSearch.linkUserAttr")

-- The checks at the head of `New`.
unfoldable pub check_config : LdapConfig → Result (Unit {0})
unfolding check_groups
check_config c = require (not (c.host == "")) "missing required ldap.host" >>= λ _.
    require (not (c.user_search.base_dn == "")) "missing required ldap.userSearch.baseDN" >>= λ _.
    require (not (c.user_search.login_attr == "")) "missing required ldap.userSearch.loginAttr"
    >>= λ _. check_groups c.group_search

abbrev pub default_timeout : ℤ → ℤ
default_timeout (pos zero) = pos 10
default_timeout t = t

-- The defaults, and the paths seen from the folder of the configuration.
unfoldable pub with_defaults : Surroundings → LdapConfig → LdapConfig
with_defaults e c = record c {
  port = if c.port == "" then (if c.insecure_no_ssl then "389" else "636") else c.port;
  timeout_sec = default_timeout c.timeout_sec;
  root_ca_path = adjust_path e.file_paths e.config_folder c.root_ca_path;
  client_cert = adjust_path e.file_paths e.config_folder c.client_cert;
  client_key = adjust_path e.file_paths e.config_folder c.client_key;
}

abbrev pub wrap {ℓ} : {A : Type ℓ} → String → Result A → Result A
wrap text (ok a) = ok a
wrap text (err e) = err (text <> e)

-- The certificate in a secret. Its name is "ca.crt" where no path is set.
unfoldable pub from_secret : Surroundings → LdapConfig → Result (Option String)
from_secret e c = e.current_namespace >>= λ namespace.
    wrap ("error while getting root CA secret '" <> namespace <> "/" <> c.root_ca_secret <> "': ")
      (e.get_secret namespace c.root_ca_secret)
    >>= λ content.
        let ca_name = if c.root_ca_path == "" then "ca.crt" else c.root_ca_path in
        elim (content ca_name) [
          | none ↦ err (
              "cA data not found in secret 'namespace/" <> c.root_ca_secret <> "' CA path:'"
              <> ca_name <> "'")
          | some found ↦ ok (some found)
        ]

-- The three sources of a root certificate, the later ones over the earlier ones.
unfoldable pub root_ca : Surroundings → LdapConfig → Result (Option String)
root_ca e c =
    (if c.root_ca_data == ""
      then ok none
      else (wrap "error while parsing RootCaData : " (e.decode_base64 c.root_ca_data) >>= λ d.
          ok (some d)))
    >>= λ inline.
        (if c.root_ca_path == ""
          then ok inline
          else (wrap "error while reading CA file: " (e.read_file c.root_ca_path) >>= λ d.
              ok (some d)))
        >>= λ from_file. if c.root_ca_secret == "" then ok from_file else from_secret e c

unfoldable pub ca_sources : LdapConfig → ℕ
ca_sources c =
    count_true
      (not (c.root_ca_data == "") ∷ not (c.root_ca_secret == "") ∷ not (c.root_ca_path == "") ∷ [])

unfoldable pub check_pool : Surroundings → Option String → Result (Option String)
check_pool e none = ok none
check_pool e (some pem) =
    require (e.has_certificates pem) "no certs found in ca file" >>= λ _. ok (some pem)

unfoldable pub client_certificate : Surroundings → LdapConfig → Result (Option String)
client_certificate e c =
    if not (c.client_key == "") && not (c.client_cert == "")
    then (wrap "load client cert failed: " (e.load_key_pair c.client_cert c.client_key) >>= λ cert.
        ok (some cert))
    else ok none

abbrev pub scope_or : Option Scope → String → Result Scope
scope_or none text = err text
scope_or (some s) text = ok s

unfoldable pub new : Surroundings → LdapConfig → Result LdapAuthenticator
unfolding check_config with_defaults ca_sources root_ca from_secret check_pool client_certificate
    parse_scope
new e given = check_config given >>= λ _.
    let c = with_defaults e given in
    require (not (ltb 1 (ca_sources c)))
      "at most one of 'rootCaData', 'rootCaSecret' or 'rootCaPath' must be specified"
    >>= λ _. root_ca e c >>= λ pem. check_pool e pem >>= λ pool. client_certificate e c >>= λ cert.
        scope_or (parse_scope c.user_search.scope)
          ("userSearch.Scope unknown value " <> e.quote c.user_search.scope)
        >>= λ user_scope.
            scope_or (parse_scope c.group_search.scope)
              ("groupSearch.Scope unknown value " <> e.quote c.group_search.scope)
            >>= λ group_scope. ok (record {
              config = c;
              host_port = c.host <> ":" <> c.port;
              root_cas = pool;
              certificate = cert;
              user_search_scope = user_scope;
              group_search_scope = group_scope;
            })
