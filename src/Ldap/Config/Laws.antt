-- ===== src/Ldap/Config/Laws.antt =====
-- What `New` of cmd/ldap/authenticator/ldapauthenticator.go has checked of a configuration.
use kubauth.Base.{
  ◌≡◌, ◌≢◌, ◌⊎◌, ap, zero, suc, refl, inl, inr, String, Bool, true, false, not, Option, none, some,
  ◌==◌, ltb, arith, eq_iff, Bool-cases, if◌then◌else◌,
}
use kubauth.Base.Int.{ℤ, pos, negsuc}
use kubauth.Misc.Paths.{adjust_path}
use kubauth.Misc.Slices.{count_true}
use kubauth.Proto.{Result, ok, err, ◌>>=◌, bind_inv, ok-injective}
use kubauth.Ldap.Config.{
  LdapConfig, LdapAuthenticator, Scope, base_object, single_level, whole_subtree, default_timeout,
  Surroundings, parse_scope, require, check_groups, check_config, GroupSearch, with_defaults, wrap,
  from_secret, root_ca, ca_sources, check_pool, client_certificate, scope_or, new,
}

require_inv :
    {A : Type 0} (b : Bool) (text : String) (go_on : Unit {0} → Result A) (a : A)
    → (require b text >>= go_on) ≡ ok a
    → (b ≡ true) × (go_on tt ≡ ok a)
require_inv true text go_on a h = (refl, h)
require_inv false text go_on a h = cc

scope_or_inv :
    {A : Type 0} (o : Option Scope) (text : String) (go_on : Scope → Result A) (a : A)
    → (scope_or o text >>= go_on) ≡ ok a
    → (s : Scope) × (o ≡ some s) × (go_on s ≡ ok a)
scope_or_inv none text go_on a h = cc
scope_or_inv (some s) text go_on a h = (s, refl, h)

not_empty : (s : String) → not (s == "") ≡ true → s ≢ ""
not_empty s h e = ground (arith, eq_iff s "", h, e)

-- The attributes that a search for groups needs.
abbrev pub HasLinks : GroupSearch → Type 0
HasLinks g = (g.name_attr ≢ "") × (g.link_group_attr ≢ "") × (g.link_user_attr ≢ "")

check_groups_inv : (g : GroupSearch) → check_groups g ≡ ok tt → g.base_dn ≢ "" → HasLinks g
unfolding check_groups
check_groups_inv g h has_base = elim (Bool-cases (g.base_dn == "")) [
  | inl e ↦ absurd (has_base ((eq_iff g.base_dn "").0 e))
  | inr e ↦
      let (name, h1) = require_inv (not (g.name_attr == "")) _ _ tt (rw e at h) in
      let (group, h2) = require_inv (not (g.link_group_attr == "")) _ _ tt h1 in
      let user : not (g.link_user_attr == "") ≡ true = ground (arith, h2) in
      (
        not_empty g.name_attr name,
        not_empty g.link_group_attr group,
        not_empty g.link_user_attr user,
      )
]

check_config_inv :
    (c : LdapConfig)
    → check_config c ≡ ok tt
    → (c.host ≢ "")
      × (c.user_search.base_dn ≢ "")
      × (c.user_search.login_attr ≢ "")
      × (c.group_search.base_dn ≢ "" → HasLinks c.group_search)
unfolding check_config
check_config_inv c h =
    let (host, h1) = require_inv (not (c.host == "")) _ _ tt h in
    let (base, h2) = require_inv (not (c.user_search.base_dn == "")) _ _ tt h1 in
    let (login, h3) = require_inv (not (c.user_search.login_attr == "")) _ _ tt h2 in
    (
      not_empty c.host host,
      not_empty c.user_search.base_dn base,
      not_empty c.user_search.login_attr login,
      check_groups_inv c.group_search h3,
    )

pub record FromSecret (e : Surroundings) (name : String) (pool : Option String) : Type 0 where
  pub namespace : String
  pub content : String → Option String
  pub certificates : String
  pub is_namespace : e.current_namespace ≡ ok namespace
  pub is_secret : e.get_secret namespace name ≡ ok content
  pub is_named : content "ca.crt" ≡ some certificates
  pub is_used : pool ≡ some certificates

wrap_inv : {A : Type 0} (text : String) (r : Result A) (a : A) → wrap text r ≡ ok a → r ≡ ok a
wrap_inv text (ok b) a h = h
wrap_inv text (err x) a h = cc

check_pool_inv :
    (e : Surroundings) (pem pool : Option String) → check_pool e pem ≡ ok pool → pool ≡ pem
unfolding check_pool
check_pool_inv e none pool h = cc
check_pool_inv e (some p) pool h = let step = require_inv (e.has_certificates p) _ _ pool h in cc

from_content :
    (o pem : Option String) (text : String)
    → (let r : Result (Option String) = elim o [ none ↦ err text | some f ↦ ok (some f) ] in r)
      ≡ ok pem
    → (p : String) × (o ≡ some p) × (pem ≡ some p)
from_content none pem text h = cc
from_content (some p) pem text h = (p, refl, cc)

from_secret_inv :
    (e : Surroundings) (c : LdapConfig) (pem : Option String)
    → (c.root_ca_path == "") ≡ true
    → from_secret e c ≡ ok pem
    → FromSecret e c.root_ca_secret pem
unfolding from_secret
from_secret_inv e c pem empty h =
    let (namespace, e1, h1) = bind_inv e.current_namespace _ pem h in
    let (content, e2, h2) = bind_inv (wrap _ (e.get_secret namespace c.root_ca_secret)) _ pem h1 in
    let h3 = rw empty at h2 in
    let (p, e3, e4) = from_content (content "ca.crt") pem _ h3 in
    record {
      namespace = namespace;
      content = content;
      certificates = p;
      is_namespace = e1;
      is_secret = wrap_inv _ (e.get_secret namespace c.root_ca_secret) content e2;
      is_named = e3;
      is_used = e4;
    }

only_secret :
    (c : LdapConfig)
    → not (ltb 1 (ca_sources c)) ≡ true
    → (c.root_ca_secret == "") ≡ false
    → ((c.root_ca_data == "") ≡ true) × ((c.root_ca_path == "") ≡ true)
unfolding ca_sources count_true
only_secret c h e = ground arith

root_ca_inv :
    (e : Surroundings) (c : LdapConfig) (pem : Option String)
    → not (ltb 1 (ca_sources c)) ≡ true
    → c.root_ca_secret ≢ ""
    → root_ca e c ≡ ok pem
    → FromSecret e c.root_ca_secret pem
unfolding root_ca
root_ca_inv e c pem few ne h =
    let set : (c.root_ca_secret == "") ≡ false = ground (arith, eq_iff c.root_ca_secret "", ne) in
    let other = only_secret c few set in
    from_secret_inv e c pem other.1 (rw (other.0, other.1, set) at h)

default_port :
    (port : String) (plain : Bool)
    → ◌≢◌ {A = String} (if port == "" then (if plain then "389" else "636") else port) ""
default_port port plain h = elim (Bool-cases (port == "")) [
  | inl e ↦ plain_port plain (rw e at h)
  | inr e ↦ let kept : port ≡ "" = rw e at h in ground (arith, e, eq_iff port "", kept)
]
  where
    plain_port : (b : Bool) → ¬ (◌≡◌ {A = String} (if b then "389" else "636") "")
    plain_port true k = let t : ("389" == "") ≡ true = (eq_iff "389" "").1 k in cc
    plain_port false k = let t : ("636" == "") ≡ true = (eq_iff "636" "").1 k in cc

-- The scope that a text stands for.
abbrev pub ReadAs : String → Scope → Type 0
ReadAs text whole_subtree = (text ≡ "") ⊎ (text ≡ "sub")
ReadAs text single_level = text ≡ "one"
ReadAs text base_object = ⊥

parse_scope-ReadAs : (text : String) (s : Scope) → parse_scope text ≡ some s → ReadAs text s
unfolding parse_scope
parse_scope-ReadAs text whole_subtree h = ground (arith, h, eq_iff text "", eq_iff text "sub")
parse_scope-ReadAs text single_level h = ground (arith, h, eq_iff text "one")
parse_scope-ReadAs text base_object h = ground (arith, h)

-- At least two of the three sources of root certificates are not given.
abbrev pub OneCa : LdapConfig → Type 0
OneCa c =
    ((c.root_ca_data ≡ "") × (c.root_ca_secret ≡ ""))
    ⊎ ((c.root_ca_data ≡ "") × (c.root_ca_path ≡ ""))
    ⊎ ((c.root_ca_secret ≡ "") × (c.root_ca_path ≡ ""))

ca_sources-OneCa : (c : LdapConfig) → not (ltb 1 (ca_sources c)) ≡ true → OneCa c
unfolding ca_sources count_true
ca_sources-OneCa c h =
    ground
      (arith, eq_iff c.root_ca_data "", eq_iff c.root_ca_secret "", eq_iff c.root_ca_path "", h)

-- The configuration `c` is the given one with the defaults, and with the paths of files seen from the
-- folder of the configuration.
pub record Completes (e : Surroundings) (given c : LdapConfig) : Type 0 where
  pub port_kept : given.port ≢ "" → c.port ≡ given.port
  pub port_plain : given.port ≡ "" → given.insecure_no_ssl ≡ true → c.port ≡ "389"
  pub port_tls : given.port ≡ "" → given.insecure_no_ssl ≡ false → c.port ≡ "636"
  pub timeout_kept : given.timeout_sec ≢ pos 0 → c.timeout_sec ≡ given.timeout_sec
  pub timeout_default : given.timeout_sec ≡ pos 0 → c.timeout_sec ≡ pos 10
  pub others : c ≡ record given {
    port = c.port;
    timeout_sec = c.timeout_sec;
    root_ca_path = adjust_path e.file_paths e.config_folder given.root_ca_path;
    client_cert = adjust_path e.file_paths e.config_folder given.client_cert;
    client_key = adjust_path e.file_paths e.config_folder given.client_key;
  }

default_timeout-kept : (t : ℤ) → t ≢ pos 0 → default_timeout t ≡ t
default_timeout-kept (pos zero) ne = absurd (ne refl)
default_timeout-kept (pos (suc n)) ne = refl
default_timeout-kept (negsuc n) ne = refl

with_defaults-Completes :
    (e : Surroundings) (given : LdapConfig) → Completes e given (with_defaults e given)
unfolding with_defaults
with_defaults-Completes e given = record {
  port_kept = λ ne. ground (arith, eq_iff given.port "", ne);
  port_plain = λ empty plain. ground (arith, eq_iff given.port "", empty, plain);
  port_tls = λ empty tls. ground (arith, eq_iff given.port "", empty, tls);
  timeout_kept = default_timeout-kept given.timeout_sec;
  timeout_default = λ h. ap default_timeout h;
  others = refl;
}

-- The configuration that an authenticator runs with.
pub record IsUsable (e : Surroundings) (given : LdapConfig) (a : LdapAuthenticator) : Type 0 where
  pub has_host : given.host ≢ ""
  pub has_base : given.user_search.base_dn ≢ ""
  pub has_login : given.user_search.login_attr ≢ ""
  pub has_links : given.group_search.base_dn ≢ "" → HasLinks given.group_search
  pub completed : Completes e given a.config
  pub has_port : a.config.port ≢ ""
  pub one_ca : OneCa a.config
  pub user_scope : ReadAs given.user_search.scope a.user_search_scope
  pub group_scope : ReadAs given.group_search.scope a.group_search_scope
  -- A secret is read under the name "ca.crt", and its certificates are used.
  pub secret_name : given.root_ca_secret ≢ "" → FromSecret e given.root_ca_secret a.root_cas

-- A configuration is accepted only if it names a host, where users are searched for and the attribute
-- of their login, the attributes of groups if it names where groups are searched for, scopes that
-- are empty, `sub` or `one`, and at most one source of root certificates. The authenticator runs
-- with that configuration, completed by port 389 or 636 and a timeout of 10 where these are not
-- given, with its paths seen from its folder, and with the whole subtree as scope unless `one` is
-- given; a secret of certificates is always read under "ca.crt", and what it holds is used.
pub new-IsUsable :
    (e : Surroundings) (given : LdapConfig) (a : LdapAuthenticator)
    → new e given ≡ ok a
    → IsUsable e given a
unfolding new with_defaults
new-IsUsable e given a h =
    let c = with_defaults e given in
    let (_, e1, h1) = bind_inv (check_config given) _ a h in
    let checked = check_config_inv given e1 in
    let (few, h2) = require_inv (not (ltb 1 (ca_sources c))) _ _ a h1 in
    let (pem, e3, h3) = bind_inv (root_ca e c) _ a h2 in
    let (pool, e4, h4) = bind_inv (check_pool e pem) _ a h3 in
    let (cert, e5, h5) = bind_inv (client_certificate e c) _ a h4 in
    let (user_scope, e6, h6) = scope_or_inv (parse_scope c.user_search.scope) _ _ a h5 in
    let (group_scope, e7, h7) = scope_or_inv (parse_scope c.group_search.scope) _ _ a h6 in
    let same = ok-injective h7 in
    rw (← same) (record {
      has_host = checked.0;
      has_base = checked.1;
      has_login = checked.2;
      has_links = checked.3;
      completed = with_defaults-Completes e given;
      has_port = default_port given.port given.insecure_no_ssl;
      one_ca = ca_sources-OneCa c few;
      user_scope = parse_scope-ReadAs given.user_search.scope user_scope e6;
      group_scope = parse_scope-ReadAs given.group_search.scope group_scope e7;
      secret_name =
          λ ne. let from = root_ca_inv e c pem few ne e3 in rw (check_pool_inv e pem pool e4) from;
    })
