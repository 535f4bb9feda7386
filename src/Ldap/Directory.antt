-- ===== src/Ldap/Directory.antt =====
-- The connection of cmd/ldap/authenticator/authenticate.go to the directory. The calls on a connection
-- are recorded, the latest first, and what the directory answers may depend on all of them.
use kubauth.Base.{String, Option, List, [], ◌∷◌, ◌==◌, ℕ, if◌then◌else◌}
use kubauth.Proto.{Result, ok, err}
use kubauth.Ldap.Config.{Scope}

pub record SearchRequest : Type 0 where
  pub base_dn : String
  pub filter : String
  pub scope : Scope
  pub attributes : List String

pub data Call : Type 0 where
  bind : String → String → Call
  unauthenticated_bind : String → Call
  search : SearchRequest → Call

-- `*ldap.Error` with its result code, or another error.
pub data LdapError : Type 0 where
  ldap_error : ℕ → String → LdapError
  other_error : String → LdapError

abbrev pub text_of : LdapError → String
text_of (ldap_error code text) = text
text_of (other_error text) = text

pub record Attribute : Type 0 where
  pub name : String
  pub values : List String

pub record Entry : Type 0 where
  pub dn : String
  pub attributes : List Attribute

-- The directory: whether it can be reached with the settings, and its answer to a call behind
-- the calls before it. `escape_filter` is `ldap.EscapeFilter`, and `attribute_value` the method
-- `GetAttributeValue` of an entry.
pub record Directory : Type 0 where
  pub dial : Result (Unit {0})
  pub dial_tls : Result (Unit {0})
  pub start_tls : Result (Unit {0})
  pub answer_bind : List Call → Call → Option LdapError
  pub answer_search : List Call → SearchRequest → Result (List Entry)
  pub escape_filter : String → String
  pub attribute_value : Entry → String → String

-- Code on a connection.
abbrev pub Conn : Type 0 → Type 0
Conn A = List Call → Result A × List Call

-- An error ends the code.
abbrev pub resume : {A B : Type 0} → Result A → (A → Conn B) → Conn B
resume (ok a) f calls = f a calls
resume (err e) f calls = (err e, calls)

infixl 5 ◌>>=◌
abbrev pub ◌>>=◌ : {A B : Type 0} → Conn A → (A → Conn B) → Conn B
◌>>=◌ m f calls = resume (m calls).0 f (m calls).1

module _ {A : Type 0} where
  abbrev pub pure : A → Conn A
  pure a calls = (ok a, calls)

  abbrev pub raise : String → Conn A
  raise e calls = (err e, calls)

abbrev pub try_bind : Directory → Call → Conn (Option LdapError)
try_bind d c calls = (ok (d.answer_bind calls c), c ∷ calls)

abbrev pub do_search : Directory → SearchRequest → Conn (Result (List Entry))
do_search d q calls = (ok (d.answer_search calls q), search q ∷ calls)

-- `getAttrs`
unfoldable pub attribute_values : String → List Attribute → List String
attribute_values name [] = []
attribute_values name (a ∷ rest) = if a.name == name then a.values else attribute_values name rest

unfoldable pub get_attrs : Entry → String → List String
unfolding attribute_values
get_attrs e name = if name == "DN" then e.dn ∷ [] else attribute_values name e.attributes

abbrev first_or_empty : List String → String
first_or_empty [] = ""
first_or_empty (a ∷ rest) = a

unfoldable pub get_attr : Entry → String → String
unfolding get_attrs
get_attr e name = if name == "" then "" else first_or_empty (get_attrs e name)
