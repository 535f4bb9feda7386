-- ===== src/Ldap/Authenticator/Calls.antt =====
-- The accounts that cmd/ldap/authenticator/authenticate.go searches the directory under.
use kubauth.Base.{
  ◌≡◌, refl, inl, inr, String, Option, none, some, List, [], ◌∷◌, ◌++◌, ◌==◌, arith, Bool-cases,
}
use kubauth.Proto.{Result, ok, err, IdentityRequest}
use kubauth.Ldap.Config.{LdapAuthenticator}
use kubauth.Ldap.Directory.{
  SearchRequest, Call, bind, unauthenticated_bind, search, LdapError, Entry, Directory, Conn, pure,
  resume, get_attrs, ldap_error, other_error,
}
use kubauth.Ldap.Authenticator.{
  service_call, bind_failure, service_bind, search_or_fail, the_entry, lookup_user, user_request,
  check_password, group_request, search_groups, group_names, lookup_groups, status_of, ask_user,
  judged, bound_or_fail, found_or_fail, session, connect, authenticate,
}

-- The bind that the next call is made under, from the calls made so far, the latest first.
abbrev pub under : List Call → Option Call
under [] = none
under (bind dn pw ∷ calls) = some (bind dn pw)
under (unauthenticated_bind dn ∷ calls) = some (unauthenticated_bind dn)
under (search q ∷ calls) = under calls

-- Every search is made under the given bind.
abbrev pub SearchedUnder : Call → List Call → Type 0
SearchedUnder account [] = Unit
SearchedUnder account (search q ∷ calls) =
    (under calls ≡ some account) × SearchedUnder account calls
SearchedUnder account (bind dn pw ∷ calls) = SearchedUnder account calls
SearchedUnder account (unauthenticated_bind dn ∷ calls) = SearchedUnder account calls

-- The same, and the next call is made under that bind too.
abbrev IsBound : Call → List Call → Type 0
IsBound account calls = (under calls ≡ some account) × SearchedUnder account calls

module _ {A B : Type 0} (Q : List Call → Type 0) where
  after_resume :
      (r : Result A) (f : A → Conn B) (calls : List Call)
      → Q calls
      → ((a : A) → Q (f a calls).1)
      → Q (resume r f calls).1
  after_resume (ok a) f calls h go_on = go_on a
  after_resume (err e) f calls h go_on = h

service_call-IsBound :
    (dn pw : String) (calls : List Call)
    → SearchedUnder (service_call dn pw) calls
    → IsBound (service_call dn pw) (service_call dn pw ∷ calls)
unfolding service_call
service_call-IsBound dn pw calls h = elim (Bool-cases (pw == "")) [
  | inl e ↦ rw e (refl, rw e at h)
  | inr e ↦ rw e (refl, rw e at h)
]

module _ (d : Directory) (l : LdapAuthenticator) where
  abbrev account : Call
  account = service_call l.config.bind_dn l.config.bind_pw

  -- A step of the code that keeps the account, and one that may leave another.
  abbrev Stays : {A : Type 0} → Conn A → Type 0
  Stays m = (calls : List Call) → IsBound account calls → IsBound account (m calls).1

  abbrev Searches : {A : Type 0} → Conn A → Type 0
  Searches m = (calls : List Call) → SearchedUnder account calls → SearchedUnder account (m calls).1

  service_bind-IsBound :
      (calls : List Call) → SearchedUnder account calls → IsBound account (service_bind d l calls).1
  unfolding service_bind bound_or_fail
  service_bind-IsBound calls h =
      let bound = service_call-IsBound l.config.bind_dn l.config.bind_pw calls h in
      elim (d.answer_bind calls account)
        as (λ o. IsBound account (bound_or_fail l.config.bind_dn o (account ∷ calls)).1) [
          | none ↦ bound
          | some e ↦ bound
        ]

  found_or_fail-Stays : (q : SearchRequest) (r : Result (List Entry)) → Stays (found_or_fail q r)
  unfolding found_or_fail
  found_or_fail-Stays q (ok entries) calls h = h
  found_or_fail-Stays q (err e) calls h = h

  search_or_fail-Stays : (q : SearchRequest) → Stays (search_or_fail d l q)
  unfolding search_or_fail
  search_or_fail-Stays q calls h =
      found_or_fail-Stays q (d.answer_search calls q) (search q ∷ calls) (h.0, h)

  the_entry-Stays : (found : List Entry) → Stays (the_entry d l found)
  unfolding the_entry
  the_entry-Stays [] calls h = h
  the_entry-Stays (e ∷ []) calls h = h
  the_entry-Stays (e ∷ f ∷ rest) calls h = h

  lookup_user-Stays : (login : String) → Stays (lookup_user d l login)
  unfolding lookup_user
  lookup_user-Stays login calls h =
      let asked = search_or_fail-Stays (user_request d l login) calls h in
      after_resume (IsBound account) (search_or_fail d l (user_request d l login) calls).0
        (the_entry d l) (search_or_fail d l (user_request d l login) calls).1 asked
        (λ found. the_entry-Stays found _ asked)

  search_groups-Stays :
      (attrs : List String) (found : List Entry) → Stays (search_groups d l found attrs)
  unfolding search_groups
  search_groups-Stays [] found calls h = h
  search_groups-Stays (attr ∷ attrs) found calls h =
      let asked = search_or_fail-Stays (group_request d l attr) calls h in
      after_resume (IsBound account) (search_or_fail d l (group_request d l attr) calls).0
        (λ more. search_groups d l (found ++ more) attrs)
        (search_or_fail d l (group_request d l attr) calls).1 asked
        (λ more. search_groups-Stays attrs (found ++ more) _ asked)

  lookup_groups-Searches :
      (user : Entry)
      → (calls : List Call) → IsBound account calls
      → SearchedUnder account (lookup_groups d l user calls).1
  unfolding lookup_groups
  lookup_groups-Searches user calls h =
      let attrs = get_attrs user l.config.group_search.link_user_attr in
      let asked = search_groups-Stays attrs [] calls h in
      after_resume (SearchedUnder account) (search_groups d l [] attrs calls).0
        (λ found. pure (group_names d l found)) (search_groups d l [] attrs calls).1 asked.1
        (λ found. asked.1)

  judged-Searches : (dn : String) (o : Option LdapError) → Searches (judged dn o)
  unfolding judged bind_failure
  judged-Searches dn none calls h = h
  judged-Searches dn (some (other_error text)) calls h = h
  judged-Searches dn (some (ldap_error code text)) calls h = ground (arith, h)

  status_of-Searches : (user : Entry) (password : String) → Searches (status_of d l user password)
  unfolding status_of check_password
  status_of-Searches user password calls h = elim (Bool-cases (password == "")) [
    | inl e ↦ rw e h
    | inr e ↦ rw e (
        judged-Searches user.dn (d.answer_bind calls (bind user.dn password))
          (bind user.dn password ∷ calls) h)
  ]

  ask_user-Searches :
      (password : String) (o : Option Entry)
      → (calls : List Call) → IsBound account calls
      → SearchedUnder account (ask_user d l password o calls).1
  unfolding ask_user
  ask_user-Searches password none calls h = h.1
  ask_user-Searches password (some user) calls h =
      let judged_now = status_of-Searches user password calls h.1 in
      let mid = (status_of d l user password calls).1 in
      let again = service_bind-IsBound mid judged_now in
      let bound = (service_bind d l mid).1 in
      let grouped = lookup_groups-Searches user bound again in
      after_resume (SearchedUnder account) (status_of d l user password calls).0 _ mid judged_now
        (λ status.
          after_resume (SearchedUnder account) (service_bind d l mid).0 _ bound again.1 (λ _.
            after_resume (SearchedUnder account) (lookup_groups d l user bound).0 _
              (lookup_groups d l user bound).1 grouped (λ groups. grouped)))

  session-Searches : (request : IdentityRequest) → SearchedUnder account (session d l request []).1
  unfolding session
  session-Searches request =
      let first = service_bind-IsBound [] tt in
      let bound = (service_bind d l []).1 in
      let asked = lookup_user-Stays request.login bound first in
      after_resume (SearchedUnder account) (service_bind d l []).0 _ bound first.1 (λ _.
        after_resume (SearchedUnder account) (lookup_user d l request.login bound).0 _
          (lookup_user d l request.login bound).1 asked.1
          (λ user. ask_user-Searches request.password user _ asked))

  -- Whatever the directory answers, no search of an authentication is made under the bind of the
  -- user whose password is checked: each is made under the bind of the service account.
  pub authenticate-SearchedUnder :
      (request : IdentityRequest)
      → SearchedUnder (service_call l.config.bind_dn l.config.bind_pw) (authenticate d l request).1
  unfolding authenticate
  authenticate-SearchedUnder request =
      let searched = session-Searches request in
      after_resume (SearchedUnder account) (connect d l) _ [] tt (λ _.
        after_resume (SearchedUnder account) (session d l request []).0 _ (session d l request []).1
          searched (λ found. searched))
