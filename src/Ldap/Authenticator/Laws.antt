-- ===== src/Ldap/Authenticator/Laws.antt =====
-- What an answer of cmd/ldap/authenticator/authenticate.go stands for.
use kubauth.Base.{
  ◌≡◌, ◌≢◌, ◌⊎◌, refl, inl, inr, String, Option, none, some, List, [], ◌∷◌, ◌==◌, ℕ, eqb, arith,
  eq_iff, Bool-cases,
}
use kubauth.Proto.{
  Result, ok, err, Status, user_not_found, password_checked, password_fail, password_unchecked,
  IdentityRequest, IdentityResponse,
}
use kubauth.Ldap.Config.{LdapAuthenticator}
use kubauth.Ldap.Directory.{
  Call, bind, search, LdapError, ldap_error, other_error, Entry, Directory, Conn, resume, get_attrs,
}
use kubauth.Ldap.Authenticator.{
  service_call, bind_failure, judged, bound_or_fail, found_or_fail, service_bind, search_or_fail,
  the_entry, lookup_user, user_request, check_password, lookup_groups, status_of, ask_user, session,
  connect, respond, uid_of, authenticate, invalid_credentials, constraint_violation,
}

resume_inv :
    {A B : Type 0} (r : Result A) (f : A → Conn B) (calls : List Call) (b : B)
    → (resume r f calls).0 ≡ ok b
    → (a : A) × (r ≡ ok a) × ((f a calls).0 ≡ ok b)
resume_inv (ok a) f calls b h = (a, refl, h)
resume_inv (err e) f calls b h = cc

module _ (d : Directory) (l : LdapAuthenticator) where
  abbrev pub account : Call
  account = service_call l.config.bind_dn l.config.bind_pw

  -- The calls that were made when the user is known.
  abbrev pub known : String → List Call
  known login = search (user_request d l login) ∷ account ∷ []

  -- What the directory says of a password at a bind, and the status for it.
  pub data Judged (user : Entry) (request : IdentityRequest) : Status → Type 0 where
    unchecked : request.password ≡ "" → Judged user request password_unchecked
    checked :
        request.password ≢ ""
        → d.answer_bind (known request.login) (bind user.dn request.password) ≡ none
        → Judged user request password_checked
    refused :
        (code : ℕ) (text : String)
        → request.password ≢ ""
        → d.answer_bind (known request.login) (bind user.dn request.password)
          ≡ some (ldap_error code text)
        → (code ≡ invalid_credentials) ⊎ (code ≡ constraint_violation)
        → Judged user request password_fail

  refusal_inv :
      (dn : String) (code : ℕ) (text : String) (status : Status) (calls : List Call)
      → (bind_failure dn (ldap_error code text) calls).0 ≡ ok status
      → (status ≡ password_fail) × ((code ≡ invalid_credentials) ⊎ (code ≡ constraint_violation))
  unfolding bind_failure
  refusal_inv dn code text status calls h = elim (Bool-cases (eqb code invalid_credentials)) [
    | inl e ↦ (ground (arith, e, h), inl (ground (arith, e)))
    | inr e ↦ (ground (arith, e, h), inr (ground (arith, e, h)))
  ]

  judged_inv :
      (user : Entry) (request : IdentityRequest) (o : Option LdapError) (status : Status)
      (calls : List Call)
      → request.password ≢ ""
      → d.answer_bind (known request.login) (bind user.dn request.password) ≡ o
      → (judged user.dn o calls).0 ≡ ok status
      → Judged user request status
  unfolding judged bind_failure
  judged_inv user request none status calls ne e h =
      let done : status ≡ password_checked = cc in rw done (checked ne e)
  judged_inv user request (some (other_error text)) status calls ne e h = cc
  judged_inv user request (some (ldap_error code text)) status calls ne e h =
      let failed = refusal_inv user.dn code text status calls h in
      rw failed.0 (refused code text ne e failed.1)

  status_of-Judged :
      (user : Entry) (request : IdentityRequest) (status : Status)
      → (status_of d l user request.password (known request.login)).0 ≡ ok status
      → Judged user request status
  unfolding status_of check_password
  status_of-Judged user request status h = elim (Bool-cases (request.password == "")) [
    | inl e ↦
        let done : status ≡ password_unchecked = ground (arith, e, h) in
        rw done (unchecked ((eq_iff request.password "").0 e))
    | inr e ↦
        judged_inv user request
          (d.answer_bind (known request.login) (bind user.dn request.password)) status
          (bind user.dn request.password ∷ known request.login)
          (λ empty. ground (arith, eq_iff request.password "", e, empty)) refl (rw e at h)
  ]

  service_bind_inv :
      (calls : List Call)
      → (service_bind d l calls).0 ≡ ok tt
      → ((service_bind d l calls).1 ≡ account ∷ calls) × (d.answer_bind calls account ≡ none)
  unfolding service_bind bound_or_fail
  service_bind_inv calls h = bound_inv (d.answer_bind calls account) h
    where
      bound_inv :
          (o : Option LdapError)
          → (bound_or_fail l.config.bind_dn o (account ∷ calls)).0 ≡ ok tt
          → ((bound_or_fail l.config.bind_dn o (account ∷ calls)).1 ≡ account ∷ calls) × (o ≡ none)
      bound_inv none e = (refl, refl)
      bound_inv (some x) e = cc

  -- The search of the user gave this.
  abbrev pub Found : String → Option Entry → Type 0
  Found login none = d.answer_search (account ∷ []) (user_request d l login) ≡ ok []
  Found login (some user) = d.answer_search (account ∷ []) (user_request d l login) ≡ ok (user ∷ [])

  the_entry_inv :
      (login : String) (found : List Entry) (o : Option Entry) (calls : List Call)
      → d.answer_search (account ∷ []) (user_request d l login) ≡ ok found
      → (the_entry d l found calls).0 ≡ ok o
      → Found login o
  unfolding the_entry
  the_entry_inv login [] none calls e h = e
  the_entry_inv login [] (some user) calls e h = cc
  the_entry_inv login (x ∷ []) none calls e h = cc
  the_entry_inv login (x ∷ []) (some user) calls e h = cc
  the_entry_inv login (x ∷ y ∷ rest) o calls e h = cc

  entry_inv :
      (login : String) (r : Result (List Entry)) (o : Option Entry)
      → d.answer_search (account ∷ []) (user_request d l login) ≡ r
      → (resume
          (found_or_fail (user_request d l login) r (known login)).0
          (the_entry d l)
          (found_or_fail (user_request d l login) r (known login)).1).0
        ≡ ok o
      → Found login o
  unfolding found_or_fail
  entry_inv login (ok found) o e h = the_entry_inv login found o (known login) e h
  entry_inv login (err text) o e h = cc

  -- The calls behind the search of the user are the same in every case.
  lookup_user_calls : (login : String) → (lookup_user d l login (account ∷ [])).1 ≡ known login
  unfolding lookup_user search_or_fail found_or_fail the_entry
  lookup_user_calls login = kept (d.answer_search (account ∷ []) (user_request d l login))
    where
      entry_kept : (found : List Entry) (calls : List Call) → (the_entry d l found calls).1 ≡ calls
      entry_kept [] calls = refl
      entry_kept (x ∷ []) calls = refl
      entry_kept (x ∷ y ∷ rest) calls = refl

      kept :
          (r : Result (List Entry))
          → (resume
              (found_or_fail (user_request d l login) r (known login)).0
              (the_entry d l)
              (found_or_fail (user_request d l login) r (known login)).1).1
            ≡ known login
      kept (ok found) = entry_kept found (known login)
      kept (err text) = refl

  lookup_user_inv :
      (login : String) (o : Option Entry)
      → (lookup_user d l login (account ∷ [])).0 ≡ ok o
      → Found login o
  unfolding lookup_user search_or_fail
  lookup_user_inv login o h =
      entry_inv login (d.answer_search (account ∷ []) (user_request d l login)) o refl h

  -- An answer for a user: the entry is the only one that was found, the password was judged by a
  -- bind with its name, and the rest is read from its attributes.
  pub record AnswersFor (user : Entry) (request : IdentityRequest) (r : IdentityResponse)
      : Type 0 where
    pub only : d.answer_search (account ∷ []) (user_request d l request.login) ≡ ok (user ∷ [])
    pub judged : Judged user request r.status
    pub login : r.user.login ≡ request.login
    pub uid : r.user.uid ≡ uid_of d l user
    pub emails : r.user.emails ≡ get_attrs user l.config.user_search.email_attr

  -- What the session gives after the search of the user.
  abbrev Asked : IdentityRequest → Option (Entry × Status × List String) → Type 0
  Asked request found =
      ((Found request.login none) × (found ≡ none))
      ⊎ ((user : Entry) × (status : Status) × (groups : List String) × (Found request.login
            (some user))
          × Judged user request status
          × (found ≡ some (user, status, groups)))

  ask_user_inv :
      (request : IdentityRequest) (o : Option Entry) (found : Option (Entry × Status × List String))
      → Found request.login o
      → (ask_user d l request.password o (known request.login)).0 ≡ ok found
      → Asked request found
  unfolding ask_user
  ask_user_inv request none found f h = inl (f, cc)
  ask_user_inv request (some user) found f h =
      let (status, e1, h1) =
        resume_inv (status_of d l user request.password (known request.login)).0 _ _ found h in
      let (_, e2, h2) = resume_inv (service_bind d l _).0 _ _ found h1 in
      let (groups, e3, h3) = resume_inv (lookup_groups d l user _).0 _ _ found h2 in
      inr (user, status, groups, f, status_of-Judged user request status e1, cc)

  session_inv :
      (request : IdentityRequest) (found : Option (Entry × Status × List String))
      → (session d l request []).0 ≡ ok found
      → (o : Option Entry) × (Found request.login o)
        × ((ask_user d l request.password o (known request.login)).0 ≡ ok found)
        × (d.answer_bind [] account ≡ none)
  unfolding session
  session_inv request found h =
      let (_, e1, h1) = resume_inv (service_bind d l []).0 _ _ found h in
      let accepted = service_bind_inv [] e1 in
      let h1' = rw accepted.0 at h1 in
      let (o, e2, h2) = resume_inv (lookup_user d l request.login (account ∷ [])).0 _ _ found h1' in
      (
        o,
        lookup_user_inv request.login o e2,
        rw (lookup_user_calls request.login) at h2,
        accepted.1,
      )

  Asked-answer :
      (request : IdentityRequest) (found : Option (Entry × Status × List String))
      (r : IdentityResponse)
      → Asked request found
      → respond d l request found ≡ r
      → (Found request.login none × (r.status ≡ user_not_found))
        ⊎ ((user : Entry) × AnswersFor user request r)
  unfolding respond
  Asked-answer request found r (inl (f, e)) h = inl (f, rw (← h, e) refl)
  Asked-answer request found r (inr (user, status, groups, f, j, e)) h =
      inr (
        user,
        rw (← h, e) (record { only = f; judged = j; login = refl; uid = refl; emails = refl }),
      )

  -- An answer of the LDAP provider means that the service account was let in, and that the search
  -- for the login found nothing, and then the status is `userNotFound`, or exactly one entry. The
  -- answer is then for that entry, and its status is `passwordChecked` if a password was given and
  -- the directory accepted a bind with it and the name of the entry, `passwordFail` if the
  -- directory refused it for its credentials or a constraint, and `passwordUnchecked` if none was
  -- given.
  pub authenticate_lem :
      (request : IdentityRequest) (r : IdentityResponse)
      → (authenticate d l request).0 ≡ ok r
      → (d.answer_bind [] account ≡ none)
        × ((Found request.login none × (r.status ≡ user_not_found))
            ⊎ ((user : Entry) × AnswersFor user request r))
  unfolding authenticate
  authenticate_lem request r h =
      let (_, e1, h1) = resume_inv (connect d l) _ _ r h in
      let (found, e2, h2) = resume_inv (session d l request []).0 _ _ r h1 in
      let (o, e3, h3, bound) = session_inv request found e2 in
      (bound, Asked-answer request found r (ask_user_inv request o found e3 h3) (cc))
