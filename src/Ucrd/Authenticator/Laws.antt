-- ===== src/Ucrd/Authenticator/Laws.antt =====
-- What cmd/ucrd/authenticator/crdAuthenticator.go answers.
use kubauth.Base.{
  ◌≡◌, ◌≢◌, refl, sym, ◌∙◌, ap, ◌↔◌, inl, inr, String, true, false, Option, none, some, List, [],
  ◌∷◌, ◌++◌, arith, eq_iff, All,
}
use mathlib.Core.List.{append_assoc, append-nil}
use kubauth.Base.TextSort.{sort_texts}
use kubauth.Misc.Claims.{Value, Claims, no_claims, get}
use kubauth.Misc.Claims.Merge.{UniqueKeys, merged, get-merge_maps}
use kubauth.Misc.Slices.{bool_ptr_false}
use kubauth.Proto.{
  Result, ok, err, ◌>>=◌, password_checked, IdentityRequest, IdentityResponse, Result-cases,
  ok-injective, bind_inv,
}
use kubauth.Ucrd.Authenticator.{
  merge, assigned, group_claims, add_groups, status_of, respond, list_failed, authenticate, Fetch,
  UserSpec, Cluster, found, absent, failed,
}

-- Is the outcome of a `Get` no error but the absence?
abbrev pub Answered : {A : Type 0} → Fetch A → Type 0
Answered (failed e) = ⊥
Answered _ = Unit

module _ (cluster : Cluster) where
  -- The password of a found user is checked.
  abbrev pub Proves : String → Fetch UserSpec → Type 0
  Proves password (found usr) =
      (bool_ptr_false usr.is_disabled ≡ false)
      × (usr.password_hash ≢ "")
      × (password ≢ "")
      × (cluster.compare_hash usr.password_hash password ≡ true)
  Proves password absent = ⊥
  Proves password (failed e) = ⊥

  status_of_iff :
      (usr : UserSpec) (password : String)
      → (status_of cluster usr password ≡ password_checked) ↔ Proves password (found usr)
  unfolding status_of
  status_of_iff usr password = ground (arith, eq_iff usr.password_hash "", eq_iff password "")

  respond_iff :
      (request : IdentityRequest) (groups : List String) (base : Claims) (u : Fetch UserSpec)
      (r : IdentityResponse)
      → respond cluster request groups base u ≡ ok r
      → (r.status ≡ password_checked) ↔ Proves request.password u
  unfolding respond
  respond_iff request groups base (failed e) r h = ground arith
  respond_iff request groups base absent r h = ground (arith, ap (λ x. x.status) (ok-injective h))
  respond_iff request groups base (found usr) r h =
      rw (sym (ap (λ x. x.status) (ok-injective h))) (status_of_iff usr request.password)

  -- The value at a key after a text of claims is laid over what stood there; a text that does not
  -- decode leaves no claim at all.
  abbrev over : Option Value → String → Result Claims → Option Value
  over old k (ok b) = merged old (get k b)
  over old k (err e) = none

  abbrev said : Option Value → String → Option String → Option Value
  said old k none = old
  said old k (some raw) = over old k (cluster.unmarshal raw)

  abbrev said_by_group : Option Value → String → Fetch (Option String) → Option Value
  said_by_group old k (found json) = said old k json
  said_by_group old k _ = old

  abbrev pub said_by_groups : Option Value → String → List String → Option Value
  said_by_groups old k [] = old
  said_by_groups old k (g ∷ gs) = said_by_groups (said_by_group old k (cluster.get_group g)) k gs

  abbrev pub said_by_user : Option Value → String → Fetch UserSpec → Option Value
  said_by_user old k (found usr) = said old k usr.claims
  said_by_user old k _ = old

  group_claims-answers :
      (old : Claims) (g : String) (o : Fetch (Option String))
      → Answered o
      → (more : Claims) × (group_claims cluster old g o ≡ ok more)
  unfolding group_claims
  group_claims-answers old g (found json) a = (_, refl)
  group_claims-answers old g absent a = (_, refl)
  group_claims-answers old g (failed e) a = elim a [ ]

  add_groups-answers :
      (gs seen : List String) (old : Claims)
      → All (λ g. Answered (cluster.get_group g)) gs
      → (out : List String × Claims) × (add_groups cluster gs seen old ≡ ok out)
  unfolding add_groups group_claims
  add_groups-answers [] seen old a = ((seen, old), refl)
  add_groups-answers (g ∷ gs) seen old a =
      let next = group_claims-answers old g (cluster.get_group g) a.0 in
      let rest = add_groups-answers gs (seen ++ g ∷ []) next.0 a.1 in
      (rest.0, ap (λ m. m >>= λ more. add_groups cluster gs (seen ++ g ∷ []) more) next.1 ∙ rest.1)

  respond-answers :
      (request : IdentityRequest) (groups : List String) (base : Claims) (u : Fetch UserSpec)
      → Answered u
      → (r : IdentityResponse) × (respond cluster request groups base u ≡ ok r)
  unfolding respond
  respond-answers request groups base (found usr) a = (_, refl)
  respond-answers request groups base absent a = (_, refl)
  respond-answers request groups base (failed e) a = elim a [ ]

  -- The provider answers whenever the cluster does: the bindings are listed, and neither the fetch
  -- of one of their groups nor that of the user fails with another error than absence. A missing
  -- group, a missing user and claims that do not decode are no errors.
  pub authenticate_answers :
      (request : IdentityRequest) (bound : List String)
      → cluster.list_bindings request.login ≡ ok bound
      → All (λ g. Answered (cluster.get_group g)) (sort_texts bound)
      → Answered (cluster.get_user request.login)
      → (r : IdentityResponse) × (authenticate cluster request ≡ ok r)
  unfolding authenticate list_failed
  authenticate_answers request bound l a u =
      let known = add_groups-answers (sort_texts bound) [] no_claims a in
      let answer = respond-answers request known.0.0 known.0.1 (cluster.get_user request.login) u in
      (answer.0, rw (l, list_failed, known.1) answer.1)

  module _
      (unique : (raw : String) (c : Claims) → cluster.unmarshal raw ≡ ok c → UniqueKeys c) where
    get-merge :
        (old : Claims) (json : Option String) (k : String)
        → get k (assigned (merge cluster old json)) ≡ said (get k old) k json
    unfolding merge assigned
    get-merge old none k = refl
    get-merge old (some raw) k = elim (Result-cases (cluster.unmarshal raw)) [
      | inl (c, h) ↦ rw h (get-merge_maps k old c (unique raw c h))
      | inr (e, h) ↦ rw h (unfold get in refl)
    ]

    get-group_claims :
        (old more : Claims) (g k : String) (o : Fetch (Option String))
        → group_claims cluster old g o ≡ ok more
        → get k more ≡ said_by_group (get k old) k o
    unfolding group_claims
    get-group_claims old more g k (found json) h =
        ap (get k) (sym (ok-injective h)) ∙ get-merge old json k
    get-group_claims old more g k absent h = ap (get k) (sym (ok-injective h))
    get-group_claims old more g k (failed e) h = cc

    -- The loop over the groups.
    add_groups_lem :
        (gs seen : List String) (old : Claims) (out : List String × Claims)
        → add_groups cluster gs seen old ≡ ok out
        → (out.0 ≡ seen ++ gs) × ((k : String) → get k out.1 ≡ said_by_groups (get k old) k gs)
    unfolding add_groups
    add_groups_lem [] seen old out h = (
      ap (λ x. x.0) (sym (ok-injective h)) ∙ sym (append-nil seen),
      λ k. ap (λ x. get k x.1) (sym (ok-injective h)),
    )
    add_groups_lem (g ∷ gs) seen old out h =
        let next =
          bind_inv (group_claims cluster old g (cluster.get_group g))
            (λ more. add_groups cluster gs (seen ++ g ∷ []) more) out h in
        let rest = add_groups_lem gs (seen ++ g ∷ []) next.0 out next.2 in
        (
          rest.0 ∙ append_assoc seen (g ∷ []) gs,
          λ k.
              rest.1 k
              ∙ ap (λ v. said_by_groups v k gs)
                  (get-group_claims old next.0 g k (cluster.get_group g) next.1),
        )

    respond_lem :
        (request : IdentityRequest) (groups : List String) (base : Claims) (u : Fetch UserSpec)
        (r : IdentityResponse)
        → respond cluster request groups base u ≡ ok r
        → (r.user.login ≡ request.login)
          × (r.user.groups ≡ groups)
          × ((k : String) → get k r.user.claims ≡ said_by_user (get k base) k u)
    unfolding respond
    respond_lem request groups base (failed e) r h = cc
    respond_lem request groups base absent r h =
        let e = sym (ok-injective h) in
        (ap (λ x. x.user.login) e, ap (λ x. x.user.groups) e, λ k. ap (λ x. get k x.user.claims) e)
    respond_lem request groups base (found usr) r h =
        let e = sym (ok-injective h) in
        (
          ap (λ x. x.user.login) e,
          ap (λ x. x.user.groups) e,
          λ k. ap (λ x. get k x.user.claims) e ∙ get-merge base usr.claims k,
        )

    list_failed_ok :
        (login : String) (o : Result (List String)) (gs : List String)
        → list_failed login o ≡ ok gs
        → o ≡ ok gs
    unfolding list_failed
    list_failed_ok login (ok x) gs h = h
    list_failed_ok login (err e) gs h = cc

    -- The answer of the provider of Kubernetes users. Whenever it answers, whether the user exists
    -- or not, the user has the login of the request and the groups of its bindings in ascending
    -- order; at each key its claims hold the claims of these groups, laid over one another in this
    -- order, and on top those of the user, where a text of claims that does not decode wipes out
    -- what lies below. The status says that the password is checked exactly when the user exists, is not
    -- disabled, has a hash, and the request has a password that the hash fits.
    pub authenticate_answer :
        (request : IdentityRequest) (r : IdentityResponse)
        → authenticate cluster request ≡ ok r
        → (r.user.login ≡ request.login)
          × ((r.status ≡ password_checked)
              ↔ Proves request.password (cluster.get_user request.login))
          × ((bound : List String) × (cluster.list_bindings request.login ≡ ok bound)
              × (r.user.groups ≡ sort_texts bound)
              × ((k : String)
                  → get k r.user.claims
                    ≡ said_by_user
                        (said_by_groups none k (sort_texts bound))
                        k
                        (cluster.get_user request.login)))
    unfolding authenticate
    authenticate_answer request r h =
        let listing = list_failed request.login (cluster.list_bindings request.login) in
        let a = bind_inv listing _ r h in
        let b = bind_inv (add_groups cluster (sort_texts a.0) [] no_claims) _ r a.2 in
        let u = cluster.get_user request.login in
        let said = respond_lem request b.0.0 b.0.1 u r b.2 in
        let known = add_groups_lem (sort_texts a.0) [] no_claims b.0 b.1 in
        (
          said.0,
          respond_iff request b.0.0 b.0.1 u r b.2,
          (
            a.0,
            list_failed_ok request.login (cluster.list_bindings request.login) a.0 a.1,
            said.1 ∙ known.0,
            λ k. said.2 k ∙ ap (λ v. said_by_user v k u) (unfold get in known.1 k),
          ),
        )
