-- ===== src/Merger/Authenticator/Decision.antt =====
-- Who decides the status of a login in cmd/merger/authenticator/authenticator.go.
use mathlib.Core.List.{append_assoc, append-nil}
use kubauth.Base.{
  ℕ, ◌≤◌, ◌<◌, ◌≡◌, ◌⊎◌, refl, sym, ap, ◌∙◌, inl, inr, String, true, none, List, [], ◌∷◌, ◌++◌,
  arith, ltb, if◌then◌else◌, All, All-append, All-mono,
}
use kubauth.Proto.{
  user_not_found, password_missing, IdentityRequest, IdentityResponse, UserDetail, Result, ok, err,
  ◌>>=◌, Result-cases, bind-ok,
}
use kubauth.Merger.Provider.{Provider}
use kubauth.Merger.Authenticator.{
  priority, merge_credentials, merge_detail, merge_groups, merge_emails, merge_name, merge_claims,
  ask_all, blank, sort_groups, authenticate,
}

-- The name of a provider and its answer.
abbrev pub Answer : Type 0
Answer = String × UserDetail

-- The answers of the providers in their order, or the first error.
unfoldable pub answers : List Provider → IdentityRequest → Result (List Answer)
answers [] request = ok []
answers (p ∷ ps) request = elim (p.get_user_detail request.login request.password) [
  | err e ↦ err e
  | ok d ↦ (do rest ← answers ps request; ok ((p.get_name, d) ∷ rest))
]

unfoldable pub merge_all : List Answer → IdentityResponse → IdentityResponse
merge_all [] r = r
merge_all ((name, d) ∷ ds) r = merge_all ds (merge_detail name d r)

ask_all-eq :
    (ps : List Provider) (request : IdentityRequest) (r : IdentityResponse)
    → ask_all ps request r ≡ (answers ps request >>= λ ds. ok (merge_all ds r))
unfolding ask_all answers merge_all
ask_all-eq [] request r = refl
ask_all-eq (p ∷ ps) request r =
    elim (Result-cases (p.get_user_detail request.login request.password)) [
      | inr (e, h) ↦ rw h
      | inl (d, h) ↦ rw h (
          ask_all-eq ps request (merge_detail p.get_name d r)
          ∙ sym (
              bind-ok (answers ps request) (λ rest. (p.get_name, d) ∷ rest)
                (λ ds. ok (merge_all ds r))))
    ]

-- A login is refused with the first error of a provider; without one the answers are merged in the
-- order of the providers, and the groups sorted.
pub authenticate-eq-merge_all :
    (ps : List Provider) (request : IdentityRequest)
    → authenticate ps request
      ≡ (answers ps request >>= λ ds. ok (sort_groups (merge_all ds (blank request.login))))
unfolding authenticate
authenticate-eq-merge_all ps request = ground (arith, ask_all-eq ps request (blank request.login))

-- The say of an answer: the priority of its status, if the provider decides on credentials.
unfoldable pub weight : Answer → ℕ
weight (name, d) = if d.provider.credential_authority then priority d.status else 0

-- The status, the uid and the authority of a response, as one answer decides them.
pub data Decides (ds : List Answer) (r : IdentityResponse) : Type 0 where
  undecided :
      All (λ a. weight a ≤ 1) ds
      → r.status ≡ user_not_found
      → r.user.uid ≡ none
      → r.authority ≡ ""
      → Decides ds r
  decided :
      (before : List Answer) (name : String) (d : UserDetail) (after : List Answer)
      → ds ≡ before ++ (name, d) ∷ after
      → d.provider.credential_authority ≡ true
      → 1 < priority d.status
      → All (λ a. weight a < priority d.status) before
      → All (λ a. weight a ≤ priority d.status) after
      → r.status ≡ d.status
      → r.user.uid ≡ (if ltb 2 (priority d.status) then d.translated.uid else none)
      → r.authority ≡ (if ltb 2 (priority d.status) then name else "")
      → Decides ds r

uid-merge_detail :
    (name : String) (d : UserDetail) (r : IdentityResponse)
    → (merge_detail name d r).user.uid ≡ (merge_credentials name d r).user.uid
unfolding merge_detail merge_groups merge_emails merge_name merge_claims
uid-merge_detail name d r = ground arith

status-merge_detail :
    (name : String) (d : UserDetail) (r : IdentityResponse)
    → ((merge_detail name d r).status ≡ (merge_credentials name d r).status)
      × ((merge_detail name d r).authority ≡ (merge_credentials name d r).authority)
unfolding merge_detail
status-merge_detail name d r = (refl, refl)

priority-password_missing : priority password_missing ≡ 2
unfolding priority
priority-password_missing = refl

priority-user_not_found : priority user_not_found ≡ 1
unfolding priority
priority-user_not_found = refl

-- An answer of more weight than the status decides anew; any other leaves things as they are.
merge_credentials_cases :
    (name : String) (d : UserDetail) (r : IdentityResponse)
    → ((weight (name, d) ≤ priority r.status) × (merge_credentials name d r ≡ r))
      ⊎ ((priority r.status < priority d.status)
          × (d.provider.credential_authority ≡ true)
          × ((merge_credentials name d r).status ≡ d.status)
          × ((merge_credentials name d r).user.uid
              ≡ (if ltb 2 (priority d.status) then d.translated.uid else r.user.uid))
          × ((merge_credentials name d r).authority
              ≡ (if ltb 2 (priority d.status) then name else r.authority)))
unfolding merge_credentials weight
merge_credentials_cases name d r = ground (arith, priority-password_missing)

merge_detail_kept :
    (name : String) (d : UserDetail) (r : IdentityResponse)
    → merge_credentials name d r ≡ r
    → ((merge_detail name d r).status ≡ r.status)
      × ((merge_detail name d r).user.uid ≡ r.user.uid)
      × ((merge_detail name d r).authority ≡ r.authority)
merge_detail_kept name d r same =
    let (s, a) = status-merge_detail name d r in
    (
      s ∙ ap (λ (q : IdentityResponse). q.status) same,
      uid-merge_detail name d r ∙ ap (λ (q : IdentityResponse). q.user.uid) same,
      a ∙ ap (λ (q : IdentityResponse). q.authority) same,
    )

light_step :
    (ds : List Answer) (name : String) (d : UserDetail) (r : IdentityResponse)
    → weight (name, d) ≤ priority r.status
    → merge_credentials name d r ≡ r
    → Decides ds r
    → Decides (ds ++ (name, d) ∷ []) (merge_detail name d r)
light_step ds name d r light same (undecided h s u a) =
    let (s', u', a') = merge_detail_kept name d r same in
    undecided
      (All-append (λ x. weight x ≤ 1) ds ((name, d) ∷ []) h
        (omega (arith, ap priority s, priority-user_not_found), tt))
      (s' ∙ s) (u' ∙ u) (a' ∙ a)
light_step ds name d r light same (decided before n e after eq c p b h s u a) =
    let (s', u', a') = merge_detail_kept name d r same in
    decided before n e (after ++ (name, d) ∷ [])
      (ap (λ (l : List Answer). l ++ (name, d) ∷ []) eq
        ∙ append_assoc before ((n, e) ∷ after) ((name, d) ∷ []))
      c p b
      (All-append (λ x. weight x ≤ priority e.status) after ((name, d) ∷ []) h
        (omega (arith, ap priority s), tt))
      (s' ∙ s) (u' ∙ u) (a' ∙ a)

weight-le : (name : String) (d : UserDetail) → weight (name, d) ≤ priority d.status
unfolding weight
weight-le name d = ground arith

-- No answer so far has more weight than the status.
below_status :
    (ds : List Answer) (r : IdentityResponse)
    → Decides ds r
    → All (λ a. weight a ≤ priority r.status) ds
below_status ds r (undecided h s u a) = rw (s, priority-user_not_found) h
below_status ds r (decided before n e after eq c p b h s u a) =
    rw (s, eq)
      (All-append (λ x. weight x ≤ priority e.status) before ((n, e) ∷ after)
        (All-mono (λ x. weight x < priority e.status) before (λ x k. omega arith) b)
        (weight-le n e, h))

not_named :
    (ds : List Answer) (r : IdentityResponse)
    → Decides ds r
    → priority r.status ≤ 1
    → (r.user.uid ≡ none) × (r.authority ≡ "")
not_named ds r (undecided h s u a) k = (u, a)
not_named ds r (decided before n e after eq c p b h s u a) k = absurd (omega (arith, ap priority s))

heavy_step :
    (ds : List Answer) (name : String) (d : UserDetail) (r : IdentityResponse)
    → priority r.status < priority d.status
    → d.provider.credential_authority ≡ true
    → (merge_credentials name d r).status ≡ d.status
    → (merge_credentials name d r).user.uid
      ≡ (if ltb 2 (priority d.status) then d.translated.uid else r.user.uid)
    → (merge_credentials name d r).authority
      ≡ (if ltb 2 (priority d.status) then name else r.authority)
    → 1 < priority d.status
    → Decides ds r
    → Decides (ds ++ (name, d) ∷ []) (merge_detail name d r)
heavy_step ds name d r heavy c s u a p v =
    let (s', a') = status-merge_detail name d r in
    decided ds name d [] refl c p
      (All-mono (λ x. weight x ≤ priority r.status) ds (λ x k. omega arith) (below_status ds r v))
      tt (s' ∙ s) (uid-merge_detail name d r ∙ u ∙ ground (arith, not_named ds r v))
      (a' ∙ a ∙ ground (arith, not_named ds r v))

-- The priority of the status of a response is 1 at least.
status_pos : (ds : List Answer) (r : IdentityResponse) → Decides ds r → 1 ≤ priority r.status
status_pos ds r (undecided h s u a) = omega (arith, ap priority s, priority-user_not_found)
status_pos ds r (decided before n e after eq c p b h s u a) = omega (arith, ap priority s)

Decides-step :
    (ds : List Answer) (name : String) (d : UserDetail) (r : IdentityResponse)
    → Decides ds r
    → Decides (ds ++ (name, d) ∷ []) (merge_detail name d r)
Decides-step ds name d r v = elim (merge_credentials_cases name d r) [
  | inl (light, same) ↦ light_step ds name d r light same v
  | inr (heavy, c, s, u, a) ↦
      heavy_step ds name d r heavy c s u a (omega (arith, status_pos ds r v)) v
]

Decides-merge_all :
    (ds seen : List Answer) (r : IdentityResponse)
    → Decides seen r
    → Decides (seen ++ ds) (merge_all ds r)
unfolding merge_all
Decides-merge_all [] seen r v = rw (append-nil seen) v
Decides-merge_all ((name, d) ∷ ds) seen r v = rw (← append_assoc seen ((name, d) ∷ []) ds) (
    Decides-merge_all ds (seen ++ (name, d) ∷ []) (merge_detail name d r)
      (Decides-step seen name d r v))

Decides-sort_groups :
    (ds : List Answer) (r : IdentityResponse) → Decides ds r → Decides ds (sort_groups r)
unfolding sort_groups
Decides-sort_groups ds r (undecided h s u a) = undecided h s u a
Decides-sort_groups ds r (decided before n e after eq c p b h s u a) =
    decided before n e after eq c p b h s u a

-- If no provider fails, then either no provider for credentials gives a status above
-- `userNotFound`, and the response has that status, no uid and no authority; or the status is that
-- of the first answer with the highest priority among the providers for credentials, and the uid and
-- the authority are that provider's if the priority is above `passwordMissing`, and else absent.
pub authenticate-Decides :
    (ps : List Provider) (request : IdentityRequest) (ds : List Answer)
    → answers ps request ≡ ok ds
    → (r : IdentityResponse) × (authenticate ps request ≡ ok r) × Decides ds r
authenticate-Decides ps request ds h = (
  sort_groups (merge_all ds (blank request.login)),
  authenticate-eq-merge_all ps request ∙ rw h,
  Decides-sort_groups ds _
      (Decides-merge_all ds [] (blank request.login) (undecided tt refl refl refl)),
)
