-- ===== src/Merger/Authenticator/Content.antt =====
-- What the user of a merged response consists of, in cmd/merger/authenticator/authenticator.go.
use mathlib.Core.List.{append_assoc, append-nil}
use kubauth.Base.{
  ◌≡◌, refl, sym, ap, ◌∙◌, inl, inr, String, Bool, true, false, not, ◌&&◌, ◌||◌, Option, none, some,
  List, [], ◌∷◌, ◌++◌, arith, ◌==◌, if◌then◌else◌, Bool-cases, All, map, contains, Distinct,
  contains-append, eq_refl, eq_iff,
}
use kubauth.Misc.Slices.{append_if_not_present, dedup_and_sort}
use kubauth.Misc.Slices.Laws.{append_if_not_present_lem}
use kubauth.Misc.Claims.{Value, str, get, merge_maps, merge_value}
use kubauth.Misc.Claims.Merge.{UniqueKeys, merged, get-merge_maps, merge_maps-UniqueKeys}
use kubauth.Proto.{IdentityRequest, IdentityResponse, UserDetail, ok}
use kubauth.Merger.Provider.{Provider}
use kubauth.Merger.Authenticator.{
  merge_credentials, merge_groups, merge_emails, merge_name, merge_claims, merge_detail, blank,
  sort_groups, authenticate,
}
use kubauth.Merger.Authenticator.Decision.{Answer, answers, merge_all, authenticate-eq-merge_all}

-- The groups of the authorities for groups, in a row.
abbrev pub groups_of : List Answer → List String
groups_of [] = []
groups_of ((_, d) ∷ ds) =
    if d.provider.group_authority then d.translated.groups ++ groups_of ds else groups_of ds

-- The first name that is not empty among the authorities for names.
abbrev pub first_name : List Answer → String
first_name [] = ""
first_name ((_, d) ∷ ds) =
    if d.provider.name_authority && not (d.user.name == "") then d.user.name else first_name ds

-- Does an authority for emails give this one?
abbrev pub has_email : List Answer → String → Bool
has_email [] e = false
has_email ((_, d) ∷ ds) e =
    (d.provider.email_authority && contains d.user.emails e) || has_email ds e

-- What stands at a key, merged from the last provider up to the first one.
abbrev pub claim_of : String → List Answer → Option Value → Option Value
claim_of k [] found = found
claim_of k ((_, d) ∷ ds) found =
    claim_of k ds
      (if d.provider.claim_authority then merged (get k d.translated.claims) found else found)

module _ (name : String) (d : UserDetail) (r : IdentityResponse) where
  user-merge_credentials :
      let u = (merge_credentials name d r).user in
      (u.login ≡ r.user.login)
      × (u.name ≡ r.user.name)
      × (u.emails ≡ r.user.emails)
      × (u.groups ≡ r.user.groups)
      × (u.claims ≡ r.user.claims)
      × ((merge_credentials name d r).details ≡ r.details)
  unfolding merge_credentials
  user-merge_credentials = ground arith

  user-merge_detail :
      let u = (merge_detail name d r).user in
      (u.login ≡ r.user.login)
      × (u.name
          ≡ (if d.provider.name_authority && (r.user.name == "") then d.user.name else r.user.name))
      × (u.emails ≡ (
          if d.provider.email_authority
          then append_if_not_present r.user.emails d.user.emails
          else r.user.emails))
      × (u.groups ≡ (
          if d.provider.group_authority
          then r.user.groups ++ d.translated.groups
          else r.user.groups))
      × (u.claims ≡ (
          if d.provider.claim_authority
          then merge_maps d.translated.claims r.user.claims
          else r.user.claims))
      × ((merge_detail name d r).details ≡ r.details ++ d ∷ [])
  unfolding merge_detail merge_groups merge_emails merge_name merge_claims
  user-merge_detail = ground (arith, user-merge_credentials)

groups-merge_all :
    (ds : List Answer) (r : IdentityResponse)
    → (merge_all ds r).user.groups ≡ r.user.groups ++ groups_of ds
unfolding merge_all
groups-merge_all [] r = sym (append-nil r.user.groups)
groups-merge_all ((name, d) ∷ ds) r = ground (
  arith,
  groups-merge_all ds (merge_detail name d r),
  user-merge_detail name d r,
  append_assoc r.user.groups d.translated.groups (groups_of ds),
)

details-merge_all :
    (ds : List Answer) (r : IdentityResponse)
    → ((merge_all ds r).details ≡ r.details ++ map (λ (_, d). d) ds)
      × ((merge_all ds r).user.login ≡ r.user.login)
unfolding merge_all
details-merge_all [] r = (sym (append-nil r.details), refl)
details-merge_all ((name, d) ∷ ds) r = ground (
  arith,
  details-merge_all ds (merge_detail name d r),
  user-merge_detail name d r,
  append_assoc r.details (d ∷ []) (map (λ (_, e). e) ds),
)

name-merge_all :
    (ds : List Answer) (r : IdentityResponse)
    → (merge_all ds r).user.name ≡ (if r.user.name == "" then first_name ds else r.user.name)
unfolding merge_all
name-merge_all [] r = ground (arith, eq_iff r.user.name "")
name-merge_all ((name, d) ∷ ds) r =
    ground (arith, name-merge_all ds (merge_detail name d r), user-merge_detail name d r)

append-Distinct :
    (xs ys : List String)
    → Distinct xs
    → Distinct ys
    → ((s : String) → contains xs s ≡ true → contains ys s ≡ false)
    → Distinct (xs ++ ys)
append-Distinct [] ys h k f = k
append-Distinct (x ∷ xs) ys h k f = (
  ground (arith, contains-append xs ys x, f x, eq_refl x),
  append-Distinct xs ys h.1 k (λ s e. f s (ground arith)),
)

emails-merge_all :
    (ds : List Answer) (r : IdentityResponse) (e : String)
    → contains (merge_all ds r).user.emails e ≡ (contains r.user.emails e || has_email ds e)
unfolding merge_all
emails-merge_all [] r e = ground arith
emails-merge_all ((name, d) ∷ ds) r e = ground (
  arith,
  emails-merge_all ds (merge_detail name d r) e,
  user-merge_detail name d r,
  (append_if_not_present_lem r.user.emails d.user.emails).4 e,
)

emails-Distinct-step :
    (name : String) (d : UserDetail) (r : IdentityResponse)
    → Distinct r.user.emails
    → Distinct (merge_detail name d r).user.emails
emails-Distinct-step name d r h =
    let (added, e, k, f, _) = append_if_not_present_lem r.user.emails d.user.emails in
    let joined = append-Distinct r.user.emails added h k f in
    let (_, _, same, _, _, _) = user-merge_detail name d r in
    elim (Bool-cases d.provider.email_authority) [
      | inl on ↦ rw (same, on, e) joined
      | inr off ↦ rw (same, off) h
    ]

emails-Distinct :
    (ds : List Answer) (r : IdentityResponse)
    → Distinct r.user.emails
    → Distinct (merge_all ds r).user.emails
unfolding merge_all
emails-Distinct [] r h = h
emails-Distinct ((name, d) ∷ ds) r h =
    emails-Distinct ds (merge_detail name d r) (emails-Distinct-step name d r h)

-- Every provider answers with a Go map.
abbrev pub AreMaps : List Answer → Type 0
AreMaps = All (λ (_, d). UniqueKeys d.translated.claims)

claims-UniqueKeys-step :
    (name : String) (d : UserDetail) (r : IdentityResponse)
    → UniqueKeys d.translated.claims
    → UniqueKeys r.user.claims
    → UniqueKeys (merge_detail name d r).user.claims
claims-UniqueKeys-step name d r h k =
    let (_, _, _, _, same, _) = user-merge_detail name d r in
    let joined = merge_maps-UniqueKeys d.translated.claims r.user.claims h in
    elim (Bool-cases d.provider.claim_authority) [
      | inl on ↦ rw (same, on) joined
      | inr off ↦ rw (same, off) k
    ]

claims-merge_all :
    (ds : List Answer) (r : IdentityResponse) (k : String)
    → AreMaps ds
    → UniqueKeys r.user.claims
    → get k (merge_all ds r).user.claims ≡ claim_of k ds (get k r.user.claims)
unfolding merge_all
claims-merge_all [] r k h u = refl
claims-merge_all ((name, d) ∷ ds) r k h u =
    claims-merge_all ds (merge_detail name d r) k h.1 (claims-UniqueKeys-step name d r h.0 u)
    ∙ ap (claim_of k ds) (
        ground
          (arith, user-merge_detail name d r, get-merge_maps k d.translated.claims r.user.claims u))

-- The user that a login gets.
pub record Merged (login : String) (ds : List Answer) (r : IdentityResponse) : Type 0 where
  pub login_kept : r.user.login ≡ login
  pub each_detail : r.details ≡ map (λ (_, d). d) ds
  pub groups_sorted : r.user.groups ≡ dedup_and_sort (groups_of ds)
  pub name_first : r.user.name ≡ first_name ds
  pub emails_all : (e : String) → contains r.user.emails e ≡ has_email ds e
  pub emails_once : Distinct r.user.emails
  pub claims_merged : (k : String) → AreMaps ds → get k r.user.claims ≡ claim_of k ds none

-- If no provider fails, the response names the login, holds every answer in the order of the
-- providers, and its user is merged from the authorities: all the groups sorted and once each, all
-- emails once, the first name that is not empty, and the claims merged key by key, where the value of
-- an earlier provider goes over that of a later one.
pub authenticate-Merged :
    (ps : List Provider) (request : IdentityRequest) (ds : List Answer)
    → answers ps request ≡ ok ds
    → (r : IdentityResponse) × (authenticate ps request ≡ ok r) × Merged request.login ds r
authenticate-Merged ps request ds h =
    let r0 = blank request.login in
    let m = merge_all ds r0 in
    (
      sort_groups m,
      authenticate-eq-merge_all ps request ∙ rw h,
      unfold sort_groups get in
          record {
            login_kept = (details-merge_all ds r0).1;
            each_detail = (details-merge_all ds r0).0;
            groups_sorted = ap dedup_and_sort (groups-merge_all ds r0);
            name_first = name-merge_all ds r0;
            emails_all = emails-merge_all ds r0;
            emails_once = emails-Distinct ds r0 tt;
            claims_merged = λ k u. claims-merge_all ds r0 k u tt;
          },
    )

claim_of-str : (k v : String) (ds : List Answer) → claim_of k ds (some (str v)) ≡ some (str v)
unfolding merge_value
claim_of-str k v [] = refl
claim_of-str k v ((_, d) ∷ ds) = ground (arith, claim_of-str k v ds)

-- What a provider says of a claim.
abbrev pub said : String → Answer → Option Value
said k (_, d) = if d.provider.claim_authority then get k d.translated.claims else none

claim_of-first :
    (k v : String) (before : List Answer) (a : Answer) (after : List Answer)
    → All (λ b. said k b ≡ none) before
    → said k a ≡ some (str v)
    → claim_of k (before ++ a ∷ after) none ≡ some (str v)
unfolding merge_value
claim_of-first k v [] (n, d) after h e = ground (arith, claim_of-str k v after)
claim_of-first k v (b ∷ before) a after h e =
    ground (arith, claim_of-first k v before a after h.1 e)

-- Where the first provider that says something of a claim gives a text, the user has that text,
-- whatever the later providers say.
pub claim_first_wins :
    (ps : List Provider) (request : IdentityRequest) (before : List Answer) (a : Answer)
    (after : List Answer) (k v : String)
    → answers ps request ≡ ok (before ++ a ∷ after)
    → AreMaps (before ++ a ∷ after)
    → All (λ b. said k b ≡ none) before
    → said k a ≡ some (str v)
    → (r : IdentityResponse) × (authenticate ps request ≡ ok r)
      × (get k r.user.claims ≡ some (str v))
claim_first_wins ps request before a after k v h u none_before text =
    let (r, e, m) = authenticate-Merged ps request (before ++ a ∷ after) h in
    (r, e, m.claims_merged k u ∙ claim_of-first k v before a after none_before text)
