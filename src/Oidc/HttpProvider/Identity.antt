-- ===== src/Oidc/HttpProvider/Identity.antt =====
-- Who cmd/oidc/authenticator/httpprovider identifies and authenticates.
use kubauth.Base.{
  ◌≡◌, refl, sym, ◌∙◌, ap, inl, inr, String, Bool, true, false, Option, none, some, List, [], ◌∷◌,
  ◌++◌, ◌||◌, ◌&&◌, ◌<>◌, arith, if◌then◌else◌, Bool-cases, contains, contains-append,
}
use kubauth.Base.TextSort.{Ascending}
use kubauth.Misc.Claims.{get, Value, Claims, nil, flag, int, str, strings, slice, object}
use kubauth.Misc.Slices.{dedup_and_sort, append_if_not_present}
use kubauth.Misc.Slices.Laws.{dedup_and_sort-Ascending, append_if_not_present_lem}
use kubauth.Proto.{Result, ok, err, IdentityRequest, IdentityResponse}
use kubauth.Oidc.HttpProvider.{
  texts_of, string_array, get_string_array_in_map, put_text, put_groups, enrich, identify,
}
use kubauth.Oidc.HttpProvider.Laws.{
  through_groups, get-put_text, result_other, result_name, result_groups, result_emails,
  result_email, result_authority, result_uid, is_written, or_text, or_strings, or_first, or_int,
  result, through_groups, get-put_text, result_other, result_name, result_groups, result_emails,
  result_email, result_authority, result_uid,
}

-- A claim that may stand where a list of texts is read: none, a null, a text or a list.
abbrev pub is_list : Option Value → Bool
is_list none = true
is_list (some nil) = true
is_list (some (str s)) = true
is_list (some (strings ss)) = true
is_list (some (slice xs)) = true
is_list (some (flag b)) = false
is_list (some (int n)) = false
is_list (some (object m)) = false

-- The texts that such a claim lists.
abbrev pub listed : Option Value → List String
listed (some (str s)) = s ∷ []
listed (some (strings ss)) = ss
listed (some (slice xs)) = texts_of xs
listed _ = []

string_array_lem :
    (key : String) (v : Option Value)
    → string_array key v
      ≡ (if is_list v then ok (listed v) else err ("entry Claims[" <> key <> "] is not a []string"))
unfolding string_array
string_array_lem key none = refl
string_array_lem key (some nil) = refl
string_array_lem key (some (str s)) = refl
string_array_lem key (some (strings ss)) = refl
string_array_lem key (some (slice xs)) = refl
string_array_lem key (some (flag b)) = refl
string_array_lem key (some (int n)) = refl
string_array_lem key (some (object m)) = refl

-- The groups and the emails of the user, those of its claims included.
abbrev all_groups : IdentityResponse → List String
all_groups r = dedup_and_sort (r.user.groups ++ listed (get "groups" r.user.claims))

abbrev all_emails : IdentityResponse → List String
all_emails r = append_if_not_present r.user.emails (listed (get "emails" r.user.claims))

groups_found :
    (r : IdentityResponse)
    → get_string_array_in_map (put_text "name" r.user.name r.user.claims) "groups"
      ≡ string_array "groups" (get "groups" r.user.claims)
unfolding get_string_array_in_map
groups_found r = ap (string_array "groups") (get-put_text "name" r.user.name "groups" r.user.claims)

emails_found :
    (r : IdentityResponse) (gs : List String)
    → get_string_array_in_map (put_groups gs (put_text "name" r.user.name r.user.claims)) "emails"
      ≡ string_array "emails" (get "emails" r.user.claims)
unfolding get_string_array_in_map
emails_found r gs = ap (string_array "emails") (through_groups r gs [] "emails" refl refl)

enrich-lists :
    (r : IdentityResponse)
    → is_list (get "groups" r.user.claims) ≡ true
    → is_list (get "emails" r.user.claims) ≡ true
    → enrich r ≡ ok (result r (all_groups r) (all_emails r))
unfolding enrich
enrich-lists r g e =
    rw
      (
        groups_found r,
        string_array_lem "groups" (get "groups" r.user.claims),
        g,
        emails_found r (all_groups r),
        string_array_lem "emails" (get "emails" r.user.claims),
        e,
      )
      refl

enrich-no_groups :
    (r : IdentityResponse)
    → is_list (get "groups" r.user.claims) ≡ false
    → enrich r ≡ err "entry Claims[groups] is not a []string"
unfolding enrich
enrich-no_groups r g =
    rw (groups_found r, string_array_lem "groups" (get "groups" r.user.claims), g) refl

enrich-no_emails :
    (r : IdentityResponse)
    → is_list (get "groups" r.user.claims) ≡ true
    → is_list (get "emails" r.user.claims) ≡ false
    → enrich r ≡ err "entry Claims[emails] is not a []string"
unfolding enrich
enrich-no_emails r g e =
    rw
      (
        groups_found r,
        string_array_lem "groups" (get "groups" r.user.claims),
        g,
        emails_found r (all_groups r),
        string_array_lem "emails" (get "emails" r.user.claims),
        e,
      )
      refl

-- The claims of the user that a response describes. Keys that the provider does not write keep
-- their value. A name, an authority and a user id of the response replace the claim. The groups
-- are those of the response and of the claim, sorted, each once; the emails are those of the
-- response in their order and behind them those of the claim that they lack, the first email
-- being the claim "email". An empty list leaves the claim as it is.
pub record Describes (r : IdentityResponse) (c : Claims) : Type 0 where
  pub kept : (k : String) → is_written k ≡ false → get k c ≡ get k r.user.claims
  pub name_claim : get "name" c ≡ or_text r.user.name (get "name" r.user.claims)
  pub authority_claim : get "authority" c ≡ or_text r.authority (get "authority" r.user.claims)
  pub uid_claim : get "uid" c ≡ or_int r.user.uid (get "uid" r.user.claims)
  pub groups_claim :
      (gs : List String) × (get "groups" c ≡ or_strings gs (get "groups" r.user.claims))
      × Ascending gs
      × ((s : String)
          → contains gs s
            ≡ (contains r.user.groups s || contains (listed (get "groups" r.user.claims)) s))
  pub emails_claim :
      (added : List String) × (get "emails" c
        ≡ or_strings (r.user.emails ++ added) (get "emails" r.user.claims))
      × (get "email" c ≡ or_first (r.user.emails ++ added) (get "email" r.user.claims))
      × ((s : String)
          → contains (r.user.emails ++ added) s
            ≡ (contains r.user.emails s || contains (listed (get "emails" r.user.claims)) s))

result-Describes : (r : IdentityResponse) → Describes r (result r (all_groups r) (all_emails r))
result-Describes r =
    let sorted = dedup_and_sort-Ascending (r.user.groups ++ listed (get "groups" r.user.claims)) in
    let more = append_if_not_present_lem r.user.emails (listed (get "emails" r.user.claims)) in
    record {
      kept = result_other r (all_groups r) (all_emails r);
      name_claim = result_name r (all_groups r) (all_emails r);
      authority_claim = result_authority r (all_groups r) (all_emails r);
      uid_claim = result_uid r (all_groups r) (all_emails r);
      groups_claim = (
        all_groups r,
        result_groups r (all_groups r) (all_emails r),
        sorted.0,
        λ s. sorted.1 s ∙ contains-append r.user.groups (listed (get "groups" r.user.claims)) s,
      );
      emails_claim = (
        more.0,
        result_emails r (all_groups r) (all_emails r)
            ∙ ap (λ l. or_strings l (get "emails" r.user.claims)) more.1,
        result_email r (all_groups r) (all_emails r)
            ∙ ap (λ l. or_first l (get "email" r.user.claims)) more.1,
        λ s. ap (λ l. contains l s) (sym more.1) ∙ more.4 s,
      );
    }

-- Identification. When the exchange yields a response whose claims "groups" and "emails" may be read as lists,
-- it gives a user with the login of the request, the name of the response and claims that describe
-- it, and the status of the response; when one of the two claims is of another type, and when the
-- exchange fails, it fails.
pub identify-Describes :
    (exchange : IdentityRequest → Result IdentityResponse) (login password : String)
    → ((r : IdentityResponse)
        → exchange (record { login = login; password = password }) ≡ ok r
        → is_list (get "groups" r.user.claims) ≡ true
        → is_list (get "emails" r.user.claims) ≡ true
        → (c : Claims) × (identify exchange login password
            ≡ ok (record { login = login; claims = c; full_name = r.user.name }, r.status))
          × Describes r c)
      × ((r : IdentityResponse)
          → exchange (record { login = login; password = password }) ≡ ok r
          → (is_list (get "groups" r.user.claims) && is_list (get "emails" r.user.claims)) ≡ false
          → (e : String) × (identify exchange login password ≡ err e))
      × ((e : String)
          → exchange (record { login = login; password = password }) ≡ err e
          → identify exchange login password ≡ err e)
unfolding identify
identify-Describes exchange login password = (
  λ r h g e.
      (result r (all_groups r) (all_emails r), rw (h, enrich-lists r g e) refl, result-Describes r),
  λ r h n. elim (Bool-cases (is_list (get "groups" r.user.claims))) [
    | inl g ↦ (
      "entry Claims[emails] is not a []string",
      rw (h, enrich-no_emails r g (ground (arith, g, n))) refl,
    )
    | inr g ↦ ("entry Claims[groups] is not a []string", rw (h, enrich-no_groups r g) refl)
  ],
  λ e h. rw h refl,
)
