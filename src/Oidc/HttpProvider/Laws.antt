-- ===== src/Oidc/HttpProvider/Laws.antt =====
-- The claims that cmd/oidc/authenticator/httpprovider gives a user.
use kubauth.Base.{
  ◌≡◌, refl, ◌∙◌, ap, String, Bool, false, Option, none, some, List, [], ◌∷◌, arith, ◌==◌,
  if◌then◌else◌, contains,
}
use kubauth.Misc.Claims.{get, put, Value, Claims, int, str, strings}
use kubauth.Base.Int.{ℤ}
use kubauth.Misc.Claims.Merge.{get-put}
use kubauth.Proto.{IdentityResponse}
use kubauth.Oidc.HttpProvider.{put_text, put_groups, put_emails, put_uid}

-- The keys that the provider may write.
abbrev pub is_written : String → Bool
is_written k = contains ("name" ∷ "groups" ∷ "emails" ∷ "email" ∷ "authority" ∷ "uid" ∷ []) k

abbrev pub or_text : String → Option Value → Option Value
or_text text old = if text == "" then old else some (str text)

pub get-put_text :
    (key text k : String) (m : Claims)
    → get k (put_text key text m) ≡ (if key == k then or_text text (get k m) else get k m)
unfolding put_text
get-put_text key text k m = ground (arith, get-put key k (str text) m)

-- What stands at a key that is overwritten by a list that is not empty, or by a value that is there.
abbrev pub or_strings : List String → Option Value → Option Value
or_strings [] old = old
or_strings (g ∷ gs) old = some (strings (g ∷ gs))

abbrev pub or_first : List String → Option Value → Option Value
or_first [] old = old
or_first (e ∷ es) old = some (str e)

abbrev pub or_int : Option ℤ → Option Value → Option Value
or_int none old = old
or_int (some n) old = some (int n)

get-put_groups :
    (gs : List String) (k : String) (m : Claims)
    → get k (put_groups gs m) ≡ (if "groups" == k then or_strings gs (get k m) else get k m)
unfolding put_groups
get-put_groups [] k m = ground arith
get-put_groups (g ∷ gs) k m = ground (arith, get-put "groups" k (strings (g ∷ gs)) m)

get-put_emails :
    (es : List String) (k : String) (m : Claims)
    → get k (put_emails es m) ≡ (
        if "email" == k
        then or_first es (get k m)
        else if "emails" == k
        then or_strings es (get k m)
        else get k m)
unfolding put_emails
get-put_emails [] k m = ground arith
get-put_emails (e ∷ es) k m = ground (
  arith,
  get-put "emails" k (strings (e ∷ es)) m,
  get-put "email" k (str e) (put "emails" (strings (e ∷ es)) m),
)

get-put_uid :
    (uid : Option ℤ) (k : String) (m : Claims)
    → get k (put_uid uid m) ≡ (if "uid" == k then or_int uid (get k m) else get k m)
unfolding put_uid
get-put_uid none k m = ground arith
get-put_uid (some n) k m = ground (arith, get-put "uid" k (int n) m)

-- The claims of a user, from the response and the two lists that its claims already gave.
abbrev pub result : IdentityResponse → List String → List String → Claims
result r groups emails = put_uid r.user.uid (
    put_text "authority" r.authority
      (put_emails emails (put_groups groups (put_text "name" r.user.name r.user.claims))))

module _ (r : IdentityResponse) (groups emails : List String) where
  abbrev m1 : Claims
  m1 = put_text "name" r.user.name r.user.claims

  abbrev m2 : Claims
  m2 = put_groups groups m1

  abbrev m3 : Claims
  m3 = put_emails emails m2

  abbrev m4 : Claims
  m4 = put_text "authority" r.authority m3

  through_last :
      (k : String)
      → ("uid" == k) ≡ false
      → ("authority" == k) ≡ false
      → get k (result r groups emails) ≡ get k m3
  through_last k h j =
      ground (arith, h, j, get-put_uid r.user.uid k m4, get-put_text "authority" r.authority k m3)

  through_emails :
      (k : String) → ("email" == k) ≡ false → ("emails" == k) ≡ false → get k m3 ≡ get k m2
  through_emails k h j = ground (arith, h, j, get-put_emails emails k m2)

  pub through_groups :
      (k : String)
      → ("groups" == k) ≡ false
      → ("name" == k) ≡ false
      → get k m2 ≡ get k r.user.claims
  through_groups k h j =
      ground
        (arith, h, j, get-put_groups groups k m1, get-put_text "name" r.user.name k r.user.claims)

  pub result_other :
      (k : String) → is_written k ≡ false → get k (result r groups emails) ≡ get k r.user.claims
  result_other k h =
      through_last k (ground (arith, h)) (ground (arith, h))
      ∙ through_emails k (ground (arith, h)) (ground (arith, h))
      ∙ through_groups k (ground (arith, h)) (ground (arith, h))

  pub result_name :
      get "name" (result r groups emails) ≡ or_text r.user.name (get "name" r.user.claims)
  result_name =
      through_last "name" refl refl
      ∙ through_emails "name" refl refl
      ∙ get-put_groups groups "name" m1
      ∙ get-put_text "name" r.user.name "name" r.user.claims

  pub result_groups :
      get "groups" (result r groups emails) ≡ or_strings groups (get "groups" r.user.claims)
  result_groups =
      through_last "groups" refl refl
      ∙ through_emails "groups" refl refl
      ∙ get-put_groups groups "groups" m1
      ∙ ap (or_strings groups) (get-put_text "name" r.user.name "groups" r.user.claims)

  pub result_emails :
      get "emails" (result r groups emails) ≡ or_strings emails (get "emails" r.user.claims)
  result_emails =
      through_last "emails" refl refl
      ∙ get-put_emails emails "emails" m2
      ∙ ap (or_strings emails) (through_groups "emails" refl refl)

  pub result_email :
      get "email" (result r groups emails) ≡ or_first emails (get "email" r.user.claims)
  result_email =
      through_last "email" refl refl
      ∙ get-put_emails emails "email" m2
      ∙ ap (or_first emails) (through_groups "email" refl refl)

  pub result_authority :
      get "authority" (result r groups emails) ≡ or_text r.authority (get "authority" r.user.claims)
  result_authority =
      get-put_uid r.user.uid "authority" m4
      ∙ get-put_text "authority" r.authority "authority" m3
      ∙ ap (or_text r.authority)
          (through_emails "authority" refl refl ∙ through_groups "authority" refl refl)

  pub result_uid : get "uid" (result r groups emails) ≡ or_int r.user.uid (get "uid" r.user.claims)
  result_uid =
      get-put_uid r.user.uid "uid" m4
      ∙ ap (or_int r.user.uid) (
          get-put_text "authority" r.authority "uid" m3
          ∙ through_emails "uid" refl refl
          ∙ through_groups "uid" refl refl)
