-- ===== src/Audit/Laws.antt =====
-- What cmd/audit records of the logins, and for how long.
use kubauth.Base.{
  ◌≡◌, ◌≢◌, refl, sym, ap, ◌∙◌, inl, inr, String, Option, none, some, ◌==◌, ℕ, ltb, arith, eq_iff,
  if◌then◌else◌, Bool-cases, Dict, lookup, lookup-insert,
}
use kubauth.Misc.Claims.{Claims}
use kubauth.Proto.{IdentityRequest, IdentityResponse, Result, ok, err}
use kubauth.Audit.{
  Clock, LoginAttempt, record_name, login_record, created, create, create_login_attempt_record,
  authenticate,
}

-- A record that is old goes where its deletion succeeds.
abbrev pub kept :
    (String → Result (Unit {0})) → ℕ → String → Option LoginAttempt → Option LoginAttempt
kept delete cutoff name none = none
kept delete cutoff name (some attempt) =
    if ltb attempt.when cutoff
    then elim (delete name) [ ok _ ↦ none | err e ↦ some attempt ]
    else some attempt

pair_path {ℓ κ} : {A : Type ℓ} {B : Type κ} {p q : A × B} → p.0 ≡ q.0 → p.1 ≡ q.1 → p ≡ q
pair_path e d = λ i. (e i, d i)

some-ne-none : {attempt : LoginAttempt} → some attempt ≢ none
some-ne-none e = ground (arith, e)

create-taken :
    (call : Result (Unit {0})) (name : String) (attempt old : LoginAttempt) (m : Dict LoginAttempt)
    → lookup name m ≡ some old
    → (create call name attempt m).0 ≡ m
unfolding create
create-taken (ok _) name attempt old m there =
    ap (λ (o : Option LoginAttempt). (created name attempt m o).0) there
create-taken (err _) name attempt old m there = refl

-- A record that is there stays as it is.
create-keeps :
    (call : Result (Unit {0})) (name other : String) (attempt old : LoginAttempt)
    (m : Dict LoginAttempt)
    → lookup other m ≡ some old
    → lookup other (create call name attempt m).0 ≡ some old
unfolding create
create-keeps (err e) name other attempt old m there = there
create-keeps (ok _) name other attempt old m there = go (lookup name m) refl
  where
    go :
        (o : Option LoginAttempt)
        → lookup name m ≡ o
        → lookup other (created name attempt m o).0 ≡ some old
    go (some first) e = there
    go none free = lookup-insert name other attempt m ∙ elim (Bool-cases (name == other)) [
      | inl same ↦ absurd (
          some-ne-none (
            sym there
            ∙ (ap (λ (k : String). lookup k m) (sym ((eq_iff name other).0 same)) ∙ free)))
      | inr apart ↦ rw apart there
    ]

module _ (json : Claims → Option String) where
  record_is :
      (call : Result (Unit {0})) (t : Clock) (r : IdentityResponse) (m : Dict LoginAttempt)
      → create_login_attempt_record json call t r m
        ≡ create call (record_name r.user.login t) (login_record json t r) m
  unfolding create_login_attempt_record
  record_is call t r m = refl

  module _ (exchange : IdentityRequest → Result IdentityResponse) where
    -- The answer is that of the provider behind, also where it is an error and whatever becomes of the
    -- record, and every record that was there stays as it was.
    pub audit_lem :
        (call : Result (Unit {0})) (t : Clock) (m : Dict LoginAttempt) (request : IdentityRequest)
        → (let out = authenticate exchange json call t m request in
            (out.1 ≡ exchange request)
            × ((name : String) (attempt : LoginAttempt)
                → lookup name m ≡ some attempt
                → lookup name out.0 ≡ some attempt))
    unfolding authenticate
    audit_lem call t m request = go (exchange request)
      where
        go :
            (answer : Result IdentityResponse)
            → (let out : Dict LoginAttempt × Result IdentityResponse = elim answer [
              | err e ↦ (m, err e)
              | ok response ↦ ((create_login_attempt_record json call t response m).0, ok response)
            ] in
                (out.1 ≡ answer)
                × ((name : String) (attempt : LoginAttempt)
                    → lookup name m ≡ some attempt
                    → lookup name out.0 ≡ some attempt))
        go (err e) = (refl, λ name attempt there. there)
        go (ok r) = (
          refl,
          λ name attempt there.
              create-keeps call (record_name r.user.login t) name (login_record json t r) attempt m
                there,
        )

    authenticate_ok :
        (call : Result (Unit {0})) (t : Clock) (m : Dict LoginAttempt) (request : IdentityRequest)
        (r : IdentityResponse)
        → exchange request ≡ ok r
        → (authenticate exchange json call t m request).0
          ≡ (create_login_attempt_record json call t r m).0
    unfolding authenticate
    authenticate_ok call t m request r e =
        ap
          (λ (answer : Result IdentityResponse).
            (elim answer as (λ _. Dict LoginAttempt × Result IdentityResponse) [
              | err text ↦ (m, err text)
              | ok response ↦ ((create_login_attempt_record json call t response m).0, ok response)
            ]).0)
          e

    -- A login with the name of a record that is there, which is one of the same login in the same
    -- millisecond, is answered but leaves no record: the records are as before.
    pub attempt_lost :
        (call : Result (Unit {0})) (t : Clock) (m : Dict LoginAttempt) (request : IdentityRequest)
        (r : IdentityResponse) (old : LoginAttempt)
        → exchange request ≡ ok r
        → lookup (record_name r.user.login t) m ≡ some old
        → authenticate exchange json call t m request ≡ (m, ok r)
    attempt_lost call t m request r old e there =
        pair_path
          (authenticate_ok call t m request r e
            ∙ (ap (λ (o : Dict LoginAttempt × Result (Unit {0})). o.0) (record_is call t r m)
                ∙ create-taken call (record_name r.user.login t) (login_record json t r) old m
                    there))
          ((audit_lem call t m request).0 ∙ e)
