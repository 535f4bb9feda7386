-- ===== src/Protector/Steps/Isolation.antt =====
-- A failure of one login leaves the others alone; the state of a login counts its failures.
use kubauth.Base.{
  ℕ, ◌≡◌, ◌≢◌, refl, sym, ap, ◌∙◌, String, none, some, arith, lookup, lookup-insert,
  lookup-insert_self, eq_iff, Option, Option-cases, inl, inr,
}
use kubauth.Base.Int.{pos, add_int64}
use kubauth.Protector.{
  Protector, LoginState, Config, new_state, update, record_failure, count_failure, allocate,
  failure_at,
}
use kubauth.Protector.Steps.{System, Reach, init}
use kubauth.Protector.Steps.Pending.{Inv, allocate-Inv, Reach-Inv}

-- The state of a login that is known.
abbrev pub state_of : Protector → Option ℕ → Option LoginState
state_of p none = none
state_of p (some a) = some (p.objects a)

unfoldable pub login_state : Protector → String → Option LoginState
login_state p login = state_of p (lookup login p.state_by_login)

abbrev pub bumped : ℕ → Option LoginState → LoginState
bumped now none = record new_state {
  last_failure = now;
  nbr_of_failure = add_int64 (pos 0) (pos 1);
}
bumped now (some st) = record st {
  last_failure = now;
  nbr_of_failure = add_int64 st.nbr_of_failure (pos 1);
}

-- Where the pointer of another login leads, a failure has not written.
state_of-update :
    (p : Protector) (a : ℕ) (st : LoginState) (o : Option ℕ)
    → o ≢ some a
    → state_of (record p { objects = update p.objects a st }) o ≡ state_of p o
state_of-update p a st none h = refl
state_of-update p a st (some b) h = ground arith

known_lem :
    (s : System) (now : ℕ) (login other : String) (a : ℕ)
    → Inv s
    → lookup login s.protector.state_by_login ≡ some a
    → login ≢ other
    → let q = (count_failure now a s.protector).1 in
      (login_state q login ≡ some (bumped now (login_state s.protector login)))
      × (login_state q other ≡ login_state s.protector other)
unfolding login_state count_failure
known_lem s now login other a v e ne = (
  rw e (ground arith),
  state_of-update s.protector a _ (lookup other s.protector.state_by_login)
      (λ h. ne (v.separate login other a e h)),
)

allocate_lem :
    (s : System) (login other : String)
    → Inv s
    → lookup login s.protector.state_by_login ≡ none
    → login ≢ other
    → let q = allocate login s.protector in
      (login_state q login ≡ some new_state) × (login_state q other ≡ login_state s.protector other)
unfolding login_state allocate
allocate_lem s login other v e ne =
    let m = s.protector.state_by_login in
    (
      rw (lookup-insert_self login s.protector.next m) (ground arith),
      ground (
        arith,
        lookup-insert login other s.protector.next m,
        eq_iff login other,
        state_of-update s.protector s.protector.next new_state (lookup other m),
        v.mapped other s.protector.next,
      ),
    )

unknown_login :
    (p : Protector) (login : String)
    → lookup login p.state_by_login ≡ none
    → login_state p login ≡ none
unfolding login_state
unknown_login p login e = rw e

-- In a system that was reached, a failure adds one to the count of its login, sets the time of its
-- last failure, and does not touch the state of any other login.
pub login_state-record_failure :
    (c : Config) {s : System} (now : ℕ) (login other : String)
    → Reach (init c) s
    → login ≢ other
    → let q = (record_failure now login s.protector).1 in
      (login_state q login ≡ some (bumped now (login_state s.protector login)))
      × (login_state q other ≡ login_state s.protector other)
unfolding record_failure
login_state-record_failure c {s} now login other r ne =
    let v = Reach-Inv c r in
    let p = s.protector in
    elim (Option-cases (lookup login p.state_by_login)) [
      | inl e ↦
          let (fresh, same) = allocate_lem s login other v e ne in
          let s' : System = record s { protector = allocate login p } in
          let (counted, kept) =
            known_lem s' now login other p.next (allocate-Inv login s e v)
              (unfold allocate in lookup-insert_self login p.next p.state_by_login) ne in
          rw (e, failure_at)
            (
              counted
                  ∙ ap some
                      (ap (bumped now) fresh ∙ ap (bumped now) (sym (unknown_login p login e))),
              kept ∙ same,
            )
      | inr (a, e) ↦ rw (e, failure_at) (known_lem s now login other a v e ne)
    ]
