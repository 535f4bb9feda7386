-- ===== src/Protector/Steps/Locks.antt =====
-- When internal/handlers/protector/bfa.go locks a login, and what its cleaner forgets.
use kubauth.Base.{
  ℕ, ◌<◌, ◌≡◌, refl, String, Option, none, some, arith, ltb, lookup, NodupKeys, ◌||◌,
}
use kubauth.Base.Int.{pos}
use kubauth.Protector.{
  Protector, Config, clean, over_limit, entry_for_login, entry_for_token, unknown_user,
  unknown_token,
}
use kubauth.Protector.Steps.{System, Reach, init}
use kubauth.Protector.Steps.Pending.{kept, Inv, Reach-Inv, lookup-expire}
use kubauth.Protector.Steps.Keys.{sleepers_for, sleepers_for-eq, Keyed, Reach-Keyed}

-- The goroutines that sleep for a call with this key and hold its entry of the map, given as well.
abbrev pub waiting : System → String → Option ℕ → ℕ
waiting s k none = 0
waiting s k (some a) = sleepers_for k a s.threads

over_limit-eq :
    (s : System) (most : ℕ) (k : String) (o : Option ℕ)
    → s.protector.max_pending_failure ≡ pos most
    → Inv s
    → Keyed s
    → lookup k s.protector.state_by_login ≡ o
    → ((a : ℕ) → o ≡ some a → a < s.protector.next)
    → over_limit s.protector o ≡ ltb most (waiting s k o)
unfolding over_limit
over_limit-eq s most k none e v w l h = ground arith
over_limit-eq s most k (some a) e v w l h =
    ground
      (arith, v.counted a (h a refl), sleepers_for-eq s.protector.state_by_login k a s.threads l w)

-- A login is locked exactly while more goroutines than allowed sleep for results of that login, or of
-- the login that stands for unknown users, and the token endpoint while more sleep for calls of
-- `TokenNotFound` or the login that stands for unknown tokens. Only goroutines that hold the
-- present entry of the login count: one whose entry the cleaner has removed sleeps on, uncounted.
pub entry_lem :
    (c : Config) (most : ℕ) {s : System} (login : String)
    → s.protector.max_pending_failure ≡ pos most
    → Reach (init c) s
    → let m = s.protector.state_by_login in
      (entry_for_login s.protector login ≡ (
        ltb most (waiting s login (lookup login m))
        || ltb most (waiting s unknown_user (lookup unknown_user m))))
      × (entry_for_token s.protector ≡ ltb most (waiting s unknown_token (lookup unknown_token m)))
unfolding entry_for_login entry_for_token
entry_lem c most {s} login e r =
    let v = Reach-Inv c r in
    let w = Reach-Keyed c r in
    let m = s.protector.state_by_login in
    (
      rw (
        over_limit-eq s most login (lookup login m) e v w refl (v.mapped login),
        over_limit-eq s most unknown_user (lookup unknown_user m) e v w refl
            (v.mapped unknown_user),
      ),
      over_limit-eq s most unknown_token (lookup unknown_token m) e v w refl
          (v.mapped unknown_token),
    )

-- The cleaner forgets exactly the logins whose last failure is older than the clean delay, keeps
-- the count of the others, and changes no state.
pub clean_lem :
    (now : ℕ) (p : Protector) (k : String)
    → NodupKeys p.state_by_login
    → (lookup k (clean now p).state_by_login ≡ kept p now (lookup k p.state_by_login))
      × ((clean now p).objects ≡ p.objects)
unfolding clean
clean_lem now p k u = (lookup-expire p now k p.state_by_login u, refl)
