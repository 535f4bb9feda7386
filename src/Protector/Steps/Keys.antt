-- ===== src/Protector/Steps/Keys.antt =====
-- For which calls of internal/handlers/protector/bfa.go a goroutine sleeps.
use mathlib.Core.Path.{subst}
use kubauth.Base.{
  ◌∙◌, ℕ, suc, ◌<◌, ◌≡◌, refl, sym, inl, inr, String, some, List, [], ◌∷◌, ◌&&◌, ◌==◌, arith, eqb,
  if◌then◌else◌, All, Dict, lookup, lookup-insert, lookup-insert_self, eq_iff, Option-cases,
}
use kubauth.Base.Int.{ℤ, pos}
use kubauth.Protector.{
  Protector, Config, record_failure, count_failure, allocate, failure_at, add_pending, clean,
  unknown_token, delay_from_failure_count,
}
use kubauth.Protector.Steps.{
  Call, login_result, token_not_found, Thread, recorded, sleeping, System, begin_failure, Step,
  fails, misses_token, enters, leaves, cleans, Reach, here, next, init,
}
use kubauth.Protector.Steps.Pending.{
  sleepers, address, Inv, allocate-Inv, Reach-Inv, All-split, All-insert, survives,
}

-- The key that the failure of a call counts for.
abbrev pub key : Call → String
key (login_result login status) = login
key token_not_found = unknown_token

abbrev call_of : Thread → Call
call_of (recorded c d a) = c
call_of (sleeping c d a) = c

-- The goroutines that sleep for a call with this key, and hold this pointer.
abbrev pub sleepers_for : String → ℕ → List Thread → ℕ
sleepers_for k a [] = 0
sleepers_for k a (recorded c d b ∷ ts) = sleepers_for k a ts
sleepers_for k a (sleeping c d b ∷ ts) =
    if key c == k && eqb b a then suc (sleepers_for k a ts) else sleepers_for k a ts

-- A goroutine holds the pointer of no other key than that of its call.
abbrev Holds : Dict ℕ → Thread → Type 0
Holds m t = (k : String) → lookup k m ≡ some (address t) → key (call_of t) ≡ k

abbrev pub Keyed : System → Type 0
Keyed s = All (Holds s.protector.state_by_login) s.threads

All-weaken :
    (P Q : Thread → Type 0) (ts : List Thread) → ((t : Thread) → P t → Q t) → All P ts → All Q ts
All-weaken P Q [] f h = tt
All-weaken P Q (t ∷ ts) f h = (f t h.0, All-weaken P Q ts f h.1)

-- New memory is held by no goroutine.
allocated-Keyed :
    (login : String) (s : System) (ts : List Thread)
    → All (λ t. address t < s.protector.next) ts
    → All (Holds s.protector.state_by_login) ts
    → All (Holds (allocate login s.protector).state_by_login) ts
unfolding allocate
allocated-Keyed login s [] held h = tt
allocated-Keyed login s (t ∷ ts) held h = (
  λ k e.
      ground (
        arith,
        held.0,
        h.0 k,
        e,
        lookup-insert login k s.protector.next s.protector.state_by_login,
      ),
  allocated-Keyed login s ts held.1 h.1,
)

known-Keyed :
    (now : ℕ) (login : String) (c : Call) (d : ℤ) (a : ℕ) (s : System)
    → key c ≡ login
    → lookup login s.protector.state_by_login ≡ some a
    → Inv s
    → Keyed s
    → Keyed (record {
      protector = (count_failure now a s.protector).1;
      threads = recorded c d a ∷ s.threads;
    })
unfolding count_failure
known-Keyed now login c d a s same e v h = (λ k f. same ∙ v.separate login k a e f, h)

-- The system after the lock, by what was done under it.
abbrev begun : Call → System → ℕ × Protector → System
begun c s r = record {
  protector = r.1;
  threads =
      recorded c (delay_from_failure_count r.1.config (r.1.objects r.0).nbr_of_failure) r.0
      ∷ s.threads;
}

begin_failure-Keyed :
    (now : ℕ) (c : Call) (login : String) (s : System)
    → key c ≡ login
    → Inv s
    → Keyed s
    → Keyed (begin_failure now c login s)
unfolding begin_failure record_failure
begin_failure-Keyed now c login s same v h =
    elim (Option-cases (lookup login s.protector.state_by_login)) [
      | inl e ↦
          let step : record_failure now login s.protector
              ≡ count_failure now s.protector.next (allocate login s.protector) =
            rw (e, failure_at) refl in
          subst (λ (r : ℕ × Protector). Keyed (begun c s r)) (sym step)
            (known-Keyed now login c (pos 0) s.protector.next
              (record s { protector = allocate login s.protector }) same
              (unfold allocate in
                lookup-insert_self login s.protector.next s.protector.state_by_login)
              (allocate-Inv login s e v) (allocated-Keyed login s s.threads v.held h))
      | inr (a, e) ↦
          let step : record_failure now login s.protector ≡ count_failure now a s.protector =
            rw (e, failure_at) refl in
          subst (λ (r : ℕ × Protector). Keyed (begun c s r)) (sym step)
            (known-Keyed now login c (pos 0) a s same e v h)
    ]

Step-Keyed : {s t : System} → Step s t → Inv s → Keyed s → Keyed t
unfolding add_pending
Step-Keyed {s} (fails now login status f n) v h =
    begin_failure-Keyed now (login_result login status) login s refl v h
Step-Keyed {s} (misses_token now n) v h =
    begin_failure-Keyed now token_not_found unknown_token s refl v h
Step-Keyed {s} (enters before after c d a e) v h =
    let P = Holds s.protector.state_by_login in
    let (k, rest) = All-split P before (recorded c d a) after (rw e at h) in
    All-insert P before (sleeping c d a) after k rest
Step-Keyed {s} (leaves before after c d a e) v h =
    (All-split (Holds s.protector.state_by_login) before (sleeping c d a) after (rw e at h)).1
Step-Keyed {s} (cleans now) v h =
    All-weaken (Holds s.protector.state_by_login) (Holds (clean now s.protector).state_by_login)
      s.threads (λ t g k e. g k (survives now s v k (address t) e)) h

pub Reach-Keyed : (c : Config) {s : System} → Reach (init c) s → Keyed s
Reach-Keyed c here = tt
Reach-Keyed c (next r st) = Step-Keyed st (Reach-Inv c r) (Reach-Keyed c r)

-- The pointer of a key is held for that key only.
pub sleepers_for-eq :
    (m : Dict ℕ) (k : String) (a : ℕ) (ts : List Thread)
    → lookup k m ≡ some a
    → All (Holds m) ts
    → sleepers_for k a ts ≡ sleepers a ts
sleepers_for-eq m k a [] e h = refl
sleepers_for-eq m k a (recorded c d b ∷ ts) e h = sleepers_for-eq m k a ts e h.1
sleepers_for-eq m k a (sleeping c d b ∷ ts) e h =
    ground (arith, sleepers_for-eq m k a ts e h.1, eq_iff (key c) k, h.0 k, e)
