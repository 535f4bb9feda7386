-- ===== src/Protector/Steps/Pending.antt =====
-- `pendingFailures` counts the goroutines that sleep, under every interleaving.
use kubauth.Base.{
  ℕ, suc, ◌+◌, ◌-◌, ◌<◌, ◌≤◌, ◌^◌, ◌≡◌, refl, sym, ap, ◌∙◌, inl, inr, String, Option, none, some,
  List, [], ◌∷◌, ◌++◌, arith, eqb, ltb, if◌then◌else◌, length, length-append, All, Dict, lookup,
  NodupKeys, lookup-insert, lookup-insert_self, insert-NodupKeys, eq_iff, Option-cases,
}
use kubauth.Base.Int.{ℤ, pos, negsuc, add_int64}
use kubauth.Protector.{
  Protector, Config, record_failure, count_failure, allocate, failure_at, add_pending, expire,
  clean, unknown_token,
}
use kubauth.Protector.Steps.{
  Call, login_result, token_not_found, Thread, recorded, sleeping, System, begin_failure, Step,
  fails, misses_token, enters, leaves, cleans, Reach, here, next, init,
}

-- The goroutines that sleep for the state at an address.
abbrev pub sleepers : ℕ → List Thread → ℕ
sleepers a [] = 0
sleepers a (recorded c d b ∷ ts) = sleepers a ts
sleepers a (sleeping c d b ∷ ts) = if eqb b a then suc (sleepers a ts) else sleepers a ts

abbrev pub address : Thread → ℕ
address (recorded c d a) = a
address (sleeping c d a) = a

sleepers-append :
    (a : ℕ) (ts us : List Thread) → sleepers a (ts ++ us) ≡ sleepers a ts + sleepers a us
sleepers-append a [] us = omega arith
sleepers-append a (recorded c d b ∷ ts) us = sleepers-append a ts us
sleepers-append a (sleeping c d b ∷ ts) us = ground (arith, sleepers-append a ts us)

sleepers-le-length : (a : ℕ) (ts : List Thread) → sleepers a ts ≤ length ts
sleepers-le-length a [] = omega arith
sleepers-le-length a (recorded c d b ∷ ts) = omega (arith, sleepers-le-length a ts)
sleepers-le-length a (sleeping c d b ∷ ts) = ground (arith, sleepers-le-length a ts)

sleepers_none :
    (n a : ℕ) (ts : List Thread) → All (λ t. address t < n) ts → n ≤ a → sleepers a ts ≡ 0
sleepers_none n a [] h k = refl
sleepers_none n a (recorded c d b ∷ ts) h k = sleepers_none n a ts h.1 k
sleepers_none n a (sleeping c d b ∷ ts) h k = ground (arith, sleepers_none n a ts h.1)

-- Every pointer is to allocated memory, no two logins share a state, and the pending failures of a
-- state are the goroutines that sleep for it.
pub record Inv (s : System) : Type 0 where
  pub counted :
      (a : ℕ)
      → a < s.protector.next
      → (s.protector.objects a).pending_failures ≡ pos (sleepers a s.threads)
  pub mapped :
      (k : String) (a : ℕ) → lookup k s.protector.state_by_login ≡ some a → a < s.protector.next
  pub separate :
      (j k : String) (a : ℕ)
      → lookup j s.protector.state_by_login ≡ some a
      → lookup k s.protector.state_by_login ≡ some a
      → j ≡ k
  pub unique : NodupKeys s.protector.state_by_login
  pub held : All (λ t. address t < s.protector.next) s.threads
  pub bounded : length s.threads < 2 ^ 63

init-Inv : (c : Config) → Inv (init c)
init-Inv c = record {
  counted = λ a h. absurd (omega arith);
  mapped = λ k a h. unfold lookup in cc h;
  separate = λ j k a h. unfold lookup in cc h;
  unique = tt;
  held = tt;
  bounded = omega arith;
}

All-mono :
    (m n : ℕ) (ts : List Thread) → m ≤ n → All (λ t. address t < m) ts → All (λ t. address t < n) ts
All-mono m n [] h a = tt
All-mono m n (t ∷ ts) h a = (omega arith, All-mono m n ts h a.1)

-- The part of `failure` under the lock, for a login that is known.
known-Inv :
    (now : ℕ) (login : String) (c : Call) (d : ℤ) (a : ℕ) (s : System)
    → lookup login s.protector.state_by_login ≡ some a
    → length s.threads + 1 < 2 ^ 63
    → Inv s
    → Inv (record {
      protector = (count_failure now a s.protector).1;
      threads = recorded c d a ∷ s.threads;
    })
unfolding count_failure
known-Inv now login c d a s e h v = record {
  counted = λ b k. ground (arith, v.counted b);
  mapped = λ k b. v.mapped k b;
  separate = λ j k b. v.separate j k b;
  unique = v.unique;
  held = (v.mapped login a e, v.held);
  bounded = omega arith;
}

-- A login that is not known gets memory of its own.
pub allocate-Inv :
    (login : String) (s : System)
    → lookup login s.protector.state_by_login ≡ none
    → Inv s
    → Inv (record s { protector = allocate login s.protector })
unfolding allocate
allocate-Inv login s e v = record {
  counted = λ b k. ground (arith, v.counted b, sleepers_none s.protector.next b s.threads v.held);
  mapped = λ k b h.
      ground
        (arith, v.mapped k b, lookup-insert login k s.protector.next s.protector.state_by_login);
  separate = λ j k b h h'. ground (
    arith,
    v.separate j k b,
    v.mapped j b,
    v.mapped k b,
    eq_iff login j,
    eq_iff login k,
    lookup-insert login j s.protector.next s.protector.state_by_login,
    lookup-insert login k s.protector.next s.protector.state_by_login,
  );
  unique = insert-NodupKeys login s.protector.next s.protector.state_by_login v.unique;
  held = All-mono s.protector.next (s.protector.next + 1) s.threads (omega arith) v.held;
  bounded = v.bounded;
}

begin_failure-Inv :
    (now : ℕ) (c : Call) (login : String) (s : System)
    → length s.threads + 1 < 2 ^ 63
    → Inv s
    → Inv (begin_failure now c login s)
unfolding begin_failure record_failure
begin_failure-Inv now c login s h v =
    elim (Option-cases (lookup login s.protector.state_by_login)) [
      | inl e ↦
          rw (e, failure_at)
            (known-Inv now login c _ s.protector.next
              (record s { protector = allocate login s.protector })
              (unfold allocate in
                lookup-insert_self login s.protector.next s.protector.state_by_login)
              h (allocate-Inv login s e v))
      | inr (a, e) ↦ rw (e, failure_at) (known-Inv now login c _ a s e h v)
    ]

add_int64-one : (n : ℕ) → n + 1 < 2 ^ 63 → add_int64 (pos n) (pos 1) ≡ pos (n + 1)
unfolding add_int64
add_int64-one n h = ground arith

add_int64-minus_one : (n : ℕ) → n < 2 ^ 63 → 0 < n → add_int64 (pos n) (negsuc 0) ≡ pos (n - 1)
unfolding add_int64
add_int64-minus_one n h k = ground arith

pub All-split :
    (P : Thread → Type 0) (ts : List Thread) (t : Thread) (us : List Thread)
    → All P (ts ++ t ∷ us)
    → P t × All P (ts ++ us)
All-split P [] t us h = h
All-split P (x ∷ ts) t us h = let (k, r) = All-split P ts t us h.1 in (k, (h.0, r))

pub All-insert :
    (P : Thread → Type 0) (ts : List Thread) (t : Thread) (us : List Thread)
    → P t
    → All P (ts ++ us)
    → All P (ts ++ t ∷ us)
All-insert P [] t us k h = (k, h)
All-insert P (x ∷ ts) t us k h = (h.0, All-insert P ts t us k h.1)

module _ (s : System) (before after : List Thread) (c : Call) (d : ℤ) (a : ℕ) (v : Inv s) where
  enters-Inv :
      s.threads ≡ before ++ recorded c d a ∷ after
      → Inv (record {
        protector = add_pending (pos 1) a s.protector;
        threads = before ++ sleeping c d a ∷ after;
      })
  unfolding add_pending
  enters-Inv e = record {
    counted = λ b k. ground (
      arith,
      v.counted b,
      v.bounded,
      ap (sleepers b) e,
      ap length e,
      sleepers-append b before (recorded c d a ∷ after),
      sleepers-append b before (sleeping c d a ∷ after),
      length-append before (recorded c d a ∷ after),
      length-append before (sleeping c d a ∷ after),
      sleepers-le-length b (before ++ sleeping c d a ∷ after),
      add_int64-one (sleepers b s.threads),
    );
    mapped = λ k b. v.mapped k b;
    separate = λ j k b. v.separate j k b;
    unique = v.unique;
    held =
        let (k, r) =
          All-split (λ x. address x < s.protector.next) before (recorded c d a) after
            (rw e at v.held) in
        All-insert (λ x. address x < s.protector.next) before (sleeping c d a) after k r;
    bounded = omega (
      arith,
      v.bounded,
      ap length e,
      length-append before (recorded c d a ∷ after),
      length-append before (sleeping c d a ∷ after),
    );
  }

  leaves-Inv :
      s.threads ≡ before ++ sleeping c d a ∷ after
      → Inv (record { protector = add_pending (negsuc 0) a s.protector; threads = before ++ after })
  unfolding add_pending
  leaves-Inv e = record {
    counted = λ b k. ground (
      arith,
      v.counted b,
      v.bounded,
      ap (sleepers b) e,
      sleepers-append b before (sleeping c d a ∷ after),
      sleepers-append b before after,
      sleepers-le-length b s.threads,
      add_int64-minus_one (sleepers b s.threads),
    );
    mapped = λ k b. v.mapped k b;
    separate = λ j k b. v.separate j k b;
    unique = v.unique;
    held =
        (All-split (λ x. address x < s.protector.next) before (sleeping c d a) after
          (rw e at v.held)).1;
    bounded = omega (
      arith,
      v.bounded,
      ap length e,
      length-append before (sleeping c d a ∷ after),
      length-append before after,
    );
  }

-- What `clean` leaves of an entry.
abbrev pub kept : Protector → ℕ → Option ℕ → Option ℕ
kept p now none = none
kept p now (some a) = if ltb ((p.objects a).last_failure + p.clean_delay) now then none else some a

pub lookup-expire :
    (p : Protector) (now : ℕ) (k : String) (m : Dict ℕ)
    → NodupKeys m
    → lookup k (expire p now m) ≡ kept p now (lookup k m)
unfolding expire lookup
lookup-expire p now k [] u = refl
lookup-expire p now k ((j, a) ∷ m) u = ground (arith, eq_iff j k, lookup-expire p now k m u.1)

expire-NodupKeys : (p : Protector) (now : ℕ) (m : Dict ℕ) → NodupKeys m → NodupKeys (expire p now m)
unfolding expire
expire-NodupKeys p now [] u = tt
expire-NodupKeys p now ((j, a) ∷ m) u =
    ground (arith, lookup-expire p now j m u.1, expire-NodupKeys p now m u.1)

kept-some : (p : Protector) (now : ℕ) (o : Option ℕ) (a : ℕ) → kept p now o ≡ some a → o ≡ some a
kept-some p now o a h = ground arith

module _ (now : ℕ) (s : System) (v : Inv s) where
  pub survives :
      (k : String) (a : ℕ)
      → lookup k (clean now s.protector).state_by_login ≡ some a
      → lookup k s.protector.state_by_login ≡ some a
  unfolding clean
  survives k a h =
      kept-some s.protector now (lookup k s.protector.state_by_login) a
        (sym (lookup-expire s.protector now k s.protector.state_by_login v.unique) ∙ h)

  clean-Inv : Inv (record s { protector = clean now s.protector })
  clean-Inv = record {
    counted = unfold clean in v.counted;
    mapped = λ k a h. unfold clean in v.mapped k a (survives k a h);
    separate = λ j k a h h'. v.separate j k a (survives j a h) (survives k a h');
    unique = unfold clean in expire-NodupKeys s.protector now s.protector.state_by_login v.unique;
    held = unfold clean in v.held;
    bounded = v.bounded;
  }

Step-Inv : {s t : System} → Step s t → Inv s → Inv t
Step-Inv {s} (fails now login status f h) v =
    begin_failure-Inv now (login_result login status) login s h v
Step-Inv {s} (misses_token now h) v = begin_failure-Inv now token_not_found unknown_token s h v
Step-Inv {s} (enters before after c d a e) v = enters-Inv s before after c d a v e
Step-Inv {s} (leaves before after c d a e) v = leaves-Inv s before after c d a v e
Step-Inv {s} (cleans now) v = clean-Inv now s v

-- Whatever the failing calls, the goroutines and the cleaner do and in whatever order, every pointer
-- stays good, no two logins share a state, and the pending failures of a state are exactly the
-- goroutines that sleep for it.
pub Reach-Inv : (c : Config) {s : System} → Reach (init c) s → Inv s
Reach-Inv c here = init-Inv c
Reach-Inv c (next r st) = Step-Inv st (Reach-Inv c r)
