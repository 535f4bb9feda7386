-- ===== src/Protector.antt =====
-- internal/handlers/protector: delays that grow with the failures of a login, and the lock of a login
-- with too many failures that are still being delayed.
-- A `*loginState` is an address; times and durations are in nanoseconds. What the goroutines hold
-- between the atomic parts of `failure` is in `Thread`.
pub mod Delay
pub mod Steps
mod Tests
use kubauth.Base.{
  ℕ, ◌+◌, ◌*◌, String, Bool, true, false, ◌&&◌, ◌||◌, Option, none, some, List, [], ◌∷◌, ltb, eqb,
  if◌then◌else◌, Dict, lookup, insert,
}
use kubauth.Base.Int.{ℤ, pos, negsuc, gtb_ℤ, add_int64, sub_int64, mul_int64}
use kubauth.Proto.{Status, password_fail, invalid_old_password}

pub record LoginState : Type 0 where
  pub last_failure : ℕ
  pub nbr_of_failure : ℤ
  pub pending_failures : ℤ

pub record Config : Type 0 where
  pub clean_delay : ℕ
  pub free_failure : ℤ
  pub max_penalty : ℤ
  pub penalty_by_failure : ℤ
  pub max_pending_failure : ℤ

-- The values of `New` with no option.
abbrev pub second : ℕ
second = 1000000000

abbrev pub default_config : Config
default_config = record {
  clean_delay = 1800 * second;
  free_failure = pos 4;
  max_penalty = pos (15 * second);
  penalty_by_failure = pos second;
  max_pending_failure = pos 20;
}

-- `objects` is the memory that the pointers of `stateByLogin` lead into; `next` is unused.
pub record Protector : Type 0 where
  pub config : Config
  pub open config use *
  pub state_by_login : Dict ℕ
  pub objects : ℕ → LoginState
  pub next : ℕ

abbrev pub unknown_user : String
unknown_user = "_unknownUser_"

abbrev pub unknown_token : String
unknown_token = "_unknownToken_"

abbrev pub new_state : LoginState
new_state = record { last_failure = 0; nbr_of_failure = pos 0; pending_failures = pos 0 }

abbrev pub update : (ℕ → LoginState) → ℕ → LoginState → ℕ → LoginState
update objects a st b = if eqb b a then st else objects b

-- The protector of `New(true, …)` without options, before its first call.
abbrev pub new : Config → Protector
new c = record { config = c; state_by_login = []; objects = λ _. new_state; next = 0 }

-- Are too many failures of this key being delayed?
over_limit : Protector → Option ℕ → Bool
over_limit p none = false
over_limit p (some a) = gtb_ℤ (p.objects a).pending_failures p.max_pending_failure

unfoldable pub entry_for_login : Protector → String → Bool
unfolding over_limit
entry_for_login p login =
    over_limit p (lookup login p.state_by_login)
    || over_limit p (lookup unknown_user p.state_by_login)

unfoldable pub entry_for_token : Protector → Bool
unfolding over_limit
entry_for_token p = over_limit p (lookup unknown_token p.state_by_login)

unfoldable pub delay_from_failure_count : Config → ℤ → ℤ
delay_from_failure_count c count =
    if gtb_ℤ count c.free_failure
    then (let penalty = mul_int64 (sub_int64 count c.free_failure) c.penalty_by_failure in
        if gtb_ℤ penalty c.max_penalty then c.max_penalty else penalty)
    else pos 0

-- The part of `failure` under the lock, where the state of the login is known.
count_failure : ℕ → ℕ → Protector → ℕ × Protector
count_failure now a p =
    let st = p.objects a in
    (
      a,
      record p {
        objects = update p.objects a (record st {
          last_failure = now;
          nbr_of_failure = add_int64 st.nbr_of_failure (pos 1);
        });
      },
    )

pub allocate : String → Protector → Protector
allocate login p = record p {
  state_by_login = insert login p.next p.state_by_login;
  objects = update p.objects p.next new_state;
  next = p.next + 1;
}

failure_at : ℕ → String → Protector → Option ℕ → ℕ × Protector
unfolding count_failure allocate
failure_at now login p (some a) = count_failure now a p
failure_at now login p none = count_failure now p.next (allocate login p)

-- The part of `failure` under the lock: the pointer that it goes on with, and the protector.
unfoldable pub record_failure : ℕ → String → Protector → ℕ × Protector
unfolding failure_at
record_failure now login p = failure_at now login p (lookup login p.state_by_login)

-- `state.pendingFailures.Add(n)`.
unfoldable pub add_pending : ℤ → ℕ → Protector → Protector
add_pending n a p =
    let st = p.objects a in
    record p {
      objects =
          update p.objects a (record st { pending_failures = add_int64 st.pending_failures n });
    }

-- Does `ProtectLoginResult` call `failure`?
unfoldable pub is_failure : Status → Bool
is_failure password_fail = true
is_failure invalid_old_password = true
is_failure _ = false

-- The loop of `clean`.
pub expire : Protector → ℕ → Dict ℕ → Dict ℕ
expire p now [] = []
expire p now ((k, a) ∷ m) =
    let rest = expire p now m in
    if ltb ((p.objects a).last_failure + p.clean_delay) now then rest else (k, a) ∷ rest

unfoldable pub clean : ℕ → Protector → Protector
unfolding expire
clean now p = record p { state_by_login = expire p now p.state_by_login }
