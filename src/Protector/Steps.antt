-- ===== src/Protector/Steps.antt =====
-- The goroutines that run `failure` of internal/handlers/protector/bfa.go, and the cleaner, as
-- interleavings of their atomic parts.
pub mod Pending
pub mod Locks
pub mod Isolation
pub mod Keys
use kubauth.Base.{ℕ, ◌+◌, ◌<◌, ◌^◌, ◌≡◌, String, true, List, [], ◌∷◌, ◌++◌, length}
use kubauth.Base.Int.{ℤ, pos, negsuc}
use kubauth.Proto.{Status}
use kubauth.Protector.{
  Protector, Config, new, is_failure, record_failure, add_pending, delay_from_failure_count, clean,
  unknown_token,
}

-- The call that a goroutine was started for.
pub data Call : Type 0 where
  login_result : String → Status → Call
  token_not_found : Call

-- A goroutine inside `failure`, with its call, its delay and its pointer: before
-- `pendingFailures.Add(1)`, or in its sleep.
pub data Thread : Type 0 where
  recorded sleeping : Call → (delay : ℤ) → ℕ → Thread

pub record System : Type 0 where
  pub protector : Protector
  pub threads : List Thread

-- `failure` up to the end of the lock, for a call: the delay comes from the count that was read there.
unfoldable pub begin_failure : ℕ → Call → String → System → System
begin_failure now call login s =
    let (a, p) = record_failure now login s.protector in
    record {
      protector = p;
      threads =
          recorded call (delay_from_failure_count p.config (p.objects a).nbr_of_failure) a
          ∷ s.threads;
    }

-- The atomic parts: `ProtectLoginResult` with a status that counts, or `TokenNotFound`, under the
-- lock; a goroutine before its sleep and behind it, each at its own time; the cleaner.
-- A process has less than 2 ^ 63 goroutines.
pub data Step (s : System) : System → Type 0 where
  fails :
      (now : ℕ) (login : String) (status : Status)
      → is_failure status ≡ true
      → length s.threads + 1 < 2 ^ 63
      → Step s (begin_failure now (login_result login status) login s)
  misses_token :
      (now : ℕ)
      → length s.threads + 1 < 2 ^ 63
      → Step s (begin_failure now token_not_found unknown_token s)
  enters :
      (before after : List Thread) (call : Call) (delay : ℤ) (a : ℕ)
      → s.threads ≡ before ++ recorded call delay a ∷ after
      → Step s (record {
        protector = add_pending (pos 1) a s.protector;
        threads = before ++ sleeping call delay a ∷ after;
      })
  leaves :
      (before after : List Thread) (call : Call) (delay : ℤ) (a : ℕ)
      → s.threads ≡ before ++ sleeping call delay a ∷ after
      → Step s
          (record { protector = add_pending (negsuc 0) a s.protector; threads = before ++ after })
  cleans : (now : ℕ) → Step s (record s { protector = clean now s.protector })

pub data Reach (s : System) : System → Type 0 where
  here : Reach s s
  next : {t u : System} → Reach s t → Step t u → Reach s u

abbrev pub init : Config → System
init c = record { protector = new c; threads = [] }
