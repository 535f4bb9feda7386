-- ===== src/Protector/Tests.antt =====
-- Runs of internal/handlers/protector/bfa.go.
use Prim.Native.Nat.{min}
use kubauth.Base.{◌≡◌, refl, true, [], ◌∷◌, ◌++◌, ◌||◌, ◌-◌, ◌*◌, ltb, lookup, arith}
use kubauth.Base.Int.{pos, add_int64}
use kubauth.Proto.{password_fail}
use kubauth.Protector.{
  default_config, second, unknown_user, unknown_token, entry_for_login, entry_for_token,
  delay_from_failure_count, record_failure, add_pending, is_failure,
}
use kubauth.Protector.Delay.{delay_lem}
use kubauth.Protector.Steps.{
  System, Reach, init, Thread, recorded, sleeping, enters, login_result, begin_failure, fails, here,
  next,
}
use kubauth.Protector.Steps.Pending.{Inv, Reach-Inv}
use kubauth.Protector.Steps.Locks.{waiting, entry_lem}

delay_lem_example :
    delay_from_failure_count default_config (pos 7) ≡ pos (min ((7 - 4) * second) (15 * second))
delay_lem_example =
    delay_lem default_config 7 4 second (15 * second) refl refl refl (omega arith) (omega arith)
      (omega arith)

-- One failure of alice.
abbrev one_failed : System
one_failed = begin_failure 5 (login_result "alice" password_fail) "alice" (init default_config)

password_fail_is_failure : is_failure password_fail ≡ true
unfolding is_failure
password_fail_is_failure = refl

abbrev one_failed-Reach : Reach (init default_config) one_failed
one_failed-Reach =
    next here (fails 5 "alice" password_fail (password_fail_is_failure) (omega arith))

Reach-Inv_example : Inv one_failed
Reach-Inv_example = Reach-Inv default_config one_failed-Reach

-- That goroutine, asleep.
abbrev asleep : Thread
asleep = sleeping (login_result "alice" password_fail) (pos 0) 0

abbrev one_sleeps : System
one_sleeps = record {
  protector = add_pending (pos 1) 0 one_failed.protector;
  threads = [] ++ asleep ∷ [];
}

failed_threads :
    one_failed.threads ≡ [] ++ recorded (login_result "alice" password_fail) (pos 0) 0 ∷ []
unfolding begin_failure record_failure delay_from_failure_count lookup add_int64
failed_threads = refl

abbrev one_sleeps-Reach : Reach (init default_config) one_sleeps
one_sleeps-Reach =
    next one_failed-Reach
      (enters [] [] (login_result "alice" password_fail) (pos 0) 0 failed_threads)

one_sleeps_limit : one_sleeps.protector.max_pending_failure ≡ pos 20
unfolding begin_failure record_failure lookup add_pending
one_sleeps_limit = refl

entry_lem_example :
    let m = one_sleeps.protector.state_by_login in
    (entry_for_login one_sleeps.protector "alice" ≡ (
      ltb 20 (waiting one_sleeps "alice" (lookup "alice" m))
      || ltb 20 (waiting one_sleeps unknown_user (lookup unknown_user m))))
    × (entry_for_token one_sleeps.protector
        ≡ ltb 20 (waiting one_sleeps unknown_token (lookup unknown_token m)))
entry_lem_example = entry_lem default_config 20 "alice" one_sleeps_limit one_sleeps-Reach
