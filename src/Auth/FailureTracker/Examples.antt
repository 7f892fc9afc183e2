-- ===== src/Auth/FailureTracker/Examples.antt =====
-- Runs of the tracker (src/auth/failure_tracker.rs), and its theorems at concrete inputs.
use kipuka.Common.{ℕ, ◌+◌, ◌-◌, ◌≡◌, refl, arith, List, [], ◌∷◌, string_eq}
use kipuka.Common.Dict
use kipuka.Auth.FailureTracker.{
  LockoutPolicy, locked_out, Op, checks, fails, succeeds, new, check, record_failure, run_ops,
  is_enabled, status_at, count_failure, restart, prune, prune_if_due, is_prunable,
}
use kipuka.Auth.FailureTracker.Invariant.{IsValid, run_ops-IsValid}
use kipuka.Auth.FailureTracker.Lockout.{lockout_holds}
use kipuka.Auth.FailureTracker.Threshold.{locks_at_threshold}
use kipuka.Auth.FailureTracker.Isolation.{check_unaffected}

abbrev policy : LockoutPolicy
policy = record { max_failures = 3; failure_window = 60; lockout_duration = 300 }

-- Two failures of bob, among others.
abbrev two_failures : List (Op × ℕ)
two_failures = (fails "bob", 10) ∷ (fails "eve", 11) ∷ (checks "bob", 12) ∷ (fails "bob", 13) ∷ []

abbrev three_failures : List (Op × ℕ)
three_failures = (fails "bob", 10) ∷ (fails "bob", 13) ∷ (fails "bob", 20) ∷ []

third_failure_locks :
    (record_failure (run_ops (new policy 0) two_failures) "bob" 20).0 ≡ locked_out 300
unfolding run_ops new check record_failure is_enabled status_at count_failure restart prune
    prune_if_due is_prunable Dict.get Dict.insert Dict.remove Dict.retain
third_failure_locks = refl

run_ops-IsValid_example : IsValid policy (run_ops (new policy 0) two_failures)
run_ops-IsValid_example = run_ops-IsValid policy 0 two_failures

lockout_holds_example :
    (check
      (run_ops
        (record_failure (run_ops (new policy 0) two_failures) "bob" 20).1
        ((succeeds "bob", 30) ∷ (fails "eve", 319) ∷ []))
      "bob"
      300).0
    ≡ locked_out (20 + 300 - 300)
lockout_holds_example =
    lockout_holds policy 0 two_failures "bob" 20 300
      ((succeeds "bob", 30) ∷ (fails "eve", 319) ∷ []) 300 (omega arith) (omega arith)
      third_failure_locks (omega arith) (omega arith)

locks_at_threshold_example :
    (record_failure
      (run_ops
        (record_failure (run_ops (new policy 0) []) "bob" 10).1
        ((fails "eve", 11) ∷ (fails "bob", 13) ∷ []))
      "bob"
      20).0
    ≡ locked_out 300
unfolding run_ops new Dict.get
locks_at_threshold_example =
    locks_at_threshold policy 0 [] "bob" 10 20 ((fails "eve", 11) ∷ (fails "bob", 13) ∷ [])
      (omega arith) (omega arith) refl (omega arith) (omega arith) tt (omega arith) (omega arith)

check_unaffected_example :
    (check
      (run_ops
        (run_ops (new policy 0) three_failures)
        ((fails "eve", 30) ∷ (checks "bob", 40) ∷ []))
      "bob"
      50).0
    ≡ (check (run_ops (new policy 0) three_failures) "bob" 50).0
check_unaffected_example =
    check_unaffected policy 0 three_failures "bob" 50 ((fails "eve", 30) ∷ (checks "bob", 40) ∷ [])
      (omega arith, refl, (omega arith, tt))
