-- ===== src/Auth/FailureTracker/Isolation.antt =====
-- Calls for one identity do not touch another (src/auth/failure_tracker.rs).
use Prim.Native.String.{len}
use text.Mathlib.Text.{◌==◌ as str_eq}
use text.Mathlib.TextEquality.{eq_iff}
use kipuka.Common.{
  ℕ, ◌≤◌, ◌<◌, String, false, not, ◌≡◌, refl, ap, arith, Option, none, some, List, [], ◌∷◌,
  string_eq, leb, if◌then◌else◌, ◌∙◌, sym,
}
use kipuka.Common.Dict
use kipuka.Common.Dict.{Dict, kept, get-insert, get-remove, get-retain, IsDistinct}
use kipuka.Auth.FailureTracker.{
  LockoutPolicy, LockoutStatus, allowed, locked_out, Record, FailureTracker, Op, checks, fails,
  succeeds, new, prune, prune_if_due, check, or_insert, count_failure, second, status_at,
  record_failure, record_success, step, run_ops, is_enabled, is_prunable, max_identity,
}
use kipuka.Auth.FailureTracker.Invariant.{
  IsValid, step-IsValid, run_ops-IsValid, run_ops-IsValid_from,
}

-- What `check` answers, from the lock of the record alone.
verdict : LockoutPolicy → String → Option LockoutStatus → LockoutStatus
verdict p i none =
    if is_enabled p
    then (if leb (len i) max_identity then allowed else locked_out second)
    else allowed
verdict p i (some s) =
    if is_enabled p then (if leb (len i) max_identity then s else locked_out second) else allowed

-- Up to a time, nothing but checks and calls for other identities.
abbrev pub Foreign : String → ℕ → List (Op × ℕ) → Type 0
Foreign i at [] = Unit {0}
Foreign i at ((checks j, now) ∷ ops) = (now ≤ at) × Foreign i at ops
Foreign i at ((fails j, now) ∷ ops) = (now ≤ at) × (str_eq j i ≡ false) × Foreign i at ops
Foreign i at ((succeeds j, now) ∷ ops) = (now ≤ at) × (str_eq j i ≡ false) × Foreign i at ops

module _ (p : LockoutPolicy) (i : String) where
  -- The lock of an identity at a time.
  abbrev lock : FailureTracker → ℕ → Option LockoutStatus
  lock t now = status_at (Dict.get t.records i) now

  lock-prune_if_due :
      (t : FailureTracker) (now later : ℕ)
      → IsValid p t
      → now ≤ later
      → lock (prune_if_due t now) later ≡ lock t later
  unfolding prune_if_due prune is_prunable status_at
  lock-prune_if_due t now later v h =
      let keep = λ (rec : Record). not (is_prunable now t.policy.failure_window rec) in
      ground (arith, get-retain keep t.records i v.distinct)

  check-verdict :
      (t : FailureTracker) (now : ℕ) → IsValid p t → (check t i now).0 ≡ verdict p i (lock t now)
  unfolding check verdict
  check-verdict t now v = ground (arith, v.policy, lock-prune_if_due t now now v (omega arith))

  lock-check :
      (t : FailureTracker) (j : String) (now later : ℕ)
      → IsValid p t
      → now ≤ later
      → lock (check t j now).1 later ≡ lock t later
  unfolding check status_at is_prunable
  lock-check t j now later v h = ground (
    arith,
    lock-prune_if_due t now later v h,
    get-remove t.records j i,
    get-remove (prune_if_due t now).records j i,
    eq_iff j i,
  )

  lock-record_failure :
      (t : FailureTracker) (j : String) (now later : ℕ)
      → IsValid p t
      → now ≤ later
      → str_eq j i ≡ false
      → lock (record_failure t j now).1 later ≡ lock t later
  unfolding record_failure
  lock-record_failure t j now later v h n =
      let t' = prune_if_due t now in
      let rec = count_failure t'.policy now (or_insert (Dict.get t'.records j) now) in
      ground (arith, lock-prune_if_due t now later v h, get-insert t'.records j i rec.1)

  lock-record_success :
      (t : FailureTracker) (j : String) (now later : ℕ)
      → str_eq j i ≡ false
      → lock (record_success t j now) later ≡ lock t later
  unfolding record_success
  lock-record_success t j now later n = ground (arith, get-remove t.records j i)

  lock-run_ops :
      (t : FailureTracker) (ops : List (Op × ℕ)) (at : ℕ)
      → IsValid p t
      → Foreign i at ops
      → lock (run_ops t ops) at ≡ lock t at
  unfolding run_ops step
  lock-run_ops t [] at v f = refl
  lock-run_ops t ((checks j, now) ∷ ops) at v f =
      lock-run_ops (check t j now).1 ops at (step-IsValid p t (checks j) now v) f.1
      ∙ lock-check t j now at v f.0
  lock-run_ops t ((fails j, now) ∷ ops) at v f =
      lock-run_ops (record_failure t j now).1 ops at (step-IsValid p t (fails j) now v) f.2
      ∙ lock-record_failure t j now at v f.0 f.1
  lock-run_ops t ((succeeds j, now) ∷ ops) at v f =
      lock-run_ops (record_success t j now) ops at (step-IsValid p t (succeeds j) now v) f.2
      ∙ lock-record_success t j now at f.1

-- Calls for other identities, and checks of any, up to a time do not change what a check of an
-- identity answers at that time, prunes at capacity included.
pub check_unaffected :
    (p : LockoutPolicy) (start : ℕ) (history : List (Op × ℕ)) (i : String) (at : ℕ)
    (ops : List (Op × ℕ))
    → Foreign i at ops
    → (check (run_ops (run_ops (new p start) history) ops) i at).0
      ≡ (check (run_ops (new p start) history) i at).0
check_unaffected p start history i at ops f =
    let t = run_ops (new p start) history in
    let v = run_ops-IsValid p start history in
    check-verdict p i (run_ops t ops) at (run_ops-IsValid_from p t ops v)
    ∙ ap (verdict p i) (lock-run_ops p i t ops at v f)
    ∙ sym (check-verdict p i t at v)

-- With the control on, a successful login of an identity of at most 4096 bytes that is not locked at
-- the time forgets its failures: it has no record afterwards.
pub success_clears :
    (p : LockoutPolicy) (start : ℕ) (history : List (Op × ℕ)) (i : String) (now : ℕ)
    → 0 < p.max_failures
    → len i ≤ max_identity
    → (check (run_ops (new p start) history) i now).0 ≡ allowed
    → Dict.get (record_success (run_ops (new p start) history) i now).records i ≡ none
unfolding record_success is_enabled verdict status_at
success_clears p start history i now on h e =
    let t = run_ops (new p start) history in
    let v = run_ops-IsValid p start history in
    ground (arith, v.policy, check-verdict p i t now v, get-remove t.records i i, eq_iff i i)
