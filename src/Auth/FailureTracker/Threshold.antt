-- ===== src/Auth/FailureTracker/Threshold.antt =====
-- The failure that reaches the threshold locks, and none before it (src/auth/failure_tracker.rs).
use Prim.Native.String.{len}
use text.Mathlib.Text.{◌==◌ as str_eq}
use text.Mathlib.TextEquality.{eq_iff}
use kipuka.Common.{
  ℕ, ◌+◌, ◌≤◌, ◌<◌, String, false, not, ◌≡◌, ap, ◌∙◌, Bool-cases, inl, inr, arith, none, some, List,
  [], ◌∷◌, length, string_eq, leb, if◌then◌else◌,
}
use kipuka.Common.Dict
use kipuka.Common.Dict.{Dict, get-insert, get-remove, get-retain, size-retain-le, IsDistinct}
use kipuka.Auth.FailureTracker.{
  LockoutPolicy, allowed, locked_out, Record, FailureTracker, Op, checks, fails, succeeds, new,
  prune, prune_if_due, check, or_insert, restart, count_failure, status_at, record_failure,
  record_success, step, run_ops, is_enabled, is_prunable, max_records, max_identity,
}
use kipuka.Auth.FailureTracker.Invariant.{
  IsValid, prune_if_due-IsValid, step-IsValid, record_failure-IsValid, run_ops-IsValid_from,
  run_ops-IsValid,
}
use kipuka.Auth.FailureTracker.Lockout.{Before}

-- How often an identity fails in a history, and that it never succeeds there.
abbrev pub failures_of : String → List (Op × ℕ) → ℕ
failures_of i [] = 0
failures_of i ((fails j, now) ∷ ops) = (if str_eq j i then 1 else 0) + failures_of i ops
failures_of i ((checks j, now) ∷ ops) = failures_of i ops
failures_of i ((succeeds j, now) ∷ ops) = failures_of i ops

abbrev pub NoSuccess : String → List (Op × ℕ) → Type 0
NoSuccess i [] = Unit {0}
NoSuccess i ((succeeds j, now) ∷ ops) = (str_eq j i ≡ false) × NoSuccess i ops
NoSuccess i ((fails j, now) ∷ ops) = NoSuccess i ops
NoSuccess i ((checks j, now) ∷ ops) = NoSuccess i ops

add_shift : (n : ℕ) → 1 + n + 1 ≡ 2 + n
add_shift n = omega arith

-- A record in its first window, with no lock.
abbrev pub counted : ℕ → ℕ → Record
counted k s = record { failures = k; window_start = s; locked_until = none }

module _ (p : LockoutPolicy) (i : String) (s : ℕ) (short : len i ≤ max_identity)
    (open_ : 0 < p.failure_window) where
  get-prune_if_due :
      (t : FailureTracker) (now k : ℕ)
      → IsValid p t
      → now < s + p.failure_window
      → Dict.get t.records i ≡ some (counted k s)
      → Dict.get (prune_if_due t now).records i ≡ some (counted k s)
  unfolding prune_if_due prune is_prunable
  get-prune_if_due t now k v h e =
      let keep = λ (rec : Record). not (is_prunable now t.policy.failure_window rec) in
      ground (arith, get-retain keep t.records i v.distinct, v.policy)

  get-check :
      (t : FailureTracker) (j : String) (now k : ℕ)
      → IsValid p t
      → now < s + p.failure_window
      → Dict.get t.records i ≡ some (counted k s)
      → Dict.get (check t j now).1.records i ≡ some (counted k s)
  unfolding check is_prunable
  get-check t j now k v h e = ground (
    arith,
    v.policy,
    (prune_if_due-IsValid p t now v).policy,
    get-prune_if_due t now k v h e,
    get-remove t.records j i,
    get-remove (prune_if_due t now).records j i,
    eq_iff j i,
  )

  get-record_failure_other :
      (t : FailureTracker) (j : String) (now k : ℕ)
      → IsValid p t
      → now < s + p.failure_window
      → str_eq j i ≡ false
      → Dict.get t.records i ≡ some (counted k s)
      → Dict.get (record_failure t j now).1.records i ≡ some (counted k s)
  unfolding record_failure
  get-record_failure_other t j now k v h n e =
      let t' = prune_if_due t now in
      let rec = count_failure t'.policy now (or_insert (Dict.get t'.records j) now) in
      ground (arith, get-prune_if_due t now k v h e, get-insert t'.records j i rec.1)

  -- The next failure of the identity itself.
  count_failure_next :
      (now k : ℕ)
      → now < s + p.failure_window
      → (count_failure p now (counted k s)).0
        ≡ (if leb p.max_failures (k + 1) then locked_out p.lockout_duration else allowed)
  unfolding count_failure restart
  count_failure_next now k h = ground arith

  record_failure_next :
      (t : FailureTracker) (now k : ℕ)
      → 0 < p.max_failures
      → IsValid p t
      → now < s + p.failure_window
      → Dict.get t.records i ≡ some (counted k s)
      → (record_failure t i now).0
        ≡ (if leb p.max_failures (k + 1) then locked_out p.lockout_duration else allowed)
  unfolding record_failure is_enabled status_at
  record_failure_next t now k on v h e = ground (
    arith,
    v.policy,
    (prune_if_due-IsValid p t now v).policy,
    get-prune_if_due t now k v h e,
    count_failure_next now k h,
  )

  get-record_failure_self :
      (t : FailureTracker) (now k : ℕ)
      → k + 1 < p.max_failures
      → IsValid p t
      → now < s + p.failure_window
      → Dict.get t.records i ≡ some (counted k s)
      → Dict.get (record_failure t i now).1.records i ≡ some (counted (k + 1) s)
  unfolding record_failure is_enabled status_at count_failure restart
  get-record_failure_self t now k on v h e =
      let t' = prune_if_due t now in
      ground (
        arith,
        v.policy,
        (prune_if_due-IsValid p t now v).policy,
        get-prune_if_due t now k v h e,
        get-insert t'.records i i (counted (k + 1) s),
        eq_iff i i,
      )

  get-record_success_other :
      (t : FailureTracker) (j : String) (now k : ℕ)
      → str_eq j i ≡ false
      → Dict.get t.records i ≡ some (counted k s)
      → Dict.get (record_success t j now).records i ≡ some (counted k s)
  unfolding record_success
  get-record_success_other t j now k n e = ground (arith, get-remove t.records j i)

  -- Inside the window the record counts the identity's failures, whatever other calls come between.
  get-run_ops :
      (t : FailureTracker) (ops : List (Op × ℕ)) (k : ℕ)
      → k + failures_of i ops < p.max_failures
      → IsValid p t
      → Before (s + p.failure_window) ops
      → NoSuccess i ops
      → Dict.get t.records i ≡ some (counted k s)
      → Dict.get (run_ops t ops).records i ≡ some (counted (k + failures_of i ops) s)
  unfolding run_ops step
  get-run_ops t [] k h v b n e = e ∙ ap (λ m. some (counted m s)) (omega arith)
  get-run_ops t ((checks j, now) ∷ ops) k h v b n e =
      get-run_ops (check t j now).1 ops k h (step-IsValid p t (checks j) now v) b.1 n
        (get-check t j now k v b.0 e)
  get-run_ops t ((succeeds j, now) ∷ ops) k h v b n e =
      get-run_ops (record_success t j now) ops k h (step-IsValid p t (succeeds j) now v) b.1 n.1
        (get-record_success_other t j now k n.0 e)
  get-run_ops t ((fails j, now) ∷ ops) k h v b n e = elim (Bool-cases (str_eq j i)) [
    | inl q ↦
        let h' : k + 1 + failures_of i ops < p.max_failures = ground arith in
        get-run_ops (record_failure t j now).1 ops (k + 1) h' (record_failure-IsValid p t j now v)
          b.1 n (rw ((eq_iff j i).0 q) (get-record_failure_self t now k (omega arith) v b.0 e))
        ∙ ap (λ m. some (counted m s)) (ground arith)
    | inr q ↦
        let h' : k + failures_of i ops < p.max_failures = ground arith in
        get-run_ops (record_failure t j now).1 ops k h' (record_failure-IsValid p t j now v) b.1 n
          (get-record_failure_other t j now k v b.0 q e)
        ∙ ap (λ m. some (counted m s)) (ground arith)
  ]

  get-prune_if_due-none :
      (t : FailureTracker) (now : ℕ)
      → IsValid p t
      → Dict.get t.records i ≡ none
      → (Dict.get (prune_if_due t now).records i ≡ none)
        × (length (prune_if_due t now).records ≤ length t.records)
  unfolding prune_if_due prune
  get-prune_if_due-none t now v e =
      let keep = λ (rec : Record). not (is_prunable now t.policy.failure_window rec) in
      ground (arith, get-retain keep t.records i v.distinct, size-retain-le keep t.records)

  get-record_failure_first :
      (t : FailureTracker)
      → 1 < p.max_failures
      → IsValid p t
      → length t.records < max_records
      → Dict.get t.records i ≡ none
      → Dict.get (record_failure t i s).1.records i ≡ some (counted 1 s)
  unfolding record_failure is_enabled status_at count_failure restart
  get-record_failure_first t on v room e =
      let t' = prune_if_due t s in
      ground (
        arith,
        v.policy,
        (prune_if_due-IsValid p t s v).policy,
        get-prune_if_due-none t s v e,
        get-insert t'.records i i (counted 1 s),
        eq_iff i i,
      )

-- The failure that reaches `max_failures` locks for `lockout_duration`, and none before it does.
-- Take an identity of at most 4096 bytes that has no record while there is room for one, and let
-- it fail once, at time `s`, and then `failures_of i ops` times among calls for any identities,
-- with no success of its own, each before `s + failure_window`, and fewer than `max_failures` in
-- all. The next failure before `s + failure_window` is then answered with a lockout exactly when
-- it is number `max_failures`.
pub locks_at_threshold :
    (p : LockoutPolicy) (start : ℕ) (history : List (Op × ℕ)) (i : String) (s now : ℕ)
    (ops : List (Op × ℕ))
    → len i ≤ max_identity
    → 0 < p.failure_window
    → Dict.get (run_ops (new p start) history).records i ≡ none
    → length (run_ops (new p start) history).records < max_records
    → Before (s + p.failure_window) ops
    → NoSuccess i ops
    → 1 + failures_of i ops < p.max_failures
    → now < s + p.failure_window
    → (record_failure (run_ops (record_failure (run_ops (new p start) history) i s).1 ops) i now).0
      ≡ (if leb p.max_failures (2 + failures_of i ops)
          then locked_out p.lockout_duration
          else allowed)
locks_at_threshold p start history i s now ops short open_ none_ room b n h c =
    let t = run_ops (new p start) history in
    let v = run_ops-IsValid p start history in
    let v' = record_failure-IsValid p t i s v in
    let first = get-record_failure_first p i s short open_ t (omega arith) v room none_ in
    record_failure_next p i s short open_ _ now (1 + failures_of i ops) (omega arith)
      (run_ops-IsValid_from p (record_failure t i s).1 ops v') c
      (get-run_ops p i s short open_ (record_failure t i s).1 ops 1 h v' b n first)
    ∙ ap (λ (m : ℕ). if leb p.max_failures m then locked_out p.lockout_duration else allowed)
        (add_shift (failures_of i ops))

-- A lockout that has run out leaves nothing behind: where a threshold above 1 is set and there is
-- room for a record, the next failure of an identity of at most 4096 bytes is allowed, as the first
-- of a new window, although the old window may still be open.
pub restarts_after_lockout :
    (p : LockoutPolicy) (start : ℕ) (history : List (Op × ℕ)) (i : String) (now until : ℕ)
    (rec : Record)
    → len i ≤ max_identity
    → 1 < p.max_failures
    → length (run_ops (new p start) history).records < max_records
    → Dict.get (run_ops (new p start) history).records i ≡ some rec
    → rec.locked_until ≡ some until
    → until ≤ now
    → ((record_failure (run_ops (new p start) history) i now).0 ≡ allowed)
      × (Dict.get (record_failure (run_ops (new p start) history) i now).1.records i
          ≡ some (counted 1 now))
unfolding record_failure is_enabled status_at count_failure restart prune_if_due prune
restarts_after_lockout p start history i now until rec short on room e u h =
    let t = run_ops (new p start) history in
    let v = run_ops-IsValid p start history in
    let keep = λ (r : Record). not (is_prunable now t.policy.failure_window r) in
    let t' = prune_if_due t now in
    ground (
      arith,
      v.policy,
      get-retain keep t.records i v.distinct,
      size-retain-le keep t.records,
      get-insert t'.records i i (counted 1 now),
      eq_iff i i,
    )

-- The window is fixed by its first failure: from `failure_window` after that failure on, the next
-- one is allowed as the first of a new window, however many were counted and however short the time
-- since the last of them. The identity has at most 4096 bytes and is not locked, the threshold is
-- above 1, and there is room for a record.
pub window_is_fixed :
    (p : LockoutPolicy) (start : ℕ) (history : List (Op × ℕ)) (i : String) (s k now : ℕ)
    → len i ≤ max_identity
    → 1 < p.max_failures
    → length (run_ops (new p start) history).records < max_records
    → Dict.get (run_ops (new p start) history).records i ≡ some (counted k s)
    → s + p.failure_window ≤ now
    → ((record_failure (run_ops (new p start) history) i now).0 ≡ allowed)
      × (Dict.get (record_failure (run_ops (new p start) history) i now).1.records i
          ≡ some (counted 1 now))
unfolding record_failure is_enabled status_at count_failure restart prune_if_due prune
window_is_fixed p start history i s k now short on room e h =
    let t = run_ops (new p start) history in
    let v = run_ops-IsValid p start history in
    let keep = λ (r : Record). not (is_prunable now t.policy.failure_window r) in
    let t' = prune_if_due t now in
    ground (
      arith,
      v.policy,
      get-retain keep t.records i v.distinct,
      size-retain-le keep t.records,
      get-insert t'.records i i (counted 1 now),
      eq_iff i i,
    )
