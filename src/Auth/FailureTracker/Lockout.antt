-- ===== src/Auth/FailureTracker/Lockout.antt =====
-- A lockout is not lifted before its time (src/auth/failure_tracker.rs).
use Prim.Native.String.{len}
use text.Mathlib.TextEquality.{eq_iff}
use kipuka.Common.{
  ℕ, ◌+◌, ◌-◌, ◌≤◌, ◌<◌, String, true, not, ◌≡◌, arith, some, List, [], ◌∷◌, string_eq,
  Option-cases, inl, inr,
}
use kipuka.Common.Dict
use kipuka.Common.Dict.{Dict, kept, get-insert, get-remove, get-retain, IsDistinct}
use kipuka.Auth.FailureTracker.{
  LockoutPolicy, locked_out, Record, FailureTracker, Op, checks, fails, succeeds, new, prune,
  prune_if_due, check, or_insert, count_failure, status_at, record_failure, record_success, step,
  run_ops, is_enabled, is_prunable, max_identity,
}
use kipuka.Auth.FailureTracker.Invariant.{
  IsValid, step-IsValid, record_failure-IsValid, run_ops-IsValid_from, run_ops-IsValid,
}

-- Every call is made before a time.
abbrev pub Before : ℕ → List (Op × ℕ) → Type 0
Before until [] = Unit {0}
Before until ((op, now) ∷ ops) = (now < until) × Before until ops

module _ (i : String) (until : ℕ) (rec : Record) (u : rec.locked_until ≡ some until) where
  get-prune_if_due :
      (t : FailureTracker) (now : ℕ)
      → IsDistinct t.records
      → now < until
      → Dict.get t.records i ≡ some rec
      → Dict.get (prune_if_due t now).records i ≡ some rec
  unfolding prune_if_due prune is_prunable
  get-prune_if_due t now d h e =
      let keep = λ (rec : Record). not (is_prunable now t.policy.failure_window rec) in
      ground (arith, get-retain keep t.records i d)

  get-check :
      (t : FailureTracker) (j : String) (now : ℕ)
      → IsDistinct t.records
      → now < until
      → Dict.get t.records i ≡ some rec
      → Dict.get (check t j now).1.records i ≡ some rec
  unfolding check is_prunable
  get-check t j now d h e = ground (
    arith,
    get-prune_if_due t now d h e,
    get-remove t.records j i,
    get-remove (prune_if_due t now).records j i,
    eq_iff j i,
  )

  get-record_failure :
      (t : FailureTracker) (j : String) (now : ℕ)
      → IsDistinct t.records
      → now < until
      → Dict.get t.records i ≡ some rec
      → Dict.get (record_failure t j now).1.records i ≡ some rec
  unfolding record_failure status_at
  get-record_failure t j now d h e =
      let t' = prune_if_due t now in
      let counted = count_failure t'.policy now (or_insert (Dict.get t'.records j) now) in
      ground (arith, get-prune_if_due t now d h e, get-insert t'.records j i counted.1, eq_iff j i)

  get-record_success :
      (t : FailureTracker) (j : String) (now : ℕ)
      → now < until
      → Dict.get t.records i ≡ some rec
      → Dict.get (record_success t j now).records i ≡ some rec
  unfolding record_success
  get-record_success t j now h e = ground (arith, get-remove t.records j i, eq_iff j i)

  get-step :
      (t : FailureTracker) (op : Op) (now : ℕ)
      → IsDistinct t.records
      → now < until
      → Dict.get t.records i ≡ some rec
      → Dict.get (step t op now).records i ≡ some rec
  unfolding step
  get-step t (checks j) now d h e = get-check t j now d h e
  get-step t (fails j) now d h e = get-record_failure t j now d h e
  get-step t (succeeds j) now d h e = get-record_success t j now h e

  get-run_ops :
      (p : LockoutPolicy) (t : FailureTracker) (ops : List (Op × ℕ))
      → IsValid p t
      → Before until ops
      → Dict.get t.records i ≡ some rec
      → Dict.get (run_ops t ops).records i ≡ some rec
  unfolding run_ops
  get-run_ops p t [] v b e = e
  get-run_ops p t ((op, now) ∷ ops) v b e =
      get-run_ops p (step t op now) ops (step-IsValid p t op now v) b.1
        (get-step t op now v.distinct b.0 e)

status_at-until :
    (rec : Record) (now d : ℕ)
    → status_at (some rec) now ≡ some (locked_out d)
    → rec.locked_until ≡ some (now + d)
unfolding status_at
status_at-until rec now d e = ground arith

count_failure-until :
    (p : LockoutPolicy) (now : ℕ) (rec : Record) (d : ℕ)
    → (count_failure p now rec).0 ≡ locked_out d
    → (count_failure p now rec).1.locked_until ≡ some (now + d)
unfolding count_failure
count_failure-until p now rec d e = ground arith

-- What is refused sets a lock of that length.
record_failure-Locked :
    (p : LockoutPolicy) (t : FailureTracker) (i : String) (now : ℕ) {d : ℕ}
    → len i ≤ max_identity
    → IsValid p t
    → (record_failure t i now).0 ≡ locked_out d
    → (rec : Record) × (Dict.get (record_failure t i now).1.records i ≡ some rec)
      × (rec.locked_until ≡ some (now + d))
unfolding record_failure
record_failure-Locked p t i now {d} h v e =
    let t' = prune_if_due t now in
    let r0 = or_insert (Dict.get t'.records i) now in
    let counted = count_failure t'.policy now r0 in
    elim (Option-cases (status_at (some r0) now)) [
      | inl n ↦ (
        counted.1,
        ground (arith, get-insert t'.records i i counted.1, eq_iff i i),
        ground (arith, count_failure-until t'.policy now r0 d),
      )
      | inr (s, q) ↦
          (r0, ground (arith, status_at-until r0 now d), ground (arith, status_at-until r0 now d))
    ]

check_locked :
    (t : FailureTracker) (i : String) (now until : ℕ) (rec : Record)
    → is_enabled t.policy ≡ true
    → len i ≤ max_identity
    → now < until
    → IsDistinct t.records
    → rec.locked_until ≡ some until
    → Dict.get t.records i ≡ some rec
    → (check t i now).0 ≡ locked_out (until - now)
unfolding check status_at
check_locked t i now until rec on h b d u e =
    ground (arith, get-prune_if_due i until rec u t now d b e)

-- Once a failure of an identity of at most 4096 bytes is answered with a lockout of `d`, every check
-- of that identity before its end answers with the time that is left, whatever calls come between
-- in whatever order, successes of the same identity and prunes included, as long as each is made
-- before the end. The tracker is any that a history from the start reaches, with the control on.
pub lockout_holds :
    (p : LockoutPolicy) (start : ℕ) (history : List (Op × ℕ)) (i : String) (now d : ℕ)
    (later : List (Op × ℕ)) (at : ℕ)
    → 0 < p.max_failures
    → len i ≤ max_identity
    → (record_failure (run_ops (new p start) history) i now).0 ≡ locked_out d
    → Before (now + d) later
    → at < now + d
    → (check (run_ops (record_failure (run_ops (new p start) history) i now).1 later) i at).0
      ≡ locked_out (now + d - at)
unfolding is_enabled
lockout_holds p start history i now d later at on h e b c =
    let t = run_ops (new p start) history in
    let v = run_ops-IsValid p start history in
    let (rec, g, u) = record_failure-Locked p t i now h v e in
    let v' = record_failure-IsValid p t i now v in
    let v'' = run_ops-IsValid_from p (record_failure t i now).1 later v' in
    check_locked _ i at (now + d) rec (ground (arith, v''.policy)) h c v''.distinct u
      (get-run_ops i (now + d) rec u p (record_failure t i now).1 later v' b g)
