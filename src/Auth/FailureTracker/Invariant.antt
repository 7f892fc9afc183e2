-- ===== src/Auth/FailureTracker/Invariant.antt =====
-- What every call of the tracker keeps (src/auth/failure_tracker.rs).
use kipuka.Common.{
  ℕ, ◌&&◌, leb, ◌≤◌, ◌<◌, String, false, not, ◌≡◌, refl, arith, none, some, List, [], ◌∷◌, length,
  string_eq, Option-cases, inl, inr,
}
use kipuka.Common.Dict
use kipuka.Common.Dict.{
  Dict, IsDistinct, get-empty, empty-IsDistinct, get-insert, get-remove, get-retain,
  insert-IsDistinct, remove-IsDistinct, retain-IsDistinct, size-insert, size-remove-le,
  size-retain-le,
}
use kipuka.Auth.FailureTracker.{
  LockoutPolicy, Record, FailureTracker, Op, checks, fails, succeeds, new, prune, prune_if_due,
  check, or_insert, restart, count_failure, status_at, record_failure, record_success, step,
  run_ops, is_enabled, is_prunable, max_records,
}

-- Of a record: the count is within the limit, and at the limit only under a lock.
pub record Counts (p : LockoutPolicy) (rec : Record) : Type 0 where
  pub within : rec.failures ≤ p.max_failures
  pub open_ : rec.locked_until ≡ none → rec.failures < p.max_failures

pub record IsValid (p : LockoutPolicy) (t : FailureTracker) : Type 0 where
  pub policy : t.policy ≡ p
  pub distinct : IsDistinct t.records
  pub bounded : length t.records ≤ max_records
  pub counts : (i : String) (rec : Record) → Dict.get t.records i ≡ some rec → Counts p rec

module _ (p : LockoutPolicy) where
  prune-IsValid : (t : FailureTracker) (now : ℕ) → IsValid p t → IsValid p (prune t now)
  unfolding prune
  prune-IsValid t now v =
      let keep = λ (rec : Record). not (is_prunable now t.policy.failure_window rec) in
      record {
        policy = v.policy;
        distinct = retain-IsDistinct keep t.records v.distinct;
        bounded = omega (arith, size-retain-le keep t.records, v.bounded);
        counts = λ i rec e. v.counts i rec (ground (arith, get-retain keep t.records i v.distinct));
      }

  pub prune_if_due-IsValid :
      (t : FailureTracker) (now : ℕ) → IsValid p t → IsValid p (prune_if_due t now)
  unfolding prune_if_due
  prune_if_due-IsValid t now v = ground (arith, prune-IsValid t now v)

  remove-IsValid :
      (t : FailureTracker) (i : String)
      → IsValid p t
      → IsValid p (record t { records = Dict.remove t.records i })
  remove-IsValid t i v = record {
    policy = v.policy;
    distinct = remove-IsDistinct t.records i v.distinct;
    bounded = omega (arith, size-remove-le t.records i, v.bounded);
    counts = λ j rec e. v.counts j rec (ground (arith, get-remove t.records i j));
  }

  check-IsValid :
      (t : FailureTracker) (i : String) (now : ℕ) → IsValid p t → IsValid p (check t i now).1
  unfolding check
  check-IsValid t i now v = ground (
    arith,
    prune_if_due-IsValid t now v,
    remove-IsValid t i v,
    remove-IsValid (prune_if_due t now) i,
  )

  count_failure-Counts :
      (now : ℕ) (rec : Record)
      → 0 < p.max_failures
      → Counts p rec
      → status_at (some rec) now ≡ none
      → Counts p (count_failure p now rec).1
  unfolding count_failure restart status_at
  count_failure-Counts now rec h c e = ground (arith, c.open_)

  insert-IsValid :
      (t : FailureTracker) (i : String) (rec : Record)
      → IsValid p t
      → (leb max_records (length t.records) && not (Dict.contains_key t.records i)) ≡ false
      → Counts p rec
      → IsValid p (record t { records = Dict.insert t.records i rec })
  insert-IsValid t i rec v room c = record {
    policy = v.policy;
    distinct = insert-IsDistinct t.records i rec v.distinct;
    bounded = ground (arith, size-insert t.records i rec, v.bounded);
    counts = λ j r e. ground (arith, get-insert t.records i j rec, v.counts j r, c);
  }

  or_insert-Counts :
      (t : FailureTracker) (i : String) (now : ℕ)
      → 0 < p.max_failures
      → IsValid p t
      → Counts p (or_insert (Dict.get t.records i) now)
  or_insert-Counts t i now h v = elim (Option-cases (Dict.get t.records i)) [
    | inl e ↦ rw e (record { within = omega arith; open_ = λ _. h })
    | inr (rec, e) ↦ rw e (v.counts i rec e)
  ]

  pub record_failure-IsValid :
      (t : FailureTracker) (i : String) (now : ℕ)
      → IsValid p t
      → IsValid p (record_failure t i now).1
  unfolding record_failure is_enabled
  record_failure-IsValid t i now v =
      let t' = prune_if_due t now in
      let v' = prune_if_due-IsValid t now v in
      let rec = or_insert (Dict.get t'.records i) now in
      ground (
        arith,
        v,
        v.policy,
        v',
        v'.policy,
        or_insert-Counts t' i now,
        count_failure-Counts now rec,
        insert-IsValid t' i (count_failure p now rec).1 v',
      )

  record_success-IsValid :
      (t : FailureTracker) (i : String) (now : ℕ) → IsValid p t → IsValid p (record_success t i now)
  unfolding record_success
  record_success-IsValid t i now v = ground (arith, remove-IsValid t i v)

  pub step-IsValid :
      (t : FailureTracker) (op : Op) (now : ℕ) → IsValid p t → IsValid p (step t op now)
  unfolding step
  step-IsValid t (checks i) now v = check-IsValid t i now v
  step-IsValid t (fails i) now v = record_failure-IsValid t i now v
  step-IsValid t (succeeds i) now v = record_success-IsValid t i now v

  pub run_ops-IsValid_from :
      (t : FailureTracker) (ops : List (Op × ℕ)) → IsValid p t → IsValid p (run_ops t ops)
  unfolding run_ops
  run_ops-IsValid_from t [] v = v
  run_ops-IsValid_from t ((op, now) ∷ ops) v =
      run_ops-IsValid_from (step t op now) ops (step-IsValid t op now v)

-- After any history of calls the tracker holds at most 10,000 identities, each once, and of each
-- it counts at most `max_failures` failures, fewer where no lock is set.
pub run_ops-IsValid :
    (p : LockoutPolicy) (start : ℕ) (ops : List (Op × ℕ)) → IsValid p (run_ops (new p start) ops)
unfolding new
run_ops-IsValid p start ops = run_ops-IsValid_from p (new p start) ops (record {
  policy = refl;
  distinct = empty-IsDistinct String Record;
  bounded = omega arith;
  counts = λ i rec e. absurd (cc (get-empty {V = Record} i));
})
