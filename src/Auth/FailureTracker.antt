-- ===== src/Auth/FailureTracker.antt =====
-- src/auth/failure_tracker.rs: failure counting and account lockout. Times and durations are in
-- nanoseconds; the time that a call reads from the clock is its argument. `duration_since` is 0 for
-- a later instant, as `-` is on ℕ. The two mutexes are held for the whole of a call, so a call is
-- one step.
pub mod Invariant
pub mod Lockout
pub mod Threshold
pub mod Isolation
mod Examples
use Prim.Native.String.{len}
use kipuka.Common.{
  ℕ, ◌+◌, ◌-◌, ◌*◌, ◌^◌, min, String, Bool, true, false, not, ◌&&◌, ◌||◌, Option, none, some, List,
  [], ◌∷◌, ltb, leb, if◌then◌else◌, length, string_eq,
}
use kipuka.Common.Dict
use kipuka.Common.Dict.{Dict}

abbrev pub second : ℕ
second = 1_000_000_000

abbrev pub max_records : ℕ
max_records = 10_000

abbrev pub max_identity : ℕ
max_identity = 4096

pub record LockoutPolicy : Type 0 where
  pub max_failures : ℕ
  pub failure_window : ℕ
  pub lockout_duration : ℕ

unfoldable pub is_enabled : LockoutPolicy → Bool
is_enabled p = ltb 0 p.max_failures

pub data LockoutStatus : Type 0 where
  allowed : LockoutStatus
  locked_out : (retry_after : ℕ) → LockoutStatus

unfoldable pub is_locked : LockoutStatus → Bool
is_locked allowed = false
is_locked (locked_out retry_after) = true

pub record Record : Type 0 where
  pub failures : ℕ
  pub window_start : ℕ
  pub locked_until : Option ℕ

unfoldable pub is_prunable : ℕ → ℕ → Record → Bool
is_prunable now window rec =
    let lock_expired : Bool = elim rec.locked_until [ none ↦ true | some until ↦ leb until now ] in
    let window_stale = leb window (now - rec.window_start) in lock_expired && window_stale

pub record FailureTracker : Type 0 where
  pub policy : LockoutPolicy
  pub records : Dict String Record
  pub last_prune : ℕ

unfoldable pub new : LockoutPolicy → ℕ → FailureTracker
new policy now = record { policy = policy; records = []; last_prune = now - second }

unfoldable pub status_at : Option Record → ℕ → Option LockoutStatus
status_at none now = none
status_at (some rec) now = elim rec.locked_until [
  | none ↦ none
  | some until ↦ if ltb now until then some (locked_out (until - now)) else none
]

unfoldable pub prune : FailureTracker → ℕ → FailureTracker
prune t now = record t {
  records = Dict.retain (λ rec. not (is_prunable now t.policy.failure_window rec)) t.records;
  last_prune = now;
}

-- The prune that `check` and `record_failure` make once a second at most.
unfoldable pub prune_if_due : FailureTracker → ℕ → FailureTracker
prune_if_due t now =
    if leb (min second t.policy.failure_window) (now - t.last_prune) then prune t now else t

abbrev drop_stale : FailureTracker → String → ℕ → Option Record → FailureTracker
drop_stale t identity now none = t
drop_stale t identity now (some rec) =
    if is_prunable now t.policy.failure_window rec
    then record t { records = Dict.remove t.records identity }
    else t

abbrev answer : FailureTracker → String → ℕ → Option LockoutStatus → LockoutStatus × FailureTracker
answer t identity now (some status) = (status, t)
answer t identity now none = (allowed, drop_stale t identity now (Dict.get t.records identity))

unfoldable pub check : FailureTracker → String → ℕ → LockoutStatus × FailureTracker
check t identity now =
    if not (is_enabled t.policy)
    then (allowed, t)
    else let t' = if leb max_records (length t.records) then prune_if_due t now else t in
      if ltb max_identity (len identity)
      then (locked_out second, t')
      else answer t' identity now (status_at (Dict.get t'.records identity) now)

abbrev pub or_insert : Option Record → ℕ → Record
or_insert none now = record { failures = 0; window_start = now; locked_until = none }
or_insert (some rec) now = rec

-- A fresh window when the last has elapsed or a lockout has expired.
unfoldable pub restart : LockoutPolicy → ℕ → Record → Record
restart p now rec =
    let window_elapsed = leb p.failure_window (now - rec.window_start) in
    let lockout_expired : Bool = elim rec.locked_until [
      | none ↦ false
      | some until ↦ leb until now
    ] in
    if window_elapsed || lockout_expired
    then record { failures = 0; window_start = now; locked_until = none }
    else rec

-- One more failure of a record that is not locked: the status, and the record that is kept.
unfoldable pub count_failure : LockoutPolicy → ℕ → Record → LockoutStatus × Record
count_failure p now rec =
    let fresh = restart p now rec in
    let failures = fresh.failures + 1 in
    if leb p.max_failures failures
    then (
      locked_out p.lockout_duration,
      record fresh { failures = failures; locked_until = some (now + p.lockout_duration) },
    )
    else (allowed, record fresh { failures = failures })

abbrev store : FailureTracker → String → LockoutStatus × Record → LockoutStatus × FailureTracker
store t identity (status, rec) = (status, record t { records = Dict.insert t.records identity rec })

unfoldable pub record_failure : FailureTracker → String → ℕ → LockoutStatus × FailureTracker
record_failure t identity now =
    if not (is_enabled t.policy)
    then (allowed, t)
    else let t' = prune_if_due t now in
      if ltb max_identity (len identity)
      then (locked_out second, t')
      else if leb max_records (length t'.records) && not (Dict.contains_key t'.records identity)
      then (allowed, t')
      else let rec = or_insert (Dict.get t'.records identity) now in
        let counted = store t' identity (count_failure t'.policy now rec) in
        elim (status_at (some rec) now) [ some status ↦ (status, t') | none ↦ counted ]

abbrev unless_locked : FailureTracker → String → ℕ → Option Record → FailureTracker
unless_locked t identity now none = t
unless_locked t identity now (some rec) =
    let locked : Bool = elim rec.locked_until [ none ↦ false | some until ↦ ltb now until ] in
    if not locked then record t { records = Dict.remove t.records identity } else t

unfoldable pub record_success : FailureTracker → String → ℕ → FailureTracker
record_success t identity now =
    if not (is_enabled t.policy)
    then t
    else unless_locked t identity now (Dict.get t.records identity)

-- One call of the tracker.
pub data Op : Type 0 where
  checks fails succeeds : (identity : String) → Op

abbrev pub identity_of : Op → String
identity_of (checks i) = i
identity_of (fails i) = i
identity_of (succeeds i) = i

unfoldable pub step : FailureTracker → Op → ℕ → FailureTracker
step t (checks i) now = (check t i now).1
step t (fails i) now = (record_failure t i now).1
step t (succeeds i) now = record_success t i now

-- A history of calls, each with its time.
unfoldable pub run_ops : FailureTracker → List (Op × ℕ) → FailureTracker
unfolding step
run_ops t [] = t
run_ops t ((op, now) ∷ ops) = run_ops (step t op now) ops
