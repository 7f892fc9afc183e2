-- ===== src/Audit/Record.antt =====
-- The writing of audit events (src/audit/mod.rs). The table is the list of its rows in the order of
-- their ids, which the database counts up. A transaction of which the database refuses a statement
-- or the commit leaves the table as it was: whether it refuses is an argument.
use kipuka.Common.{
  ℕ, ◌+◌, ◌-◌, ◌%◌, ◌^◌, Bool, true, false, not, ◌&&◌, Option, none, some, List, [], ◌∷◌, ◌++◌,
  length, drop, leb, if◌then◌else◌,
}
use kipuka.Audit.Event.{
  AuditEventType, cert_issue, auth_success, security_violation, AuditEvent, new, as_str, AuditRow,
  canonical_bytes,
}
use kipuka.Audit.Trail.{Hashes, chain_hash, tail_hash}

pub data OverflowPolicy : Type 0 where
  drop_oldest halt : OverflowPolicy

-- Of `AuditConfig`, what the writing reads. `alarm_halts` says that `alarm_action` is `halt`.
pub record AuditConfig : Type 0 where
  pub enabled : Bool
  pub overflow_policy : OverflowPolicy
  pub max_rows : Option ℕ
  pub alarm_threshold : ℕ
  pub alarm_halts : Bool

pub record AuditState : Type 0 where
  pub halted : Bool
  pub config : AuditConfig
  pub violation_count : ℕ
  pub integrity_key : Option (List ℕ)

pub record Table : Type 0 where
  pub rows : List AuditRow
  pub last_id : ℕ

abbrev pub empty_table : Table
empty_table = record { rows = []; last_id = 0 }

pub data AuditError : Type 0 where
  admission_halted row_limit_reached database_failed syslog_failed : AuditError

pub data Outcome (A : Type 0) : Type 0 where
  ok : A → Outcome A
  err : AuditError → Outcome A

unfoldable pub from_config : AuditConfig → Option (List ℕ) → AuditState
from_config config integrity_key = record {
  halted = false;
  config = config;
  violation_count = 0;
  integrity_key = integrity_key;
}

unfoldable pub set_halted : AuditState → Bool → AuditState
set_halted s halted = record s { halted = halted }

unfoldable pub is_halt : OverflowPolicy → Bool
is_halt drop_oldest = false
is_halt halt = true

unfoldable pub is_violation : AuditEventType → Bool
is_violation security_violation = true
is_violation _ = false

unfoldable pub is_auth_success : AuditEventType → Bool
is_auth_success auth_success = true
is_auth_success _ = false

-- What becomes of the rows before an insertion: the oldest are removed where there are too many.
unfoldable pub make_room : AuditConfig → List AuditRow → Outcome (List AuditRow)
make_room c rows = elim c.max_rows [
  | none ↦ ok rows
  | some limit ↦
      if leb limit (length rows)
      then (if is_halt c.overflow_policy
          then err row_limit_reached
          else ok (drop (length rows - limit + 1) rows))
      else ok rows
]

-- The time of a write, in the form that is stored, whether the database refuses a statement before
-- the rows are counted or one after that, and whether the system logger refuses an alarm.
pub record Moment : Type 0 where
  pub timestamp : List ℕ
  pub refused_before : Bool
  pub refused_after : Bool
  pub syslog_refused : Bool

abbrev pub then_set : AuditState → Outcome Table → Outcome Table × AuditState
then_set s (ok t) = (ok t, s)
then_set s (err e) = (err e, if is_halt s.config.overflow_policy then set_halted s true else s)

-- The violations in a row, and the alarm.
unfoldable pub track : AuditState → Moment → AuditEventType → Outcome (Unit {0}) × AuditState
unfolding is_violation is_auth_success
track s m event_type =
    let count = (s.violation_count + 1) % 2 ^ 32 in
    let counted = record s { violation_count = count } in
    if is_violation event_type
    then (if leb s.config.alarm_threshold count
        then (if s.config.alarm_halts
            then (ok tt, set_halted counted true)
            else if m.syslog_refused
            then (err syslog_failed, counted)
            else (ok tt, counted))
        else (ok tt, counted))
    else if is_auth_success event_type
    then (ok tt, record s { violation_count = 0 })
    else (ok tt, s)

-- A failure stops all further writing, where the policy says so.
unfoldable pub latch :
    Outcome (Unit {0}) × AuditState × Table → Outcome (Unit {0}) × AuditState × Table
latch (ok done, s, t) = (ok done, s, t)
latch (err fault, s, t) =
    (err fault, if is_halt s.config.overflow_policy then set_halted s true else s, t)

-- `json` is the text of the object that holds the detail and the CA.
module _ (hs : Hashes) (json : Option (List ℕ) → Option (List ℕ) → List ℕ) where
  unfoldable pub detail_json : AuditEvent → Option (List ℕ)
  detail_json e = elim e.detail [
    | some d ↦ some (json (some d) e.ca_id)
    | none ↦ elim e.ca_id [ some ca ↦ some (json none (some ca)) | none ↦ none ]
  ]

  -- The row that is inserted after the others.
  unfoldable pub new_row : AuditState → List AuditRow → ℕ → List ℕ → AuditEvent → AuditRow
  unfolding detail_json
  new_row s rows id timestamp e =
      let prev_hash = tail_hash none rows in
      let bytes =
        canonical_bytes timestamp (as_str e.event_type) e.operator e.subject (detail_json e)
          e.client_addr none in
      record {
        id = id;
        timestamp = timestamp;
        event_type = as_str e.event_type;
        actor = e.operator;
        target = e.subject;
        detail_json = detail_json e;
        source_ip = e.client_addr;
        session_id = none;
        prev_hash = prev_hash;
        record_hash = some (chain_hash hs s.integrity_key prev_hash bytes);
      }

  -- The insertion, once there is room.
  unfoldable pub insert_row :
      AuditState → Table → Moment → AuditEvent → Outcome (List AuditRow) → Outcome Table
  insert_row s t m e (err fault) = err fault
  insert_row s t m e (ok rows) =
      if m.refused_after
      then err database_failed
      else ok (record {
        rows = rows ++ new_row s rows (t.last_id + 1) m.timestamp e ∷ [];
        last_id = t.last_id + 1;
      })

  unfoldable pub write_event : AuditState → Table → Moment → AuditEvent → Outcome Table
  write_event s t m e =
      if s.halted
      then err admission_halted
      else if m.refused_before
      then err database_failed
      else insert_row s t m e (make_room s.config t.rows)

  unfoldable pub after_write :
      AuditState
      → Table
      → Moment
      → AuditEvent
      → Outcome Table
      → Outcome (Unit {0}) × AuditState × Table
  after_write s t m e (ok t') = let (done, s') = track s m e.event_type in (done, s', t')
  after_write s t m e (err fault) = (err fault, s, t)

  -- The result, the state and the table. The event is written and committed before the alarm.
  unfoldable pub record_inner :
      AuditState → Table → Moment → AuditEvent → Outcome (Unit {0}) × AuditState × Table
  unfolding after_write
  record_inner s t m e =
      if s.halted then (err admission_halted, s, t) else after_write s t m e (write_event s t m e)

  unfoldable pub record_checked :
      AuditState → Table → Moment → AuditEvent → Outcome (Unit {0}) × AuditState × Table
  unfolding latch
  record_checked s t m e =
      if not s.config.enabled then (ok tt, s, t) else latch (record_inner s t m e)

  -- Issuance writes its event into the transaction that stores the certificate: the table is the one
  -- that the transaction sees, and it counts only once the transaction is committed.
  unfoldable pub record_issuance_in_transaction :
      AuditState → Table → Moment → List ℕ → List ℕ → Outcome Table × AuditState
  record_issuance_in_transaction s t m ca_id detail =
      if not s.config.enabled
      then (ok t, s)
      else then_set s
          (write_event s t m (record (new cert_issue) { ca_id = some ca_id; detail = some detail }))

-- The table that stands after the end of the transaction.
unfoldable pub commit_issuance :
    AuditState → Table → Table → Bool → Outcome (Unit {0}) × AuditState × Table
commit_issuance s before after refused =
    if refused
    then (
      err database_failed,
      if s.config.enabled && is_halt s.config.overflow_policy then set_halted s true else s,
      before,
    )
    else (ok tt, s, after)
