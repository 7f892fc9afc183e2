-- ===== src/Audit/Examples.antt =====
-- Runs of the audit trail (src/audit/mod.rs), and its theorems at concrete inputs. The hash is
-- instantiated by the text itself, written in hexadecimal digits.
use kipuka.Common.{
  ℕ, ◌+◌, ◌/◌, ◌%◌, ◌≤◌, Bool, true, false, ◌≡◌, ◌≢◌, refl, ◌⊎◌, inr, Option, none, some, List, [],
  ◌∷◌, ◌++◌, arith, length, map, ltb, ◌==◌, ◌&&◌, not, same_bytes, ascii, if◌then◌else◌,
}
use kipuka.Audit.Event.{
  rs, auth_failure, admin_action, AuditEvent, new, as_str, unwrap_or_empty, separated,
  canonical_bytes, AuditRow, canonical,
}
use kipuka.Audit.Trail.{
  linkage_broken, Hashes, same_option, tail_hash, chain_hash, first_broken, verify_chain,
}
use kipuka.Audit.Record.{
  OverflowPolicy, drop_oldest, halt, AuditConfig, AuditState, Table, row_limit_reached, Moment,
  from_config, empty_table, set_halted, is_halt, is_violation, is_auth_success, make_room, track,
  latch, detail_json, new_row, insert_row, write_event, after_write, record_inner, record_checked,
  record_issuance_in_transaction, commit_issuance,
}
use kipuka.Audit.History.{Op, records, issues, end_issuance, issue, step, run}
use kipuka.Audit.Canonical.{NoRs, AllNoRs, fields, canonical-injective}
use kipuka.Audit.Verify.{verify_chain-run}
use kipuka.Audit.Tamper.{Collision, verify_chain-tamper}
use kipuka.Audit.Latch.{record_checked_closes}
use kipuka.Audit.Overflow.{run-bounded, write_event-breaks}
use kipuka.Audit.Window.{Window, run-Window}

abbrev digit : ℕ → ℕ
digit n = if ltb n 10 then 48 + n else 87 + n

abbrev hex : List ℕ → List ℕ
hex [] = []
hex (b ∷ bs) = digit (b / 16) ∷ digit (b % 16) ∷ hex bs

digit-rs : (n : ℕ) → digit n ≢ rs
digit-rs n e = ground arith

hex-NoRs : (bs : List ℕ) → NoRs (hex bs)
hex-NoRs [] = tt
hex-NoRs (b ∷ bs) = (digit-rs (b / 16), (digit-rs (b % 16), hex-NoRs bs))

abbrev hashes : Hashes
hashes = record { sha256 = λ m. m; hmac_sha256 = λ k m. k ++ m; hex = hex }

abbrev json : Option (List ℕ) → Option (List ℕ) → List ℕ
json detail ca_id = unwrap_or_empty detail ++ unwrap_or_empty ca_id

abbrev limited : OverflowPolicy → ℕ → AuditConfig
limited policy limit = record {
  enabled = true;
  overflow_policy = policy;
  max_rows = some limit;
  alarm_threshold = 3;
  alarm_halts = false;
}

abbrev at : ℕ → Moment
at n = record {
  timestamp = n ∷ [];
  refused_before = false;
  refused_after = false;
  syslog_refused = false;
}

abbrev login : AuditEvent
login = record (new auth_failure) { subject = some (ascii "host") }

-- Two events, the second an issuance.
abbrev two : List Op
two = records (at 65) login ∷ issues (at 66) (ascii "ca") (ascii "serial") false ∷ []

abbrev three : List Op
three = two ++ records (at 67) (new admin_action) ∷ []

abbrev after : OverflowPolicy → ℕ → List Op → AuditState × Table
after policy limit ops = run hashes json (from_config (limited policy limit) none, empty_table) ops

abbrev trail : List AuditRow
trail = (after halt 5 three).1.rows

abbrev renumbered : List AuditRow
renumbered = map {A = AuditRow} {B = AuditRow} (λ r. record r { id = r.id + 100 }) trail

-- The subject of the first row is another.
abbrev altered : List AuditRow → List AuditRow
altered [] = []
altered (r ∷ rows) = record r { target = some (ascii "other") } ∷ rows

test_ids : map (λ r. r.id) (after drop_oldest 2 three).1.rows ≡ 2 ∷ 3 ∷ []
unfolding run step from_config record_checked record_inner after_write write_event insert_row
    make_room is_halt set_halted latch track is_violation is_auth_success new_row new issue
    end_issuance record_issuance_in_transaction commit_issuance
test_ids = refl

trail_whole : first_broken hashes none none trail ≡ none
unfolding run step from_config record_checked record_inner after_write write_event insert_row
    make_room is_halt set_halted latch track is_violation is_auth_success new_row new issue
    end_issuance record_issuance_in_transaction commit_issuance first_broken same_option same_bytes
    chain_hash canonical canonical_bytes separated detail_json as_str tail_hash
trail_whole = refl

renumbered_whole : first_broken hashes none none renumbered ≡ none
unfolding run step from_config record_checked record_inner after_write write_event insert_row
    make_room is_halt set_halted latch track is_violation is_auth_success new_row new issue
    end_issuance record_issuance_in_transaction commit_issuance first_broken same_option same_bytes
    chain_hash canonical canonical_bytes separated detail_json as_str tail_hash
renumbered_whole = refl

altered_found : (verify_chain hashes none (altered trail)).ok ≡ false
unfolding run step from_config record_checked record_inner after_write write_event insert_row
    make_room is_halt set_halted latch track is_violation is_auth_success new_row new issue
    end_issuance record_issuance_in_transaction commit_issuance first_broken same_option same_bytes
    chain_hash canonical canonical_bytes separated detail_json as_str tail_hash verify_chain
altered_found = refl

verify_chain-tamper_example :
    Collision hashes none ⊎ (map canonical trail ≡ map canonical renumbered)
unfolding run step from_config record_checked record_inner after_write write_event insert_row
    make_room is_halt set_halted latch track is_violation is_auth_success new_row new issue
    end_issuance record_issuance_in_transaction commit_issuance tail_hash
verify_chain-tamper_example =
    verify_chain-tamper hashes none trail renumbered hex-NoRs refl trail_whole renumbered_whole refl

verify_chain-run_example :
    verify_chain hashes
      (some (1 ∷ []))
      (run hashes json (from_config (limited halt 2) (some (1 ∷ [])), empty_table) three).1.rows
    ≡ record {
      total =
          length
            (run hashes json
              (from_config (limited halt 2) (some (1 ∷ [])), empty_table)
              three).1.rows;
      ok = true;
      broken_at = none;
      detail = none;
    }
unfolding is_halt
verify_chain-run_example =
    verify_chain-run hashes json (limited halt 2) (some (1 ∷ [])) three (inr refl)

run-bounded_example : length (after drop_oldest 2 three).1.rows ≤ 2
run-bounded_example =
    run-bounded hashes json (limited drop_oldest 2) none 2 three refl (omega arith)

run-Window_example :
    Window 2
      (after drop_oldest 2 three).1
      (run hashes json
        (from_config (record (limited drop_oldest 2) { max_rows = none }) none, empty_table)
        three).1
unfolding is_halt
run-Window_example =
    run-Window hashes json 2 (limited drop_oldest 2) none three
      (record { limited = refl; policy = refl; two = omega arith })

write_event-breaks_example :
    (r : AuditRow) × (rest : List AuditRow) × ((after drop_oldest 2 three).1.rows ≡ r ∷ rest)
    × (verify_chain hashes none (after drop_oldest 2 three).1.rows ≡ record {
      total = length (after drop_oldest 2 three).1.rows;
      ok = false;
      broken_at = some r.id;
      detail = some linkage_broken;
    })
unfolding run step from_config record_checked record_inner after_write write_event insert_row
    make_room is_halt set_halted latch track is_violation is_auth_success new_row new issue
    end_issuance record_issuance_in_transaction commit_issuance first_broken same_option same_bytes
    chain_hash canonical canonical_bytes separated detail_json as_str tail_hash
write_event-breaks_example =
    write_event-breaks hashes json 2 (after drop_oldest 2 two).0 (after drop_oldest 2 two).1
      (after drop_oldest 2 three).1 (at 67) (new admin_action) refl (omega arith) (omega arith) refl
      refl

-- The third event meets the limit, and the halt outlasts a success.
record_checked_closes_example :
    (run hashes json (step hashes json (after halt 2 two) (records (at 67) login)) two).1
    ≡ (step hashes json (after halt 2 two) (records (at 67) login)).1
unfolding run step from_config record_checked record_inner after_write write_event insert_row
    make_room is_halt set_halted latch track is_violation is_auth_success new_row new issue
    end_issuance record_issuance_in_transaction commit_issuance
record_checked_closes_example =
    record_checked_closes hashes json (after halt 2 two).0 (after halt 2 two).1 (at 67) login
      row_limit_reached two refl refl tt

abbrev plain : List ℕ → Bool
plain [] = true
plain (b ∷ bs) = not (b == rs) && plain bs

abbrev all_plain : List (List ℕ) → Bool
all_plain [] = true
all_plain (f ∷ fs) = plain f && all_plain fs

plain_sound : (bs : List ℕ) → plain bs ≡ true → NoRs bs
plain_sound [] h = tt
plain_sound (b ∷ bs) h = (λ e. ground arith, plain_sound bs (ground arith))

no_rs_sound : (fs : List (List ℕ)) → all_plain fs ≡ true → AllNoRs fs
no_rs_sound [] h = tt
no_rs_sound (f ∷ fs) h = (plain_sound f (ground arith), no_rs_sound fs (ground arith))

abbrev plain_row : AuditRow
plain_row = record {
  id = 1;
  timestamp = 65 ∷ [];
  event_type = ascii "auth.failure";
  actor = none;
  target = some (ascii "host");
  detail_json = none;
  source_ip = none;
  session_id = none;
  prev_hash = none;
  record_hash = none;
}

-- A row that has an empty operator in place of none is hashed alike.
canonical-injective_example : fields plain_row ≡ fields (record plain_row { actor = some [] })
unfolding canonical canonical_bytes
canonical-injective_example =
    canonical-injective plain_row (record plain_row { actor = some [] })
      (no_rs_sound (fields plain_row) refl)
      (no_rs_sound (fields (record plain_row { actor = some [] })) refl) refl
