-- ===== src/Audit/Event.antt =====
-- Events of src/audit/mod.rs and the bytes that are hashed of them. A text is the list of its bytes.
use kipuka.Common.{ℕ, Option, none, some, List, [], ◌∷◌, ◌++◌, ascii}

-- ASCII Record Separator.
abbrev pub rs : ℕ
rs = 0x1e

pub data AuditEventType : Type 0 where
  ca_start ca_stop ca_health_change enroll_request cert_issue cert_reenroll : AuditEventType
  enroll_reject cert_revoke crl_generate key_generate key_load key_destroy : AuditEventType
  otp_create otp_use otp_expire otp_revoke auth_success auth_failure : AuditEventType
  admin_login admin_logout admin_action security_violation : AuditEventType

unfoldable pub as_str : AuditEventType → List ℕ
as_str ca_start = ascii "ca.start"
as_str ca_stop = ascii "ca.stop"
as_str ca_health_change = ascii "ca.health-change"
as_str enroll_request = ascii "enroll.request"
as_str cert_issue = ascii "cert.issue"
as_str cert_reenroll = ascii "cert.reenroll"
as_str enroll_reject = ascii "enroll.reject"
as_str cert_revoke = ascii "cert.revoke"
as_str crl_generate = ascii "crl.generate"
as_str key_generate = ascii "key.generate"
as_str key_load = ascii "key.load"
as_str key_destroy = ascii "key.destroy"
as_str otp_create = ascii "otp.create"
as_str otp_use = ascii "otp.use"
as_str otp_expire = ascii "otp.expire"
as_str otp_revoke = ascii "otp.revoke"
as_str auth_success = ascii "auth.success"
as_str auth_failure = ascii "auth.failure"
as_str admin_login = ascii "admin.login"
as_str admin_logout = ascii "admin.logout"
as_str admin_action = ascii "admin.action"
as_str security_violation = ascii "security.violation"

pub record AuditEvent : Type 0 where
  pub event_type : AuditEventType
  pub ca_id : Option (List ℕ)
  pub subject : Option (List ℕ)
  pub detail : Option (List ℕ)
  pub client_addr : Option (List ℕ)
  pub operator : Option (List ℕ)

unfoldable pub new : AuditEventType → AuditEvent
new event_type = record {
  event_type = event_type;
  ca_id = none;
  subject = none;
  detail = none;
  client_addr = none;
  operator = none;
}

abbrev pub unwrap_or_empty : Option (List ℕ) → List ℕ
unwrap_or_empty none = []
unwrap_or_empty (some s) = s

-- Each field is followed by a separator.
unfoldable pub separated : List (List ℕ) → List ℕ
separated [] = []
separated (field ∷ fields) = field ++ (rs ∷ separated fields)

unfoldable pub canonical_bytes :
    List ℕ
    → List ℕ
    → Option (List ℕ)
    → Option (List ℕ)
    → Option (List ℕ)
    → Option (List ℕ)
    → Option (List ℕ)
    → List ℕ
unfolding separated
canonical_bytes timestamp event_type actor target detail_json source_ip session_id = separated (
    timestamp
    ∷ event_type
    ∷ unwrap_or_empty actor
    ∷ unwrap_or_empty target
    ∷ unwrap_or_empty detail_json
    ∷ unwrap_or_empty source_ip
    ∷ unwrap_or_empty session_id
    ∷ [])

-- A row of the table `audit_events`.
pub record AuditRow : Type 0 where
  pub id : ℕ
  pub timestamp : List ℕ
  pub event_type : List ℕ
  pub actor : Option (List ℕ)
  pub target : Option (List ℕ)
  pub detail_json : Option (List ℕ)
  pub source_ip : Option (List ℕ)
  pub session_id : Option (List ℕ)
  pub prev_hash : Option (List ℕ)
  pub record_hash : Option (List ℕ)

unfoldable pub canonical : AuditRow → List ℕ
canonical r =
    canonical_bytes r.timestamp r.event_type r.actor r.target r.detail_json r.source_ip r.session_id
