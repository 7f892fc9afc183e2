-- ===== src/Audit.antt =====
-- src/audit: the audit trail and its hash chain.
pub mod Event
pub mod Trail
pub mod Record
pub mod Canonical
pub mod History
pub mod Verify
pub mod Tamper
pub mod Latch
pub mod Overflow
pub mod Window
mod Examples
