-- ===== src/Star.antt =====
-- src/star: orders of short-term certificates that renew themselves (RFC 8739).
pub mod Order
pub mod Manager
pub mod Bound
pub mod Cancel
pub mod Renewal
mod Examples
