-- ===== src/Otp.antt =====
-- crates/kipuka-otp: one-time enrolment tokens.
pub mod Store
pub mod Validate
mod Examples
