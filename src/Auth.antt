-- ===== src/Auth.antt =====
-- src/auth: authentication and authorization of clients.
pub mod FailureTracker
pub mod NameMatch
pub mod EnrollAuthz
