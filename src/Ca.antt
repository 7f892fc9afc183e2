-- ===== src/Ca.antt =====
-- src/ca: the backends that issue certificates.
pub mod Backend
pub mod KeyLabel
mod Examples
