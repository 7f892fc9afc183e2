-- ===== src/Util.antt =====
-- crates/kipuka-util: the reading of `Authorization` headers.
pub mod Header
mod Examples
