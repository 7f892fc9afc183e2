-- ===== src/Dogtag.antt =====
-- crates/kipuka-dogtag: the pool of Dogtag backends.
pub mod Pool
mod Examples
