-- ===== src/Ha.antt =====
-- src/ha: the pool of CA backends, its failover strategies, the health checker and the retry queue.
pub mod Status
pub mod Strategy
pub mod Pool
pub mod Queue
pub mod Health
mod Examples
