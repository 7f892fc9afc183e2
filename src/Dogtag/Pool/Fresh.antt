-- ===== src/Dogtag/Pool/Fresh.antt =====
-- A pool that no health check has reached (crates/kipuka-dogtag/src/pool.rs).
use kipuka.Common.{ℕ, Option, some}
use kipuka.Dogtag.Pool.{PoolEntry}

module _ {C : Type 0} (connect : C → Option ℕ) where
  abbrev client_of : PoolEntry → Option ℕ
  client_of e = some e.client
