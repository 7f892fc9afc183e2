-- ===== src/Coap/Message/Options.antt =====
-- The uint format of option values (crates/kipuka-coap/src/server.rs, `CoapOption`).
use kipuka.Common.{ℕ, zero, suc, ◌↔◌, ◌<◌, ◌≤◌, ◌^◌, ◌≡◌, arith, length}
use kipuka.Coap.Message.{value_as_uint, from_uint}

-- A 32-bit value is given back by the option that `from_uint` makes of it.
pub value_as_uint-from_uint :
    (number value : ℕ) → value < 2 ^ 32 → value_as_uint (from_uint number value) ≡ value
unfolding value_as_uint from_uint
value_as_uint-from_uint number value h = ground arith

-- `from_uint` takes the least number of bytes: at most `k` exactly when `k` bytes hold the value.
pub from_uint_shortest :
    (number value k : ℕ)
    → value < 2 ^ 32
    → k ≤ 4
    → (length (from_uint number value).value ≤ k) ↔ (value < 256 ^ k)
unfolding from_uint
from_uint_shortest number value zero h hk = ground arith
from_uint_shortest number value (suc zero) h hk = ground arith
from_uint_shortest number value (suc (suc zero)) h hk = ground arith
from_uint_shortest number value (suc (suc (suc zero))) h hk = ground arith
from_uint_shortest number value (suc (suc (suc (suc zero)))) h hk = ground arith
from_uint_shortest number value (suc (suc (suc (suc (suc k))))) h hk = absurd (omega arith)
