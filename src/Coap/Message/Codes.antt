-- ===== src/Coap/Message/Codes.antt =====
-- Codes, methods and message types of crates/kipuka-coap/src/server.rs.
use kipuka.Common.{ℕ, ◌<◌, ◌≡◌, ◌↔◌, arith, some}
use kipuka.Coap.Error.{ok}
use kipuka.Coap.Message.{
  CoapCode, CoapMethod, CoapMessageType, get, confirmable, to_byte, from_byte, from_code, to_code,
  from_bits, to_bits,
}

-- A code of a 3-bit class and a 5-bit detail is given back by its byte, which is below 256, and
-- every byte is the encoding of its code.
pub from_byte-to_byte :
    (c : CoapCode) (byte : ℕ)
    → c.class < 8
    → c.detail < 32
    → byte < 256
    → (from_byte (to_byte c) ≡ c) × (to_byte c < 256) × (to_byte (from_byte byte) ≡ byte)
unfolding from_byte to_byte
from_byte-to_byte c byte hc hd hb = ground arith

-- A code is read as a method exactly when it is that method's code.
pub from_code_iff :
    (code : CoapCode) (m : CoapMethod) → (from_code code ≡ some m) ↔ (code ≡ to_code m)
unfolding from_code to_code
from_code_iff code get = ground arith
from_code_iff code m = ground arith

-- Two bits are read as a message type exactly when they are that type's bits.
pub from_bits_iff : (bits : ℕ) (t : CoapMessageType) → (from_bits bits ≡ ok t) ↔ (bits ≡ to_bits t)
unfolding from_bits to_bits
from_bits_iff bits confirmable = ground arith
from_bits_iff bits t = ground arith
