-- ===== src/Coap/Block/Codec.antt =====
-- The Block option value of crates/kipuka-coap/src/block.rs: its fields, and the size exponent.
use kipuka.Common.{ℕ, zero, suc, ◌+◌, ◌^◌, ◌≤◌, ◌<◌, min, ◌≡◌, refl, some, arith}
use kipuka.Coap.Block.{
  BlockOption, decode, encode, block_size_from_szx, szx_from_block_size, max_szx, u32_mod,
}

-- A block number of 28 bits and an exponent of 3 bits survive the wire: what `encode` packs,
-- `decode` unpacks, and the packed value fits 32 bits.
pub decode-encode :
    (b : BlockOption) → b.num < 2 ^ 28 → b.szx < 8 → (decode (encode b) ≡ b) × (encode b < u32_mod)
unfolding decode encode
decode-encode b hn hs = ground arith

-- Every 32-bit value is the encoding of its decoding, so no two values denote one option.
pub encode-decode : (value : ℕ) → value < u32_mod → encode (decode value) ≡ value
unfolding decode encode
encode-decode value h = ground arith

SizeOf : ℕ → Type 0
SizeOf m = (16 ≤ 2 ^ (m + 4)) × (2 ^ (m + 4) ≤ 1024) × (szx_from_block_size (2 ^ (m + 4)) ≡ some m)

SizeOf-exponent : (m : ℕ) → m ≤ max_szx → SizeOf m
unfolding SizeOf szx_from_block_size
SizeOf-exponent zero h = (omega arith, omega arith, refl)
SizeOf-exponent (suc zero) h = (omega arith, omega arith, refl)
SizeOf-exponent (suc (suc zero)) h = (omega arith, omega arith, refl)
SizeOf-exponent (suc (suc (suc zero))) h = (omega arith, omega arith, refl)
SizeOf-exponent (suc (suc (suc (suc zero)))) h = (omega arith, omega arith, refl)
SizeOf-exponent (suc (suc (suc (suc (suc zero))))) h = (omega arith, omega arith, refl)
SizeOf-exponent (suc (suc (suc (suc (suc (suc zero)))))) h = (omega arith, omega arith, refl)
SizeOf-exponent (suc (suc (suc (suc (suc (suc (suc n))))))) h = absurd (omega arith)

-- The block size of every exponent lies between 16 and 1024 bytes, and it gives the exponent back,
-- with 7 and above clamped to 6.
pub szx_from_block_size-block_size_from_szx :
    (szx : ℕ)
    → (16 ≤ block_size_from_szx szx)
      × (block_size_from_szx szx ≤ 1024)
      × (szx_from_block_size (block_size_from_szx szx) ≡ some (min szx max_szx))
unfolding block_size_from_szx SizeOf
szx_from_block_size-block_size_from_szx szx = SizeOf-exponent (min szx max_szx) (omega arith)

-- Only the sizes of the seven exponents are accepted.
pub szx_from_block_size_sound :
    (size szx : ℕ)
    → szx_from_block_size size ≡ some szx
    → (szx ≤ max_szx) × (block_size_from_szx szx ≡ size)
unfolding block_size_from_szx szx_from_block_size
szx_from_block_size_sound size szx h = ground arith
