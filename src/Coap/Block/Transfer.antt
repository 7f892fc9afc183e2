-- ===== src/Coap/Block/Transfer.antt =====
-- A Block2 response split by `BlockDisassembler` and put together by `BlockAssembler`
-- (crates/kipuka-coap/src/block.rs).
use kipuka.Common.{
  ℕ, zero, suc, ◌+◌, ◌-◌, ◌*◌, ◌≤◌, ◌<◌, ◌≡◌, ◌↔◌, ◌/◌, refl, sym, ap, ◌∙◌, arith, Bool, true,
  false, some, none, List, [], ◌++◌, length, take, drop, take-add, take-all, length-take,
  length-drop, min,
}
use native.Mathlib.Decide.{dec_lt}
use kipuka.Coap.Error.{ok}
use kipuka.Coap.Block.{
  BlockAssembler, BlockDisassembler, BlockOption, new, process_block, into_payload, disassembler,
  get_block, total_blocks, block_size_from_szx, u32_mod, max_szx,
}
use kipuka.Coap.Block.Codec.{szx_from_block_size-block_size_from_szx}

-- The client's loop: up to `rounds` blocks from `num` on, each handed to the assembler.
unfoldable pub send_from : BlockDisassembler → ℕ → ℕ → BlockAssembler → BlockAssembler
send_from d zero num a = a
send_from d (suc rounds) num a = elim (get_block d num) [
  | none ↦ a
  | some (bytes, block) ↦ send_from d rounds (suc num) (process_block a block bytes).1
]

ceil_div : (n s num : ℕ) → 0 < s → ((n + s - 1) / s ≤ num) ↔ (n ≤ num * s)
ceil_div n s num h = grind arith

ceil_div_le : (n s : ℕ) → 0 < s → 0 < n → ((n + s - 1) / s ≤ n)
ceil_div_le n s h p = grind arith

size_pos : (szx : ℕ) → 0 < block_size_from_szx szx
size_pos szx = omega (arith, (szx_from_block_size-block_size_from_szx szx).0)

-- Of a payload that is not empty and shorter than 2^32, `total_blocks` counts the blocks:
-- `get_block` has none from that number on, and one for each number below.
pub get_block_total :
    (bytes : List ℕ) (szx num : ℕ)
    → length bytes < u32_mod
    → 0 < length bytes
    → (get_block (disassembler bytes szx) num ≡ none)
      ↔ (total_blocks (disassembler bytes szx) ≤ num)
unfolding get_block total_blocks disassembler
get_block_total bytes szx num h p =
    let s = block_size_from_szx (min szx max_szx) in
    ground (
      arith,
      ceil_div (length bytes) s num (size_pos (min szx max_szx)),
      ceil_div_le (length bytes) s (size_pos (min szx max_szx)) p,
    )

-- An empty payload is counted as one block, and it has none.
pub total_blocks_empty :
    (szx num : ℕ)
    → (total_blocks (disassembler [] szx) ≡ 1) × (get_block (disassembler [] szx) num ≡ none)
unfolding get_block total_blocks disassembler
total_blocks_empty szx num = ground arith

zero_mul : (s : ℕ) → 0 ≡ 0 * s
zero_mul s = omega arith

num-le-mul : (num s : ℕ) → 0 < s → num ≤ num * s
num-le-mul num s h = grind arith

suc_mul : (num s : ℕ) → suc num * s ≡ num * s + s
suc_mul num s = omega arith

send_from-some :
    (d : BlockDisassembler) (rounds num : ℕ) (a : BlockAssembler) {bytes : List ℕ}
    {block : BlockOption}
    → get_block d num ≡ some (bytes, block)
    → send_from d (suc rounds) num a ≡ send_from d rounds (suc num) (process_block a block bytes).1
unfolding send_from
send_from-some d rounds num a e = rw (e, send_from)

sub_add : (m n : ℕ) → m + n - m ≡ n
sub_add m n = omega arith

-- The block at a number inside the payload.
abbrev block_at : ℕ → Bool → ℕ → BlockOption
block_at num more szx = record { num = num; more = more; szx = min szx max_szx }

module _ (bytes : List ℕ) (szx num s : ℕ) (e : s ≡ block_size_from_szx (min szx max_szx)) where
  get_block_middle :
      num * s + s < length bytes
      → get_block (disassembler bytes szx) num
        ≡ some (take s (drop (num * s) bytes), block_at num true szx)
  unfolding get_block disassembler
  get_block_middle h = ground (arith, sub_add (num * s) s)

  get_block_last :
      num * s < length bytes
      → length bytes ≤ num * s + s
      → get_block (disassembler bytes szx) num
        ≡ some (take (length bytes - num * s) (drop (num * s) bytes), block_at num false szx)
  unfolding get_block disassembler
  get_block_last h k = ground arith

-- The assembler holds the first `num` blocks of `s` bytes each.
record Holds (bytes : List ℕ) (s num : ℕ) (a : BlockAssembler) : Type 0 where
  prefix : a.buffer ≡ take (num * s) bytes
  at : a.next_num ≡ num
  fits : length bytes ≤ a.max_payload

module _ (bytes : List ℕ) (szx : ℕ) (short : length bytes < u32_mod) where
  -- The whole of the payload is there, and no block is left.
  done_stays :
      (s rounds num : ℕ) (a : BlockAssembler)
      → s ≡ block_size_from_szx (min szx max_szx)
      → length bytes ≤ num * s
      → send_from (disassembler bytes szx) rounds num a ≡ a
  unfolding send_from get_block disassembler
  done_stays s zero num a e h = refl
  done_stays s (suc rounds) num a e h = ground arith

  take_last :
      (start : ℕ) → take start bytes ++ take (length bytes - start) (drop start bytes) ≡ bytes
  take_last start =
      sym (take-add start (length bytes - start) bytes)
      ∙ take-all (start + (length bytes - start)) bytes (omega arith)

  module _ (s num : ℕ) (block : BlockOption) (a : BlockAssembler) (open_ : a.complete ≡ false)
      (started : Holds bytes s num a) (positive : 0 < s) (here : num * s < length bytes)
      (numbered : block.num ≡ num) where
    -- A block in the middle is appended, and the assembler waits for the next.
    step_middle :
        num * s + s < length bytes
        → block.more ≡ true
        → ((process_block a block (take s (drop (num * s) bytes))).1.complete ≡ false)
          × Holds bytes s (suc num) (process_block a block (take s (drop (num * s) bytes))).1
    unfolding process_block
    step_middle lo more = ground (
      arith,
      take-add (num * s) s bytes,
      ap (λ (k : ℕ). take k bytes) (suc_mul num s),
      length-take (num * s) bytes,
      length-take s (drop (num * s) bytes),
      length-drop (num * s) bytes,
      ap length started.prefix,
      num-le-mul num s positive,
    )

    -- The last block completes the payload.
    step_last :
        length bytes ≤ num * s + s
        → block.more ≡ false
        → into_payload
            (process_block a block (take (length bytes - num * s) (drop (num * s) bytes))).1
          ≡ ok bytes
    unfolding process_block into_payload
    step_last hi more = ground (
      arith,
      take_last (num * s),
      length-take (num * s) bytes,
      length-take (length bytes - num * s) (drop (num * s) bytes),
      started.prefix,
      ap length started.prefix,
    )

  send_from-completes :
      (s rounds num : ℕ) (a : BlockAssembler)
      → s ≡ block_size_from_szx (min szx max_szx)
      → 0 < s
      → num * s < length bytes
      → length bytes ≤ (num + rounds) * s
      → a.complete ≡ false
      → Holds bytes s num a
      → into_payload (send_from (disassembler bytes szx) rounds num a) ≡ ok bytes
  unfolding send_from
  send_from-completes s zero num a e pos lo hi c h = absurd (omega arith)
  send_from-completes s (suc rounds) num a e pos lo hi c h =
      elim (dec_lt (num * s + s) (length bytes)) [
        | yes q ↦
            let (c', h') = step_middle s num (block_at num true szx) a c h pos lo refl q refl in
            ap into_payload (send_from-some _ rounds num a (get_block_middle bytes szx num s e q))
            ∙ send_from-completes s rounds (suc num) _ e pos (omega arith) (omega arith) c' h'
        | no q ↦
            ap into_payload (
              send_from-some _ rounds num a (get_block_last bytes szx num s e lo (omega arith))
              ∙ done_stays s rounds (suc num) _ e (omega arith))
            ∙ step_last s num (block_at num false szx) a c h pos lo refl (omega arith) refl
      ]

enough_rounds :
    (bytes : List ℕ) (szx : ℕ)
    → length bytes < u32_mod
    → 0 < length bytes
    → length bytes
      ≤ (0 + total_blocks (disassembler bytes szx)) * block_size_from_szx (min szx max_szx)
unfolding total_blocks disassembler
enough_rounds bytes szx short h =
    let s = block_size_from_szx (min szx max_szx) in
    ground (
      arith,
      ceil_div (length bytes) s ((length bytes + s - 1) / s) (size_pos (min szx max_szx)),
      ceil_div_le (length bytes) s (size_pos (min szx max_szx)) h,
    )

-- A payload that is not empty, is shorter than 2^32 and is within the receiver's limit arrives
-- whole: `total_blocks` blocks, asked for in order from 0 and handed to a new assembler, give it
-- back, whatever the size exponent.
pub into_payload-send_from :
    (bytes : List ℕ) (szx max_payload : ℕ)
    → length bytes < u32_mod
    → 0 < length bytes
    → length bytes ≤ max_payload
    → into_payload (
        send_from
          (disassembler bytes szx)
          (total_blocks (disassembler bytes szx))
          0
          (new max_payload))
      ≡ ok bytes
unfolding new
into_payload-send_from bytes szx max_payload short h fits =
    send_from-completes bytes szx short (block_size_from_szx (min szx max_szx)) _ 0 _ refl
      (size_pos (min szx max_szx)) (omega arith) (enough_rounds bytes szx short h) refl
      (record { prefix = ap (λ (k : ℕ). take k bytes) (zero_mul _); at = refl; fits = fits })
