-- ===== src/Coap/Block/Assembler.antt =====
-- `BlockAssembler` of crates/kipuka-coap/src/block.rs: what each call keeps.
use kipuka.Common.{
  ℕ, ◌+◌, ◌≤◌, ◌<◌, ◌≡◌, refl, arith, Bool, false, List, [], ◌∷◌, ◌++◌, length, length-append,
  if◌then◌else◌,
}
use kipuka.Coap.Error.{CoapError, ok, err, block_transfer_error, already_complete, unexpected_block}
use kipuka.Coap.Block.{BlockOption, BlockAssembler, new, process_block, reset, u32_mod}

-- The buffer is within the limit, and it is empty before the first block.
pub record IsValid (a : BlockAssembler) : Type 0 where
  pub bounded : length a.buffer ≤ a.max_payload
  pub fresh : a.next_num ≡ 0 → (a.buffer ≡ []) × (a.complete ≡ false)

-- A call keeps it, accepted or refused.
process_block-IsValid :
    (a : BlockAssembler) (block : BlockOption) (bytes : List ℕ)
    → block.num + 1 < u32_mod
    → IsValid a
    → IsValid (process_block a block bytes).1
unfolding process_block
process_block-IsValid a block bytes h v = ground (arith, length-append a.buffer bytes, v.fresh)

-- What the server does with an assembler.
pub data Call : Type 0 where
  receives : BlockOption → List ℕ → Call
  resets : Call

pub run : BlockAssembler → List Call → BlockAssembler
run a [] = a
run a (receives block bytes ∷ calls) = run (process_block a block bytes).1 calls
run a (resets ∷ calls) = run (reset a) calls

abbrev pub InRange : List Call → Type 0
InRange [] = Unit
InRange (receives block bytes ∷ calls) = (block.num + 1 < u32_mod) × InRange calls
InRange (resets ∷ calls) = InRange calls

run-IsValid_from :
    (a : BlockAssembler) (calls : List Call) → InRange calls → IsValid a → IsValid (run a calls)
unfolding run reset
run-IsValid_from a [] h v = v
run-IsValid_from a (receives block bytes ∷ calls) h v =
    run-IsValid_from _ calls h.1 (process_block-IsValid a block bytes h.0 v)
run-IsValid_from a (resets ∷ calls) h v =
    run-IsValid_from (reset a) calls h (record { bounded = omega arith; fresh = λ _. (refl, refl) })

-- After any history of blocks and resets, with block numbers that leave room for a successor, the
-- buffer is within the payload limit, and it is empty and incomplete before the first block.
pub run-IsValid :
    (max_payload : ℕ) (calls : List Call) → InRange calls → IsValid (run (new max_payload) calls)
unfolding new
run-IsValid max_payload calls h =
    run-IsValid_from (new max_payload) calls h
      (record { bounded = omega arith; fresh = λ _. (refl, refl) })

-- A refused block changes nothing but, on the first block, the size exponent.
pub process_block_refused :
    (a : BlockAssembler) (block : BlockOption) (bytes : List ℕ) {e : CoapError}
    → (process_block a block bytes).0 ≡ err e
    → ((process_block a block bytes).1.buffer ≡ a.buffer)
      × ((process_block a block bytes).1.next_num ≡ a.next_num)
      × ((process_block a block bytes).1.complete ≡ a.complete)
      × ((process_block a block bytes).1.max_payload ≡ a.max_payload)
unfolding process_block
process_block_refused a block bytes h = ground arith

-- An accepted block is the expected one, it is appended, and after it no block with its number is
-- accepted, whatever it carries.
pub process_block_accepted :
    (a : BlockAssembler) (block : BlockOption) (bytes later : List ℕ) {c : Bool}
    → block.num + 1 < u32_mod
    → (process_block a block bytes).0 ≡ ok c
    → (block.num ≡ a.next_num)
      × ((process_block a block bytes).1.buffer ≡ a.buffer ++ bytes)
      × ((process_block (process_block a block bytes).1 block later).0 ≡ (
          if c
          then err (block_transfer_error already_complete)
          else err (block_transfer_error (unexpected_block (block.num + 1) block.num))))
unfolding process_block
process_block_accepted a block bytes later h p = ground arith
