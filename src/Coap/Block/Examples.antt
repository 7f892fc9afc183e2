-- ===== src/Coap/Block/Examples.antt =====
-- Runs of the block layer (crates/kipuka-coap/src/block.rs), and its theorems at concrete inputs.
use kipuka.Common.{ℕ, ◌≡◌, refl, arith, true, false, some, List, [], ◌∷◌}
use kipuka.Coap.Error.{ok}
use kipuka.Coap.Block.{
  BlockOption, decode, block_size_from_szx, new, into_payload, disassembler, get_block,
  total_blocks,
}
use kipuka.Coap.Block.Transfer.{send_from, into_payload-send_from}

abbrev first : BlockOption
first = record { num = 0; more = true; szx = 0 }

abbrev second : BlockOption
second = record { num = 1; more = false; szx = 0 }

abbrev twenty : List ℕ
twenty =
    0 ∷ 1 ∷ 2 ∷ 3 ∷ 4 ∷ 5 ∷ 6 ∷ 7 ∷ 8 ∷ 9 ∷ 10 ∷ 11 ∷ 12 ∷ 13 ∷ 14 ∷ 15 ∷ 16 ∷ 17 ∷ 18 ∷ 19 ∷ []

decode_sample : decode 0x1d ≡ record { num = 1; more = true; szx = 5 }
unfolding decode
decode_sample = refl

total_blocks_sample : total_blocks (disassembler twenty 0) ≡ 2
unfolding total_blocks disassembler block_size_from_szx
total_blocks_sample = refl

get_block_sample : get_block (disassembler twenty 0) 1 ≡ some (16 ∷ 17 ∷ 18 ∷ 19 ∷ [], second)
unfolding get_block disassembler block_size_from_szx
get_block_sample = refl

into_payload-send_from_example :
    into_payload
      (send_from (disassembler twenty 0) (total_blocks (disassembler twenty 0)) 0 (new 100))
    ≡ ok twenty
into_payload-send_from_example =
    into_payload-send_from twenty 0 100 (omega arith) (omega arith) (omega arith)
