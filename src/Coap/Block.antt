-- ===== src/Coap/Block.antt =====
-- crates/kipuka-coap/src/block.rs: block-wise transfer (RFC 7959). Bytes are numbers; `usize` sums
-- of lengths are within the address space, while the `u32` fields wrap as written. `|` of operands
-- with no common bit is a sum, `<<` a product and `>>` a quotient by a power of two.
pub mod Codec
pub mod Assembler
pub mod Transfer
mod Examples
use kipuka.Common.{
  ℕ, zero, suc, ◌+◌, ◌*◌, ◌/◌, ◌%◌, ◌^◌, ◌-◌, min, Bool, true, false, not, Option, none, some, List,
  [], ◌++◌, ltb, leb, ◌==◌, if◌then◌else◌, length, take, drop,
}
use kipuka.Coap.Error.{
  CoapResult, ok, err, block_transfer_error, payload_too_large, already_complete, unexpected_block,
  incomplete,
}

abbrev pub default_szx : ℕ
default_szx = 5

abbrev pub max_szx : ℕ
max_szx = 6

abbrev pub u32_mod : ℕ
u32_mod = 2 ^ 32

pub record BlockOption : Type 0 where
  pub num : ℕ
  pub more : Bool
  pub szx : ℕ

pub decode : ℕ → BlockOption
decode value = record { num = value / 2 ^ 4; more = not (value / 8 % 2 == 0); szx = value % 8 }

pub encode : BlockOption → ℕ
encode b = b.num * 2 ^ 4 % u32_mod + (if b.more then 8 else 0) + b.szx % 8

unfoldable pub block_size_from_szx : ℕ → ℕ
block_size_from_szx szx = 2 ^ (min szx max_szx + 4)

pub szx_from_block_size : ℕ → Option ℕ
szx_from_block_size size =
    if size == 16
    then some 0
    else if size == 32
    then some 1
    else if size == 64
    then some 2
    else if size == 128
    then some 3
    else if size == 256
    then some 4
    else if size == 512
    then some 5
    else if size == 1024
    then some 6
    else none

pub block_size : BlockOption → ℕ
block_size b = block_size_from_szx b.szx

pub offset : BlockOption → ℕ
offset b = b.num * block_size b

pub record BlockAssembler : Type 0 where
  pub buffer : List ℕ
  pub next_num : ℕ
  pub szx : ℕ
  pub max_payload : ℕ
  pub complete : Bool

unfoldable pub new : ℕ → BlockAssembler
new max_payload = record {
  buffer = [];
  next_num = 0;
  szx = default_szx;
  max_payload = max_payload;
  complete = false;
}

-- The assembler after the call comes beside the result, since an error leaves what was written.
unfoldable pub process_block :
    BlockAssembler → BlockOption → List ℕ → CoapResult Bool × BlockAssembler
process_block a block bytes =
    if a.complete
    then (err (block_transfer_error already_complete), a)
    else if not (block.num == a.next_num)
    then (err (block_transfer_error (unexpected_block a.next_num block.num)), a)
    else let adopted = if block.num == 0 then record a { szx = block.szx } else a in
      let new_size = length a.buffer + length bytes in
      if ltb a.max_payload new_size
      then (err (payload_too_large new_size a.max_payload), adopted)
      else let complete = if block.more then a.complete else true in
        (
          ok complete,
          record adopted {
            buffer = a.buffer ++ bytes;
            next_num = (block.num + 1) % u32_mod;
            complete = complete;
          },
        )

unfoldable pub payload : BlockAssembler → Option (List ℕ)
payload a = if a.complete then some a.buffer else none

unfoldable pub into_payload : BlockAssembler → CoapResult (List ℕ)
into_payload a =
    if a.complete then ok a.buffer else err (block_transfer_error (incomplete a.next_num))

pub reset : BlockAssembler → BlockAssembler
reset a = record a { buffer = []; next_num = 0; szx = default_szx; complete = false }

pub record BlockDisassembler : Type 0 where
  pub payload : List ℕ
  pub szx : ℕ

unfoldable pub disassembler : List ℕ → ℕ → BlockDisassembler
disassembler bytes szx = record { payload = bytes; szx = min szx max_szx }

unfoldable pub get_block : BlockDisassembler → ℕ → Option (List ℕ × BlockOption)
get_block d block_num =
    let size = block_size_from_szx d.szx in
    let start = block_num * size in
    if leb (length d.payload) start
    then none
    else let end = min (start + size) (length d.payload) in
      some (
        take (end - start) (drop start d.payload),
        record { num = block_num; more = ltb end (length d.payload); szx = d.szx },
      )

unfoldable pub total_blocks : BlockDisassembler → ℕ
total_blocks d =
    let size = block_size_from_szx d.szx in
    if length d.payload == 0 then 1 else (length d.payload + size - 1) / size % u32_mod
