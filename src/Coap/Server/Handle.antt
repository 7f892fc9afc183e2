-- ===== src/Coap/Server/Handle.antt =====
-- The work on a request (crates/kipuka-coap/src/server.rs, `process_datagram` once the exchange is
-- admitted): the blocks of a request, the call of the handler, and the blocks of a response.
use kipuka.Common.{
  ℕ, ◌%◌, ◌^◌, Bool, true, false, not, ◌&&◌, Option, none, some, List, [], ◌∷◌, length, ltb, leb,
  if◌then◌else◌, ascii,
}
use kipuka.Common.Dict
use kipuka.Coap.Error.{
  CoapError, CoapResult, ok, err, invalid_message, unknown_block2_exchange, payload_too_large,
  internal,
}
use kipuka.Coap.Block
use kipuka.Coap.Block.{
  BlockOption, BlockAssembler, process_block, into_payload, BlockDisassembler, disassembler,
  get_block, block_size_from_szx,
}
use kipuka.Coap.Message.{
  CoapCode, CoapMessage, CoapOption, from_uint, acknowledgement, coap_version,
  option_content_format, option_block1, option_block2, to_byte, content_format, block1,
}
use kipuka.Coap.Router.{EstOperation, CoapEstRequest, uri_path, route_message, reads}
use kipuka.Coap.Server.State.{
  TransferKey, transfer_eq, ResponseCacheEntry, CoapDtlsServer, EstResponse, World, Effect, called,
  Step, send_response, build_error_response,
}

abbrev pub option_size2 : ℕ
option_size2 = 28

-- The reply to a message: its token and its message ID, as an acknowledgement.
abbrev pub reply : CoapMessage → CoapCode → List CoapOption → List ℕ → CoapMessage
reply m code options payload = record {
  version = coap_version;
  msg_type = acknowledgement;
  code = code;
  message_id = m.message_id;
  token = m.token;
  options = options;
  payload = payload;
}

abbrev pub transfer_key : ℕ → CoapMessage → TransferKey
transfer_key peer_addr m = record {
  peer = peer_addr;
  token = m.token;
  path = uri_path m;
  code = to_byte m.code;
}

-- The reply to an error.
unfoldable pub refuse : World → CoapDtlsServer → ℕ → CoapMessage → CoapError → Step
refuse w s peer_addr m e =
    send_response w s peer_addr (build_error_response w m.token m.message_id e)

unfoldable pub block_reply :
    CoapMessage → BlockDisassembler → ℕ → CoapCode → List ℕ × BlockOption → CoapMessage
block_reply m disasm cf code (block_data, block_opt) =
    reply m code
      (from_uint option_content_format cf
        ∷ from_uint option_block2 (Block.encode block_opt)
        ∷ from_uint option_size2 (length disasm.payload % 2 ^ 32)
        ∷ [])
      block_data

-- A later block of a response that is in the cache.
unfoldable pub continue_entry :
    World
    → CoapDtlsServer
    → ℕ
    → CoapMessage
    → ResponseCacheEntry
    → Option (List ℕ × BlockOption)
    → Step
unfolding refuse
continue_entry w s peer_addr m entry none =
    refuse w (record s { response_cache = Dict.remove s.response_cache (transfer_key peer_addr m) })
      peer_addr m (invalid_message unknown_block2_exchange)
continue_entry w s peer_addr m entry (some block) =
    let key = transfer_key peer_addr m in
    let cache =
      if block.1.more
      then Dict.insert s.response_cache key (record entry { touched = w.begun })
      else Dict.remove s.response_cache key in
    send_response w (record s { response_cache = cache }) peer_addr
      (block_reply m entry.disasm entry.content_format entry.code block)

unfoldable pub continue_from :
    World → CoapDtlsServer → ℕ → CoapMessage → BlockOption → Option ResponseCacheEntry → Step
unfolding refuse continue_entry
continue_from w s peer_addr m block2 none =
    refuse w s peer_addr m (invalid_message unknown_block2_exchange)
continue_from w s peer_addr m block2 (some entry) =
    continue_entry w s peer_addr m entry (get_block entry.disasm block2.num)

unfoldable pub continue_block2 : World → CoapDtlsServer → ℕ → CoapMessage → BlockOption → Step
unfolding continue_from
continue_block2 w s peer_addr m block2 =
    continue_from w s peer_addr m block2 (Dict.get s.response_cache (transfer_key peer_addr m))

-- The response is kept for its later blocks, where there is room.
unfoldable pub cache_response : World → TransferKey → BlockDisassembler → ℕ → CoapCode → Step → Step
cache_response w key disasm cf code (err e, s, effects) = (err e, s, effects)
cache_response w key disasm cf code (ok done, s, effects) =
    if ltb (length s.response_cache) s.max_block_assemblers
    then (
      ok tt,
      record s {
        response_cache =
            Dict.insert s.response_cache key
              (record { disasm = disasm; content_format = cf; code = code; touched = w.answered });
      },
      effects,
    )
    else (ok tt, s, effects)

unfoldable pub response_code : EstOperation → CoapCode
response_code operation =
    if reads operation then record { class = 2; detail = 5 } else record { class = 2; detail = 1 }

-- The first block of a response in several, if there is one.
unfoldable pub send_first :
    World
    → CoapDtlsServer
    → ℕ
    → CoapMessage
    → BlockDisassembler
    → ℕ
    → CoapCode
    → Option (List ℕ × BlockOption)
    → Step
unfolding block_reply
send_first w s peer_addr m disasm cf code none = (ok tt, s, [])
send_first w s peer_addr m disasm cf code (some block) =
    send_response w s peer_addr (block_reply m disasm cf code block)

unfoldable pub answer : World → CoapDtlsServer → ℕ → CoapEstRequest → EstResponse → Step
unfolding cache_response response_code send_first
answer w s peer_addr req resp =
    let m = req.message in
    let code = response_code req.operation in
    let disasm = disassembler resp.payload s.block_szx in
    if ltb s.max_payload (length resp.payload)
    then (err (payload_too_large (length resp.payload) s.max_payload), s, [])
    else if ltb (block_size_from_szx s.block_szx) (length resp.payload)
    then cache_response w (transfer_key peer_addr m) disasm resp.content_format code
        (send_first w s peer_addr m disasm resp.content_format code (get_block disasm 0))
    else send_response w s peer_addr
        (reply m code (from_uint option_content_format resp.content_format ∷ []) resp.payload)

abbrev pub after_call : Effect → Step → Step
after_call e (done, s, effects) = (done, s, e ∷ effects)

unfoldable pub after_handle :
    World → CoapDtlsServer → ℕ → CoapEstRequest → CoapResult (CoapResult EstResponse) → Step
unfolding answer refuse
after_handle w s peer_addr req (err e) = (err e, s, [])
after_handle w s peer_addr req (ok (err e)) = refuse w s peer_addr req.message e
after_handle w s peer_addr req (ok (ok resp)) = answer w s peer_addr req resp

-- The call of the handler, and what becomes of its answer.
unfoldable pub deliver : World → CoapDtlsServer → ℕ → CoapEstRequest → List ℕ → Step
unfolding after_handle refuse
deliver w s peer_addr req body =
    let m = req.message in
    if ltb s.max_payload (length body)
    then refuse w s peer_addr m (payload_too_large (length body) s.max_payload)
    else after_call (called req.operation req.label body) (
        after_handle w s peer_addr req
          (w.handle req.operation req.label body (content_format m) w.client_cert))

abbrev pub assembler_of : CoapDtlsServer → TransferKey → BlockAssembler
assembler_of s key = elim (Dict.get s.block_assemblers key) [
  | none ↦ Block.new s.max_payload
  | some a ↦ a.assembler
]

unfoldable pub after_body : World → CoapDtlsServer → ℕ → CoapEstRequest → CoapResult (List ℕ) → Step
unfolding deliver
after_body w s peer_addr req (err e) = (err e, s, [])
after_body w s peer_addr req (ok body) = deliver w s peer_addr req body

-- The assembler is put back whatever comes of the block.
abbrev pub put_assembler : World → CoapDtlsServer → TransferKey → BlockAssembler → CoapDtlsServer
put_assembler w s key assembler = record s {
  block_assemblers =
      Dict.insert s.block_assemblers key (record { assembler = assembler; touched = w.begun });
}

abbrev pub drop_assembler : CoapDtlsServer → TransferKey → CoapDtlsServer
drop_assembler s key = record s { block_assemblers = Dict.remove s.block_assemblers key }

-- What follows a block that has been taken, or refused.
unfoldable pub after_block :
    World
    → CoapDtlsServer
    → ℕ
    → CoapEstRequest
    → BlockOption
    → CoapResult Bool × BlockAssembler
    → Step
unfolding after_body
after_block w s peer_addr req block (err e, assembler) =
    (err e, put_assembler w s (transfer_key peer_addr req.message) assembler, [])
after_block w s peer_addr req block (ok false, assembler) =
    send_response w (put_assembler w s (transfer_key peer_addr req.message) assembler) peer_addr (
      reply req.message (record { class = 2; detail = 31 })
        (from_uint option_block1 (Block.encode block) ∷ []) [])
after_block w s peer_addr req block (ok true, assembler) =
    let key = transfer_key peer_addr req.message in
    after_body w (drop_assembler (put_assembler w s key assembler) key) peer_addr req
      (into_payload assembler)

unfoldable pub assemble : World → CoapDtlsServer → ℕ → CoapEstRequest → BlockOption → Step
unfolding after_block
assemble w s peer_addr req block =
    let m = req.message in
    let key = transfer_key peer_addr m in
    if not (Dict.contains_key s.block_assemblers key)
      && leb s.max_block_assemblers (length s.block_assemblers)
    then (err (internal (ascii "too many concurrent block transfers")), s, [])
    else after_block w s peer_addr req block (process_block (assembler_of s key) block m.payload)

unfoldable pub handle_body : World → CoapDtlsServer → ℕ → CoapEstRequest → Option BlockOption → Step
unfolding assemble deliver
handle_body w s peer_addr req none = deliver w s peer_addr req req.message.payload
handle_body w s peer_addr req (some block) = assemble w s peer_addr req block

unfoldable pub handle_routed :
    World → CoapDtlsServer → ℕ → CoapMessage → CoapResult CoapEstRequest → Step
unfolding handle_body refuse
handle_routed w s peer_addr m (err e) = refuse w s peer_addr m e
handle_routed w s peer_addr m (ok req) = handle_body w s peer_addr req (block1 m)

unfoldable pub handle_request : World → CoapDtlsServer → ℕ → CoapMessage → Step
unfolding handle_routed
handle_request w s peer_addr m = handle_routed w s peer_addr m (route_message m)
