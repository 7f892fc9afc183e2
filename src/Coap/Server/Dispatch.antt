-- ===== src/Coap/Server/Dispatch.antt =====
-- The whole work on an admitted request (crates/kipuka-coap/src/server.rs): it changes of the
-- exchanges no more than the reply of its own, and every packet it sends is a reply.
use kipuka.Common.{
  ℕ, ◌<◌, Bool, true, false, not, ◌&&◌, ◌≡◌, ◌⊎◌, inl, inr, refl, Option, none, some, List, [], ◌∷◌,
  length, ltb, leb, ◌==◌, arith, Bool-cases,
}
use kipuka.Common.Dict
use kipuka.Common.Dict.{size-insert, size-remove-le, is_some}
use kipuka.Coap.Error.{CoapResult, ok, err, bind_ok, payload_too_large}
use kipuka.Coap.Block
use kipuka.Coap.Block.{
  BlockOption, BlockAssembler, BlockDisassembler, get_block, into_payload, process_block,
  disassembler, block_size_from_szx,
}
use kipuka.Coap.Message.{
  CoapCode, CoapMessage, from_uint, option_content_format, option_block1, content_format, block1,
  block2,
}
use kipuka.Coap.Router.{CoapEstRequest, route_message, route_with_label, method_of, uri_path}
use kipuka.Coap.Server.State.{transfer_eq, Assembly, CoapDtlsServer, EstResponse, World}
use kipuka.Coap.Server.Handle.{
  transfer_key, block_reply, send_first, answer, after_handle, deliver, after_body, put_assembler,
  drop_assembler, after_block, assembler_of, assemble, response_code, handle_body, handle_routed,
  handle_request,
}
use kipuka.Coap.Server.Receive.{exchange_key, dispatch_block2, dispatch}
use kipuka.Coap.Server.Evolves.{
  Evolves, Serves, with_assemblers, Serves-after, silent, if-Serves, send_reply-Serves,
  refuse-Serves, continue_block2-Serves, cache_response-Serves,
}

route_message-message :
    (m : CoapMessage) (req : CoapEstRequest) → route_message m ≡ ok req → req.message ≡ m
unfolding route_message
route_message-message m req e =
    let (routed, _, e') = bind_ok (route_with_label (uri_path m)) _ e in
    let (method, _, e'') = bind_ok (method_of m.code) _ e' in ground (arith, e'')

module _ (w : World) (peer_addr : ℕ) (req : CoapEstRequest) where
  abbrev m : CoapMessage
  m = req.message

  send_first-Serves :
      (s : CoapDtlsServer) (disasm : BlockDisassembler) (cf : ℕ) (code : CoapCode)
      (block : Option (List ℕ × BlockOption))
      → Serves peer_addr m s (send_first w s peer_addr m disasm cf code block)
  unfolding send_first block_reply
  send_first-Serves s disasm cf code none = silent w peer_addr m s (ok tt)
  send_first-Serves s disasm cf code (some (bytes, block)) =
      send_reply-Serves w peer_addr m s code _ bytes

  answer-Serves :
      (s : CoapDtlsServer) (resp : EstResponse)
      → Serves peer_addr m s (answer w s peer_addr req resp)
  unfolding answer
  answer-Serves s resp =
      let code = response_code req.operation in
      let disasm = disassembler resp.payload s.block_szx in
      if-Serves w peer_addr m s (ltb s.max_payload (length resp.payload)) _ _
        (silent w peer_addr m s (err (payload_too_large (length resp.payload) s.max_payload)))
        (if-Serves w peer_addr m s (ltb (block_size_from_szx s.block_szx) (length resp.payload)) _ _
          (cache_response-Serves w peer_addr m s (transfer_key peer_addr m) disasm
            resp.content_format code _
            (send_first-Serves s disasm resp.content_format code (get_block disasm 0)))
          (send_reply-Serves w peer_addr m s code
            (from_uint option_content_format resp.content_format ∷ []) resp.payload))

  after_handle-Serves :
      (s : CoapDtlsServer) (r : CoapResult (CoapResult EstResponse))
      → Serves peer_addr m s (after_handle w s peer_addr req r)
  unfolding after_handle
  after_handle-Serves s (err e) = silent w peer_addr m s (err e)
  after_handle-Serves s (ok (err e)) = refuse-Serves w peer_addr m s e
  after_handle-Serves s (ok (ok resp)) = answer-Serves s resp

  deliver-Serves :
      (s : CoapDtlsServer) (body : List ℕ) → Serves peer_addr m s (deliver w s peer_addr req body)
  unfolding deliver
  deliver-Serves s body =
      let result = w.handle req.operation req.label body (content_format m) w.client_cert in
      let served = after_handle-Serves s result in
      if-Serves w peer_addr m s (ltb s.max_payload (length body)) _ _
        (refuse-Serves w peer_addr m s (payload_too_large (length body) s.max_payload))
        (record { evolves = served.evolves; replies = served.replies })

  after_body-Serves :
      (s : CoapDtlsServer) (r : CoapResult (List ℕ))
      → Serves peer_addr m s (after_body w s peer_addr req r)
  unfolding after_body
  after_body-Serves s (err e) = silent w peer_addr m s (err e)
  after_body-Serves s (ok body) = deliver-Serves s body

  -- The table has room for the assembler, or has one for its key.
  HasRoom : CoapDtlsServer → Type 0
  HasRoom s =
      (Dict.contains_key s.block_assemblers (transfer_key peer_addr m) ≡ true)
      ⊎ (length s.block_assemblers < s.max_block_assemblers)

  put_assembler-Evolves :
      (s : CoapDtlsServer) (assembler : BlockAssembler)
      → HasRoom s
      → Evolves
          (exchange_key peer_addr m)
          s
          (put_assembler w s (transfer_key peer_addr m) assembler)
  unfolding HasRoom
  put_assembler-Evolves s assembler room =
      let k = transfer_key peer_addr m in
      let entry : Assembly = record { assembler = assembler; touched = w.begun } in
      with_assemblers (exchange_key peer_addr m) s (Dict.insert s.block_assemblers k entry)
        (λ b. ground (arith, size-insert s.block_assemblers k entry, room, b))

  after_block-Serves :
      (s : CoapDtlsServer) (block : BlockOption) (r : CoapResult Bool × BlockAssembler)
      → HasRoom s
      → Serves peer_addr m s (after_block w s peer_addr req block r)
  unfolding after_block
  after_block-Serves s block (err e, assembler) room =
      let put = put_assembler w s (transfer_key peer_addr m) assembler in
      Serves-after w peer_addr m s put _ (put_assembler-Evolves s assembler room)
        (silent w peer_addr m put (err e))
  after_block-Serves s block (ok false, assembler) room =
      let put = put_assembler w s (transfer_key peer_addr m) assembler in
      Serves-after w peer_addr m s put _ (put_assembler-Evolves s assembler room) (
        send_reply-Serves w peer_addr m put (record { class = 2; detail = 31 })
          (from_uint option_block1 (Block.encode block) ∷ []) [])
  after_block-Serves s block (ok true, assembler) room =
      let k = transfer_key peer_addr m in
      let put = put_assembler w s k assembler in
      let dropped = drop_assembler put k in
      Serves-after w peer_addr m s put _ (put_assembler-Evolves s assembler room) (
        Serves-after w peer_addr m put dropped _
          (with_assemblers (exchange_key peer_addr m) put dropped.block_assemblers
            (λ b. omega (arith, size-remove-le put.block_assemblers k)))
          (after_body-Serves dropped (into_payload assembler)))

  assemble-Serves :
      (s : CoapDtlsServer) (block : BlockOption)
      → Serves peer_addr m s (assemble w s peer_addr req block)
  unfolding assemble HasRoom
  assemble-Serves s block =
      let k = transfer_key peer_addr m in
      let has = Dict.contains_key s.block_assemblers k in
      let full = leb s.max_block_assemblers (length s.block_assemblers) in
      elim (Bool-cases (not has && full)) [
        | inl refused ↦ rw refused (silent w peer_addr m s _)
        | inr admits ↦ rw admits (
            after_block-Serves s block (process_block (assembler_of s k) block m.payload)
              (elim (Bool-cases has) [
                | inl present ↦ inl present
                | inr absent ↦ inr (ground (arith, absent, admits))
              ]))
      ]

  handle_body-Serves :
      (s : CoapDtlsServer) (block : Option BlockOption)
      → Serves peer_addr m s (handle_body w s peer_addr req block)
  unfolding handle_body
  handle_body-Serves s none = deliver-Serves s m.payload
  handle_body-Serves s (some block) = assemble-Serves s block

module _ (w : World) (peer_addr : ℕ) (m : CoapMessage) where
  handle_routed-Serves :
      (s : CoapDtlsServer) (r : CoapResult CoapEstRequest)
      → route_message m ≡ r
      → Serves peer_addr m s (handle_routed w s peer_addr m r)
  unfolding handle_routed
  handle_routed-Serves s (err e) h = refuse-Serves w peer_addr m s e
  handle_routed-Serves s (ok req) h =
      rw (← route_message-message m req h)
        (handle_body-Serves w peer_addr req s (block1 req.message))

  handle_request-Serves :
      (s : CoapDtlsServer) → Serves peer_addr m s (handle_request w s peer_addr m)
  unfolding handle_request
  handle_request-Serves s = handle_routed-Serves s (route_message m) refl

  dispatch_block2-Serves :
      (s : CoapDtlsServer) (block : Option BlockOption)
      → Serves peer_addr m s (dispatch_block2 w s peer_addr m block)
  unfolding dispatch_block2
  dispatch_block2-Serves s none = handle_request-Serves s
  dispatch_block2-Serves s (some block) =
      if-Serves w peer_addr m s (ltb 0 block.num) _ _ (continue_block2-Serves w peer_addr m s block)
        (handle_request-Serves s)

  pub dispatch-Serves : (s : CoapDtlsServer) → Serves peer_addr m s (dispatch w s peer_addr m)
  unfolding dispatch
  dispatch-Serves s =
      if-Serves w peer_addr m s (not (m.code.class == 0)) _ _ (silent w peer_addr m s (ok tt))
        (dispatch_block2-Serves s (block2 m))
