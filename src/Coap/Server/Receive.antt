-- ===== src/Coap/Server/Receive.antt =====
-- `process_datagram` of crates/kipuka-coap/src/server.rs. The times of one datagram are those of its
-- `World`.
use kipuka.Common.{
  ℕ, ◌-◌, ◌*◌, ◌^◌, min, Bool, true, false, not, Option, none, some, List, [], ◌∷◌, length, ltb,
  leb, ◌==◌, if◌then◌else◌, ascii, same_bytes,
}
use kipuka.Common.Dict
use kipuka.Coap.Error.{
  CoapResult, ok, err, invalid_message, message_id_reused, payload_too_large, internal,
}
use kipuka.Coap.Block.{BlockOption}
use kipuka.Coap.Message.{CoapMessage, CoapMessageType, confirmable, non_confirmable, parse, block2}
use kipuka.Coap.Server.State.{
  ExchangeKey, exchange_eq, ExchangeEntry, CoapDtlsServer, World, Step, reap_stale_entries,
  forget_peer, send_encoded,
}
use kipuka.Coap.Server.Handle.{refuse, continue_block2, handle_request}

-- EXCHANGE_LIFETIME of RFC 7252, in nanoseconds.
abbrev pub exchange_lifetime : ℕ
exchange_lifetime = 247_000_000_000

abbrev pub exchange_key : ℕ → CoapMessage → ExchangeKey
exchange_key peer_addr m = record { peer = peer_addr; message_id = m.message_id }

unfoldable pub asks : CoapMessageType → Bool
asks confirmable = true
asks non_confirmable = true
asks _ = false

unfoldable pub is_current : ℕ → ExchangeEntry → Bool
is_current now e = ltb (now - e.since) exchange_lifetime

unfoldable pub retain_exchanges : ℕ → CoapDtlsServer → CoapDtlsServer
unfolding is_current
retain_exchanges now s = record s { exchanges = Dict.retain (is_current now) s.exchanges }

unfoldable pub dispatch_block2 :
    World → CoapDtlsServer → ℕ → CoapMessage → Option BlockOption → Step
dispatch_block2 w s peer_addr m none = handle_request w s peer_addr m
dispatch_block2 w s peer_addr m (some block) =
    if ltb 0 block.num
    then continue_block2 w s peer_addr m block
    else handle_request w s peer_addr m

-- A message whose exchange is admitted.
unfoldable pub dispatch : World → CoapDtlsServer → ℕ → CoapMessage → Step
unfolding dispatch_block2
dispatch w s peer_addr m =
    if not (m.code.class == 0) then (ok tt, s, []) else dispatch_block2 w s peer_addr m (block2 m)

-- A message ID that is known: the same bytes get the same reply, if there is one yet.
unfoldable pub repeated : World → CoapDtlsServer → ℕ → List ℕ → ExchangeEntry → Step
unfolding send_encoded
repeated w s peer_addr bytes entry =
    if not (same_bytes entry.request bytes)
    then (err (invalid_message message_id_reused), s, [])
    else elim entry.response [
      | none ↦ (ok tt, s, [])
      | some response ↦
          let (done, effects) = send_encoded w peer_addr response in (done, s, effects)
    ]

abbrev pub admitted : World → CoapDtlsServer → ℕ → List ℕ → CoapMessage → CoapDtlsServer
admitted w s peer_addr bytes m = record s {
  exchanges =
      Dict.insert s.exchanges (exchange_key peer_addr m)
        (record { request = bytes; response = none; since = w.begun });
}

unfoldable pub exchange_at :
    World → CoapDtlsServer → ℕ → List ℕ → CoapMessage → Option ExchangeEntry → Step
unfolding repeated dispatch
exchange_at w s peer_addr bytes m (some entry) = repeated w s peer_addr bytes entry
exchange_at w s peer_addr bytes m none =
    if leb (min (s.max_block_assemblers * 16) (2 ^ 64 - 1)) (length s.exchanges)
    then (err (internal (ascii "exchange capacity exhausted")), s, [])
    else dispatch w (admitted w s peer_addr bytes m) peer_addr m

unfoldable pub exchange : World → CoapDtlsServer → ℕ → List ℕ → CoapMessage → Step
unfolding exchange_at
exchange w s peer_addr bytes m =
    exchange_at w s peer_addr bytes m (Dict.get s.exchanges (exchange_key peer_addr m))

unfoldable pub receive : World → CoapDtlsServer → ℕ → List ℕ → CoapMessage → Step
unfolding exchange asks retain_exchanges
receive w s peer_addr bytes m =
    if not (asks m.msg_type)
    then (ok tt, s, [])
    else if ltb s.max_payload (length m.payload)
    then refuse w s peer_addr m (payload_too_large (length m.payload) s.max_payload)
    else exchange w (retain_exchanges w.begun s) peer_addr bytes m

unfoldable pub process_parsed : World → CoapDtlsServer → List ℕ → ℕ → CoapResult CoapMessage → Step
unfolding receive
process_parsed w s bytes peer_addr (err e) = (err e, s, [])
process_parsed w s bytes peer_addr (ok m) = receive w s peer_addr bytes m

unfoldable pub process_datagram : World → CoapDtlsServer → List ℕ → ℕ → Step
unfolding process_parsed reap_stale_entries
process_datagram w s bytes peer_addr =
    process_parsed w (reap_stale_entries w.begun s) bytes peer_addr (parse bytes)

-- A datagram, and what the server meets while it works on it.
pub record Datagram : Type 0 where
  pub world : World
  pub bytes : List ℕ
  pub peer : ℕ

unfoldable pub process : CoapDtlsServer → Datagram → Step
process s d = process_datagram d.world s d.bytes d.peer

-- What the receive loop meets: a peer with which a new DTLS connection is made, since there is none or
-- the last one has run out or been given up, and a message that a connection has decrypted.
pub data Arrival : Type 0 where
  connected : ℕ → Arrival
  received : Datagram → Arrival

unfoldable pub arrive : CoapDtlsServer → Arrival → CoapDtlsServer
unfolding process forget_peer
arrive s (connected peer_addr) = forget_peer peer_addr s
arrive s (received d) = (process s d).1

-- Arrivals one after the other, whatever becomes of each.
unfoldable pub run : CoapDtlsServer → List Arrival → CoapDtlsServer
unfolding arrive
run s [] = s
run s (a ∷ arrivals) = run (arrive s a) arrivals
