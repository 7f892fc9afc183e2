-- ===== src/Coap/Server/Examples.antt =====
-- Runs of the CoAP server (crates/kipuka-coap/src/server.rs), and its theorems at concrete inputs.
use kipuka.Common.{
  ℕ, true, false, ◌≡◌, refl, ◌⊎◌, none, List, [], ◌∷◌, arith, ascii, is_utf8, is_utf8_from,
  same_bytes,
}
use kipuka.Common.Dict
use kipuka.Coap.Error.{ok}
use kipuka.Coap.Message.{
  CoapMessage, confirmable, parse, parse_options, parse_option, extended, from_bits, from_byte,
  from_code, find_option, block1, block2,
}
use kipuka.Coap.Router.{
  uri_path, join, route_message, route_with_label, path_segments, trim_start, trim_end,
  trim_prefixes, strip_prefix, split, operation_of, reads, is_get_or_fetch, is_post,
}
use kipuka.Coap.Server.State.{CoapDtlsServer, World, sent, bind, reap_stale_entries, exchange_eq}
use kipuka.Coap.Server.Handle.{deliver, handle_body, handle_routed, handle_request}
use kipuka.Coap.Server.Receive.{
  exchange_key, retain_exchanges, asks, dispatch_block2, dispatch, exchange_at, exchange, receive,
  process_parsed, process_datagram, Datagram, process, connected, received, run,
}
use kipuka.Coap.Server.Evolves.{AllReply}
use kipuka.Coap.Server.Outcome.{has_call}
use kipuka.Coap.Server.Bounds.{Bounded, run-Bounded}
use kipuka.Coap.Server.Once.{handled_once}
use kipuka.Coap.Server.Replies.{Kept, process-AllReply}

-- A handler that gives a body back.
abbrev echo : ℕ → World
echo now = record {
  begun = now;
  answered = now;
  send_fault = none;
  client_cert = none;
  handle =
      λ operation label body cf cert. ok (ok (record { payload = body; content_format = 281 }));
  text = λ e. [];
}

-- POST /sen with a body of two bytes, confirmable, message ID 4660.
abbrev enrol_bytes : List ℕ
enrol_bytes = 0x40 ∷ 2 ∷ 0x12 ∷ 0x34 ∷ 0xB3 ∷ 0x73 ∷ 0x65 ∷ 0x6E ∷ 0xFF ∷ 1 ∷ 2 ∷ []

abbrev enrol_message : CoapMessage
enrol_message = record {
  version = 1;
  msg_type = confirmable;
  code = record { class = 0; detail = 2 };
  message_id = 4660;
  token = [];
  options = record { number = 11; value = ascii "sen" } ∷ [];
  payload = 1 ∷ 2 ∷ [];
}

enrol_parses : parse enrol_bytes ≡ ok enrol_message
unfolding parse parse_options parse_option extended from_bits from_byte
enrol_parses = refl

abbrev at : ℕ → Datagram
at now = record { world = echo now; bytes = enrol_bytes; peer = 7 }

-- The same bytes of another peer.
abbrev other : ℕ → Datagram
other now = record { world = echo now; bytes = enrol_bytes; peer = 8 }

abbrev fresh : CoapDtlsServer
fresh = bind 256 1000 2

enrol_calls : has_call (process (run fresh []) (at 5)).2 ≡ true
unfolding has_call process process_datagram process_parsed receive exchange exchange_at dispatch
    dispatch_block2 handle_request handle_routed handle_body deliver parse parse_options
    parse_option extended from_bits from_byte from_code find_option block1 block2 bind
    retain_exchanges reap_stale_entries Dict.get Dict.retain asks route_message route_with_label
    uri_path join path_segments trim_start trim_end trim_prefixes strip_prefix split operation_of
    reads is_get_or_fetch is_post run is_utf8 is_utf8_from same_bytes
enrol_calls = refl

-- The same bytes again, six seconds later, with another peer and its new connection between.
handled_once_example :
    has_call
      (process
        (run (process (run fresh []) (at 5)).1 (received (other 6) ∷ connected 8 ∷ []))
        (at 6_000_000_005)).2
    ≡ false
handled_once_example =
    handled_once 256 1000 2 [] (received (other 6) ∷ connected 8 ∷ []) (at 5) (at 6_000_000_005)
      enrol_message enrol_message enrol_parses enrol_parses refl refl
      (omega arith, (λ e. ground arith, tt)) (omega arith) enrol_calls

run-Bounded_example :
    Bounded 4 (run fresh (connected 7 ∷ received (at 5) ∷ received (other 6) ∷ []))
run-Bounded_example =
    run-Bounded 256 1000 2 (connected 7 ∷ received (at 5) ∷ received (other 6) ∷ [])

process-AllReply_example :
    AllReply 7 enrol_message (process fresh (at 5)).2
    ⊎ ((response : List ℕ) × Kept (retain_exchanges 5 fresh) (exchange_key 7 enrol_message) response
        × ((process fresh (at 5)).2 ≡ sent 7 response ∷ []))
process-AllReply_example = process-AllReply fresh (at 5) enrol_message enrol_parses
