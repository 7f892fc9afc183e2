-- ===== src/Coap/Server/State.antt =====
-- The tables of `CoapDtlsServer` (crates/kipuka-coap/src/server.rs), its replies, and what there is
-- outside of it. The address of a peer is a number that stands for it.
use kipuka.Common.{
  ℕ, ◌+◌, ◌-◌, ◌*◌, ◌^◌, min, Bool, true, not, ◌&&◌, ◌≡◌, ◌↔◌, Option, none, some, List, [], ◌∷◌,
  arith, ltb, ◌==◌, same_bytes, same_bytes_iff, Eq, nat_eq,
}
use kipuka.Common.Dict
use kipuka.Common.Dict.{Dict}
use kipuka.Coap.Error.{
  CoapError, CoapResult, ok, err, invalid_message, unsupported_method, resource_not_found,
  unauthorized, forbidden, unsupported_content_format, payload_too_large,
}
use kipuka.Coap.Block.{default_szx, szx_from_block_size, BlockAssembler, BlockDisassembler}
use kipuka.Coap.Message.{CoapCode, CoapMessage, acknowledgement, encode, coap_version}
use kipuka.Coap.Router.{EstOperation}

pub record TransferKey : Type 0 where
  pub peer : ℕ
  pub token : List ℕ
  pub path : List ℕ
  pub code : ℕ

abbrev pub same_transfer : TransferKey → TransferKey → Bool
same_transfer a b =
    (a.peer == b.peer)
    && (same_bytes a.token b.token && (same_bytes a.path b.path && (a.code == b.code)))

pub same_transfer_iff : (a b : TransferKey) → (same_transfer a b ≡ true) ↔ (a ≡ b)
same_transfer_iff a b = ground (arith, same_bytes_iff a.token b.token, same_bytes_iff a.path b.path)

instance abbrev pub transfer_eq : Eq TransferKey
transfer_eq = record { beq = same_transfer; beq_iff = same_transfer_iff }

-- A peer and a message ID.
pub record ExchangeKey : Type 0 where
  pub peer : ℕ
  pub message_id : ℕ

abbrev pub same_exchange : ExchangeKey → ExchangeKey → Bool
same_exchange a b = (a.peer == b.peer) && (a.message_id == b.message_id)

pub same_exchange_iff : (a b : ExchangeKey) → (same_exchange a b ≡ true) ↔ (a ≡ b)
same_exchange_iff a b = ground arith

instance abbrev pub exchange_eq : Eq ExchangeKey
exchange_eq = record { beq = same_exchange; beq_iff = same_exchange_iff }

pub record ExchangeEntry : Type 0 where
  pub request : List ℕ
  pub response : Option (List ℕ)
  pub since : ℕ

pub record Assembly : Type 0 where
  pub assembler : BlockAssembler
  pub touched : ℕ

pub record ResponseCacheEntry : Type 0 where
  pub disasm : BlockDisassembler
  pub content_format : ℕ
  pub code : CoapCode
  pub touched : ℕ

pub record CoapDtlsServer : Type 0 where
  pub block_assemblers : Dict TransferKey Assembly
  pub response_cache : Dict TransferKey ResponseCacheEntry
  pub exchanges : Dict ExchangeKey ExchangeEntry
  pub block_szx : ℕ
  pub max_payload : ℕ
  pub max_block_assemblers : ℕ
  pub block_ttl : ℕ

-- The server that `bind` makes, with its tables empty.
unfoldable pub bind : ℕ → ℕ → ℕ → CoapDtlsServer
bind block_size max_payload max_sessions = record {
  block_assemblers = [];
  response_cache = [];
  exchanges = [];
  block_szx = elim (szx_from_block_size block_size) [ none ↦ default_szx | some szx ↦ szx ];
  max_payload = max_payload;
  max_block_assemblers = min (max_sessions * 2) (2 ^ 64 - 1);
  block_ttl = 60_000_000_000;
}

pub record EstResponse : Type 0 where
  pub payload : List ℕ
  pub content_format : ℕ

-- What the server meets while it works on one datagram: when it begins and when it has the answer
-- of the handler, whether the DTLS connection of the peer takes a message, the certificate of the
-- peer, the answer of the handler, whose task may fail, and the texts of errors.
pub record World : Type 0 where
  pub begun : ℕ
  pub answered : ℕ
  pub send_fault : Option CoapError
  pub client_cert : Option (List ℕ)
  pub handle :
      EstOperation
      → Option (List ℕ)
      → List ℕ
      → Option ℕ
      → Option (List ℕ)
      → CoapResult (CoapResult EstResponse)
  pub text : CoapError → List ℕ

-- What it does to others: a reply that is sent, and a call of the handler.
pub data Effect : Type 0 where
  sent : ℕ → List ℕ → Effect
  called : EstOperation → Option (List ℕ) → List ℕ → Effect

abbrev pub Step : Type 0
Step = CoapResult (Unit {0}) × CoapDtlsServer × List Effect

unfoldable pub reap_stale_entries : ℕ → CoapDtlsServer → CoapDtlsServer
reap_stale_entries now s = record s {
  block_assemblers = Dict.retain (λ a. ltb now (a.touched + s.block_ttl)) s.block_assemblers;
  response_cache = Dict.retain (λ e. ltb now (e.touched + s.block_ttl)) s.response_cache;
}

-- What the receive loop does before it makes a new DTLS connection with a peer: nothing of an
-- earlier one is left in the tables.
unfoldable pub forget_peer : ℕ → CoapDtlsServer → CoapDtlsServer
forget_peer peer_addr s = record s {
  block_assemblers = Dict.retain_keys (λ key. not (key.peer == peer_addr)) s.block_assemblers;
  response_cache = Dict.retain_keys (λ key. not (key.peer == peer_addr)) s.response_cache;
  exchanges = Dict.retain_keys (λ key. not (key.peer == peer_addr)) s.exchanges;
}

unfoldable pub error_code : CoapError → CoapCode
error_code (invalid_message f) = record { class = 4; detail = 0 }
error_code (resource_not_found t) = record { class = 4; detail = 4 }
error_code (unsupported_method t) = record { class = 4; detail = 5 }
error_code (unsupported_content_format n) = record { class = 4; detail = 15 }
error_code (unauthorized t) = record { class = 4; detail = 1 }
error_code (forbidden t) = record { class = 4; detail = 3 }
error_code (payload_too_large size max) = record { class = 4; detail = 13 }
error_code _ = record { class = 5; detail = 0 }

unfoldable pub build_error_response : World → List ℕ → ℕ → CoapError → CoapMessage
build_error_response w token message_id error = record {
  version = coap_version;
  msg_type = acknowledgement;
  code = error_code error;
  message_id = message_id;
  token = token;
  options = [];
  payload = w.text error;
}

unfoldable pub send_encoded : World → ℕ → List ℕ → CoapResult (Unit {0}) × List Effect
send_encoded w peer_addr encoded = elim w.send_fault [
  | none ↦ (ok tt, sent peer_addr encoded ∷ [])
  | some e ↦ (err e, [])
]

-- The reply is kept with the exchange, if there is one.
unfoldable pub keep_response : CoapDtlsServer → ExchangeKey → List ℕ → CoapDtlsServer
keep_response s key encoded = elim (Dict.get s.exchanges key) [
  | none ↦ s
  | some entry ↦ record s {
    exchanges = Dict.insert s.exchanges key (record entry { response = some encoded });
  }
]

unfoldable pub send_response : World → CoapDtlsServer → ℕ → CoapMessage → Step
unfolding send_encoded
send_response w s peer_addr m =
    let encoded = encode m in
    let (done, effects) = send_encoded w peer_addr encoded in
    (
      done,
      keep_response s (record { peer = peer_addr; message_id = m.message_id }) encoded,
      effects,
    )
