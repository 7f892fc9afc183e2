-- ===== src/Coap/Server/Outcome.antt =====
-- The ways in which a message is received (crates/kipuka-coap/src/server.rs, `process_datagram`).
use kipuka.Common.{
  ℕ, ◌-◌, ◌*◌, ◌^◌, min, ◌<◌, Bool, true, false, ◌≡◌, ◌⊎◌, inl, inr, refl, Option, none, some, List,
  [], ◌∷◌, length, ltb, leb, arith, Bool-cases, Option-cases, same_bytes,
}
use kipuka.Common.Dict
use kipuka.Coap.Error.{CoapError, ok, payload_too_large}
use kipuka.Coap.Message.{CoapMessage}
use kipuka.Coap.Server.State.{
  exchange_eq, ExchangeEntry, CoapDtlsServer, World, Effect, sent, called, Step, send_encoded,
  send_response,
}
use kipuka.Coap.Server.Handle.{refuse}
use kipuka.Coap.Server.Receive.{
  exchange_key, asks, retain_exchanges, repeated, admitted, exchange_at, exchange, receive,
}
use kipuka.Coap.Server.Evolves.{Serves, silent, refuse-Serves}
use kipuka.Coap.Server.Dispatch.{dispatch-Serves}

unfoldable pub has_call : List Effect → Bool
has_call [] = false
has_call (sent p bytes ∷ effects) = has_call effects
has_call (called operation label body ∷ effects) = true

-- What a message leads to: it is answered or dropped with its exchange left alone; its ID is known,
-- and the reply that was kept, if any, is sent; there is no room for it; or its exchange is admitted
-- and the request worked on.
pub data Received (w : World) (s : CoapDtlsServer) (peer_addr : ℕ) (bytes : List ℕ)
    (m : CoapMessage) (x : Step) : Type 0 where
  apart : Serves peer_addr m s x → has_call x.2 ≡ false → Received w s peer_addr bytes m x
  known :
      (entry : ExchangeEntry)
      → Dict.get (retain_exchanges w.begun s).exchanges (exchange_key peer_addr m) ≡ some entry
      → x.1 ≡ retain_exchanges w.begun s
      → (x.2 ≡ [])
        ⊎ ((response : List ℕ) × (entry.response ≡ some response)
            × (x.2 ≡ sent peer_addr response ∷ []))
      → Received w s peer_addr bytes m x
  crowded : x.1 ≡ retain_exchanges w.begun s → x.2 ≡ [] → Received w s peer_addr bytes m x
  admits :
      Dict.get (retain_exchanges w.begun s).exchanges (exchange_key peer_addr m) ≡ none
      → length (retain_exchanges w.begun s).exchanges < s.max_block_assemblers * 16
      → Serves peer_addr m (admitted w (retain_exchanges w.begun s) peer_addr bytes m) x
      → Received w s peer_addr bytes m x

refuse-no_call :
    (w : World) (s : CoapDtlsServer) (peer_addr : ℕ) (m : CoapMessage) (e : CoapError)
    → has_call (refuse w s peer_addr m e).2 ≡ false
unfolding refuse send_response send_encoded has_call
refuse-no_call w s peer_addr m e = elim (Option-cases w.send_fault) [
  | inl works ↦ rw (works, send_encoded) refl
  | inr (f, fails) ↦ rw (fails, send_encoded) refl
]

module _ (w : World) (s : CoapDtlsServer) (peer_addr : ℕ) (bytes : List ℕ) (m : CoapMessage) where
  repeated-Received :
      (entry : ExchangeEntry)
      → Dict.get (retain_exchanges w.begun s).exchanges (exchange_key peer_addr m) ≡ some entry
      → Received w s peer_addr bytes m
          (repeated w (retain_exchanges w.begun s) peer_addr bytes entry)
  unfolding repeated send_encoded
  repeated-Received entry here = elim (Bool-cases (same_bytes entry.request bytes)) [
    | inr other ↦ rw other (known entry here refl (inl refl))
    | inl same ↦ elim (Option-cases entry.response) [
      | inl pending ↦
          known entry here (ground (arith, same, pending)) (inl (ground (arith, same, pending)))
      | inr (response, kept) ↦
          known entry here (ground (arith, same, kept)) (elim (Option-cases w.send_fault) [
            | inl works ↦ inr (response, kept, ground (arith, same, kept, works))
            | inr (f, fails) ↦ inl (ground (arith, same, kept, fails))
          ])
    ]
  ]

  exchange_at-Received :
      (entry : Option ExchangeEntry)
      → Dict.get (retain_exchanges w.begun s).exchanges (exchange_key peer_addr m) ≡ entry
      → Received w s peer_addr bytes m
          (exchange_at w (retain_exchanges w.begun s) peer_addr bytes m entry)
  unfolding exchange_at retain_exchanges
  exchange_at-Received (some entry) here = repeated-Received entry here
  exchange_at-Received none here =
      let s' = retain_exchanges w.begun s in
      let limit = min (s'.max_block_assemblers * 16) (2 ^ 64 - 1) in
      elim (Bool-cases (leb limit (length s'.exchanges))) [
        | inl full ↦ rw full (crowded refl refl)
        | inr room ↦ rw room (
            admits here (ground (arith, room))
              (dispatch-Serves w peer_addr m (admitted w s' peer_addr bytes m)))
      ]

  pub receive-Received : Received w s peer_addr bytes m (receive w s peer_addr bytes m)
  unfolding receive exchange retain_exchanges has_call
  receive-Received =
      let s' = retain_exchanges w.begun s in
      elim (Bool-cases (asks m.msg_type)) [
        | inr other ↦ rw other (apart (silent w peer_addr m s (ok tt)) refl)
        | inl request ↦ elim (Bool-cases (ltb s.max_payload (length m.payload))) [
          | inl large ↦
              let e = payload_too_large (length m.payload) s.max_payload in
              rw (request, large)
                (apart (refuse-Serves w peer_addr m s e) (refuse-no_call w s peer_addr m e))
          | inr fits ↦
              rw (request, fits)
                (exchange_at-Received (Dict.get s'.exchanges (exchange_key peer_addr m)) refl)
        ]
      ]
