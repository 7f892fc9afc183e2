-- ===== src/Coap/Server/Replies.antt =====
-- What the server sends (crates/kipuka-coap/src/server.rs, `process_datagram`).
use kipuka.Common.{ℕ, ◌≡◌, ◌⊎◌, inl, inr, some, List, [], ◌∷◌}
use kipuka.Common.Dict
use kipuka.Coap.Error.{ok}
use kipuka.Coap.Message.{CoapMessage, parse}
use kipuka.Coap.Server.State.{
  ExchangeKey, exchange_eq, ExchangeEntry, CoapDtlsServer, World, sent, Step, reap_stale_entries,
}
use kipuka.Coap.Server.Receive.{
  exchange_key, retain_exchanges, receive, process_parsed, process_datagram, Datagram, process,
}
use kipuka.Coap.Server.Evolves.{AllReply}
use kipuka.Coap.Server.Outcome.{Received, apart, known, crowded, admits, receive-Received}

-- The exchange has a reply that was kept.
abbrev pub Kept : CoapDtlsServer → ExchangeKey → List ℕ → Type 0
Kept s key bytes =
    (entry : ExchangeEntry) × (Dict.get s.exchanges key ≡ some entry)
    × (entry.response ≡ some bytes)

Received-Reply :
    (w : World) (s : CoapDtlsServer) (bytes : List ℕ) (peer_addr : ℕ) (m : CoapMessage) (x : Step)
    → Received w s peer_addr bytes m x
    → AllReply peer_addr m x.2
      ⊎ ((response : List ℕ) × Kept (retain_exchanges w.begun s) (exchange_key peer_addr m) response
          × (x.2 ≡ sent peer_addr response ∷ []))
Received-Reply w s bytes peer_addr m x (apart serves silent) = inl serves.replies
Received-Reply w s bytes peer_addr m x (known entry here same (inl none_sent)) =
    inl (rw none_sent tt)
Received-Reply w s bytes peer_addr m x (known entry here same (inr (response, kept, sent_))) =
    inr (response, (entry, here, kept), sent_)
Received-Reply w s bytes peer_addr m x (crowded same none_sent) = inl (rw none_sent tt)
Received-Reply w s bytes peer_addr m x (admits absent room serves) = inl serves.replies

-- Every packet that a message leads to goes to its peer, as an acknowledgement with the token and the
-- message ID of the message, or it is the one reply that was kept for its message ID.
pub process-AllReply :
    (s : CoapDtlsServer) (d : Datagram) (m : CoapMessage)
    → parse d.bytes ≡ ok m
    → AllReply d.peer m (process s d).2
      ⊎ ((response : List ℕ) × Kept
            (retain_exchanges d.world.begun s)
            (exchange_key d.peer m)
            response
          × ((process s d).2 ≡ sent d.peer response ∷ []))
unfolding process process_datagram process_parsed reap_stale_entries retain_exchanges
process-AllReply s d m p =
    let s' = reap_stale_entries d.world.begun s in
    rw p (
      Received-Reply d.world s' d.bytes d.peer m (receive d.world s' d.peer d.bytes m)
        (receive-Received d.world s' d.peer d.bytes m))
