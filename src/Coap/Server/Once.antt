-- ===== src/Coap/Server/Once.antt =====
-- One exchange, one call of the handler (crates/kipuka-coap/src/server.rs, `process_datagram`).
use kipuka.Common.{
  ℕ, ◌-◌, ◌*◌, ◌^◌, min, ◌<◌, true, false, not, ◌==◌, ◌≡◌, ◌≢◌, inl, inr, refl, sym, ap, ◌∙◌,
  Option, none, some, List, [], ◌∷◌, arith, Bool-cases, beq_refl,
}
use kipuka.Common.Dict
use kipuka.Common.Dict.{IsDistinct, get-insert, get-retain, get-retain_keys, kept}
use kipuka.Coap.Error.{CoapResult, ok, err}
use kipuka.Coap.Message.{CoapMessage, parse}
use kipuka.Coap.Server.State.{
  ExchangeKey, exchange_eq, ExchangeEntry, CoapDtlsServer, World, Step, reap_stale_entries,
  forget_peer, bind,
}
use kipuka.Coap.Server.Receive.{
  exchange_lifetime, exchange_key, is_current, retain_exchanges, admitted, receive, process_parsed,
  process_datagram, Datagram, process, Arrival, connected, received, run, arrive,
}
use kipuka.Coap.Server.Evolves.{Evolves, opened}
use kipuka.Coap.Server.Outcome.{Received, apart, known, crowded, admits, receive-Received, has_call}
use kipuka.Coap.Server.Bounds.{Bounded, process-Bounded, arrive-Bounded, run-Bounded}

-- The exchange is in the table, begun by a request at a time.
abbrev Holds : ExchangeKey → List ℕ × ℕ → CoapDtlsServer → Type 0
Holds key open_ s = opened (Dict.get s.exchanges key) ≡ some open_

-- It is not over yet.
abbrev Current : ℕ → ℕ → Type 0
Current since now = now - since < exchange_lifetime

Evolves-Holds :
    (own key : ExchangeKey) (open_ : List ℕ × ℕ) (s s' : CoapDtlsServer)
    → Evolves own s s'
    → Holds key open_ s
    → Holds key open_ s'
Evolves-Holds own key open_ s s' e h = elim (Bool-cases (exchange_eq.beq own key)) [
  | inl same ↦
      let q = (exchange_eq.beq_iff own key).0 same in
      ap (λ k. opened (Dict.get s'.exchanges k)) (sym q)
      ∙ e.same_opened
      ∙ ap (λ k. opened (Dict.get s.exchanges k)) q
      ∙ h
  | inr other ↦ ap opened (e.same_others key other) ∙ h
]

opened-kept :
    (now : ℕ) (entry : Option ExchangeEntry) (request : List ℕ) (since : ℕ)
    → Current since now
    → opened entry ≡ some (request, since)
    → opened (kept (is_current now) entry) ≡ some (request, since)
unfolding is_current
opened-kept now none request since c h = absurd (ground (arith, h))
opened-kept now (some entry) request since c h = ground (arith, h, c)

retain_exchanges-Holds :
    (now : ℕ) (s : CoapDtlsServer) (key : ExchangeKey) (request : List ℕ) (since : ℕ)
    → IsDistinct s.exchanges
    → Current since now
    → Holds key (request, since) s
    → Holds key (request, since) (retain_exchanges now s)
unfolding retain_exchanges
retain_exchanges-Holds now s key request since d c h =
    ap opened (get-retain (is_current now) s.exchanges key d)
    ∙ opened-kept now (Dict.get s.exchanges key) request since c h

module _ (w : World) (s : CoapDtlsServer) (bytes : List ℕ) (peer_addr : ℕ) (m : CoapMessage) where
  -- What is in the table stays there, whatever is received before it is over.
  Received-Holds :
      (x : Step) (key : ExchangeKey) (request : List ℕ) (since : ℕ)
      → Received w s peer_addr bytes m x
      → IsDistinct s.exchanges
      → Current since w.begun
      → Holds key (request, since) s
      → Holds key (request, since) x.1
  Received-Holds x key request since (apart serves silent) d c h =
      Evolves-Holds (exchange_key peer_addr m) key (request, since) s x.1 serves.evolves h
  Received-Holds x key request since (known entry here same effects) d c h =
      ap (λ s. opened (Dict.get s.exchanges key)) same
      ∙ retain_exchanges-Holds w.begun s key request since d c h
  Received-Holds x key request since (crowded same effects) d c h =
      ap (λ s. opened (Dict.get s.exchanges key)) same
      ∙ retain_exchanges-Holds w.begun s key request since d c h
  Received-Holds x key request since (admits absent room serves) d c h =
      let own = exchange_key peer_addr m in
      let s' = retain_exchanges w.begun s in
      let entry : ExchangeEntry = record { request = bytes; response = none; since = w.begun } in
      let h' = retain_exchanges-Holds w.begun s key request since d c h in
      let other : exchange_eq.beq own key ≡ false = elim (Bool-cases (exchange_eq.beq own key)) [
        | inl same ↦
            let q = (exchange_eq.beq_iff own key).0 same in
            absurd (ground (arith, h', ap (λ k. opened (Dict.get s'.exchanges k)) q, absent))
        | inr other ↦ other
      ] in
      Evolves-Holds own key (request, since) (admitted w s' peer_addr bytes m) x.1 serves.evolves
        (ap opened (get-insert s'.exchanges own key entry) ∙ rw other h')

  -- No call for an exchange that is in the table.
  Received-no_call :
      (x : Step) (request : List ℕ) (since : ℕ)
      → Received w s peer_addr bytes m x
      → IsDistinct s.exchanges
      → Current since w.begun
      → Holds (exchange_key peer_addr m) (request, since) s
      → has_call x.2 ≡ false
  unfolding has_call
  Received-no_call x request since (apart serves silent) d c h = silent
  Received-no_call x request since (known entry here same (inl none_sent)) d c h =
      ap has_call none_sent
  Received-no_call x request since (known entry here same (inr (response, kept, sent_))) d c h =
      ap has_call sent_
  Received-no_call x request since (crowded same none_sent) d c h = ap has_call none_sent
  Received-no_call x request since (admits absent room serves) d c h = absurd (
      ground (
        arith,
        retain_exchanges-Holds w.begun s (exchange_key peer_addr m) request since d c h,
        absent,
      ))

  -- After a call the exchange is in the table.
  Received-called :
      (x : Step)
      → Received w s peer_addr bytes m x
      → has_call x.2 ≡ true
      → Holds (exchange_key peer_addr m) (bytes, w.begun) x.1
  unfolding has_call
  Received-called x (apart serves silent) call = absurd (ground (arith, silent, call))
  Received-called x (known entry here same (inl none_sent)) call =
      absurd (ground (arith, ap has_call none_sent, call))
  Received-called x (known entry here same (inr (response, kept, sent_))) call =
      absurd (ground (arith, ap has_call sent_, call))
  Received-called x (crowded same none_sent) call =
      absurd (ground (arith, ap has_call none_sent, call))
  Received-called x (admits absent room serves) call =
      let own = exchange_key peer_addr m in
      let s' = retain_exchanges w.begun s in
      let entry : ExchangeEntry = record { request = bytes; response = none; since = w.begun } in
      serves.evolves.same_opened
      ∙ ap opened (get-insert s'.exchanges own own entry)
      ∙ rw (beq_refl own) refl

process_parsed-Holds :
    (w : World) (s : CoapDtlsServer) (bytes : List ℕ) (peer_addr : ℕ) (r : CoapResult CoapMessage)
    (key : ExchangeKey) (request : List ℕ) (since : ℕ)
    → IsDistinct s.exchanges
    → Current since w.begun
    → Holds key (request, since) s
    → Holds key (request, since) (process_parsed w s bytes peer_addr r).1
unfolding process_parsed
process_parsed-Holds w s bytes peer_addr (err e) key request since d c h = h
process_parsed-Holds w s bytes peer_addr (ok m) key request since d c h =
    Received-Holds w s bytes peer_addr m (receive w s peer_addr bytes m) key request since
      (receive-Received w s peer_addr bytes m) d c h

process-Holds :
    (s : CoapDtlsServer) (d : Datagram) (key : ExchangeKey) (request : List ℕ) (since : ℕ)
    → IsDistinct s.exchanges
    → Current since d.world.begun
    → Holds key (request, since) s
    → Holds key (request, since) (process s d).1
unfolding process process_datagram reap_stale_entries
process-Holds s d key request since distinct c h =
    process_parsed-Holds d.world (reap_stale_entries d.world.begun s) d.bytes d.peer (parse d.bytes)
      key request since distinct c h

-- Every message is received before an exchange begun at a time is over, and no new connection is
-- made with the peer.
abbrev pub Within : ℕ → ℕ → List Arrival → Type 0
Within peer_addr since [] = Unit {0}
Within peer_addr since (connected other ∷ arrivals) =
    (peer_addr ≢ other) × Within peer_addr since arrivals
Within peer_addr since (received d ∷ arrivals) =
    Current since d.world.begun × Within peer_addr since arrivals

forget_peer-Holds :
    (s : CoapDtlsServer) (other : ℕ) (key : ExchangeKey) (open_ : List ℕ × ℕ)
    → key.peer ≢ other
    → Holds key open_ s
    → Holds key open_ (forget_peer other s)
unfolding forget_peer
forget_peer-Holds s other key open_ n h =
    ap opened (get-retain_keys (λ key. not (key.peer == other)) s.exchanges key (ground (arith, n)))
    ∙ h

run-Holds :
    (limit : ℕ) (s : CoapDtlsServer) (arrivals : List Arrival) (key : ExchangeKey)
    (request : List ℕ) (since : ℕ)
    → Bounded limit s
    → Within key.peer since arrivals
    → Holds key (request, since) s
    → Bounded limit (run s arrivals) × Holds key (request, since) (run s arrivals)
unfolding run arrive
run-Holds limit s [] key request since b n h = (b, h)
run-Holds limit s (connected other ∷ arrivals) key request since b n h =
    run-Holds limit (forget_peer other s) arrivals key request since
      (arrive-Bounded limit s (connected other) b) n.1
      (forget_peer-Holds s other key (request, since) n.0 h)
run-Holds limit s (received d ∷ arrivals) key request since b n h =
    run-Holds limit (process s d).1 arrivals key request since (process-Bounded limit s d b) n.1
      (process-Holds s d key request since b.distinct n.0 h)

process-no_call :
    (s : CoapDtlsServer) (d : Datagram) (m : CoapMessage) (request : List ℕ) (since : ℕ)
    → IsDistinct s.exchanges
    → parse d.bytes ≡ ok m
    → Current since d.world.begun
    → Holds (exchange_key d.peer m) (request, since) s
    → has_call (process s d).2 ≡ false
unfolding process process_datagram process_parsed reap_stale_entries
process-no_call s d m request since distinct p c h =
    let s' = reap_stale_entries d.world.begun s in
    rw p (
      Received-no_call d.world s' d.bytes d.peer m (receive d.world s' d.peer d.bytes m) request
        since (receive-Received d.world s' d.peer d.bytes m) distinct c h)

process-called :
    (s : CoapDtlsServer) (d : Datagram) (m : CoapMessage)
    → parse d.bytes ≡ ok m
    → has_call (process s d).2 ≡ true
    → Holds (exchange_key d.peer m) (d.bytes, d.world.begun) (process s d).1
unfolding process process_datagram process_parsed
process-called s d m p call =
    let s' = reap_stale_entries d.world.begun s in
    let x = receive d.world s' d.peer d.bytes m in
    let call' : has_call x.2 ≡ true =
      ap (λ r. has_call (process_parsed d.world s' d.bytes d.peer r).2) (sym p) ∙ call in
    rw p (
      Received-called d.world s' d.bytes d.peer m x (receive-Received d.world s' d.peer d.bytes m)
        call')

-- From an empty server on, whatever has been received: once a message has led to a call of the
-- handler, no message of the same peer with the same message ID leads to another, where it and
-- whatever is received between come before the lifetime of an exchange is over, and between them no
-- new DTLS connection is made with that peer (which clears its exchanges).
pub handled_once :
    (block_size max_payload max_sessions : ℕ) (before between : List Arrival) (d d' : Datagram)
    (m m' : CoapMessage)
    → parse d.bytes ≡ ok m
    → parse d'.bytes ≡ ok m'
    → d'.peer ≡ d.peer
    → m'.message_id ≡ m.message_id
    → Within d.peer d.world.begun between
    → d'.world.begun - d.world.begun < exchange_lifetime
    → has_call (process (run (bind block_size max_payload max_sessions) before) d).2 ≡ true
    → has_call
        (process
          (run (process (run (bind block_size max_payload max_sessions) before) d).1 between)
          d').2
      ≡ false
handled_once block_size max_payload max_sessions before between d d' m m' p p' peer id n n' call =
    let limit = min (max_sessions * 2) (2 ^ 64 - 1) in
    let s = run (bind block_size max_payload max_sessions) before in
    let b = run-Bounded block_size max_payload max_sessions before in
    let held = process-called s d m p call in
    let (b', held') =
      run-Holds limit (process s d).1 between (exchange_key d.peer m) d.bytes d.world.begun
        (process-Bounded limit s d b) n held in
    process-no_call (run (process s d).1 between) d' m' d.bytes d.world.begun b'.distinct p' n'
      (rw (peer, id) held')
