-- ===== src/Coap/Server/Bounds.antt =====
-- The sizes of the server's tables (crates/kipuka-coap/src/server.rs), whatever is received.
use kipuka.Common.{
  ℕ, suc, not, ◌==◌, ◌+◌, ◌-◌, ◌*◌, ◌^◌, min, ◌≤◌, ◌<◌, ◌≡◌, refl, ◌∙◌, none, List, [], ◌∷◌, length,
  arith, ltb,
}
use kipuka.Common.Dict
use kipuka.Common.Dict.{
  IsDistinct, size-insert, size-retain-le, size-retain_keys-le, retain_keys-IsDistinct,
  insert-IsDistinct, retain-IsDistinct, empty-IsDistinct,
}
use kipuka.Coap.Error.{CoapResult, ok, err}
use kipuka.Coap.Message.{CoapMessage, parse}
use kipuka.Coap.Server.State.{
  ExchangeKey, exchange_eq, ExchangeEntry, transfer_eq, CoapDtlsServer, World, Step,
  reap_stale_entries, forget_peer, bind,
}
use kipuka.Coap.Server.Receive.{
  exchange_key, is_current, retain_exchanges, admitted, receive, process_parsed, process_datagram,
  Datagram, process, Arrival, connected, received, arrive, run,
}
use kipuka.Coap.Server.Evolves.{Evolves}
use kipuka.Coap.Server.Outcome.{Received, apart, known, crowded, admits, receive-Received}

-- No table is longer than its limit, and no exchange stands in the table twice.
pub record Bounded (limit : ℕ) (s : CoapDtlsServer) : Type 0 where
  pub limit_of : s.max_block_assemblers ≡ limit
  pub distinct : IsDistinct s.exchanges
  pub assemblers_le : length s.block_assemblers ≤ limit
  pub cache_le : length s.response_cache ≤ limit
  pub exchanges_le : length s.exchanges ≤ limit * 16

Evolves-Bounded :
    (limit : ℕ) (key : ExchangeKey) (s s' : CoapDtlsServer)
    → Evolves key s s'
    → Bounded limit s
    → Bounded limit s'
Evolves-Bounded limit key s s' e b = record {
  limit_of = e.same_max ∙ b.limit_of;
  distinct = e.distinct b.distinct;
  assemblers_le = omega (
    arith,
    b.limit_of,
    b.assemblers_le,
    e.assemblers (omega (arith, b.limit_of, b.assemblers_le)),
  );
  cache_le = omega (arith, b.limit_of, b.cache_le, e.cache (omega (arith, b.limit_of, b.cache_le)));
  exchanges_le = omega (arith, e.same_size, b.exchanges_le);
}

reap_stale_entries-Bounded :
    (limit now : ℕ) (s : CoapDtlsServer)
    → Bounded limit s
    → Bounded limit (reap_stale_entries now s)
unfolding reap_stale_entries
reap_stale_entries-Bounded limit now s b = record {
  limit_of = b.limit_of;
  distinct = b.distinct;
  assemblers_le = omega (
    arith,
    b.assemblers_le,
    size-retain-le (λ a. ltb now (a.touched + s.block_ttl)) s.block_assemblers,
  );
  cache_le =
      omega (
        arith,
        b.cache_le,
        size-retain-le (λ e. ltb now (e.touched + s.block_ttl)) s.response_cache,
      );
  exchanges_le = b.exchanges_le;
}

pub retain_exchanges-Bounded :
    (limit now : ℕ) (s : CoapDtlsServer) → Bounded limit s → Bounded limit (retain_exchanges now s)
unfolding retain_exchanges
retain_exchanges-Bounded limit now s b = record {
  limit_of = b.limit_of;
  distinct = retain-IsDistinct (is_current now) s.exchanges b.distinct;
  assemblers_le = b.assemblers_le;
  cache_le = b.cache_le;
  exchanges_le = omega (arith, b.exchanges_le, size-retain-le (is_current now) s.exchanges);
}

admitted-Bounded :
    (limit : ℕ) (w : World) (s : CoapDtlsServer) (peer_addr : ℕ) (bytes : List ℕ) (m : CoapMessage)
    → Dict.get s.exchanges (exchange_key peer_addr m) ≡ none
    → length s.exchanges < s.max_block_assemblers * 16
    → Bounded limit s
    → Bounded limit (admitted w s peer_addr bytes m)
admitted-Bounded limit w s peer_addr bytes m absent room b =
    let entry : ExchangeEntry = record { request = bytes; response = none; since = w.begun } in
    let key = exchange_key peer_addr m in
    let size : length (Dict.insert s.exchanges key entry) ≡ suc (length s.exchanges) =
      size-insert s.exchanges key entry ∙ rw absent refl in
    record {
      limit_of = b.limit_of;
      distinct = insert-IsDistinct s.exchanges key entry b.distinct;
      assemblers_le = b.assemblers_le;
      cache_le = b.cache_le;
      exchanges_le = omega (arith, size, room, b.limit_of);
    }

module _ (limit : ℕ) (w : World) (s : CoapDtlsServer) (bytes : List ℕ) (peer_addr : ℕ) where
  Received-Bounded :
      (m : CoapMessage) (x : Step)
      → Received w s peer_addr bytes m x
      → Bounded limit s
      → Bounded limit x.1
  unfolding retain_exchanges
  Received-Bounded m x (apart serves silent) b =
      Evolves-Bounded limit (exchange_key peer_addr m) s x.1 serves.evolves b
  Received-Bounded m x (known entry here same effects) b =
      rw same (retain_exchanges-Bounded limit w.begun s b)
  Received-Bounded m x (crowded same effects) b =
      rw same (retain_exchanges-Bounded limit w.begun s b)
  Received-Bounded m x (admits absent room serves) b =
      let s' = retain_exchanges w.begun s in
      Evolves-Bounded limit (exchange_key peer_addr m) (admitted w s' peer_addr bytes m) x.1
        serves.evolves
        (admitted-Bounded limit w s' peer_addr bytes m absent room
          (retain_exchanges-Bounded limit w.begun s b))

  process_parsed-Bounded :
      (r : CoapResult CoapMessage)
      → Bounded limit s
      → Bounded limit (process_parsed w s bytes peer_addr r).1
  unfolding process_parsed
  process_parsed-Bounded (err e) b = b
  process_parsed-Bounded (ok m) b =
      Received-Bounded m (receive w s peer_addr bytes m) (receive-Received w s peer_addr bytes m) b

pub process-Bounded :
    (limit : ℕ) (s : CoapDtlsServer) (d : Datagram)
    → Bounded limit s
    → Bounded limit (process s d).1
unfolding process process_datagram
process-Bounded limit s d b =
    process_parsed-Bounded limit d.world (reap_stale_entries d.world.begun s) d.bytes d.peer
      (parse d.bytes) (reap_stale_entries-Bounded limit d.world.begun s b)

forget_peer-Bounded :
    (limit peer_addr : ℕ) (s : CoapDtlsServer)
    → Bounded limit s
    → Bounded limit (forget_peer peer_addr s)
unfolding forget_peer
forget_peer-Bounded limit peer_addr s b = record {
  limit_of = b.limit_of;
  distinct = retain_keys-IsDistinct (λ key. not (key.peer == peer_addr)) s.exchanges b.distinct;
  assemblers_le = omega (
    arith,
    b.assemblers_le,
    size-retain_keys-le (λ key. not (key.peer == peer_addr)) s.block_assemblers,
  );
  cache_le = omega (
    arith,
    b.cache_le,
    size-retain_keys-le (λ key. not (key.peer == peer_addr)) s.response_cache,
  );
  exchanges_le =
      omega (
        arith,
        b.exchanges_le,
        size-retain_keys-le (λ key. not (key.peer == peer_addr)) s.exchanges,
      );
}

pub arrive-Bounded :
    (limit : ℕ) (s : CoapDtlsServer) (a : Arrival) → Bounded limit s → Bounded limit (arrive s a)
unfolding arrive
arrive-Bounded limit s (connected peer_addr) b = forget_peer-Bounded limit peer_addr s b
arrive-Bounded limit s (received d) b = process-Bounded limit s d b

run_keeps :
    (limit : ℕ) (s : CoapDtlsServer) (arrivals : List Arrival)
    → Bounded limit s
    → Bounded limit (run s arrivals)
unfolding run
run_keeps limit s [] b = b
run_keeps limit s (a ∷ arrivals) b =
    run_keeps limit (arrive s a) arrivals (arrive-Bounded limit s a b)

-- Whatever is received, from whatever peers and over whatever connections, and whatever the handler
-- answers: there are
-- at most twice as many assemblers and kept responses as sessions, and sixteen times that many
-- exchanges, each of them once.
pub run-Bounded :
    (block_size max_payload max_sessions : ℕ) (arrivals : List Arrival)
    → Bounded
        (min (max_sessions * 2) (2 ^ 64 - 1))
        (run (bind block_size max_payload max_sessions) arrivals)
unfolding bind
run-Bounded block_size max_payload max_sessions arrivals =
    run_keeps (min (max_sessions * 2) (2 ^ 64 - 1)) (bind block_size max_payload max_sessions)
      arrivals
      (record {
        limit_of = refl;
        distinct = empty-IsDistinct ExchangeKey ExchangeEntry;
        assemblers_le = omega arith;
        cache_le = omega arith;
        exchanges_le = omega arith;
      })
