-- ===== src/Coap/Sessions/Examples.antt =====
-- Runs of the DTLS session cache (crates/kipuka-coap/src/dtls.rs), and its theorems at concrete inputs.
use kipuka.Common.{ℕ, ◌≤◌, ◌≡◌, refl, none, List, [], ◌∷◌, length, arith, nat_eq, map}
use kipuka.Common.Dict
use kipuka.Coap.Sessions.{
  DtlsSession, is_expired, new, cleanup_expired, oldest_of, oldest_session_addr, evict_oldest,
  room_for, insert,
}
use kipuka.Coap.Sessions.Bounds.{SessionOp, inserts, step, run, cache_bounded}

abbrev session : ℕ → ℕ → DtlsSession
session peer_addr created_at = record {
  peer_addr = peer_addr;
  client_cert = none;
  created_at = created_at;
}

abbrev three : List (SessionOp × ℕ)
three = (inserts (session 1 5), 5) ∷ (inserts (session 2 6), 6) ∷ (inserts (session 3 7), 7) ∷ []

-- The third session takes the place of the first.
evicts_the_oldest : map (λ (x : ℕ × DtlsSession). x.0) (run (new 2 60) three).sessions ≡ 2 ∷ 3 ∷ []
unfolding run step new insert room_for cleanup_expired is_expired evict_oldest oldest_session_addr
    oldest_of Dict.insert Dict.get Dict.remove Dict.retain
evicts_the_oldest = refl

cache_bounded_example : length (run (new 2 60) three).sessions ≤ 2
cache_bounded_example = cache_bounded 2 60 three (omega arith)
