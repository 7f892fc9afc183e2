-- ===== src/Coap/Sessions.antt =====
-- `DtlsSessionCache` of crates/kipuka-coap/src/dtls.rs. The clock is an argument of each call, and the
-- address of a peer a number that stands for it. A session's ID and version are not looked at.
pub mod Bounds
mod Examples
use kipuka.Common.{
  ℕ, ◌-◌, ◌≤◌, Bool, true, false, not, ◌&&◌, Option, none, some, List, [], ◌∷◌, length, leb, ltb,
  if◌then◌else◌, nat_eq,
}
use kipuka.Common.Dict
use kipuka.Common.Dict.{Dict}

pub record DtlsSession : Type 0 where
  pub peer_addr : ℕ
  pub client_cert : Option (List ℕ)
  pub created_at : ℕ

unfoldable pub is_expired : ℕ → ℕ → DtlsSession → Bool
is_expired now ttl session = ltb ttl (now - session.created_at)

pub record DtlsSessionCache : Type 0 where
  pub sessions : Dict ℕ DtlsSession
  pub max_sessions : ℕ
  pub ttl : ℕ

unfoldable pub new : ℕ → ℕ → DtlsSessionCache
new max_sessions ttl = record { sessions = []; max_sessions = max_sessions; ttl = ttl }

unfoldable pub cleanup_expired : ℕ → DtlsSessionCache → ℕ × DtlsSessionCache
unfolding is_expired
cleanup_expired now c =
    let sessions = Dict.retain (λ s. not (is_expired now c.ttl s)) c.sessions in
    (length c.sessions - length sessions, record c { sessions = sessions })

-- `min_by_key` takes the first of those that are oldest.
unfoldable pub oldest_of : ℕ → DtlsSession → Dict ℕ DtlsSession → ℕ
oldest_of addr session [] = addr
oldest_of addr session ((a, s) ∷ rest) = elim (ltb s.created_at session.created_at) [
  | true ↦ oldest_of a s rest
  | false ↦ oldest_of addr session rest
]

unfoldable pub oldest_session_addr : DtlsSessionCache → Option ℕ
unfolding oldest_of
oldest_session_addr c = elim c.sessions [ [] ↦ none | (a, s) ∷ rest ↦ some (oldest_of a s rest) ]

unfoldable pub evict_oldest : DtlsSessionCache → DtlsSessionCache
unfolding oldest_session_addr
evict_oldest c =
    if leb c.max_sessions (length c.sessions)
    then (elim (oldest_session_addr c) [
      | none ↦ c
      | some addr ↦ record c { sessions = Dict.remove c.sessions addr }
    ])
    else c

-- A cache that is full makes room for a new peer.
unfoldable pub room_for : ℕ → DtlsSessionCache → ℕ → DtlsSessionCache
unfolding cleanup_expired evict_oldest
room_for now c peer_addr =
    if leb c.max_sessions (length c.sessions) && not (Dict.contains_key c.sessions peer_addr)
    then evict_oldest (cleanup_expired now c).1
    else c

unfoldable pub insert : ℕ → DtlsSessionCache → DtlsSession → DtlsSessionCache
unfolding room_for
insert now c session =
    let room = room_for now c session.peer_addr in
    record room { sessions = Dict.insert room.sessions session.peer_addr session }

unfoldable pub get : ℕ → DtlsSessionCache → ℕ → Option DtlsSession × DtlsSessionCache
unfolding is_expired
get now c peer_addr = elim (Dict.get c.sessions peer_addr) [
  | none ↦ (none, c)
  | some session ↦
      if is_expired now c.ttl session
      then (none, record c { sessions = Dict.remove c.sessions peer_addr })
      else (some session, c)
]

unfoldable pub remove : DtlsSessionCache → ℕ → Option DtlsSession × DtlsSessionCache
remove c peer_addr =
    (Dict.get c.sessions peer_addr, record c { sessions = Dict.remove c.sessions peer_addr })
