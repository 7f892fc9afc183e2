-- ===== src/Coap/Sessions/Bounds.antt =====
-- What the session cache holds (crates/kipuka-coap/src/dtls.rs).
use kipuka.Common.{
  ℕ, ◌≤◌, ◌<◌, not, ◌&&◌, ◌≡◌, ◌⊎◌, inl, inr, refl, ◌∙◌, none, some, List, [], ◌∷◌, length, leb,
  ltb, ◌==◌, if◌then◌else◌, nat_eq, arith, Bool-cases, ==_refl,
}
use kipuka.Common.Dict
use kipuka.Common.Dict.{Dict, get-insert, size-insert, size-remove-le, size-retain-le}
use kipuka.Coap.Sessions.{
  DtlsSession, DtlsSessionCache, is_expired, new, cleanup_expired, oldest_of, oldest_session_addr,
  evict_oldest, room_for, insert, get, remove,
}

-- Removing a key that is there makes a table shorter.
size-remove-lt :
    {V : Type 0} (d : Dict ℕ V) (k : ℕ) (v : V)
    → Dict.get d k ≡ some v
    → length (Dict.remove d k) < length d
unfolding Dict.get Dict.remove
size-remove-lt [] k v h = absurd (ground (arith, h))
size-remove-lt ((j, w) ∷ d) k v h = ground (arith, size-remove-le d k, size-remove-lt d k v)

-- A table that has an entry in front has one for each key of its rest, and for the one in front.
present-cons :
    {V : Type 0} (a k : ℕ) (w : V) (d : Dict ℕ V)
    → (k ≡ a) ⊎ ((v : V) × (Dict.get d k ≡ some v))
    → (v : V) × (Dict.get ((a, w) ∷ d) k ≡ some v)
unfolding Dict.get
present-cons a k w d p = elim (Bool-cases (a == k)) [
  | inl same ↦ (w, ground (arith, same))
  | inr other ↦ elim p [
    | inl same ↦ absurd (ground (arith, same, other))
    | inr (v, here) ↦ (v, ground (arith, other, here))
  ]
]

-- The oldest is one of those there.
oldest_of-get :
    (addr : ℕ) (session : DtlsSession) (d : Dict ℕ DtlsSession)
    → (oldest_of addr session d ≡ addr)
      ⊎ ((s : DtlsSession) × (Dict.get d (oldest_of addr session d) ≡ some s))
unfolding oldest_of
oldest_of-get addr session [] = inl refl
oldest_of-get addr session ((a, t) ∷ d) =
    let (passed, kept) : ℕ × ℕ = (oldest_of a t d, oldest_of addr session d) in
    elim (Bool-cases (ltb t.created_at session.created_at)) [
      | inl older ↦ rw (older, oldest_of) (inr (present-cons a passed t d (oldest_of-get a t d)))
      | inr younger ↦
          rw (younger, oldest_of)
            (elim (oldest_of-get addr session d) [
              | inl same ↦ inl same
              | inr here ↦ inr (present-cons a kept t d (inr here))
            ])
    ]

-- Evicting leaves room, where there can be any.
evict_oldest-room :
    (sessions : Dict ℕ DtlsSession) (max_sessions ttl : ℕ)
    → 0 < max_sessions
    → length sessions ≤ max_sessions
    → let c : DtlsSessionCache = record {
      sessions = sessions;
      max_sessions = max_sessions;
      ttl = ttl;
    } in
      (length (evict_oldest c).sessions < max_sessions)
      × ((evict_oldest c).max_sessions ≡ max_sessions)
unfolding evict_oldest oldest_session_addr
evict_oldest-room [] max_sessions ttl p b = (ground arith, ground arith)
evict_oldest-room ((a, s) ∷ d) max_sessions ttl p b =
    let (v, here) = present-cons a (oldest_of a s d) s d (oldest_of-get a s d) in
    let shorter = size-remove-lt ((a, s) ∷ d) (oldest_of a s d) v here in
    elim (Bool-cases (leb max_sessions (length ((a, s) ∷ d)))) [
      | inl full ↦ rw full (omega (arith, shorter), refl)
      | inr room ↦ rw room (ground (arith, room), refl)
    ]

insert-le :
    (now : ℕ) (c : DtlsSessionCache) (session : DtlsSession)
    → 0 < c.max_sessions
    → length c.sessions ≤ c.max_sessions
    → (length (insert now c session).sessions ≤ c.max_sessions)
      × ((insert now c session).max_sessions ≡ c.max_sessions)
unfolding insert room_for cleanup_expired
insert-le now c session p b =
    let has = Dict.contains_key c.sessions session.peer_addr in
    let cleaned = (cleanup_expired now c).1 in
    let size = λ (d : Dict ℕ DtlsSession). size-insert d session.peer_addr session in
    let less = size-retain-le (λ s. not (is_expired now c.ttl s)) c.sessions in
    let (room, same) =
      evict_oldest-room cleaned.sessions c.max_sessions c.ttl p (omega (arith, less, b)) in
    elim (Bool-cases (leb c.max_sessions (length c.sessions) && not has)) [
      | inl full ↦ rw full (ground (arith, size (evict_oldest cleaned).sessions, room), same)
      | inr fits ↦ rw fits (ground (arith, size c.sessions, fits, b), refl)
    ]

pub data SessionOp : Type 0 where
  inserts : DtlsSession → SessionOp
  gets removes : ℕ → SessionOp
  cleans : SessionOp

unfoldable pub step : DtlsSessionCache → SessionOp × ℕ → DtlsSessionCache
step c (inserts session, now) = insert now c session
step c (gets peer_addr, now) = (get now c peer_addr).1
step c (removes peer_addr, now) = (remove c peer_addr).1
step c (cleans, now) = (cleanup_expired now c).1

unfoldable pub run : DtlsSessionCache → List (SessionOp × ℕ) → DtlsSessionCache
unfolding step
run c [] = c
run c (op ∷ ops) = run (step c op) ops

get-le :
    (now : ℕ) (c : DtlsSessionCache) (peer_addr : ℕ)
    → (length (get now c peer_addr).1.sessions ≤ length c.sessions)
      × ((get now c peer_addr).1.max_sessions ≡ c.max_sessions)
unfolding get
get-le now c peer_addr = ground (arith, size-remove-le c.sessions peer_addr)

step-le :
    (c : DtlsSessionCache) (op : SessionOp × ℕ)
    → 0 < c.max_sessions
    → length c.sessions ≤ c.max_sessions
    → (length (step c op).sessions ≤ c.max_sessions) × ((step c op).max_sessions ≡ c.max_sessions)
unfolding step remove cleanup_expired
step-le c (inserts session, now) p b = insert-le now c session p b
step-le c (gets peer_addr, now) p b =
    let (less, same) = get-le now c peer_addr in (omega (arith, less, b), same)
step-le c (removes peer_addr, now) p b =
    (omega (arith, size-remove-le c.sessions peer_addr, b), refl)
step-le c (cleans, now) p b =
    (omega (arith, size-retain-le (λ s. not (is_expired now c.ttl s)) c.sessions, b), refl)

run-le :
    (c : DtlsSessionCache) (ops : List (SessionOp × ℕ))
    → 0 < c.max_sessions
    → length c.sessions ≤ c.max_sessions
    → length (run c ops).sessions ≤ c.max_sessions
unfolding run
run-le c [] p b = b
run-le c (op ∷ ops) p b =
    let (b', same) = step-le c op p b in
    let later = run-le (step c op) ops (omega (arith, p, same)) (omega (arith, b', same)) in
    omega (arith, later, same)

-- A cache that may hold a session at all never holds more than its limit.
pub cache_bounded :
    (max_sessions ttl : ℕ) (ops : List (SessionOp × ℕ))
    → 0 < max_sessions
    → length (run (new max_sessions ttl) ops).sessions ≤ max_sessions
unfolding new
cache_bounded max_sessions ttl ops p = run-le (new max_sessions ttl) ops p (omega arith)

insert-ttl :
    (now : ℕ) (c : DtlsSessionCache) (session : DtlsSession) → (insert now c session).ttl ≡ c.ttl
unfolding insert room_for evict_oldest cleanup_expired
insert-ttl now c session = ground arith

insert-get :
    (now : ℕ) (c : DtlsSessionCache) (session : DtlsSession)
    → Dict.get (insert now c session).sessions session.peer_addr ≡ some session
unfolding insert
insert-get now c session =
    let room = room_for now c session.peer_addr in
    get-insert room.sessions session.peer_addr session.peer_addr session
    ∙ rw (==_refl session.peer_addr) refl

-- Whatever the cache holds, a session that is inserted is found for its peer until its time is over,
-- and not after that.
pub get-insert_new :
    (now later : ℕ) (c : DtlsSessionCache) (session : DtlsSession)
    → (get later (insert now c session) session.peer_addr).0
      ≡ (if is_expired later c.ttl session then none else some session)
unfolding get
get-insert_new now later c session =
    ground (arith, insert-get now c session, insert-ttl now c session)
