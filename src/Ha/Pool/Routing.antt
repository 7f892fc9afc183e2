-- ===== src/Ha/Pool/Routing.antt =====
-- Where `CaPool::select_allowed` of src/ha/pool.rs routes a request.
use kipuka.Common.{
  true, false, ◌≡◌, ◌↔◌, refl, ap, arith, Option, none, some, List, [], ◌∷◌, String, string_eq,
  retain, In, here, there, retain-In, In-retain, Option-cases, Bool-cases, ◌⊎◌, inl, inr,
}
use kipuka.Common.Dict
use kipuka.Ha.Status.{Float, CaStatus, CaConnection, is_available}
use kipuka.Ha.Strategy.{Candidate}
use kipuka.Ha.Strategy.Choice.{select-Chosen}
use kipuka.Ha.Pool.{CaPool, contains, routable, status_available, snapshot, select_allowed}

module _ (fl : Float) (p : CaPool fl) where
  -- The candidate is registered, and its status is the current one.
  abbrev Current : List CaConnection → CaConnection → CaStatus fl.F → Type 0
  Current cs c s = In c cs × (Dict.get p.statuses c.id ≡ some s)

  snapshot-In_step :
      (c d : CaConnection) (s : CaStatus fl.F) (cs : List CaConnection)
      (rest : List (Candidate fl.F)) (o : Option (CaStatus fl.F))
      → Dict.get p.statuses d.id ≡ o
      → (In (c, s) rest → Current cs c s)
      → In (c, s) (elim o [ some t ↦ (d, t) ∷ rest | none ↦ rest ])
      → Current (d ∷ cs) c s
  snapshot-In_step c d s cs rest none e ih m = let (n, q) = ih m in (there n, q)
  snapshot-In_step c d s cs rest (some t) e ih (here q) =
      (here (ap (λ (y : Candidate fl.F). y.0) q), ground (arith, q))
  snapshot-In_step c d s cs rest (some t) e ih (there m) = let (n, q) = ih m in (there n, q)

  snapshot-In :
      (c : CaConnection) (s : CaStatus fl.F) (cs : List CaConnection)
      → In (c, s) (snapshot fl p cs)
      → Current cs c s
  unfolding snapshot
  snapshot-In c s [] m = elim m [ ]
  snapshot-In c s (d ∷ cs) m =
      snapshot-In_step c d s cs (snapshot fl p cs) (Dict.get p.statuses d.id) refl
        (snapshot-In c s cs) m

  routable-status :
      (allowed : List String) (c : CaConnection) (s : CaStatus fl.F)
      → routable fl p allowed c ≡ true
      → Dict.get p.statuses c.id ≡ some s
      → (contains allowed c.id ≡ true) × (is_available s.health ≡ true)
  unfolding routable status_available
  routable-status allowed c s e q = ground arith

  -- A connection that may be routed to has a status, so the snapshot has a first candidate.
  snapshot_first :
      (allowed : List String) (c : CaConnection) (cs : List CaConnection)
      → routable fl p allowed c ≡ true
      → (s : CaStatus fl.F) × (snapshot fl p (c ∷ cs) ≡ (c, s) ∷ snapshot fl p cs)
  unfolding snapshot routable status_available
  snapshot_first allowed c cs e = elim (Option-cases (Dict.get p.statuses c.id)) [
    | inl n ↦ absurd (ground arith)
    | inr (s, q) ↦ (s, rw (q, snapshot))
  ]

  -- What a request with these allowed CAs may be given.
  pub Routed : List String → CaConnection → Type 0
  Routed allowed c =
      In c p.connections
      × (contains allowed c.id ≡ true)
      × (s : CaStatus fl.F) × (Dict.get p.statuses c.id ≡ some s)
      × (is_available s.health ≡ true)

  select_from :
      (allowed : List String) (cs : List CaConnection)
      → retain (routable fl p allowed) p.connections ≡ cs
      → ((select_allowed fl p allowed).0 ≡ none) × (cs ≡ [])
        ⊎ (c : CaConnection) × ((select_allowed fl p allowed).0 ≡ some c) × Routed allowed c
  unfolding select_allowed Routed
  select_from allowed [] e = inl (rw (e, select_allowed), refl)
  select_from allowed (c ∷ cs) e =
      let first = retain-In (routable fl p allowed) c p.connections (rw e (here refl)) in
      let (s, snap) = snapshot_first allowed c cs first.1 in
      let (b, t, q, m) = select-Chosen fl p.selector (c, s) (snapshot fl p cs) in
      let current = snapshot-In b t (c ∷ cs) (rw snap m) in
      let kept = retain-In (routable fl p allowed) b p.connections (rw e current.0) in
      let (a, h) = routable-status allowed b t kept.1 current.1 in
      inr (b, rw (e, select_allowed) (rw snap q), (kept.0, a, t, current.1, h))

-- A request is given only a registered CA that the caller may use and whose health permits routing,
-- whatever the strategy.
pub select_allowed-Routed :
    (fl : Float) (p : CaPool fl) (allowed : List String) (c : CaConnection)
    → (select_allowed fl p allowed).0 ≡ some c
    → Routed fl p allowed c
select_allowed-Routed fl p allowed c e = elim (select_from fl p allowed _ refl) [
  | inl (n, _) ↦ absurd (ground arith)
  | inr (d, q, r) ↦ let same : d ≡ c = ground (arith, q, e) in rw same at r
]

Routed-routable :
    (fl : Float) (p : CaPool fl) (allowed : List String) (c : CaConnection)
    → Routed fl p allowed c
    → In c p.connections × (routable fl p allowed c ≡ true)
unfolding Routed routable status_available
Routed-routable fl p allowed c (m, a, s, q, h) = (m, ground arith)

not-In_nil : {c : CaConnection} → In c [] → ⊥
not-In_nil m = elim m [ ]

-- No CA is given exactly when no registered CA may be routed to.
pub select_allowed-none :
    (fl : Float) (p : CaPool fl) (allowed : List String)
    → ((select_allowed fl p allowed).0 ≡ none)
      ↔ ((c : CaConnection) → In c p.connections → routable fl p allowed c ≡ false)
select_allowed-none fl p allowed = (
  λ e c m. elim (select_from fl p allowed _ refl) [
    | inl (n, empty) ↦ elim (Bool-cases (routable fl p allowed c)) [
      | inl r ↦
          absurd (not-In_nil (rw empty at (In-retain (routable fl p allowed) c p.connections m r)))
      | inr r ↦ r
    ]
    | inr (d, q, r) ↦ absurd (ground (arith, e, q))
  ],
  λ h. elim (select_from fl p allowed _ refl) [
    | inl (n, empty) ↦ n
    | inr (d, q, r) ↦ let (m, t) = Routed-routable fl p allowed d r in absurd (cc (t, h d m))
  ],
)
