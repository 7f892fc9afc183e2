-- ===== src/Audit/Overflow.antt =====
-- A full table (src/audit/mod.rs, `write_event`): how many rows there can be, which ones are removed,
-- and what the checker of the chain says of those that are left.
use kipuka.Common.{
  ℕ, zero, suc, ◌+◌, ◌-◌, ◌≤◌, ◌<◌, false, ◌≡◌, refl, ap, ◌∙◌, inl, inr, Option, none, some, List,
  [], ◌∷◌, ◌++◌, arith, length, length-append, length-drop, drop, leb, Bool-cases,
}
use kipuka.Audit.Event.{AuditEvent, AuditRow, canonical}
use kipuka.Audit.Trail.{linkage_broken, Hashes, chain_hash, same_option, first_broken, verify_chain}
use kipuka.Audit.Record.{
  AuditConfig, AuditState, Table, Moment, ok, is_halt, from_config, empty_table, make_room, new_row,
  write_event,
}
use kipuka.Audit.History.{Op, run, run_keeps}
use kipuka.Audit.Verify.{first_broken-cons, write_event-ok, verify_chain-some}

-- What `make_room` leaves of the rows: the last ones, one fewer than the limit.
pub make_room-last :
    (c : AuditConfig) (limit : ℕ) (rows rows' : List AuditRow)
    → c.max_rows ≡ some limit
    → 0 < limit
    → make_room c rows ≡ ok rows'
    → rows' ≡ drop (length rows - (limit - 1)) rows
unfolding make_room
make_room-last c limit rows rows' l p e = elim (Bool-cases (leb limit (length rows))) [
  | inl h ↦
      let n : length rows - limit + 1 ≡ length rows - (limit - 1) = ground arith in
      elim (Bool-cases (is_halt c.overflow_policy)) [
        | inl q ↦ absurd (ground (arith, l, e))
        | inr q ↦ ground (arith, l, e, ap (λ k. drop k rows) n)
      ]
  | inr h ↦
      let n : length rows - (limit - 1) ≡ 0 = ground arith in
      ground (arith, l, e, ap (λ k. drop k rows) n)
]

module _ (hs : Hashes) (json : Option (List ℕ) → Option (List ℕ) → List ℕ) where
  write_event-bounded :
      (limit : ℕ) (s : AuditState) (t t' : Table) (m : Moment) (e : AuditEvent)
      → write_event hs json s t m e ≡ ok t'
      → (s.config.max_rows ≡ some limit) × (0 < limit) × (length t.rows ≤ limit)
      → (s.config.max_rows ≡ some limit) × (0 < limit) × (length t'.rows ≤ limit)
  write_event-bounded limit s t t' m e w (l, p, b) =
      let (rows, x, grown, id, on) = write_event-ok hs json s t t' m e w in
      let r = new_row hs json s rows (t.last_id + 1) m.timestamp e in
      let last = make_room-last s.config limit t.rows rows l p x in
      let n = length-drop (length t.rows - (limit - 1)) t.rows in
      let size = length-append rows (r ∷ []) in
      (l, p, omega (arith, ap length grown, size, ap length last, n))

  -- However long the history, the table has no more rows than the limit, under either policy.
  pub run-bounded :
      (c : AuditConfig) (key : Option (List ℕ)) (limit : ℕ) (ops : List Op)
      → c.max_rows ≡ some limit
      → 0 < limit
      → length (run hs json (from_config c key, empty_table) ops).1.rows ≤ limit
  unfolding from_config
  run-bounded c key limit ops l p =
      (run_keeps hs json
        (λ key c t. (c.max_rows ≡ some limit) × (0 < limit) × (length t.rows ≤ limit))
        (write_event-bounded limit) (from_config c key) empty_table ops (l, p, omega arith)).2

module _ (hs : Hashes) (key : Option (List ℕ)) where
  -- In a chain that verifies, each row after the first names the hash of the one before.
  drop-linked :
      (expected : Option (List ℕ)) (k : ℕ) (rows : List AuditRow)
      → first_broken hs key expected rows ≡ none
      → suc k < length rows
      → (r : AuditRow) × (rest : List AuditRow) × (h : List ℕ) × (drop (suc k) rows ≡ r ∷ rest)
        × (r.prev_hash ≡ some h)
  drop-linked expected k [] c l = absurd (omega arith)
  drop-linked expected k (q ∷ []) c l = absurd (omega arith)
  drop-linked expected zero (q ∷ r ∷ rows) c l =
      let (lq, c') = (first_broken-cons hs key expected q (r ∷ rows)).0 c in
      let (lr, c'') = (first_broken-cons hs key q.record_hash r rows).0 c' in
      (r, rows, chain_hash hs key q.prev_hash (canonical q), refl, lr.linked ∙ lq.hashed)
  drop-linked expected (suc k) (q ∷ r ∷ rows) c l =
      drop-linked q.record_hash k (r ∷ rows)
        ((first_broken-cons hs key expected q (r ∷ rows)).0 c).1 (omega arith)

  first_broken-linked :
      (r : AuditRow) (rows : List AuditRow) (h : List ℕ)
      → r.prev_hash ≡ some h
      → first_broken hs key none (r ∷ rows) ≡ some (r.id, linkage_broken)
  unfolding first_broken same_option
  first_broken-linked r rows h e = ground (arith, e)

-- A table that verifies and is full, a limit of two rows or more, and the policy to remove the
-- oldest: after the next write `verify_chain` reports the first row that is left as broken, though
-- nobody has altered a row.
pub write_event-breaks :
    (hs : Hashes) (json : Option (List ℕ) → Option (List ℕ) → List ℕ) (limit : ℕ) (s : AuditState)
    (t t' : Table) (m : Moment) (e : AuditEvent)
    → s.config.max_rows ≡ some limit
    → 2 ≤ limit
    → limit ≤ length t.rows
    → first_broken hs s.integrity_key none t.rows ≡ none
    → write_event hs json s t m e ≡ ok t'
    → (r : AuditRow) × (rest : List AuditRow) × (t'.rows ≡ r ∷ rest)
      × (verify_chain hs s.integrity_key t'.rows ≡ record {
        total = length t'.rows;
        ok = false;
        broken_at = some r.id;
        detail = some linkage_broken;
      })
write_event-breaks hs json limit s t t' m e l two full c w =
    let (rows, x, grown, id, on) = write_event-ok hs json s t t' m e w in
    let last = make_room-last s.config limit t.rows rows l (omega arith) x in
    let new = new_row hs json s rows (t.last_id + 1) m.timestamp e in
    let (r, rest, h, dropped, prev) =
      drop-linked hs s.integrity_key none (length t.rows - limit) t.rows c (omega arith) in
    let n : length t.rows - (limit - 1) ≡ suc (length t.rows - limit) = omega arith in
    let left : t'.rows ≡ r ∷ (rest ++ new ∷ []) =
      grown ∙ ap (λ xs. xs ++ new ∷ []) (last ∙ ap (λ k. drop k t.rows) n ∙ dropped) in
    (
      r,
      rest ++ new ∷ [],
      left,
      verify_chain-some hs s.integrity_key t'.rows r.id linkage_broken (
          ap (first_broken hs s.integrity_key none) left
          ∙ first_broken-linked hs s.integrity_key r (rest ++ new ∷ []) h prev),
    )
