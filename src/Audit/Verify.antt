-- ===== src/Audit/Verify.antt =====
-- What is written verifies (src/audit/mod.rs, `write_event` and `verify_chain`).
use kipuka.Common.{
  ℕ, ◌+◌, true, false, ◌⊎◌, ◌≡◌, ◌↔◌, refl, Option, none, some, List, [], ◌∷◌, ◌++◌, arith, length,
  same_bytes_iff, inl, inr,
}
use kipuka.Audit.Event.{AuditEvent, AuditRow, canonical}
use kipuka.Audit.Trail.{
  Fault, Hashes, same_option, tail_hash, chain_hash, first_broken, verify_chain,
}
use kipuka.Audit.History.{Outcome-cases, Op, run, run_keeps}
use kipuka.Audit.Record.{
  AuditConfig, AuditState, Table, Moment, ok, is_halt, empty_table, make_room, new_row, insert_row,
  write_event, from_config,
}

pub same_option_iff : (a b : Option (List ℕ)) → (same_option a b ≡ true) ↔ (a ≡ b)
unfolding same_option
same_option_iff none none = ground arith
same_option_iff none (some t) = ground arith
same_option_iff (some s) none = ground arith
same_option_iff (some s) (some t) = ground (arith, same_bytes_iff s t)

module _ (hs : Hashes) (key : Option (List ℕ)) where
  -- A row links to the one before it, and its hash is that of its fields.
  pub record Links (expected : Option (List ℕ)) (r : AuditRow) : Type 0 where
    pub linked : r.prev_hash ≡ expected
    pub hashed : r.record_hash ≡ some (chain_hash hs key r.prev_hash (canonical r))

  pub first_broken-cons :
      (expected : Option (List ℕ)) (r : AuditRow) (rows : List AuditRow)
      → (first_broken hs key expected (r ∷ rows) ≡ none)
        ↔ (Links expected r × (first_broken hs key r.record_hash rows ≡ none))
  unfolding first_broken
  first_broken-cons expected r rows =
      let hash : Option (List ℕ) = some (chain_hash hs key r.prev_hash (canonical r)) in
      let p = same_option_iff r.prev_hash expected in
      let h = same_option_iff r.record_hash hash in
      (
        λ e. (record { linked = ground arith; hashed = ground arith }, ground arith),
        λ e. ground (arith, e.0.linked, e.0.hashed),
      )

  pub first_broken-append :
      (expected : Option (List ℕ)) (rows : List AuditRow) (r : AuditRow)
      → first_broken hs key expected rows ≡ none
      → Links (tail_hash expected rows) r
      → first_broken hs key expected (rows ++ r ∷ []) ≡ none
  unfolding tail_hash first_broken
  first_broken-append expected [] r e l = (first_broken-cons expected r []).1 (l, refl)
  first_broken-append expected (q ∷ rows) r e l =
      let (lq, rest) = (first_broken-cons expected q rows).0 e in
      (first_broken-cons expected q (rows ++ r ∷ [])).1
        (lq, first_broken-append q.record_hash rows r rest l)

  pub verify_chain-none :
      (rows : List AuditRow)
      → first_broken hs key none rows ≡ none
      → verify_chain hs key rows
        ≡ record { total = length rows; ok = true; broken_at = none; detail = none }
  unfolding verify_chain
  verify_chain-none rows e = rw (e, verify_chain)

  pub verify_chain-some :
      (rows : List AuditRow) (id : ℕ) (fault : Fault)
      → first_broken hs key none rows ≡ some (id, fault)
      → verify_chain hs key rows
        ≡ record { total = length rows; ok = false; broken_at = some id; detail = some fault }
  unfolding verify_chain
  verify_chain-some rows id fault e = rw (e, verify_chain)

-- A limit that is met by refusing to write, or no limit, removes no row.
abbrev pub KeepsAll : AuditConfig → Type 0
KeepsAll c = (c.max_rows ≡ none) ⊎ (is_halt c.overflow_policy ≡ true)

make_room-KeepsAll :
    (c : AuditConfig) (rows rows' : List AuditRow)
    → KeepsAll c
    → make_room c rows ≡ ok rows'
    → rows' ≡ rows
unfolding make_room
make_room-KeepsAll c rows rows' (inl k) e = ground (arith, k, e)
make_room-KeepsAll c rows rows' (inr k) e = ground (arith, k, e)

module _ (hs : Hashes) (json : Option (List ℕ) → Option (List ℕ) → List ℕ) where
  -- A write that succeeds appends one row to those that there was room for.
  pub write_event-ok :
      (s : AuditState) (t t' : Table) (m : Moment) (e : AuditEvent)
      → write_event hs json s t m e ≡ ok t'
      → (rows : List AuditRow) × (make_room s.config t.rows ≡ ok rows)
        × (t'.rows ≡ rows ++ new_row hs json s rows (t.last_id + 1) m.timestamp e ∷ [])
        × (t'.last_id ≡ t.last_id + 1)
        × (s.halted ≡ false)
  unfolding write_event insert_row
  write_event-ok s t t' m e w = elim (Outcome-cases (make_room s.config t.rows)) [
    | inl (f, x) ↦ absurd (ground (arith, x, w))
    | inr (rows, x) ↦ (rows, x, ground (arith, x, w), ground (arith, x, w), ground (arith, x, w))
  ]

  new_row-Links :
      (s : AuditState) (rows : List AuditRow) (id : ℕ) (timestamp : List ℕ) (e : AuditEvent)
      → Links hs s.integrity_key (tail_hash none rows) (new_row hs json s rows id timestamp e)
  unfolding new_row canonical
  new_row-Links s rows id timestamp e = record { linked = refl; hashed = refl }

  write_event-chain :
      (s : AuditState) (t t' : Table) (m : Moment) (e : AuditEvent)
      → write_event hs json s t m e ≡ ok t'
      → KeepsAll s.config × (first_broken hs s.integrity_key none t.rows ≡ none)
      → KeepsAll s.config × (first_broken hs s.integrity_key none t'.rows ≡ none)
  write_event-chain s t t' m e w (k, c) =
      let (rows, x, grown, id, on) = write_event-ok s t t' m e w in
      let same = make_room-KeepsAll s.config t.rows rows k x in
      let r = new_row hs json s rows (t.last_id + 1) m.timestamp e in
      (
        k,
        rw grown (
            first_broken-append hs s.integrity_key none rows r (rw same c)
              (new_row-Links s rows (t.last_id + 1) m.timestamp e)),
      )

  -- Whatever is recorded, issued, refused by the database or halted, from an empty table on: where
  -- no row is removed to make room, `verify_chain` finds the table whole.
  pub verify_chain-run :
      (c : AuditConfig) (key : Option (List ℕ)) (ops : List Op)
      → KeepsAll c
      → verify_chain hs key (run hs json (from_config c key, empty_table) ops).1.rows ≡ record {
        total = length (run hs json (from_config c key, empty_table) ops).1.rows;
        ok = true;
        broken_at = none;
        detail = none;
      }
  unfolding from_config first_broken
  verify_chain-run c key ops k =
      let s = from_config c key in
      verify_chain-none hs key (run hs json (s, empty_table) ops).1.rows
        (run_keeps hs json (λ key c t. KeepsAll c × (first_broken hs key none t.rows ≡ none))
          write_event-chain s empty_table ops (k, refl)).1
