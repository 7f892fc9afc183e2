-- ===== src/Audit/Window.antt =====
-- Removing the oldest rows (src/audit/mod.rs, `write_event`): the table with a limit beside the one
-- that nothing is removed from.
use kipuka.Common.{
  ℕ, zero, suc, ◌+◌, ◌-◌, ◌≤◌, ◌<◌, Bool, true, false, not, ◌≡◌, refl, sym, ap, ◌∙◌, inl, inr,
  Option, none, some, List, [], ◌∷◌, ◌++◌, arith, length, length-append, length-drop, drop,
  drop-all, if◌then◌else◌,
}
use kipuka.Audit.Event.{AuditEventType, cert_issue, AuditEvent, new, AuditRow}
use kipuka.Audit.Trail.{Hashes, tail_hash}
use kipuka.Audit.Record.{
  AuditConfig, AuditState, Table, admission_halted, database_failed, Moment, Outcome, ok, err,
  is_halt, set_halted, from_config, empty_table, make_room, new_row, insert_row, write_event, track,
  latch, after_write, record_inner, record_checked, then_set, record_issuance_in_transaction,
  commit_issuance,
}
use kipuka.Audit.History.{
  Op, records, issues, sets_halted, end_issuance, issue, step, run, Outcome-cases,
}
use kipuka.Audit.Overflow.{make_room-last}

abbrev pub last : {A : Type 0} → ℕ → List A → List A
last n xs = drop (length xs - n) xs

drop-drop : {A : Type 0} (i j : ℕ) (xs : List A) → drop i (drop j xs) ≡ drop (j + i) xs
drop-drop i zero xs = ap (λ k. drop k xs) (omega arith)
drop-drop i (suc j) [] = drop-all i [] (omega arith) ∙ sym (drop-all (suc j + i) [] (omega arith))
drop-drop i (suc j) (x ∷ xs) =
    let n : suc (j + i) ≡ suc j + i = omega arith in drop-drop i j xs ∙ ap (λ k. drop k (x ∷ xs)) n

drop-snoc :
    {A : Type 0} (k : ℕ) (xs : List A) (x : A)
    → k ≤ length xs
    → drop k (xs ++ x ∷ []) ≡ drop k xs ++ x ∷ []
drop-snoc zero xs x h = refl
drop-snoc (suc k) [] x h = absurd (omega arith)
drop-snoc (suc k) (y ∷ xs) x h = drop-snoc k xs x (omega arith)

last-last : {A : Type 0} (n : ℕ) (xs : List A) → last (n - 1) (last n xs) ≡ last (n - 1) xs
last-last n xs =
    drop-drop (length (last n xs) - (n - 1)) (length xs - n) xs
    ∙ ap (λ k. drop k xs) (omega (arith, length-drop (length xs - n) xs))

last-snoc :
    {A : Type 0} (n : ℕ) (xs : List A) (x : A)
    → 0 < n
    → last n (xs ++ x ∷ []) ≡ last (n - 1) xs ++ x ∷ []
last-snoc n xs x p =
    ap (λ k. drop k (xs ++ x ∷ [])) (omega (arith, length-append xs (x ∷ [])))
    ∙ drop-snoc (length xs - (n - 1)) xs x (omega arith)

tail_hash-drop :
    (h h' : Option (List ℕ)) (k : ℕ) (rows : List AuditRow)
    → k < length rows
    → tail_hash h (drop k rows) ≡ tail_hash h' rows
unfolding tail_hash
tail_hash-drop h h' k [] l = absurd (omega arith)
tail_hash-drop h h' zero (r ∷ rows) l = refl
tail_hash-drop h h' (suc k) (r ∷ rows) l = tail_hash-drop h r.record_hash k rows (omega arith)

tail_hash-last :
    (n : ℕ) (rows : List AuditRow) → 0 < n → tail_hash none (last n rows) ≡ tail_hash none rows
tail_hash-last n [] p = ap (tail_hash none) (drop-all (0 - n) [] (omega arith))
tail_hash-last n (r ∷ rows) p =
    tail_hash-drop none none (length (r ∷ rows) - n) (r ∷ rows) (omega arith)

-- The same state, without the limit.
abbrev pub unlimited : AuditState → AuditState
unlimited s = record s { config = record s.config { max_rows = none } }

pub record Window (limit : ℕ) (t u : Table) : Type 0 where
  pub window : t.rows ≡ last limit u.rows
  pub same_id : t.last_id ≡ u.last_id

-- The limit removes the oldest, and keeps at least two rows.
pub record Drops (limit : ℕ) (c : AuditConfig) : Type 0 where
  pub limited : c.max_rows ≡ some limit
  pub policy : is_halt c.overflow_policy ≡ false
  pub two : 2 ≤ limit

module _ (limit : ℕ) where
  abbrev Written : Outcome Table → Outcome Table → Type 0
  Written (ok t) (ok u) = Window limit t u
  Written (err f) (err g) = f ≡ g
  Written (ok t) (err g) = ⊥
  Written (err f) (ok u) = ⊥

  make_room-unlimited :
      (s : AuditState) (rows : List AuditRow) → make_room (unlimited s).config rows ≡ ok rows
  unfolding make_room
  make_room-unlimited s rows = refl

  make_room-Drops :
      (c : AuditConfig) (rows : List AuditRow)
      → Drops limit c
      → make_room c rows ≡ ok (last (limit - 1) rows)
  unfolding make_room
  make_room-Drops c rows d = elim (Outcome-cases (make_room c rows)) [
    | inl (f, e) ↦ absurd (ground (arith, d.limited, d.policy, e))
    | inr (rows', e) ↦
        e ∙ ap ok (make_room-last c limit rows rows' d.limited (omega (arith, d.two)) e)
  ]

  if-Written :
      (b : Bool) (x y u v : Outcome Table)
      → Written x u
      → Written y v
      → Written (if b then x else y) (if b then u else v)
  if-Written true x y u v p q = p
  if-Written false x y u v p q = q

module _ (hs : Hashes) (json : Option (List ℕ) → Option (List ℕ) → List ℕ) (limit : ℕ) where
  new_row-last :
      (s : AuditState) (t u : Table) (timestamp : List ℕ) (e : AuditEvent)
      → Window limit t u
      → 2 ≤ limit
      → new_row hs json s (last (limit - 1) t.rows) (t.last_id + 1) timestamp e
        ≡ new_row hs json (unlimited s) u.rows (u.last_id + 1) timestamp e
  unfolding new_row
  new_row-last s t u timestamp e w two =
      let rows = ap (last (limit - 1)) w.window ∙ last-last limit u.rows in
      let tail = ap (tail_hash none) rows ∙ tail_hash-last (limit - 1) u.rows (omega arith) in
      rw (tail, w.same_id) refl

  insert_row-Written :
      (s : AuditState) (t u : Table) (m : Moment) (e : AuditEvent)
      → Drops limit s.config
      → Window limit t u
      → Written limit
          (insert_row hs json s t m e (ok (last (limit - 1) t.rows)))
          (insert_row hs json (unlimited s) u m e (ok u.rows))
  unfolding insert_row
  insert_row-Written s t u m e d w =
      let r = new_row hs json (unlimited s) u.rows (u.last_id + 1) m.timestamp e in
      let same = new_row-last s t u m.timestamp e w d.two in
      let rows = ap (last (limit - 1)) w.window ∙ last-last limit u.rows in
      let grown = last-snoc limit u.rows r (omega (arith, d.two)) in
      if-Written limit m.refused_after (err database_failed) _ (err database_failed) _ refl
        (record { window = rw (same, rows) (sym grown); same_id = ap (λ i. i + 1) w.same_id })

  write_event-Written :
      (s : AuditState) (t u : Table) (m : Moment) (e : AuditEvent)
      → Drops limit s.config
      → Window limit t u
      → Written limit (write_event hs json s t m e) (write_event hs json (unlimited s) u m e)
  unfolding write_event
  write_event-Written s t u m e d w =
      if-Written limit s.halted (err admission_halted) _ (err admission_halted) _ refl (
        if-Written limit m.refused_before (err database_failed) _ (err database_failed) _ refl (
          rw (make_room-Drops limit s.config t.rows d, make_room-unlimited limit s u.rows)
            (insert_row-Written s t u m e d w)))

  -- The same result, the same state but for the limit, and the last rows.
  abbrev Beside :
      Outcome (Unit {0}) × AuditState × Table → Outcome (Unit {0}) × AuditState × Table → Type 0
  Beside (d, s, t) (d', s', u) =
      (d ≡ d') × (unlimited s ≡ s') × Window limit t u × Drops limit s.config

  if-Beside :
      (b : Bool) (x y u v : Outcome (Unit {0}) × AuditState × Table)
      → Beside x u
      → Beside y v
      → Beside (if b then x else y) (if b then u else v)
  if-Beside true x y u v p q = p
  if-Beside false x y u v p q = q

  track-unlimited :
      (s : AuditState) (m : Moment) (ty : AuditEventType)
      → ((track s m ty).0 ≡ (track (unlimited s) m ty).0)
        × (unlimited (track s m ty).1 ≡ (track (unlimited s) m ty).1)
        × ((track s m ty).1.config ≡ s.config)
  unfolding track set_halted
  track-unlimited s m ty = (ground arith, ground arith, ground arith)

  after_write-Beside :
      (s : AuditState) (t u : Table) (m : Moment) (e : AuditEvent) (o p : Outcome Table)
      → Drops limit s.config
      → Window limit t u
      → Written limit o p
      → Beside (after_write hs json s t m e o) (after_write hs json (unlimited s) u m e p)
  unfolding after_write
  after_write-Beside s t u m e (ok t') (ok u') d w x =
      let (same, state, config) = track-unlimited s m e.event_type in (same, state, x, rw config d)
  after_write-Beside s t u m e (err f) (err g) d w x = (ap err x, refl, w, d)
  after_write-Beside s t u m e (ok t') (err g) d w x = absurd x
  after_write-Beside s t u m e (err f) (ok u') d w x = absurd x

  -- A failure is not latched: the policy is to remove rows.
  latch-Beside :
      (x y : Outcome (Unit {0}) × AuditState × Table) → Beside x y → Beside (latch x) (latch y)
  unfolding latch
  latch-Beside (ok d, s, t) (ok d', s', u) b = b
  latch-Beside (err f, s, t) (err g, s', u) (same, state, w, d) =
      rw (← state, d.policy) (same, refl, w, d)
  latch-Beside (ok d, s, t) (err g, s', u) b = absurd (ground (arith, b.0))
  latch-Beside (err f, s, t) (ok d', s', u) b = absurd (ground (arith, b.0))

  record_checked-Beside :
      (s : AuditState) (t u : Table) (m : Moment) (e : AuditEvent)
      → Drops limit s.config
      → Window limit t u
      → Beside (record_checked hs json s t m e) (record_checked hs json (unlimited s) u m e)
  unfolding record_checked record_inner
  record_checked-Beside s t u m e d w =
      if-Beside (not s.config.enabled) (ok tt, s, t) _ (ok tt, unlimited s, u) _ (refl, refl, w, d)
        (latch-Beside (record_inner hs json s t m e) (record_inner hs json (unlimited s) u m e) (
          if-Beside s.halted (err admission_halted, s, t) _ (err admission_halted, unlimited s, u) _
            (refl, refl, w, d)
            (after_write-Beside s t u m e (write_event hs json s t m e)
              (write_event hs json (unlimited s) u m e) d w (write_event-Written s t u m e d w))))

  end_issuance-Beside :
      (s : AuditState) (t u : Table) (refused : Bool) (o p : Outcome Table)
      → Drops limit s.config
      → Window limit t u
      → Written limit o p
      → Beside (end_issuance s t refused o) (end_issuance (unlimited s) u refused p)
  unfolding end_issuance commit_issuance
  end_issuance-Beside s t u true (ok t') (ok u') d w x =
      (refl, ground (arith, d.policy), w, ground (arith, d.policy, d))
  end_issuance-Beside s t u false (ok t') (ok u') d w x = (refl, refl, x, d)
  end_issuance-Beside s t u refused (err f) (err g) d w x = (ap err x, refl, w, d)
  end_issuance-Beside s t u refused (ok t') (err g) d w x = absurd x
  end_issuance-Beside s t u refused (err f) (ok u') d w x = absurd x

  then_set-drop :
      (s : AuditState) (o : Outcome Table)
      → is_halt s.config.overflow_policy ≡ false
      → then_set s o ≡ (o, s)
  then_set-drop s (ok t) d = refl
  then_set-drop s (err f) d = ground (arith, d)

  choose-Beside :
      (s : AuditState) (t u : Table) (refused b : Bool) (o p : Outcome Table)
      → Drops limit s.config
      → Window limit t u
      → Written limit o p
      → Beside
          (let (x, s') : Outcome Table × AuditState = if b then (ok t, s) else (o, s) in
            end_issuance s' t refused x)
          (let (x, s') : Outcome Table × AuditState =
              if b then (ok u, unlimited s) else (p, unlimited s) in
            end_issuance s' u refused x)
  choose-Beside s t u refused true o p d w x = end_issuance-Beside s t u refused (ok t) (ok u) d w w
  choose-Beside s t u refused false o p d w x = end_issuance-Beside s t u refused o p d w x

  issue-Beside :
      (s : AuditState) (t u : Table) (m : Moment) (ca_id detail : List ℕ) (refused : Bool)
      → Drops limit s.config
      → Window limit t u
      → Beside
          (issue hs json s t m ca_id detail refused)
          (issue hs json (unlimited s) u m ca_id detail refused)
  unfolding issue record_issuance_in_transaction
  issue-Beside s t u m ca_id detail refused d w =
      let e = record (new cert_issue) { ca_id = some ca_id; detail = some detail } in
      let (o, p) : Outcome Table × Outcome Table =
        (write_event hs json s t m e, write_event hs json (unlimited s) u m e) in
      rw (then_set-drop s o d.policy, then_set-drop (unlimited s) p d.policy)
        (choose-Beside s t u refused (not s.config.enabled) o p d w
          (write_event-Written s t u m e d w))

  step-Beside :
      (s : AuditState) (t u : Table) (op : Op)
      → Drops limit s.config
      → Window limit t u
      → (unlimited (step hs json (s, t) op).0 ≡ (step hs json (unlimited s, u) op).0)
        × Window limit (step hs json (s, t) op).1 (step hs json (unlimited s, u) op).1
        × Drops limit (step hs json (s, t) op).0.config
  unfolding step set_halted
  step-Beside s t u (records m e) d w =
      let (done, state, w', d') = record_checked-Beside s t u m e d w in (state, w', d')
  step-Beside s t u (issues m ca_id detail refused) d w =
      let (done, state, w', d') = issue-Beside s t u m ca_id detail refused d w in (state, w', d')
  step-Beside s t u (sets_halted b) d w = (refl, w, d)

  run-Beside :
      (s s2 : AuditState) (t u : Table) (ops : List Op)
      → unlimited s ≡ s2
      → Drops limit s.config
      → Window limit t u
      → Window limit (run hs json (s, t) ops).1 (run hs json (s2, u) ops).1
  unfolding run
  run-Beside s s2 t u [] e d w = w
  run-Beside s s2 t u (op ∷ ops) e d w =
      let (state, w', d') = step-Beside s t u op d w in
      rw (← e) (
        run-Beside (step hs json (s, t) op).0 (step hs json (unlimited s, u) op).0
          (step hs json (s, t) op).1 (step hs json (unlimited s, u) op).1 ops state d' w')

  -- Where the policy is to remove the oldest rows and the limit is at least two rows: after any
  -- history the table with the limit is the end of the table that the same history leaves without a
  -- limit, of as many rows as the limit says or of all where there are fewer, hashes and ids
  -- included.
  pub run-Window :
      (c : AuditConfig) (key : Option (List ℕ)) (ops : List Op)
      → Drops limit c
      → Window limit
          (run hs json (from_config c key, empty_table) ops).1
          (run hs json (from_config (record c { max_rows = none }) key, empty_table) ops).1
  unfolding from_config
  run-Window c key ops d =
      run-Beside (from_config c key) (from_config (record c { max_rows = none }) key) empty_table
        empty_table ops refl d
        (record { window = sym (drop-all (0 - limit) [] (omega arith)); same_id = refl })
