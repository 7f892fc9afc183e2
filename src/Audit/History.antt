-- ===== src/Audit/History.antt =====
-- Histories of the audit trail (src/audit/mod.rs): events that are recorded, issuances that end in a
-- commit, and the flag that stops all writing, set from outside.
use kipuka.Common.{
  ℕ, Bool, true, false, not, ◌≡◌, refl, sym, ◌⊎◌, inl, inr, Option, some, List, [], ◌∷◌, arith,
  if◌then◌else◌, Bool-cases,
}
use kipuka.Audit.Event.{cert_issue, AuditEvent, new}
use kipuka.Audit.Trail.{Hashes}
use kipuka.Audit.Record.{
  AuditConfig, AuditState, Table, Moment, Outcome, ok, err, AuditError, set_halted, write_event,
  track, then_set, after_write, record_inner, latch, record_checked, record_issuance_in_transaction,
  commit_issuance,
}

pub data Op : Type 0 where
  records : Moment → AuditEvent → Op
  issues : Moment → List ℕ → List ℕ → Bool → Op
  sets_halted : Bool → Op

pub Outcome-cases :
    {A : Type 0} (o : Outcome A) → ((f : AuditError) × (o ≡ err f)) ⊎ ((a : A) × (o ≡ ok a))
Outcome-cases (ok a) = inr (a, refl)
Outcome-cases (err f) = inl (f, refl)

-- The end of the transaction of an issuance. `refused` is that of its commit.
unfoldable pub end_issuance :
    AuditState → Table → Bool → Outcome Table → Outcome (Unit {0}) × AuditState × Table
end_issuance s t refused (ok t') = commit_issuance s t t' refused
end_issuance s t refused (err fault) = (err fault, s, t)

module _ (hs : Hashes) (json : Option (List ℕ) → Option (List ℕ) → List ℕ) where
  unfoldable pub issue :
      AuditState → Table → Moment → List ℕ → List ℕ → Bool → Outcome (Unit {0}) × AuditState × Table
  issue s t m ca_id detail refused =
      let (done, s') = record_issuance_in_transaction hs json s t m ca_id detail in
      end_issuance s' t refused done

  unfoldable pub step : AuditState × Table → Op → AuditState × Table
  step (s, t) (records m e) = let (done, s', t') = record_checked hs json s t m e in (s', t')
  step (s, t) (issues m ca_id detail refused) =
      let (done, s', t') = issue s t m ca_id detail refused in (s', t')
  step (s, t) (sets_halted b) = (set_halted s b, t)

  unfoldable pub run : AuditState × Table → List Op → AuditState × Table
  run st [] = st
  run st (op ∷ ops) = run (step st op) ops

  -- What one operation leaves: the key and the limits of before, and the table of before or the one
  -- that `write_event` makes of it.
  pub record Follows (s : AuditState) (t : Table) (s' : AuditState) (t' : Table) : Type 0 where
    pub same_config : s'.config ≡ s.config
    pub same_key : s'.integrity_key ≡ s.integrity_key
    pub written :
        (t' ≡ t) ⊎ ((m : Moment) × (e : AuditEvent) × (write_event hs json s t m e ≡ ok t'))

  -- The state and the table of a result.
  abbrev Left : AuditState → Table → Outcome (Unit {0}) × AuditState × Table → Type 0
  Left s t (done, s', t') = Follows s t s' t'

  track-Follows :
      (s : AuditState) (t t' : Table) (m : Moment) (e : AuditEvent)
      → write_event hs json s t m e ≡ ok t'
      → Follows s t (track s m e.event_type).1 t'
  unfolding track set_halted
  track-Follows s t t' m e w = record {
    same_config = ground arith;
    same_key = ground arith;
    written = inr (m, e, w);
  }

  pub record_inner-Follows :
      (s : AuditState) (t : Table) (m : Moment) (e : AuditEvent)
      → Left s t (record_inner hs json s t m e)
  unfolding record_inner after_write
  record_inner-Follows s t m e = elim (Outcome-cases (write_event hs json s t m e)) [
    | inl (f, w) ↦ record {
      same_config = ground arith;
      same_key = ground arith;
      written = ground arith;
    }
    | inr (t', w) ↦
        let f = track-Follows s t t' m e w in
        elim (Bool-cases s.halted) [
          | inl h ↦ record {
            same_config = ground arith;
            same_key = ground arith;
            written = inl (ground arith);
          }
          | inr h ↦ record {
            same_config = ground (arith, w, f.same_config);
            same_key = ground (arith, w, f.same_key);
            written = inr (m, e, ground (arith, w));
          }
        ]
  ]

  latch-Left :
      (s : AuditState) (t : Table) (r : Outcome (Unit {0}) × AuditState × Table)
      → Left s t r
      → Left s t (latch r)
  unfolding latch set_halted
  latch-Left s t (ok done, s', t') l = l
  latch-Left s t (err f, s', t') l = record {
    same_config = ground (arith, l.same_config);
    same_key = ground (arith, l.same_key);
    written = l.written;
  }

  if-Left :
      (s : AuditState) (t : Table) (b : Bool) (x y : Outcome (Unit {0}) × AuditState × Table)
      → Left s t x
      → Left s t y
      → Left s t (if b then x else y)
  if-Left s t true x y lx ly = lx
  if-Left s t false x y lx ly = ly

  record_checked-Follows :
      (s : AuditState) (t : Table) (m : Moment) (e : AuditEvent)
      → Left s t (record_checked hs json s t m e)
  unfolding record_checked
  record_checked-Follows s t m e =
      if-Left s t (not s.config.enabled) (ok tt, s, t) (latch (record_inner hs json s t m e))
        (record { same_config = refl; same_key = refl; written = inl refl })
        (latch-Left s t (record_inner hs json s t m e) (record_inner-Follows s t m e))

  commit_issuance-Left :
      (s s' : AuditState) (t t' : Table) (refused : Bool)
      → Follows s t s' t'
      → Left s t (commit_issuance s' t t' refused)
  unfolding commit_issuance set_halted
  commit_issuance-Left s s' t t' true f = record {
    same_config = ground (arith, f.same_config);
    same_key = ground (arith, f.same_key);
    written = inl refl;
  }
  commit_issuance-Left s s' t t' false f = f

  end_issuance-Left :
      (s s' : AuditState) (t : Table) (refused : Bool) (o : Outcome Table)
      → s'.config ≡ s.config
      → s'.integrity_key ≡ s.integrity_key
      → ((t' : Table)
          → o ≡ ok t'
          → (t' ≡ t) ⊎ ((m : Moment) × (e : AuditEvent) × (write_event hs json s t m e ≡ ok t')))
      → Left s t (end_issuance s' t refused o)
  unfolding end_issuance
  end_issuance-Left s s' t refused (ok t') c k w =
      commit_issuance-Left s s' t t' refused
        (record { same_config = c; same_key = k; written = w t' refl })
  end_issuance-Left s s' t refused (err f) c k w = record {
    same_config = c;
    same_key = k;
    written = inl refl;
  }

  then_set-config :
      (s : AuditState) (o : Outcome Table)
      → ((then_set s o).1.config ≡ s.config)
        × ((then_set s o).1.integrity_key ≡ s.integrity_key)
        × ((then_set s o).0 ≡ o)
  unfolding set_halted
  then_set-config s (ok t) = (refl, refl, refl)
  then_set-config s (err f) = ground arith

  issue-Follows :
      (s : AuditState) (t : Table) (m : Moment) (ca_id detail : List ℕ) (refused : Bool)
      → Left s t (issue s t m ca_id detail refused)
  unfolding issue record_issuance_in_transaction
  issue-Follows s t m ca_id detail refused =
      let e = record (new cert_issue) { ca_id = some ca_id; detail = some detail } in
      let r = record_issuance_in_transaction hs json s t m ca_id detail in
      let (c, k, same) = then_set-config s (write_event hs json s t m e) in
      end_issuance-Left s r.1 t refused r.0 (ground (arith, c)) (ground (arith, k)) (λ t' h.
        elim (Bool-cases s.config.enabled) [
          | inl on ↦ inr (m, e, ground (arith, same, h))
          | inr off ↦ inl (ground (arith, h))
        ])

  pub step-Follows :
      (s : AuditState) (t : Table) (op : Op) → Follows s t (step (s, t) op).0 (step (s, t) op).1
  unfolding step set_halted
  step-Follows s t (records m e) = record_checked-Follows s t m e
  step-Follows s t (issues m ca_id detail refused) = issue-Follows s t m ca_id detail refused
  step-Follows s t (sets_halted b) = record {
    same_config = refl;
    same_key = refl;
    written = inl refl;
  }

  module _ (P : Option (List ℕ) → AuditConfig → Table → Type 0) where
    along :
        (k k' : Option (List ℕ)) (c c' : AuditConfig) (t t' : Table)
        → k ≡ k'
        → c ≡ c'
        → t ≡ t'
        → P k c t
        → P k' c' t'
    along k k' c c' t t' ek ec et p = rw (← ek, ← ec, ← et) p

    -- What every write keeps, a history keeps.
    pub run_keeps :
        (kept : (s : AuditState) (t t' : Table) (m : Moment) (e : AuditEvent)
          → write_event hs json s t m e ≡ ok t'
          → P s.integrity_key s.config t
          → P s.integrity_key s.config t')
        (s : AuditState) (t : Table) (ops : List Op)
        → P s.integrity_key s.config t
        → P s.integrity_key s.config (run (s, t) ops).1
    unfolding run
    run_keeps kept s t [] p = p
    run_keeps kept s t (op ∷ ops) p =
        let (s', t') = step (s, t) op in
        let f = step-Follows s t op in
        let (k, c) : Option (List ℕ) × AuditConfig = (s.integrity_key, s.config) in
        let after : P k c t' = elim f.written [
          | inl e ↦ along k k c c t t' refl refl (sym e) p
          | inr (m, e, w) ↦ kept s t t' m e w p
        ] in
        let later = run_keeps kept s' t' ops (
          along k s'.integrity_key c s'.config t' t' (sym f.same_key) (sym f.same_config) refl
            after) in
        along s'.integrity_key k s'.config c (run (s', t') ops).1 (run (s', t') ops).1 f.same_key
          f.same_config refl later
