-- ===== src/Audit/Latch.antt =====
-- A failure under the policy to halt (src/audit/mod.rs, `record_checked`): nothing is written any
-- more until the flag is taken back.
use kipuka.Common.{
  ℕ, Bool, true, ◌≡◌, refl, ap, ◌∙◌, inl, inr, Option, some, List, [], ◌∷◌, arith, Bool-cases,
}
use kipuka.Audit.Event.{cert_issue, AuditEvent, new}
use kipuka.Audit.Trail.{Hashes}
use kipuka.Audit.Record.{
  AuditState, Table, AuditError, admission_halted, Moment, Outcome, ok, err, is_halt, set_halted,
  write_event, latch, record_inner, record_checked, record_issuance_in_transaction, commit_issuance,
}
use kipuka.Audit.History.{
  Op, records, issues, sets_halted, end_issuance, issue, step, run, record_inner-Follows,
}

-- No operation takes the flag back.
abbrev pub NotLifted : List Op → Type 0
NotLifted [] = Unit {0}
NotLifted (records m e ∷ ops) = NotLifted ops
NotLifted (issues m ca_id detail refused ∷ ops) = NotLifted ops
NotLifted (sets_halted b ∷ ops) = (b ≡ true) × NotLifted ops

module _ (hs : Hashes) (json : Option (List ℕ) → Option (List ℕ) → List ℕ) where
  write_event-halted :
      (s : AuditState) (t : Table) (m : Moment) (e : AuditEvent)
      → s.halted ≡ true
      → write_event hs json s t m e ≡ err admission_halted
  unfolding write_event
  write_event-halted s t m e h = ground (arith, h)

  record_checked-halted :
      (s : AuditState) (t : Table) (m : Moment) (e : AuditEvent)
      → s.halted ≡ true
      → ((record_checked hs json s t m e).1.halted ≡ true)
        × ((record_checked hs json s t m e).2 ≡ t)
  unfolding record_checked record_inner latch set_halted
  record_checked-halted s t m e h = (ground (arith, h), ground (arith, h))

  issue-halted :
      (s : AuditState) (t : Table) (m : Moment) (ca_id detail : List ℕ) (refused : Bool)
      → s.halted ≡ true
      → ((issue hs json s t m ca_id detail refused).1.halted ≡ true)
        × ((issue hs json s t m ca_id detail refused).2 ≡ t)
  unfolding issue record_issuance_in_transaction end_issuance commit_issuance set_halted
  issue-halted s t m ca_id detail refused h =
      let e = record (new cert_issue) { ca_id = some ca_id; detail = some detail } in
      let w = write_event-halted s t m e h in (ground (arith, h, w), ground (arith, h, w))

  run-halted :
      (s : AuditState) (t : Table) (ops : List Op)
      → s.halted ≡ true
      → NotLifted ops
      → (run hs json (s, t) ops).1 ≡ t
  unfolding run step set_halted
  run-halted s t [] h n = refl
  run-halted s t (records m e ∷ ops) h n =
      let (h', same) = record_checked-halted s t m e h in
      let (done, s', t') = record_checked hs json s t m e in run-halted s' t' ops h' n ∙ same
  run-halted s t (issues m ca_id detail refused ∷ ops) h n =
      let (h', same) = issue-halted s t m ca_id detail refused h in
      let (done, s', t') = issue hs json s t m ca_id detail refused in
      run-halted s' t' ops h' n ∙ same
  run-halted s t (sets_halted b ∷ ops) h n = run-halted (set_halted s b) t ops n.0 n.1

  latch-err :
      (x : Outcome (Unit {0}) × AuditState × Table) (f : AuditError)
      → (latch x).0 ≡ err f
      → is_halt x.1.config.overflow_policy ≡ true
      → (latch x).1.halted ≡ true
  unfolding latch set_halted
  latch-err (ok d, s, t) f e p = absurd (ground (arith, e))
  latch-err (err g, s, t) f e p = ground (arith, p)

  -- Where the policy is to halt and an event could not be recorded, whatever has failed: no later
  -- event and no later issuance writes anything, as long as the flag is not taken back.
  pub record_checked_closes :
      (s : AuditState) (t : Table) (m : Moment) (e : AuditEvent) (f : AuditError) (ops : List Op)
      → is_halt s.config.overflow_policy ≡ true
      → (record_checked hs json s t m e).0 ≡ err f
      → NotLifted ops
      → (run hs json (step hs json (s, t) (records m e)) ops).1
        ≡ (step hs json (s, t) (records m e)).1
  unfolding step record_checked
  record_checked_closes s t m e f ops p x n =
      let inner = record_inner hs json s t m e in
      let policy : is_halt inner.1.config.overflow_policy ≡ true =
        ap (λ c. is_halt c.overflow_policy) (record_inner-Follows hs json s t m e).same_config
        ∙ p in
      let (done, s', t') = record_checked hs json s t m e in
      elim (Bool-cases s.config.enabled) [
        | inl on ↦
            let h = latch-err inner f (ground (arith, on, x)) policy in
            run-halted s' t' ops (ground (arith, on, h)) n
        | inr off ↦ absurd (ground (arith, off, x))
      ]
