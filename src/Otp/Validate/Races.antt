-- ===== src/Otp/Validate/Races.antt =====
-- Validations that run at once (crates/kipuka-otp/src/validate.rs): each looks its record up, and
-- takes a use later, when the store may have changed.
use kipuka.Common.{
  ℕ, ◌+◌, ◌≤◌, ◌<◌, Bool, true, ◌≡◌, refl, sym, ap, ◌∙◌, some, List, [], ◌∷◌, ltb, ◌==◌, ==_iff,
  if◌then◌else◌, nat_eq, arith, Option-cases, inl, inr, In, In-cons,
}
use kipuka.Common.Dict
use kipuka.Common.Dict.{get-insert, get-retain, Dict}
use kipuka.Otp.Store.{
  OtpRecord, OtpError, ok, err, InMemoryOtpStore, find_by_hash, increment_uses, cleanup_expired,
  revoke,
}
use kipuka.Otp.Store.Lookup.{
  Keyed, find_record-get, insert-Keyed, retain-Keyed, retain-get, get-Keyed,
}
use kipuka.Otp.Validate.{ValidationResult, admit, consume}
use kipuka.Otp.Validate.Outcome.{admit_found}

-- The store, and the records that validations have found and not yet used.
pub record System : Type 0 where
  pub store : InMemoryOtpStore
  pub pending : List OtpRecord

-- A step of the system: a validation finds its record; one that has found its record takes a use,
-- with success or without; a record is revoked; expired records are removed. The index counts the
-- successes for one record.
pub data Step (id : ℕ) : System → System → ℕ → Type 0 where
  finds :
      {t : System} (hash : List ℕ) (now : ℕ) (r : OtpRecord)
      → admit t.store hash now ≡ ok r
      → Step id t (record t { pending = r ∷ t.pending }) 0
  takes :
      {t : System} (r : OtpRecord) (v : ValidationResult)
      → In r t.pending
      → (consume t.store r).0 ≡ ok v
      → Step id t (record t { store = (consume t.store r).1 }) (if r.id == id then 1 else 0)
  fails :
      {t : System} (r : OtpRecord) (e : OtpError)
      → In r t.pending
      → (consume t.store r).0 ≡ err e
      → Step id t (record t { store = (consume t.store r).1 }) 0
  revokes : {t : System} (other : ℕ) → Step id t (record t { store = (revoke t.store other).1 }) 0
  cleans :
      {t : System} (now : ℕ) → Step id t (record t { store = (cleanup_expired t.store now).1 }) 0

-- Steps in their order, with the successes for one record in all.
pub data Run (id : ℕ) : System → System → ℕ → Type 0 where
  rests : {t : System} → Run id t t 0
  goes : {t u v : System} {m n : ℕ} → Step id t u m → Run id u v n → Run id t v (m + n)

add_zero : (n : ℕ) → n + 0 ≡ n
add_zero n = omega arith

add_assoc : (l m n : ℕ) → l + (m + n) ≡ l + m + n
add_assoc l m n = omega arith

module _ (id limit : ℕ) where
  -- The record, where it is there, has the limit, and as many uses as were taken in all.
  record IsSound (t : System) (taken : ℕ) : Type 0 where
    keyed : Keyed t.store.records
    counted :
        (r : OtpRecord)
        → Dict.get t.store.records id ≡ some r
        → (r.max_uses ≡ limit) × (r.current_uses ≡ taken)
    promised : (r : OtpRecord) → In r t.pending → r.id ≡ id → r.max_uses ≡ limit
    within : taken ≤ limit

  finds-IsSound :
      (t : System) (hash : List ℕ) (now : ℕ) (r : OtpRecord) (taken : ℕ)
      → admit t.store hash now ≡ ok r
      → IsSound t taken
      → IsSound (record t { pending = r ∷ t.pending }) taken
  unfolding find_by_hash
  finds-IsSound t hash now r taken e v =
      let f = (admit_found t.store hash now r e).0 in
      let g = find_record-get t.store.records hash r v.keyed f in
      record {
        keyed = v.keyed;
        counted = v.counted;
        promised = λ q m h. elim (In-cons m) [
          | inl same ↦
              let i : r.id ≡ id = ap (λ (o : OtpRecord). o.id) (sym same) ∙ h in
              ap (λ (o : OtpRecord). o.max_uses) same
              ∙ (v.counted r (ap (Dict.get t.store.records) (sym i) ∙ g)).0
          | inr old ↦ v.promised q old h
        ];
        within = v.within;
      }

  -- What a changed record does to the store.
  change-IsSound :
      (t : System) (j : ℕ) (q q' : OtpRecord) (taken n : ℕ)
      → Dict.get t.store.records j ≡ some q
      → q'.id ≡ q.id
      → q'.max_uses ≡ q.max_uses
      → q'.current_uses ≡ q.current_uses + n
      → taken + (if j == id then n else 0) ≤ limit
      → IsSound t taken
      → IsSound
          (record t { store = record { records = Dict.insert t.store.records j q' } })
          (taken + (if j == id then n else 0))
  change-IsSound t j q q' taken n g same_id same_max more bound v = record {
    keyed =
        insert-Keyed t.store.records j q' (same_id ∙ get-Keyed t.store.records j q v.keyed g)
          v.keyed;
    counted = λ r e.
        ground
          (arith, get-insert t.store.records j id q', v.counted q, v.counted r, ==_iff j id, g, e);
    promised = v.promised;
    within = bound;
  }

  -- A use that is taken was left, of the record as the store has it then.
  consume_took :
      (s : InMemoryOtpStore) (r : OtpRecord) (v : ValidationResult)
      → (consume s r).0 ≡ ok v
      → (q : OtpRecord) × (Dict.get s.records r.id ≡ some q)
        × (q.current_uses < r.max_uses)
        × ((consume s r).1 ≡ record {
          records = Dict.insert s.records r.id (record q { current_uses = q.current_uses + 1 });
        })
  unfolding consume increment_uses
  consume_took s r v e = elim (Option-cases (Dict.get s.records r.id)) [
    | inl n ↦ absurd (ground arith)
    | inr (q, g) ↦ (q, g, ground arith, ground arith)
  ]

  consume_failed :
      (s : InMemoryOtpStore) (r : OtpRecord) (e : OtpError)
      → (consume s r).0 ≡ err e
      → (consume s r).1 ≡ s
  unfolding consume increment_uses
  consume_failed s r e h = ground arith

  takes-IsSound :
      (t : System) (r : OtpRecord) (v : ValidationResult) (taken : ℕ)
      → In r t.pending
      → (consume t.store r).0 ≡ ok v
      → IsSound t taken
      → IsSound (record t { store = (consume t.store r).1 }) (taken + (if r.id == id then 1 else 0))
  takes-IsSound t r v taken m e sound =
      let (q, g, left, after) = consume_took t.store r v e in
      let bound : taken + (if r.id == id then 1 else 0) ≤ limit =
        ground (arith, sound.within, sound.promised r m, sound.counted q, ==_iff r.id id) in
      rw after (
        change-IsSound t r.id q (record q { current_uses = q.current_uses + 1 }) taken 1 g refl refl
          refl bound sound)

  revokes-IsSound :
      (t : System) (other taken : ℕ)
      → IsSound t taken
      → IsSound (record t { store = (revoke t.store other).1 }) taken
  unfolding revoke
  revokes-IsSound t other taken v = elim (Option-cases (Dict.get t.store.records other)) [
    | inl n ↦ rw (n, revoke) v
    | inr (q, g) ↦
        let same : taken + (if other == id then 0 else 0) ≡ taken = ground arith in
        let kept =
          change-IsSound t other q (record q { revoked = true }) taken 0 g refl refl (omega arith)
            (omega (arith, same, v.within)) v in
        rw (g, revoke) (rw same at kept)
  ]

  cleans-IsSound :
      (t : System) (now taken : ℕ)
      → IsSound t taken
      → IsSound (record t { store = (cleanup_expired t.store now).1 }) taken
  unfolding cleanup_expired
  cleans-IsSound t now taken v =
      let live : OtpRecord → Bool = λ r. ltb now r.expires_at in
      record {
        keyed = retain-Keyed live t.store.records v.keyed;
        counted = λ r e. v.counted r (retain-get live t.store.records id r v.keyed e);
        promised = v.promised;
        within = v.within;
      }

  Step-IsSound :
      {t u : System} {n : ℕ} (taken : ℕ) → Step id t u n → IsSound t taken → IsSound u (taken + n)
  Step-IsSound {t} taken (finds hash now r e) v =
      rw (add_zero taken) (finds-IsSound t hash now r taken e v)
  Step-IsSound {t} taken (takes r w m e) v = takes-IsSound t r w taken m e v
  Step-IsSound {t} taken (fails r e m h) v = rw (add_zero taken, consume_failed t.store r e h) v
  Step-IsSound {t} taken (revokes other) v = rw (add_zero taken) (revokes-IsSound t other taken v)
  Step-IsSound {t} taken (cleans now) v = rw (add_zero taken) (cleans-IsSound t now taken v)

  Run-IsSound :
      {t u : System} {n : ℕ} (taken : ℕ) → Run id t u n → IsSound t taken → IsSound u (taken + n)
  Run-IsSound taken rests v = rw (add_zero taken) v
  Run-IsSound taken (goes {m = m} {n = n} step run) v =
      rw (add_assoc taken m n) (Run-IsSound (taken + m) run (Step-IsSound taken step v))

-- However the steps of validations, revocations and cleanups interleave, a record is used no more
-- often than its limit: the uses counted at the start and the successes after it are at most
-- `max_uses`, where no validation is under way at the start and the store keeps each record under
-- its own id.
pub uses_bounded :
    (s : InMemoryOtpStore) (r : OtpRecord) {u : System} (n : ℕ)
    → Keyed s.records
    → Dict.get s.records r.id ≡ some r
    → r.current_uses ≤ r.max_uses
    → Run r.id (record { store = s; pending = [] }) u n
    → r.current_uses + n ≤ r.max_uses
uses_bounded s r n k g h run =
    let start : IsSound r.id r.max_uses (record { store = s; pending = [] }) r.current_uses =
      record {
        keyed = k;
        counted = λ q e. ground (arith, e, g);
        promised = λ q m e. elim m [ ];
        within = h;
      } in
    (Run-IsSound r.id r.max_uses r.current_uses run start).within
