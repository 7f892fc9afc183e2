-- ===== src/Otp/Validate/Outcome.antt =====
-- What one validation answers (crates/kipuka-otp/src/validate.rs).
use kipuka.Common.{
  ℕ, ◌+◌, ◌-◌, ◌≤◌, ◌<◌, Bool, false, ◌≡◌, ◌≢◌, ◌↔◌, none, some, List, String, ltb, ◌==◌,
  if◌then◌else◌, nat_eq, arith, Option-cases, inl, inr,
}
use kipuka.Common.Dict
use kipuka.Common.Dict.{get-insert}
use kipuka.Otp.Store.{
  OtpRecord, ok, InMemoryOtpStore, find_by_hash, increment_uses, cleanup_expired,
}
use kipuka.Otp.Store.Lookup.{Keyed, retain-Keyed, find_record-get, find_record-retain}
use kipuka.Otp.Validate.{ValidationResult, admit, consume, validate}

-- The record may be used at a time: it is not revoked, it has not expired, and a use is left.
abbrev pub Usable : OtpRecord → ℕ → Type 0
Usable r now = (r.revoked ≡ false) × (now ≤ r.expires_at) × (r.current_uses < r.max_uses)

-- What a validation of the record answers.
abbrev pub result_of : OtpRecord → ValidationResult
result_of r = record {
  entity_id = r.entity_id;
  profile = r.profile;
  label = r.label;
  remaining_uses = r.max_uses - (r.current_uses + 1);
}

pub admit_found :
    (s : InMemoryOtpStore) (hash : List ℕ) (now : ℕ) (r : OtpRecord)
    → admit s hash now ≡ ok r
    → (find_by_hash s hash ≡ some r) × (r.revoked ≡ false) × (now ≤ r.expires_at)
unfolding admit
admit_found s hash now r e = ground arith

pub found_admit :
    (s : InMemoryOtpStore) (hash : List ℕ) (now : ℕ) (r : OtpRecord)
    → find_by_hash s hash ≡ some r
    → r.revoked ≡ false
    → now ≤ r.expires_at
    → admit s hash now ≡ ok r
unfolding admit
found_admit s hash now r f v h = ground arith

module _ (hash_token : String → List ℕ) where
  -- In a store that keeps each record under its own id, the validation of a token whose record is
  -- found succeeds exactly when the record is not revoked, has not expired and has a use left; it
  -- then answers with the record's entity, profile and label and the uses left after this one.
  pub validate_iff :
      (s : InMemoryOtpStore) (token : String) (now : ℕ) (r : OtpRecord) (v : ValidationResult)
      → Keyed s.records
      → find_by_hash s (hash_token token) ≡ some r
      → ((validate hash_token s token now).0 ≡ ok v) ↔ (Usable r now × (v ≡ result_of r))
  unfolding validate admit consume increment_uses find_by_hash
  validate_iff s token now r v k f =
      let g = find_record-get s.records (hash_token token) r k f in ground arith

  -- In a store that keeps each record under its own id, a validation that succeeds adds one use to
  -- the record found and leaves every other record as it was.
  pub validate_takes_one :
      (s : InMemoryOtpStore) (token : String) (now : ℕ) (r : OtpRecord) (v : ValidationResult)
      (id : ℕ)
      → Keyed s.records
      → find_by_hash s (hash_token token) ≡ some r
      → (validate hash_token s token now).0 ≡ ok v
      → Dict.get (validate hash_token s token now).1.records id ≡ (
          if r.id == id
          then some (record r { current_uses = r.current_uses + 1 })
          else Dict.get s.records id)
  unfolding validate admit consume increment_uses find_by_hash
  validate_takes_one s token now r v id k f e =
      let g = find_record-get s.records (hash_token token) r k f in
      let i = get-insert s.records r.id id (record r { current_uses = r.current_uses + 1 }) in
      ground arith

  validate_missing :
      (s : InMemoryOtpStore) (token : String) (now : ℕ) (v : ValidationResult)
      → find_by_hash s (hash_token token) ≡ none
      → (validate hash_token s token now).0 ≢ ok v
  unfolding validate admit
  validate_missing s token now v n e = ground arith

  -- A cleanup takes no token from its holder: in a store that keeps each record under its own id, a
  -- validation that would succeed later than the time of the cleanup succeeds after it alike.
  pub validate-cleanup_expired :
      (s : InMemoryOtpStore) (token : String) (cleaned now : ℕ) (v : ValidationResult)
      → Keyed s.records
      → cleaned < now
      → (validate hash_token s token now).0 ≡ ok v
      → (validate hash_token (cleanup_expired s cleaned).1 token now).0 ≡ ok v
  unfolding cleanup_expired find_by_hash
  validate-cleanup_expired s token cleaned now v k later e =
      let live : OtpRecord → Bool = λ r. ltb cleaned r.expires_at in
      let hash = hash_token token in
      elim (Option-cases (find_by_hash s hash)) [
        | inl n ↦ absurd (validate_missing s token now v n e)
        | inr (r, f) ↦
            let (u, q) = (validate_iff s token now r v k f).0 e in
            let f' = find_record-retain live s.records hash r f (ground (arith, u.1)) in
            let s' : InMemoryOtpStore = record s { records = Dict.retain live s.records } in
            (validate_iff s' token now r v (retain-Keyed live s.records k) f').1 (u, q)
      ]
