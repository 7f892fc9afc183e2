-- ===== src/Otp/Validate.antt =====
-- crates/kipuka-otp/src/validate.rs over the in-memory store. The SHA-256 of a token is the argument
-- `hash_token`, and the clock's reading an argument of each call.
pub mod Outcome
pub mod Races
use kipuka.Common.{
  ℕ, ◌+◌, ◌-◌, Bool, true, false, Option, none, some, List, [], ◌∷◌, String, ltb, if◌then◌else◌,
}
use kipuka.Otp.Store.{
  OtpRecord, OtpResult, ok, err, not_found, token_revoked, expired, InMemoryOtpStore, find_by_hash,
  increment_uses,
}

pub record ValidationResult : Type 0 where
  pub entity_id : String
  pub profile : String
  pub label : String
  pub remaining_uses : ℕ

-- The part of `validate` before its second `await`: the lookup and the checks of the record found.
unfoldable pub admit : InMemoryOtpStore → List ℕ → ℕ → OtpResult OtpRecord
admit s token_hash now = elim (find_by_hash s token_hash) [
  | none ↦ err not_found
  | some r ↦
      if r.revoked
      then err token_revoked
      else if ltb r.expires_at now
      then err (expired r.expires_at)
      else ok r
]

-- The rest of it, for the record that was found then: one use is taken from the store as it is now.
unfoldable pub consume :
    InMemoryOtpStore → OtpRecord → OtpResult ValidationResult × InMemoryOtpStore
consume s r =
    let (taken, s') = increment_uses s r.id r.max_uses in
    let new_uses = r.current_uses + 1 in
    let result : ValidationResult = record {
      entity_id = r.entity_id;
      profile = r.profile;
      label = r.label;
      remaining_uses = r.max_uses - new_uses;
    } in
    elim taken [ ok done ↦ (ok result, s') | err e ↦ (err e, s') ]

module _ (hash_token : String → List ℕ) where
  unfoldable pub validate :
      InMemoryOtpStore → String → ℕ → OtpResult ValidationResult × InMemoryOtpStore
  unfolding admit consume
  validate s plaintext_token now = elim (admit s (hash_token plaintext_token) now) [
    | ok r ↦ consume s r
    | err e ↦ (err e, s)
  ]
