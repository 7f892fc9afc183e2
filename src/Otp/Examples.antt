-- ===== src/Otp/Examples.antt =====
-- Runs of the OTP store and validator (crates/kipuka-otp), and their theorems at concrete inputs.
-- The hash is instantiated by a function that tells one token from the others.
use text.Mathlib.Text.{◌==◌ as str_eq}
use kipuka.Common.{
  same_bytes, ℕ, ◌+◌, ◌≤◌, false, ◌≡◌, ◌↔◌, refl, arith, List, [], ◌∷◌, String, if◌then◌else◌, here,
  nat_eq,
}
use kipuka.Common.Dict
use kipuka.Otp.Store.{
  OtpRecord, InMemoryOtpStore, empty, insert, ok, err, not_found, expired, token_revoked, revoke,
  find_by_hash, find_record, increment_uses,
}
use kipuka.Otp.Store.Lookup.{Keyed}
use kipuka.Otp.Validate.{ValidationResult, validate, admit, consume}
use kipuka.Otp.Validate.Outcome.{Usable, result_of, validate_iff}
use kipuka.Otp.Validate.Races.{rests, goes, finds, takes, uses_bounded}

abbrev hash : String → List ℕ
hash s = (if str_eq s "good" then 3 else if str_eq s "spent" then 4 else 5) ∷ []

abbrev twice : OtpRecord
twice = record {
  id = 7;
  token_hash = 3 ∷ [];
  entity_id = "host";
  label = "lab";
  profile = "tls";
  created_at = 0;
  expires_at = 100;
  max_uses = 2;
  current_uses = 0;
  revoked = false;
}

abbrev two_tokens : InMemoryOtpStore
two_tokens = record {
  records =
      (7, twice)
      ∷ (8, record twice { id = 8; token_hash = 4 ∷ []; max_uses = 1; current_uses = 1 })
      ∷ [];
}

abbrev first_use : ValidationResult
first_use = record { entity_id = "host"; profile = "tls"; label = "lab"; remaining_uses = 1 }

two_tokens-Keyed : Keyed two_tokens.records
unfolding Keyed Dict.get
two_tokens-Keyed = (refl, refl, (refl, refl, tt))

insert-two :
    insert
      (insert empty twice)
      (record twice { id = 8; token_hash = 4 ∷ []; max_uses = 1; current_uses = 1 })
    ≡ two_tokens
unfolding insert Dict.insert
insert-two = refl

validate_expired : (validate hash two_tokens "good" 101).0 ≡ err (expired 100)
unfolding validate admit find_by_hash find_record same_bytes
validate_expired = refl

validate_revoked : (validate hash (revoke two_tokens 7).1 "good" 5).0 ≡ err token_revoked
unfolding validate admit revoke find_by_hash Dict.get Dict.insert find_record same_bytes
validate_revoked = refl

validate_unknown : (validate hash two_tokens "other" 5).0 ≡ err not_found
unfolding validate admit find_by_hash find_record same_bytes
validate_unknown = refl

validate_iff_example :
    ((validate hash two_tokens "good" 5).0 ≡ ok first_use)
    ↔ (Usable twice 5 × (first_use ≡ result_of twice))
unfolding find_by_hash find_record same_bytes
validate_iff_example = validate_iff hash two_tokens "good" 5 twice first_use two_tokens-Keyed refl

-- Two validations find the record before either takes a use; both succeed, and a third would not.
uses_bounded_example : 0 + 2 ≤ 2
unfolding admit consume increment_uses find_by_hash Dict.get Dict.insert find_record same_bytes
uses_bounded_example = uses_bounded two_tokens twice 2 two_tokens-Keyed refl (omega arith) (
    goes (finds (3 ∷ []) 5 twice refl) (
      goes (finds (3 ∷ []) 5 twice refl) (
        goes (takes twice first_use (here refl) refl)
          (goes (takes twice first_use (here refl) refl) rests))))
