-- ===== src/Audit/Trail.antt =====
-- `verify_chain` of src/audit/mod.rs, and the hash that links the rows. SHA-256, HMAC and the
-- hexadecimal form are those of libraries, and arguments here.
use kipuka.Common.{
  ℕ, Bool, true, false, not, Option, none, some, List, [], ◌∷◌, ◌++◌, length, same_bytes,
  if◌then◌else◌,
}
use kipuka.Audit.Event.{rs, unwrap_or_empty, AuditRow, canonical}

pub record Hashes : Type 0 where
  pub sha256 : List ℕ → List ℕ
  pub hmac_sha256 : List ℕ → List ℕ → List ℕ
  pub hex : List ℕ → List ℕ

pub data Fault : Type 0 where
  linkage_broken record_hash_mismatch : Fault

pub record ChainVerifyReport : Type 0 where
  pub total : ℕ
  pub ok : Bool
  pub broken_at : Option ℕ
  pub detail : Option Fault

-- Equality of optional texts.
unfoldable pub same_option : Option (List ℕ) → Option (List ℕ) → Bool
same_option none none = true
same_option none (some t) = false
same_option (some s) none = false
same_option (some s) (some t) = same_bytes s t

-- The hash of the last row of a table, after another hash.
unfoldable pub tail_hash : Option (List ℕ) → List AuditRow → Option (List ℕ)
tail_hash h [] = h
tail_hash h (r ∷ rows) = tail_hash r.record_hash rows

module _ (hs : Hashes) (integrity_key : Option (List ℕ)) where
  unfoldable pub chain_hash : Option (List ℕ) → List ℕ → List ℕ
  chain_hash prev canonical = elim integrity_key [
    | some key ↦ hs.hex (hs.hmac_sha256 key (unwrap_or_empty prev ++ (rs ∷ canonical)))
    | none ↦ hs.hex (hs.sha256 (unwrap_or_empty prev ++ (rs ∷ canonical)))
  ]

  -- The loop of `verify_chain`: the first row that breaks the chain.
  unfoldable pub first_broken : Option (List ℕ) → List AuditRow → Option (ℕ × Fault)
  first_broken expected_prev [] = none
  first_broken expected_prev (r ∷ rows) =
      let rest = first_broken r.record_hash rows in
      if not (same_option r.prev_hash expected_prev)
      then some (r.id, linkage_broken)
      else if not (same_option r.record_hash (some (chain_hash r.prev_hash (canonical r))))
      then some (r.id, record_hash_mismatch)
      else rest

  unfoldable pub verify_chain : List AuditRow → ChainVerifyReport
  verify_chain rows = elim (first_broken none rows) [
    | none ↦ record { total = length rows; ok = true; broken_at = none; detail = none }
    | some (id, fault) ↦ record {
      total = length rows;
      ok = false;
      broken_at = some id;
      detail = some fault;
    }
  ]
