-- ===== src/Otp/Store.antt =====
-- crates/kipuka-otp/src/store.rs, the in-memory store, and the errors of src/lib.rs. The map is an
-- association list, whose order stands for the order in which `values()` visits the records. An id
-- is the number of 128 bits that a `Uuid` is, and a time a number of nanoseconds.
pub mod Lookup
use kipuka.Common.{
  same_bytes, ℕ, ◌+◌, ◌-◌, Bool, true, false, ◌&&◌, Option, none, some, List, [], ◌∷◌, String,
  length, ltb, leb, ◌==◌, if◌then◌else◌, nat_eq,
}
use kipuka.Common.Dict
use kipuka.Common.Dict.{Dict}

pub record OtpRecord : Type 0 where
  pub id : ℕ
  pub token_hash : List ℕ
  pub entity_id : String
  pub label : String
  pub profile : String
  pub created_at : ℕ
  pub expires_at : ℕ
  pub max_uses : ℕ
  pub current_uses : ℕ
  pub revoked : Bool

-- The errors that the store and the validator raise.
pub data OtpError : Type 0 where
  not_found token_revoked : OtpError
  expired : (expired_at : ℕ) → OtpError
  usage_limit_exceeded : (max_uses : ℕ) → OtpError

pub data OtpResult (A : Type 0) : Type 0 where
  ok : A → OtpResult A
  err : OtpError → OtpResult A

pub record InMemoryOtpStore : Type 0 where
  pub records : Dict ℕ OtpRecord

abbrev pub empty : InMemoryOtpStore
empty = record { records = [] }

unfoldable pub insert : InMemoryOtpStore → OtpRecord → InMemoryOtpStore
insert s r = record s { records = Dict.insert s.records r.id r }

unfoldable pub find_record : Dict ℕ OtpRecord → List ℕ → Option OtpRecord
find_record [] hash = none
find_record ((id, r) ∷ records) hash =
    if same_bytes r.token_hash hash then some r else find_record records hash

unfoldable pub find_by_hash : InMemoryOtpStore → List ℕ → Option OtpRecord
find_by_hash s hash = find_record s.records hash

unfoldable pub increment_uses : InMemoryOtpStore → ℕ → ℕ → OtpResult (Unit {0}) × InMemoryOtpStore
increment_uses s id max_uses = elim (Dict.get s.records id) [
  | none ↦ (err not_found, s)
  | some r ↦ if leb max_uses r.current_uses then (err (usage_limit_exceeded max_uses), s) else (
    ok tt,
    record s {
      records = Dict.insert s.records id (record r { current_uses = r.current_uses + 1 });
    },
  )
]

unfoldable pub revoke : InMemoryOtpStore → ℕ → OtpResult (Unit {0}) × InMemoryOtpStore
revoke s id = elim (Dict.get s.records id) [
  | none ↦ (err not_found, s)
  | some r ↦ (ok tt, record s { records = Dict.insert s.records id (record r { revoked = true }) })
]

-- The number of records removed, and the store without them.
unfoldable pub cleanup_expired : InMemoryOtpStore → ℕ → ℕ × InMemoryOtpStore
cleanup_expired s now =
    let left = Dict.retain (λ (r : OtpRecord). ltb now r.expires_at) s.records in
    (length s.records - length left, record s { records = left })
