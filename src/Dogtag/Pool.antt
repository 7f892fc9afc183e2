-- ===== src/Dogtag/Pool.antt =====
-- `DogtagPool` of crates/kipuka-dogtag/src/pool.rs. A client is a number, and creating one, which may
-- fail, an argument, as is the answer of a backend to a probe. A method takes the entries and gives
-- them back; the index of an entry is its place in the list.
pub mod Pointwise
pub mod Passes
pub mod Fresh
use kipuka.Common.{
  ℕ, zero, suc, ◌+◌, ◌-◌, ◌*◌, ◌%◌, ◌^◌, Bool, true, false, not, ◌&&◌, Option, none, some, List, [],
  ◌∷◌, length, ltb, leb, if◌then◌else◌,
}

pub data BackendHealth : Type 0 where
  healthy unhealthy unknown : BackendHealth

pub record PoolEntry : Type 0 where
  pub client : ℕ
  pub health : BackendHealth
  pub last_healthy : Option ℕ
  pub consecutive_failures : ℕ

pub record DogtagPool : Type 0 where
  pub entries : List PoolEntry
  pub failure_threshold : ℕ
  pub cooldown : ℕ

-- `client_error` stands for the errors of `DogtagClient::new`.
pub data DogtagError : Type 0 where
  config_error client_error no_healthy_backend : DogtagError

pub data DogtagResult (A : Type 0) : Type 0 where
  ok : A → DogtagResult A
  err : DogtagError → DogtagResult A

abbrev pub is_unhealthy : BackendHealth → Bool
is_unhealthy healthy = false
is_unhealthy unhealthy = true
is_unhealthy unknown = false

abbrev is_healthy : BackendHealth → Bool
is_healthy healthy = true
is_healthy unhealthy = false
is_healthy unknown = false

abbrev pub entry_of : ℕ → PoolEntry
entry_of c = record { client = c; health = unknown; last_healthy = none; consecutive_failures = 0 }

module _ {C : Type 0} (connect : C → Option ℕ) where
  unfoldable pub add_entries : List C → DogtagResult (List PoolEntry)
  add_entries [] = ok []
  add_entries (config ∷ configs) = elim (connect config) [
    | none ↦ err client_error
    | some c ↦ elim (add_entries configs) [ ok entries ↦ ok (entry_of c ∷ entries) | err e ↦ err e ]
  ]

  unfoldable pub new : List C → ℕ → ℕ → DogtagResult DogtagPool
  unfolding add_entries
  new [] failure_threshold cooldown_secs = err config_error
  new (config ∷ configs) failure_threshold cooldown_secs = elim (add_entries (config ∷ configs)) [
    | ok entries ↦ ok (record {
      entries = entries;
      failure_threshold = failure_threshold;
      cooldown = cooldown_secs * 10 ^ 9;
    })
    | err e ↦ err e
  ]

unfoldable pub get_client : List PoolEntry → DogtagResult ℕ
get_client [] = err no_healthy_backend
get_client (e ∷ entries) =
    let rest = get_client entries in if not (is_unhealthy e.health) then ok e.client else rest

-- The last time that the entry was healthy is less than the cooldown ago.
abbrev elapsed_less : ℕ → ℕ → Option ℕ → Bool
elapsed_less cooldown now none = false
elapsed_less cooldown now (some last) = ltb (now - last) cooldown

unfoldable pub is_due : ℕ → ℕ → PoolEntry → Bool
is_due cooldown now e = not (is_unhealthy e.health && elapsed_less cooldown now e.last_healthy)

-- The indices of the entries that are to be probed, where the first of the entries has index `i`.
unfoldable pub due_from : ℕ → ℕ → ℕ → List PoolEntry → List ℕ
unfolding is_due
due_from cooldown now i [] = []
due_from cooldown now i (e ∷ entries) =
    let rest = due_from cooldown now (i + 1) entries in
    if is_due cooldown now e then i ∷ rest else rest

-- Whether the backend is healthy, and the time when this is noted.
pub record Probe : Type 0 where
  pub answer : Bool
  pub at : ℕ

abbrev recovered : ℕ → PoolEntry → PoolEntry
recovered now e = record e { health = healthy; last_healthy = some now; consecutive_failures = 0 }

unfoldable pub failed : ℕ → PoolEntry → PoolEntry
failed failure_threshold e =
    let failures = (e.consecutive_failures + 1) % 2 ^ 32 in
    record e {
      health = if leb failure_threshold failures then unhealthy else e.health;
      consecutive_failures = failures;
    }

unfoldable pub probed : ℕ → Probe → PoolEntry → PoolEntry
unfolding failed
probed failure_threshold p e = if p.answer then recovered p.at e else failed failure_threshold e

unfoldable pub update_at : (PoolEntry → PoolEntry) → ℕ → List PoolEntry → List PoolEntry
update_at f i [] = []
update_at f zero (e ∷ entries) = f e ∷ entries
update_at f (suc i) (e ∷ entries) = e ∷ update_at f i entries

-- The second loop of `health_check_all`: one probe after the other.
unfoldable pub probe_all : ℕ → (ℕ → Probe) → List ℕ → List PoolEntry → List PoolEntry
unfolding probed update_at
probe_all failure_threshold probe [] entries = entries
probe_all failure_threshold probe (i ∷ is) entries =
    probe_all failure_threshold probe is (update_at (probed failure_threshold (probe i)) i entries)

unfoldable pub health_check_all : ℕ → (ℕ → Probe) → DogtagPool → DogtagPool
unfolding probe_all due_from
health_check_all now probe pool = record pool {
  entries =
      probe_all pool.failure_threshold probe (due_from pool.cooldown now 0 pool.entries)
        pool.entries;
}

unfoldable pub healthy_count : List PoolEntry → ℕ
healthy_count [] = 0
healthy_count (e ∷ entries) =
    let rest = healthy_count entries in if is_healthy e.health then suc rest else rest

abbrev pub total_count : List PoolEntry → ℕ
total_count = length
