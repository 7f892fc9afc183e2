-- ===== src/Ha/Status.antt =====
-- The data of src/ha/pool.rs and `HealthState` of src/ha/health.rs. Times are in nanoseconds. A
-- `CaId` is its text.
use Prim.Native.Nat.{Ordering}
use kipuka.Common.{ℕ, ◌^◌, Bool, true, false, Option, String, List}

pub data HealthState : Type 0 where
  healthy degraded unavailable recovering : HealthState

unfoldable pub is_available : HealthState → Bool
is_available healthy = true
is_available degraded = true
is_available recovering = true
is_available unavailable = false

unfoldable pub is_unavailable : HealthState → Bool
is_unavailable unavailable = true
is_unavailable healthy = false
is_unavailable degraded = false
is_unavailable recovering = false

abbrev pub u32_mod : ℕ
u32_mod = 2 ^ 32

-- `f64` with the operations and literals that the latency average uses.
pub record Float : Type 1 where
  pub F : Type 0
  pub zero_ms : F
  pub seven_tenths : F
  pub three_tenths : F
  pub thousand : F
  pub as_secs_f64 : ℕ → F
  pub add : F → F → F
  pub mul : F → F → F
  pub partial_cmp : F → F → Option Ordering

pub record CaStatus (F : Type 0) : Type 0 where
  pub health : HealthState
  pub consecutive_failures : ℕ
  pub last_success : Option ℕ
  pub circuit_open_since : Option ℕ
  pub latency_ema_ms : F
  pub last_latency : Option ℕ

pub record CaConnection : Type 0 where
  pub id : String
  pub endpoint : String
  pub weight : ℕ
  pub priority : ℕ

pub record CircuitBreakerConfig : Type 0 where
  pub failure_threshold : ℕ
  pub cooldown : ℕ

pub data FailoverStrategy : Type 0 where
  active_passive round_robin weighted latency_based : FailoverStrategy

pub data FallbackBehavior : Type 0 where
  reject queue_and_retry : FallbackBehavior

pub record PoolConfig : Type 0 where
  pub strategy : FailoverStrategy
  pub fallback : FallbackBehavior
  pub circuit_breaker : CircuitBreakerConfig

pub record QueueConfig : Type 0 where
  pub max_queue_size : ℕ
  pub queue_ttl_secs : ℕ
  pub max_csr_size : ℕ

pub record QueuedRequest : Type 0 where
  pub csr_der : List ℕ
  pub queued_at : ℕ
