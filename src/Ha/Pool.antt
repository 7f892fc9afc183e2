-- ===== src/Ha/Pool.antt =====
-- src/ha/pool.rs: the CA pool, its routing and its circuit breaker. The `RwLock` on the statuses is
-- held for the whole of a call, so a call is one step; the clock's reading is an argument.
pub mod Routing
pub mod Breaker
use kipuka.Common.{
  ℕ, ◌+◌, ◌-◌, ◌%◌, Bool, true, false, ◌&&◌, Option, none, some, List, [], ◌∷◌, String, leb,
  if◌then◌else◌, string_eq, Eq, retain,
}
use kipuka.Common.Dict
use kipuka.Common.Dict.{Dict}
use kipuka.Ha.Status.{
  HealthState, healthy, degraded, unavailable, recovering, is_available, is_unavailable, Float,
  CaStatus, CaConnection, PoolConfig, QueueConfig, QueuedRequest, u32_mod,
}
use kipuka.Ha.Strategy
use kipuka.Ha.Strategy.{StrategySelector, Candidate}

pub record CaPool (fl : Float) : Type 0 where
  pub connections : List CaConnection
  pub statuses : Dict String (CaStatus fl.F)
  pub config : PoolConfig
  pub selector : StrategySelector
  pub retry_queue : List QueuedRequest
  pub queue_config : QueueConfig

-- `HealthState` comparisons of the code are with `Unavailable` and `Healthy`.
unfoldable pub is_healthy : HealthState → Bool
is_healthy healthy = true
is_healthy degraded = false
is_healthy unavailable = false
is_healthy recovering = false

unfoldable pub contains : List String → String → Bool
contains [] id = false
contains (x ∷ xs) id = let rest = contains xs id in if string_eq.beq x id then true else rest

module _ (fl : Float) where
  unfoldable pub new_status : CaStatus fl.F
  new_status = record {
    health = healthy;
    consecutive_failures = 0;
    last_success = none;
    circuit_open_since = none;
    latency_ema_ms = fl.zero_ms;
    last_latency = none;
  }

  unfoldable pub initial_statuses :
      Dict String (CaStatus fl.F) → List CaConnection → Dict String (CaStatus fl.F)
  unfolding new_status
  initial_statuses d [] = d
  initial_statuses d (c ∷ cs) = initial_statuses (Dict.insert d c.id new_status) cs

  unfoldable pub with_queue_config : List CaConnection → PoolConfig → QueueConfig → CaPool fl
  unfolding initial_statuses
  with_queue_config connections config queue_config = record {
    connections = connections;
    statuses = initial_statuses [] connections;
    config = config;
    selector = Strategy.selector config.strategy;
    retry_queue = [];
    queue_config = queue_config;
  }

  unfoldable pub status_available : Option (CaStatus fl.F) → Bool
  unfolding is_available
  status_available none = false
  status_available (some s) = is_available s.health

  unfoldable pub routable : CaPool fl → List String → CaConnection → Bool
  routable p allowed c = contains allowed c.id && status_available (Dict.get p.statuses c.id)

  -- The candidates with their statuses; a connection without a status is passed over.
  unfoldable pub snapshot : CaPool fl → List CaConnection → List (Candidate fl.F)
  snapshot p [] = []
  snapshot p (c ∷ cs) =
      let rest = snapshot p cs in
      elim (Dict.get p.statuses c.id) [ some s ↦ (c, s) ∷ rest | none ↦ rest ]

  unfoldable pub select_allowed : CaPool fl → List String → Option CaConnection × CaPool fl
  unfolding snapshot
  select_allowed p allowed = elim (retain (routable p allowed) p.connections) [
    | [] ↦ (none, p)
    | c ∷ cs ↦
        let (chosen, selector) = Strategy.select fl p.selector (snapshot p (c ∷ cs)) in
        (chosen, record p { selector = selector })
  ]

  unfoldable pub ids : List CaConnection → List String
  ids [] = []
  ids (c ∷ cs) = c.id ∷ ids cs

  unfoldable pub select : CaPool fl → Option CaConnection × CaPool fl
  unfolding ids
  select p = select_allowed p (ids p.connections)

  -- `get_mut(id)` and a change of what is there.
  unfoldable pub update_status : CaPool fl → String → (CaStatus fl.F → CaStatus fl.F) → CaPool fl
  update_status p id change = elim (Dict.get p.statuses id) [
    | none ↦ p
    | some s ↦ record p { statuses = Dict.insert p.statuses id (change s) }
  ]

  unfoldable pub succeeded : ℕ → ℕ → CaStatus fl.F → CaStatus fl.F
  succeeded latency now s =
      let ms = fl.mul (fl.as_secs_f64 latency) fl.thousand in
      record s {
        health = healthy;
        consecutive_failures = 0;
        last_success = some now;
        circuit_open_since = none;
        latency_ema_ms =
            fl.add (fl.mul s.latency_ema_ms fl.seven_tenths) (fl.mul ms fl.three_tenths);
        last_latency = some latency;
      }

  unfoldable pub record_success : CaPool fl → String → ℕ → ℕ → CaPool fl
  record_success p id latency now = update_status p id (succeeded latency now)

  -- The `u32` count wraps.
  unfoldable pub failed : ℕ → ℕ → CaStatus fl.F → CaStatus fl.F
  unfolding is_unavailable is_healthy
  failed failure_threshold now s =
      let failures = (s.consecutive_failures + 1) % u32_mod in
      let counted : CaStatus fl.F = record s { consecutive_failures = failures } in
      if leb failure_threshold failures
      then (if is_unavailable s.health
          then counted
          else record counted { health = unavailable; circuit_open_since = some now })
      else if is_healthy s.health
      then record counted { health = degraded }
      else counted

  unfoldable pub record_failure : CaPool fl → String → ℕ → CaPool fl
  record_failure p id now =
      update_status p id (failed p.config.circuit_breaker.failure_threshold now)

  unfoldable pub should_reprobe : CaPool fl → String → ℕ → Bool
  should_reprobe p id now = elim (Dict.get p.statuses id) [
    | none ↦ false
    | some s ↦ elim s.circuit_open_since [
      | none ↦ false
      | some opened ↦ leb p.config.circuit_breaker.cooldown (now - opened)
    ]
  ]

  unfoldable pub set_health : CaPool fl → String → HealthState → CaPool fl
  set_health p id state = update_status p id (λ s. record s { health = state })
