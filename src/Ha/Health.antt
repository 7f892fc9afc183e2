-- ===== src/Ha/Health.antt =====
-- src/ha/health.rs: the health checker. A probe's network exchange is not modelled: its outcome,
-- its duration and the clock's readings are the argument `Probe`.
pub mod Recovery
pub mod Cooldown
pub mod Reprobe
use kipuka.Common.{
  ℕ, ◌+◌, ◌/◌, ◌%◌, ◌^◌, Bool, true, false, not, ◌&&◌, Option, none, some, List, [], ◌∷◌, String,
  ltb, leb, if◌then◌else◌, string_eq,
}
use kipuka.Common.Dict
use kipuka.Common.Dict.{Dict}
use kipuka.Ha.Status.{
  HealthState, healthy, degraded, unavailable, recovering, is_unavailable, Float, CaStatus,
  CaConnection, u32_mod,
}
use kipuka.Ha.Pool
use kipuka.Ha.Pool.{CaPool}

pub record HealthConfig : Type 0 where
  pub probe_interval : ℕ
  pub probe_timeout : ℕ
  pub recovery_threshold : ℕ
  pub degraded_latency_ms : ℕ

pub record ProbeMetrics : Type 0 where
  pub last_check : Option ℕ
  pub consecutive_failures : ℕ
  pub consecutive_successes : ℕ
  pub last_latency : Option ℕ

unfoldable pub new_metrics : ProbeMetrics
new_metrics = record {
  last_check = none;
  consecutive_failures = 0;
  consecutive_successes = 0;
  last_latency = none;
}

pub record HealthChecker (fl : Float) : Type 0 where
  pub pool : CaPool fl
  pub config : HealthConfig
  pub metrics : Dict String ProbeMetrics

-- What the network and the clock give to one probe: whether the endpoint answers as it must, the
-- time when the probe begins, how long it takes, and the time when its result is handled.
pub record Probe : Type 0 where
  pub answers : Bool
  pub begun : ℕ
  pub elapsed : ℕ
  pub handled : ℕ

module _ (fl : Float) where
  unfoldable pub known : List CaConnection → String → Bool
  known [] id = false
  known (c ∷ cs) id = let rest = known cs id in if string_eq.beq c.id id then true else rest

  abbrev pub health_of : Option (CaStatus fl.F) → HealthState
  health_of none = healthy
  health_of (some s) = s.health

  abbrev open_circuit : Option (CaStatus fl.F) → Bool
  open_circuit none = false
  open_circuit (some s) = is_unavailable s.health

  -- Whether the probe succeeds: an open circuit is not probed before its cooldown has elapsed.
  unfoldable pub probe_ca : CaPool fl → String → Probe → Bool
  unfolding known is_unavailable
  probe_ca p id probe =
      if open_circuit (Dict.get p.statuses id) && not (Pool.should_reprobe fl p id probe.begun)
      then false
      else known p.connections id && probe.answers

  -- The state that a success leads to, and the count of successes that goes with it.
  unfoldable pub next_state : HealthConfig → HealthState → ℕ → ℕ → HealthState × ℕ
  next_state c unavailable successes latency_ms = (recovering, 1)
  next_state c recovering successes latency_ms =
      (if leb c.recovery_threshold successes then healthy else recovering, successes)
  next_state c degraded successes latency_ms =
      (if ltb c.degraded_latency_ms latency_ms then degraded else healthy, successes)
  next_state c healthy successes latency_ms =
      (if ltb c.degraded_latency_ms latency_ms then degraded else healthy, successes)

  unfoldable pub handle_probe_success :
      HealthConfig → CaPool fl → String → ℕ → ℕ → ProbeMetrics → CaPool fl × ProbeMetrics
  unfolding next_state
  handle_probe_success c p id latency now m =
      let successes = (m.consecutive_successes + 1) % u32_mod in
      let current = health_of (Dict.get p.statuses id) in
      let (state, successes') = next_state c current successes (latency / 1_000_000 % 2 ^ 64) in
      (
        Pool.record_success fl (Pool.set_health fl p id state) id latency now,
        record m { consecutive_failures = 0; consecutive_successes = successes' },
      )

  unfoldable pub handle_probe_failure :
      CaPool fl → String → ℕ → ProbeMetrics → CaPool fl × ProbeMetrics
  handle_probe_failure p id now m = (
    Pool.record_failure fl p id now,
    record m {
      consecutive_failures = (m.consecutive_failures + 1) % u32_mod;
      consecutive_successes = 0;
    },
  )

  abbrev metrics_or_new : Option ProbeMetrics → ProbeMetrics
  metrics_or_new none = new_metrics
  metrics_or_new (some m) = m

  -- One round of the loop over the connections.
  unfoldable pub probe_one : HealthChecker fl → String → Probe → HealthChecker fl
  unfolding new_metrics
  probe_one h id probe =
      let before = metrics_or_new (Dict.get h.metrics id) in
      let m = record before {
        last_check = some probe.handled;
        last_latency = some probe.elapsed;
      } in
      let (pool, m') =
        if probe_ca h.pool id probe
        then handle_probe_success h.config h.pool id probe.elapsed probe.handled m
        else handle_probe_failure h.pool id probe.handled m in
      record h { pool = pool; metrics = Dict.insert h.metrics id m' }

  unfoldable pub run_probes_over :
      HealthChecker fl → List CaConnection → (String → Probe) → HealthChecker fl
  unfolding probe_one
  run_probes_over h [] probes = h
  run_probes_over h (c ∷ cs) probes = run_probes_over (probe_one h c.id (probes c.id)) cs probes

  unfoldable pub run_probes : HealthChecker fl → (String → Probe) → HealthChecker fl
  unfolding run_probes_over
  run_probes h probes = run_probes_over h h.pool.connections probes
