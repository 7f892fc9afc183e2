-- ===== src/Ha/Health/Recovery.antt =====
-- The health of a CA under probes and requests (src/ha/health.rs, src/ha/pool.rs).
use text.Mathlib.Text.{◌==◌ as str_eq}
use kipuka.Common.{
  ℕ, ◌+◌, ◌/◌, ◌%◌, ◌^◌, ◌≡◌, arith, List, [], ◌∷◌, String, string_eq, if◌then◌else◌,
}
use kipuka.Common.Dict
use kipuka.Common.Dict.{get-insert, get-empty}
use kipuka.Ha.Status.{Float, HealthState, u32_mod}
use kipuka.Ha.Pool
use kipuka.Ha.Pool.{
  CaPool, new_status, initial_statuses, with_queue_config, failed, succeeded, update_status,
  is_healthy, should_reprobe,
}
use kipuka.Ha.Pool.Breaker.{changed, get-update_status}
use kipuka.Ha.Health.{
  HealthConfig, HealthChecker, ProbeMetrics, Probe, handle_probe_success, next_state, probe_one,
  health_of,
}

module _ (fl : Float) where
  get-set_health :
      (p : CaPool fl) (id j : String) (state : HealthState)
      → Dict.get (Pool.set_health fl p id state).statuses j ≡ (
          if str_eq id j
          then changed fl (λ s. record s { health = state }) (Dict.get p.statuses j)
          else Dict.get p.statuses j)
  unfolding Pool.set_health
  get-set_health p id j state = get-update_status fl p id j (λ s. record s { health = state })

  pub get-record_success :
      (p : CaPool fl) (id j : String) (latency now : ℕ)
      → Dict.get (Pool.record_success fl p id latency now).statuses j ≡ (
          if str_eq id j
          then changed fl (succeeded fl latency now) (Dict.get p.statuses j)
          else Dict.get p.statuses j)
  unfolding Pool.record_success
  get-record_success p id j latency now = get-update_status fl p id j (succeeded fl latency now)

  pub get-record_failure :
      (p : CaPool fl) (id j : String) (now : ℕ)
      → Dict.get (Pool.record_failure fl p id now).statuses j ≡ (
          if str_eq id j
          then changed fl
              (failed fl p.config.circuit_breaker.failure_threshold now)
              (Dict.get p.statuses j)
          else Dict.get p.statuses j)
  unfolding Pool.record_failure
  get-record_failure p id j now =
      get-update_status fl p id j (failed fl p.config.circuit_breaker.failure_threshold now)

  -- What a probe's success leaves of every status, whatever the checker has decided before.
  pub get-handle_probe_success :
      (c : HealthConfig) (p : CaPool fl) (id j : String) (latency now : ℕ) (m : ProbeMetrics)
      → Dict.get (handle_probe_success fl c p id latency now m).0.statuses j ≡ (
          if str_eq id j
          then changed fl (succeeded fl latency now) (Dict.get p.statuses j)
          else Dict.get p.statuses j)
  unfolding handle_probe_success succeeded
  get-handle_probe_success c p id j latency now m =
      let successes = (m.consecutive_successes + 1) % u32_mod in
      let state =
        (next_state fl c (health_of fl (Dict.get p.statuses id)) successes
          (latency / 1_000_000 % 2 ^ 64)).0 in
      ground (
        arith,
        get-record_success (Pool.set_health fl p id state) id j latency now,
        get-set_health p id j state,
      )

-- What happens to the pool: the results of requests, and probes.
pub data Event : Type 0 where
  request_succeeded : (id : String) (latency now : ℕ) → Event
  request_failed : (id : String) (now : ℕ) → Event
  probed : (id : String) (probe : Probe) → Event

module _ (fl : Float) where
  unfoldable pub step : HealthChecker fl → Event → HealthChecker fl
  step h (request_succeeded id latency now) = record h {
    pool = Pool.record_success fl h.pool id latency now;
  }
  step h (request_failed id now) = record h { pool = Pool.record_failure fl h.pool id now }
  step h (probed id probe) = probe_one fl h id probe

  unfoldable pub run : HealthChecker fl → List Event → HealthChecker fl
  unfolding step
  run h [] = h
  run h (e ∷ es) = run (step h e) es
