-- ===== src/Ha/Health/Reprobe.antt =====
-- When a CA may be probed again after its circuit has opened (src/ha/health.rs, src/ha/pool.rs).
use text.Mathlib.TextEquality.{eq_iff}
use kipuka.Common.{
  ℕ, ◌+◌, ◌-◌, ◌%◌, ◌≤◌, ◌<◌, leb, false, ◌≡◌, ◌≢◌, refl, arith, some, List, [], ◌∷◌, String,
  string_eq,
}
use kipuka.Common.Dict
use kipuka.Ha.Status.{
  Float, HealthState, healthy, degraded, recovering, unavailable, CaStatus, is_unavailable, u32_mod,
}
use kipuka.Ha.Pool
use kipuka.Ha.Pool.{CaPool, failed, succeeded, should_reprobe}
use kipuka.Ha.Health.{HealthChecker}
use kipuka.Ha.Health.Recovery.{
  Event, request_succeeded, request_failed, probed, step, run, get-record_failure,
  get-record_success,
}
use kipuka.Ha.Health.Cooldown.{
  OpenSince, record_failure_stays, probe_one_stays, config-record_success, config-record_failure,
  config-probe_one,
}

-- Nothing succeeds for the CA: no request does, and its probes begin before the cooldown has elapsed,
-- as do those of others.
abbrev pub Quiet : String → ℕ → ℕ → List Event → Type 0
Quiet id opened cooldown [] = Unit {0}
Quiet id opened cooldown (request_succeeded j latency now ∷ es) =
    (j ≢ id) × Quiet id opened cooldown es
Quiet id opened cooldown (request_failed j now ∷ es) = Quiet id opened cooldown es
Quiet id opened cooldown (probed j probe ∷ es) =
    (probe.begun - opened < cooldown) × Quiet id opened cooldown es

not_down : (x : HealthState) → x ≢ unavailable → is_unavailable x ≡ false
unfolding is_unavailable
not_down healthy up = refl
not_down degraded up = refl
not_down unavailable up = absurd (up refl)
not_down recovering up = refl

module _ (fl : Float) where
  trips :
      (threshold now : ℕ) (s : CaStatus fl.F)
      → s.health ≢ unavailable
      → threshold ≤ s.consecutive_failures + 1
      → s.consecutive_failures + 1 < u32_mod
      → ((failed fl threshold now s).health ≡ unavailable)
        × ((failed fl threshold now s).circuit_open_since ≡ some now)
  unfolding failed is_unavailable
  trips threshold now s up reached small =
      let whole : (s.consecutive_failures + 1) % u32_mod ≡ s.consecutive_failures + 1 =
        omega (arith, small) in
      ground (arith, not_down s.health up, whole, reached)

  config-step : (h : HealthChecker fl) (e : Event) → (step fl h e).pool.config ≡ h.pool.config
  unfolding step
  config-step h (request_succeeded j latency now) = config-record_success fl h.pool j latency now
  config-step h (request_failed j now) = config-record_failure fl h.pool j now
  config-step h (probed j probe) = config-probe_one fl h j probe

  record_success_stays :
      (p : CaPool fl) (id j : String) (opened latency now : ℕ)
      → j ≢ id
      → OpenSince fl id opened p
      → OpenSince fl id opened (Pool.record_success fl p j latency now)
  record_success_stays p id j opened latency now other (s, e, h, c) =
      (s, ground (arith, get-record_success fl p j id latency now, eq_iff j id, other, e), h, c)

  run_stays :
      (h : HealthChecker fl) (id : String) (opened cooldown : ℕ) (es : List Event)
      → h.pool.config.circuit_breaker.cooldown ≡ cooldown
      → OpenSince fl id opened h.pool
      → Quiet id opened cooldown es
      → OpenSince fl id opened (run fl h es).pool
        × ((run fl h es).pool.config.circuit_breaker.cooldown ≡ cooldown)
  unfolding run step
  run_stays h id opened cooldown [] c o q = (o, c)
  run_stays h id opened cooldown (request_succeeded j latency now ∷ es) c o q =
      run_stays (step fl h (request_succeeded j latency now)) id opened cooldown es
        (ground (arith, c, config-step h (request_succeeded j latency now)))
        (record_success_stays h.pool id j opened latency now q.0 o) q.1
  run_stays h id opened cooldown (request_failed j now ∷ es) c o q =
      run_stays (step fl h (request_failed j now)) id opened cooldown es
        (ground (arith, c, config-step h (request_failed j now)))
        (record_failure_stays fl id opened h.pool j now o) q
  run_stays h id opened cooldown (probed j probe ∷ es) c o q =
      run_stays (step fl h (probed j probe)) id opened cooldown es
        (ground (arith, c, config-step h (probed j probe)))
        (probe_one_stays fl id opened h j probe o (omega (arith, c, q.0))) q.1

  should_reprobe-OpenSince :
      (p : CaPool fl) (id : String) (opened cooldown now : ℕ)
      → p.config.circuit_breaker.cooldown ≡ cooldown
      → OpenSince fl id opened p
      → should_reprobe fl p id now ≡ leb cooldown (now - opened)
  unfolding should_reprobe
  should_reprobe-OpenSince p id opened cooldown now c (s, e, h, o) = ground (arith, c, e, o)

  -- Where a request fails on a CA that is not yet unavailable, and its failures in a row thereby
  -- reach the threshold, the CA is unavailable from then on and may be probed again exactly when
  -- the cooldown has elapsed since that failure: whatever requests fail and probes run meanwhile,
  -- as long as no request succeeds on it and the probes begin before the cooldown has elapsed.
  pub should_reprobe-run :
      (h : HealthChecker fl) (id : String) (s : CaStatus fl.F) (opened cooldown now : ℕ)
      (es : List Event)
      → h.pool.config.circuit_breaker.cooldown ≡ cooldown
      → Dict.get h.pool.statuses id ≡ some s
      → s.health ≢ unavailable
      → h.pool.config.circuit_breaker.failure_threshold ≤ s.consecutive_failures + 1
      → s.consecutive_failures + 1 < u32_mod
      → Quiet id opened cooldown es
      → OpenSince fl id opened (run fl h (request_failed id opened ∷ es)).pool
        × (should_reprobe fl (run fl h (request_failed id opened ∷ es)).pool id now
            ≡ leb cooldown (now - opened))
  unfolding run step
  should_reprobe-run h id s opened cooldown now es c e up reached small q =
      let threshold = h.pool.config.circuit_breaker.failure_threshold in
      let (down, since) = trips threshold opened s up reached small in
      let o : OpenSince fl id opened (Pool.record_failure fl h.pool id opened) = (
        failed fl threshold opened s,
        ground (arith, get-record_failure fl h.pool id id opened, eq_iff id id, e),
        down,
        since,
      ) in
      let (o', c') =
        run_stays (step fl h (request_failed id opened)) id opened cooldown es
          (ground (arith, c, config-step h (request_failed id opened))) o q in
      (o', should_reprobe-OpenSince _ id opened cooldown now c' o')
