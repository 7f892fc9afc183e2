-- ===== src/Ha/Health/Cooldown.antt =====
-- An open circuit keeps a CA out of service until its cooldown has elapsed (src/ha/health.rs).
use text.Mathlib.Text.{◌==◌ as str_eq}
use text.Mathlib.TextEquality.{eq_iff}
use kipuka.Common.{
  ℕ, ◌-◌, ◌<◌, false, ◌≡◌, ◌∙◌, arith, some, List, [], ◌∷◌, String, string_eq, Bool-cases, inl, inr,
}
use kipuka.Common.Dict
use kipuka.Ha.Status.{Float, HealthState, unavailable, CaStatus, is_unavailable}
use kipuka.Ha.Pool
use kipuka.Ha.Pool.{CaPool, failed, succeeded, should_reprobe}
use kipuka.Ha.Pool.Breaker.{config-update_status}
use kipuka.Ha.Health.{
  HealthChecker, Probe, handle_probe_success, handle_probe_failure, probe_ca, probe_one,
}
use kipuka.Ha.Health.Recovery.{get-handle_probe_success, get-record_failure}

-- The circuit of a CA was opened at a time and is still open.
abbrev pub OpenSince : (fl : Float) → String → ℕ → CaPool fl → Type 0
OpenSince fl id opened p =
    (s : CaStatus fl.F) × (Dict.get p.statuses id ≡ some s)
    × (s.health ≡ unavailable)
    × (s.circuit_open_since ≡ some opened)

module _ (fl : Float) where
  pub config-record_success :
      (p : CaPool fl) (id : String) (latency now : ℕ)
      → (Pool.record_success fl p id latency now).config ≡ p.config
  unfolding Pool.record_success
  config-record_success p id latency now = config-update_status fl p id _

  pub config-record_failure :
      (p : CaPool fl) (id : String) (now : ℕ) → (Pool.record_failure fl p id now).config ≡ p.config
  unfolding Pool.record_failure
  config-record_failure p id now = config-update_status fl p id _

  config-set_health :
      (p : CaPool fl) (id : String) (state : HealthState)
      → (Pool.set_health fl p id state).config ≡ p.config
  unfolding Pool.set_health
  config-set_health p id state = config-update_status fl p id _

  pub config-probe_one :
      (h : HealthChecker fl) (j : String) (probe : Probe)
      → (probe_one fl h j probe).pool.config ≡ h.pool.config
  unfolding probe_one handle_probe_success handle_probe_failure
  config-probe_one h j probe = elim (Bool-cases (probe_ca fl h.pool j probe)) [
    | inl good ↦ rw good (config-record_success _ j _ _ ∙ config-set_health h.pool j _)
    | inr bad ↦ rw bad (config-record_failure h.pool j _)
  ]

  -- Probes in their order, each of some CA.
  unfoldable pub probe_all : HealthChecker fl → List (String × Probe) → HealthChecker fl
  probe_all h [] = h
  probe_all h ((j, probe) ∷ probes) = probe_all (probe_one fl h j probe) probes

-- Every probe begins before the cooldown has elapsed.
abbrev pub Early : ℕ → ℕ → List (String × Probe) → Type 0
Early opened cooldown [] = Unit {0}
Early opened cooldown ((j, probe) ∷ probes) =
    (probe.begun - opened < cooldown) × Early opened cooldown probes

module _ (fl : Float) (id : String) (opened : ℕ) where
  probe_ca_blocked :
      (p : CaPool fl) (probe : Probe)
      → OpenSince fl id opened p
      → probe.begun - opened < p.config.circuit_breaker.cooldown
      → probe_ca fl p id probe ≡ false
  unfolding probe_ca should_reprobe is_unavailable
  probe_ca_blocked p probe (s, e, h, c) early = ground arith

  failed_stays :
      (threshold now : ℕ) (s : CaStatus fl.F)
      → s.health ≡ unavailable
      → s.circuit_open_since ≡ some opened
      → ((failed fl threshold now s).health ≡ unavailable)
        × ((failed fl threshold now s).circuit_open_since ≡ some opened)
  unfolding failed
  failed_stays threshold now s h c = ground arith

  pub record_failure_stays :
      (p : CaPool fl) (j : String) (now : ℕ)
      → OpenSince fl id opened p
      → OpenSince fl id opened (Pool.record_failure fl p j now)
  record_failure_stays p j now (s, e, h, c) =
      let threshold = p.config.circuit_breaker.failure_threshold in
      let eq = get-record_failure fl p j id now in
      let (h', c') = failed_stays threshold now s h c in
      elim (Bool-cases (str_eq j id)) [
        | inl here ↦ (failed fl threshold now s, ground (arith, eq, here, e), h', c')
        | inr other ↦ (s, ground (arith, eq, other, e), h, c)
      ]

  pub probe_one_stays :
      (h : HealthChecker fl) (j : String) (probe : Probe)
      → OpenSince fl id opened h.pool
      → probe.begun - opened < h.pool.config.circuit_breaker.cooldown
      → OpenSince fl id opened (probe_one fl h j probe).pool
  unfolding probe_one handle_probe_failure
  probe_one_stays h j probe o early = elim (Bool-cases (probe_ca fl h.pool j probe)) [
    | inl good ↦ elim (Bool-cases (str_eq j id)) [
      | inl here ↦
          let same : j ≡ id = (eq_iff j id).0 here in
          absurd (ground (arith, probe_ca_blocked h.pool probe o early, same, good))
      | inr other ↦
          let (s, e, d, c) = o in
          rw good (
            s,
            get-handle_probe_success fl h.config h.pool j id probe.elapsed probe.handled _
                ∙ ground (arith, other, e),
            d,
            c,
          )
    ]
    | inr bad ↦ rw bad (record_failure_stays h.pool j probe.handled o)
  ]

  -- A CA whose circuit is open stays unavailable, with the same opening time, through any sequence
  -- of probes of any CAs that begin before its cooldown has elapsed, whatever they answer.
  pub probe_all_stays :
      (h : HealthChecker fl) (probes : List (String × Probe)) (cooldown : ℕ)
      → h.pool.config.circuit_breaker.cooldown ≡ cooldown
      → OpenSince fl id opened h.pool
      → Early opened cooldown probes
      → OpenSince fl id opened (probe_all fl h probes).pool
  unfolding probe_all
  probe_all_stays h [] cooldown c o early = o
  probe_all_stays h ((j, probe) ∷ probes) cooldown c o early =
      probe_all_stays (probe_one fl h j probe) probes cooldown
        (ground (arith, config-probe_one fl h j probe)) (probe_one_stays h j probe o (omega arith))
        early.1
