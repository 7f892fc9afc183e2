-- ===== src/Ha/Pool/Breaker.antt =====
-- The circuit breaker of src/ha/pool.rs.
use text.Mathlib.Text.{◌==◌ as str_eq}
use text.Mathlib.TextEquality.{eq_iff}
use kipuka.Common.{
  ℕ, ◌+◌, ◌<◌, ◌≡◌, refl, sym, ap, ◌∙◌, arith, Option, none, some, List, [], ◌∷◌, String, string_eq,
  leb, ◌==◌, if◌then◌else◌, length, Option-cases, inl, inr,
}
use kipuka.Common.Dict
use kipuka.Common.Dict.{get-insert}
use kipuka.Ha.Status.{Float, HealthState, healthy, degraded, unavailable, CaStatus, u32_mod}
use kipuka.Ha.Pool.{CaPool, update_status, failed, record_failure}

-- The health that goes with a number of failures since the last success.
unfoldable pub health_after : ℕ → ℕ → HealthState
health_after threshold k =
    if k == 0 then healthy else if leb threshold k then unavailable else degraded

module _ (fl : Float) where
  -- What a change of one status does to every status.
  abbrev pub changed :
      (CaStatus fl.F → CaStatus fl.F) → Option (CaStatus fl.F) → Option (CaStatus fl.F)
  changed f none = none
  changed f (some s) = some (f s)

  pub get-update_status :
      (p : CaPool fl) (id j : String) (f : CaStatus fl.F → CaStatus fl.F)
      → Dict.get (update_status fl p id f).statuses j
        ≡ (if str_eq id j then changed f (Dict.get p.statuses j) else Dict.get p.statuses j)
  unfolding update_status
  get-update_status p id j f = elim (Option-cases (Dict.get p.statuses id)) [
    | inl e ↦ rw (e, update_status) (ground (arith, e, eq_iff id j))
    | inr (s, e) ↦
        rw (e, update_status) (ground (arith, e, eq_iff id j, get-insert p.statuses id j (f s)))
  ]

  pub config-update_status :
      (p : CaPool fl) (id : String) (f : CaStatus fl.F → CaStatus fl.F)
      → (update_status fl p id f).config ≡ p.config
  unfolding update_status
  config-update_status p id f = ground arith

  -- Failures of one CA in a row, at the given times.
  unfoldable pub fail_all : CaPool fl → String → List ℕ → CaPool fl
  fail_all p id [] = p
  fail_all p id (now ∷ times) = fail_all (record_failure fl p id now) id times

  failed-health_after :
      (threshold now : ℕ) (s : CaStatus fl.F)
      → s.consecutive_failures + 1 < u32_mod
      → s.health ≡ health_after threshold s.consecutive_failures
      → ((failed fl threshold now s).consecutive_failures ≡ s.consecutive_failures + 1)
        × ((failed fl threshold now s).health ≡ health_after threshold (s.consecutive_failures + 1))
  unfolding failed health_after
  failed-health_after threshold now s small e = ground arith

  fail_all-from :
      (p : CaPool fl) (id : String) (times : List ℕ) (s : CaStatus fl.F) (threshold : ℕ)
      → p.config.circuit_breaker.failure_threshold ≡ threshold
      → Dict.get p.statuses id ≡ some s
      → s.consecutive_failures + length times < u32_mod
      → s.health ≡ health_after threshold s.consecutive_failures
      → (t : CaStatus fl.F) × (Dict.get (fail_all p id times).statuses id ≡ some t)
        × (t.consecutive_failures ≡ s.consecutive_failures + length times)
        × (t.health ≡ health_after threshold (s.consecutive_failures + length times))
  unfolding fail_all record_failure
  fail_all-from p id [] s threshold c e small h =
      (s, e, omega arith, h ∙ ap (health_after threshold) (omega arith))
  fail_all-from p id (now ∷ times) s threshold c e small h =
      let q = record_failure fl p id now in
      let s' = failed fl threshold now s in
      let (count, health) = failed-health_after threshold now s (omega arith) h in
      let (t, g, k, l) =
        fail_all-from q id times s' threshold
          (ground (
            arith,
            config-update_status p id (failed fl p.config.circuit_breaker.failure_threshold now),
          ))
          (get-update_status p id id (failed fl p.config.circuit_breaker.failure_threshold now)
            ∙ ground (arith, eq_iff id id))
          (omega (arith, count)) (health ∙ ap (health_after threshold) (sym count)) in
      (t, g, omega (arith, count, k), l ∙ ap (health_after threshold) (omega (arith, count)))

-- A healthy CA without failures is degraded by the first failure and unavailable from the
-- `failure_threshold`-th in a row on (at once if that is the first), and each failure is counted,
-- for fewer than 2^32 of them.
pub fail_all_trips :
    (fl : Float) (p : CaPool fl) (id : String) (times : List ℕ) (s : CaStatus fl.F)
    → Dict.get p.statuses id ≡ some s
    → s.health ≡ healthy
    → s.consecutive_failures ≡ 0
    → length times < u32_mod
    → (t : CaStatus fl.F) × (Dict.get (fail_all fl p id times).statuses id ≡ some t)
      × (t.consecutive_failures ≡ length times)
      × (t.health ≡ health_after p.config.circuit_breaker.failure_threshold (length times))
unfolding health_after
fail_all_trips fl p id times s e h z small =
    let threshold = p.config.circuit_breaker.failure_threshold in
    let (t, g, c, k) =
      fail_all-from fl p id times s threshold refl e (omega arith) (ground arith) in
    (t, g, omega arith, k ∙ ap (health_after threshold) (omega arith))
