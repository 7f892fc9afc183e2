-- ===== src/Dogtag/Pool/Passes.antt =====
-- Passes of health checks in which no backend answers (crates/kipuka-dogtag/src/pool.rs).
use kipuka.Common.{
  ℕ, suc, ◌+◌, ◌%◌, ◌^◌, ◌≤◌, ◌<◌, true, false, ◌≡◌, ◌⊎◌, inl, inr, refl, ap, ◌∙◌, List, [], ◌∷◌,
  length, leb, arith, Bool-cases,
}
use kipuka.Dogtag.Pool.{
  PoolEntry, DogtagPool, err, no_healthy_backend, is_unhealthy, get_client, Probe, is_due, failed,
  probed, health_check_all,
}
use kipuka.Dogtag.Pool.Pointwise.{checked, check_each, health_check_all-check_each}

-- One pass: its time, and the answers to the probes.
pub record Pass : Type 0 where
  pub now : ℕ
  pub probe : ℕ → Probe

unfoldable pub run : List Pass → DogtagPool → DogtagPool
run [] pool = pool
run (p ∷ passes) pool = run passes (health_check_all p.now p.probe pool)

-- No backend answers.
abbrev pub Silent : List Pass → Type 0
Silent [] = Unit {0}
Silent (p ∷ passes) = ((i : ℕ) → (p.probe i).answer ≡ false) × Silent passes

-- The counters of failures do not wrap for another `n` of them.
abbrev pub Few : ℕ → List PoolEntry → Type 0
Few n [] = Unit {0}
Few n (e ∷ entries) = (e.consecutive_failures + n < 2 ^ 32) × Few n entries

-- After `k` failures, with `n` to come, before the threshold is reached.
abbrev Failing : ℕ → ℕ → ℕ → PoolEntry → Type 0
Failing failure_threshold k n e =
    (is_unhealthy e.health ≡ true)
    ⊎ ((k ≤ e.consecutive_failures)
        × ((e.consecutive_failures + n < 2 ^ 32) × (k < failure_threshold)))

abbrev AllFailing : ℕ → ℕ → ℕ → List PoolEntry → Type 0
AllFailing failure_threshold k n [] = Unit {0}
AllFailing failure_threshold k n (e ∷ entries) =
    Failing failure_threshold k n e × AllFailing failure_threshold k n entries

Few-AllFailing :
    (failure_threshold n : ℕ) (entries : List PoolEntry)
    → 0 < failure_threshold
    → Few n entries
    → AllFailing failure_threshold 0 n entries
Few-AllFailing failure_threshold n [] t f = tt
Few-AllFailing failure_threshold n (e ∷ entries) t f =
    (inr (omega arith, (f.0, t)), Few-AllFailing failure_threshold n entries t f.1)

failed_unhealthy :
    (failure_threshold : ℕ) (e : PoolEntry)
    → is_unhealthy e.health ≡ true
    → is_unhealthy (failed failure_threshold e).health ≡ true
unfolding failed
failed_unhealthy failure_threshold e u =
    elim (Bool-cases (leb failure_threshold ((e.consecutive_failures + 1) % 2 ^ 32))) [
      | inl reached ↦ rw reached refl
      | inr below ↦ rw below u
    ]

small_mod : (m : ℕ) → m < 2 ^ 32 → m % 2 ^ 32 ≡ m
small_mod m b = omega (arith, b)

failed-Failing :
    (failure_threshold k n : ℕ) (e : PoolEntry)
    → Failing failure_threshold k (suc n) e
    → Failing failure_threshold (suc k) n (failed failure_threshold e)
unfolding failed
failed-Failing failure_threshold k n e (inl u) = inl (failed_unhealthy failure_threshold e u)
failed-Failing failure_threshold k n e (inr f) =
    let same = small_mod (e.consecutive_failures + 1) (omega (arith, f.1.0)) in
    elim (Bool-cases (leb failure_threshold ((e.consecutive_failures + 1) % 2 ^ 32))) [
      | inl reached ↦ inl (rw reached refl)
      | inr below ↦ inr (
        ground (arith, same, f.0),
        (ground (arith, same, f.1.0), ground (arith, same, below, f.0)),
      )
    ]

checked-Failing :
    (failure_threshold cooldown now k n : ℕ) (p : Probe) (e : PoolEntry)
    → p.answer ≡ false
    → Failing failure_threshold k (suc n) e
    → Failing failure_threshold (suc k) n (checked failure_threshold cooldown now p e)
unfolding checked probed is_due
checked-Failing failure_threshold cooldown now k n p e silent f =
    elim (Bool-cases (is_due cooldown now e)) [
      | inl due ↦ rw (due, silent) (failed-Failing failure_threshold k n e f)
      | inr not_due ↦ rw not_due (inl (ground (arith, not_due)))
    ]

check_each-AllFailing :
    (failure_threshold cooldown now k n i : ℕ) (probe : ℕ → Probe) (entries : List PoolEntry)
    → ((j : ℕ) → (probe j).answer ≡ false)
    → AllFailing failure_threshold k (suc n) entries
    → AllFailing failure_threshold
        (suc k)
        n
        (check_each failure_threshold cooldown now probe i entries)
unfolding check_each
check_each-AllFailing failure_threshold cooldown now k n i probe [] silent f = tt
check_each-AllFailing failure_threshold cooldown now k n i probe (e ∷ entries) silent f = (
  checked-Failing failure_threshold cooldown now k n (probe i) e (silent i) f.0,
  check_each-AllFailing failure_threshold cooldown now k n (i + 1) probe entries silent f.1,
)

-- Where the threshold is reached, no client is given out.
get_client-AllFailing :
    (failure_threshold k : ℕ) (entries : List PoolEntry)
    → failure_threshold ≤ k
    → AllFailing failure_threshold k 0 entries
    → get_client entries ≡ err no_healthy_backend
unfolding get_client
get_client-AllFailing failure_threshold k [] t f = refl
get_client-AllFailing failure_threshold k (e ∷ entries) t (inl u, f) =
    rw u (get_client-AllFailing failure_threshold k entries t f)
get_client-AllFailing failure_threshold k (e ∷ entries) t (inr g, f) =
    absurd (omega (arith, g.1.1, t))

run-AllFailing :
    (passes : List Pass) (pool : DogtagPool) (k : ℕ)
    → Silent passes
    → pool.failure_threshold ≤ length passes + k
    → AllFailing pool.failure_threshold k (length passes) pool.entries
    → get_client (run passes pool).entries ≡ err no_healthy_backend
unfolding run
run-AllFailing [] pool k s t f =
    get_client-AllFailing pool.failure_threshold k pool.entries (omega (arith, t)) f
run-AllFailing (p ∷ passes) pool k s t f =
    let after = check_each pool.failure_threshold pool.cooldown p.now p.probe 0 pool.entries in
    let later =
      check_each-AllFailing pool.failure_threshold pool.cooldown p.now k (length passes) 0 p.probe
        pool.entries s.0 f in
    ap (λ q. get_client (run passes q).entries) (health_check_all-check_each p.now p.probe pool)
    ∙ run-AllFailing passes (record pool { entries = after }) (suc k) s.1 (omega (arith, t)) later

-- After as many passes without an answer as the threshold says, or more, no client is given out,
-- whatever the cooldown and the times: the threshold is positive, and the counters do not wrap.
pub get_client-run :
    (passes : List Pass) (pool : DogtagPool)
    → 0 < pool.failure_threshold
    → pool.failure_threshold ≤ length passes
    → Silent passes
    → Few (length passes) pool.entries
    → get_client (run passes pool).entries ≡ err no_healthy_backend
get_client-run passes pool positive t s f =
    run-AllFailing passes pool 0 s (omega (arith, t))
      (Few-AllFailing pool.failure_threshold (length passes) pool.entries positive f)
