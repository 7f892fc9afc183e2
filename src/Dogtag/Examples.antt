-- ===== src/Dogtag/Examples.antt =====
-- Pools of Dogtag backends (crates/kipuka-dogtag/src/pool.rs), and the theorems on them at concrete
-- inputs.
use kipuka.Common.{ℕ, false, ◌≡◌, refl, Option, none, some, [], ◌∷◌, ◌==◌, if◌then◌else◌, arith}
use kipuka.Dogtag.Pool.{
  DogtagPool, ok, err, client_error, no_healthy_backend, entry_of, add_entries, new, get_client,
  is_due, due_from, failed, probed, update_at, probe_all, Probe, health_check_all, healthy_count,
}
use kipuka.Dogtag.Pool.Pointwise.{EachAfter, health_check_all-EachAfter}
use kipuka.Dogtag.Pool.Passes.{Pass, run, get_client-run}

abbrev connect : ℕ → Option ℕ
connect config = if config == 9 then none else some config

abbrev two : DogtagPool
two = record { entries = entry_of 1 ∷ entry_of 2 ∷ []; failure_threshold = 2; cooldown = 60 }

one_fails : new connect (1 ∷ 9 ∷ []) 2 0 ≡ err client_error
unfolding new add_entries
one_fails = refl

abbrev only_second : ℕ → Probe
only_second i = record { answer = i == 1; at = 100 }

abbrev mute : ℕ → Probe
mute i = record { answer = false; at = 100 }

abbrev pass : (ℕ → Probe) → Pass
pass probe = record { now = 100; probe = probe }

-- The first client is passed over once it has failed twice.
second_is_given : get_client (run (pass only_second ∷ pass only_second ∷ []) two).entries ≡ ok 2
unfolding get_client run health_check_all probe_all due_from is_due update_at probed failed
second_is_given = refl

second_counts : healthy_count (health_check_all 100 only_second two).entries ≡ 1
unfolding healthy_count health_check_all probe_all due_from is_due update_at probed failed
second_counts = refl

health_check_all-EachAfter_example :
    EachAfter 2 60 100 only_second 0
      (entry_of 1 ∷ entry_of 2 ∷ [])
      (health_check_all 100 only_second two).entries
health_check_all-EachAfter_example = health_check_all-EachAfter 100 only_second two

get_client-run_example :
    get_client (run (pass mute ∷ pass mute ∷ []) two).entries ≡ err no_healthy_backend
get_client-run_example =
    get_client-run (pass mute ∷ pass mute ∷ []) two (omega arith) (omega arith)
      (λ i. refl, (λ i. refl, tt)) (omega arith, (omega arith, tt))
