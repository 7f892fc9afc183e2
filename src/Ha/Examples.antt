-- ===== src/Ha/Examples.antt =====
-- Runs of the pool (src/ha), and its theorems at concrete inputs. `f64` is instantiated by natural
-- numbers.
use Prim.Native.Nat.{compare}
use kipuka.Common.{
  ℕ, ◌+◌, ◌-◌, leb, ◌*◌, true, ◌≡◌, refl, arith, none, some, List, [], ◌∷◌, ◌++◌, string_eq, length,
  retain,
}
use kipuka.Common.Dict
use kipuka.Ha.Status.{
  Float, healthy, degraded, unavailable, CaStatus, CaConnection, PoolConfig, QueueConfig,
  active_passive, weighted, queue_and_retry,
}
use kipuka.Ha.Strategy
use kipuka.Ha.Strategy.{StrategySelector, Candidate, connection_of}
use kipuka.Ha.Pool
use kipuka.Ha.Pool.{
  CaPool, with_queue_config, new_status, routable, select_allowed, record_failure, should_reprobe,
}
use kipuka.Ha.Pool.Routing.{Routed, select_allowed-Routed}
use kipuka.Ha.Pool.Breaker.{fail_all, health_after, fail_all_trips}
use kipuka.Ha.Queue.{is_live, enqueue_request, drain_queue}
use kipuka.Ha.Queue.Order.{request, drain_queue-enqueue_request}
use kipuka.Ha.Health.{HealthChecker, Probe}
use kipuka.Ha.Health.Recovery.{request_failed, probed}
use kipuka.Ha.Health.Recovery
use kipuka.Ha.Health.Reprobe.{should_reprobe-run}
use kipuka.Ha.Health.Cooldown.{OpenSince, probe_all, probe_all_stays}

abbrev naturals : Float
naturals = record {
  F = ℕ;
  zero_ms = 0;
  seven_tenths = 7;
  three_tenths = 3;
  thousand = 1000;
  as_secs_f64 = λ n. n;
  add = ◌+◌;
  mul = ◌*◌;
  partial_cmp = λ a b. some (compare a b);
}

abbrev ca1 : CaConnection
ca1 = record { id = "a"; endpoint = "local:a"; weight = 70; priority = 2 }

abbrev ca2 : CaConnection
ca2 = record { id = "b"; endpoint = "local:b"; weight = 30; priority = 1 }

abbrev up : CaStatus ℕ
up = record {
  health = healthy;
  consecutive_failures = 0;
  last_success = none;
  circuit_open_since = none;
  latency_ema_ms = 0;
  last_latency = none;
}

abbrev down : CaStatus ℕ
down = record up { health = unavailable; consecutive_failures = 3; circuit_open_since = some 100 }

abbrev both : List (Candidate ℕ)
both = (ca1, up) ∷ (ca2, up) ∷ []

abbrev sel : StrategySelector
sel = record { strategy = active_passive; rr_counter = 75 }

abbrev config : PoolConfig
config = record {
  strategy = active_passive;
  fallback = queue_and_retry;
  circuit_breaker = record { failure_threshold = 3; cooldown = 60 };
}

abbrev limits : QueueConfig
limits = record { max_queue_size = 1; queue_ttl_secs = 300; max_csr_size = 4 }

abbrev pool : CaPool naturals
pool = record {
  connections = ca1 ∷ ca2 ∷ [];
  statuses = ("a", down) ∷ ("b", up) ∷ [];
  config = config;
  selector = sel;
  retry_queue = [];
  queue_config = limits;
}

abbrev checker : HealthChecker naturals
checker = record {
  pool = with_queue_config naturals (ca1 ∷ []) config limits;
  config = record {
    probe_interval = 30;
    probe_timeout = 5;
    recovery_threshold = 2;
    degraded_latency_ms = 2000;
  };
  metrics = [];
}

abbrev answered : Probe
answered = record { answers = true; begun = 120; elapsed = 1; handled = 121 }

abbrev failed_twice : CaStatus ℕ
failed_twice = record up { health = degraded; consecutive_failures = 2 }

abbrev failing : HealthChecker naturals
failing = record checker { pool = record pool { statuses = ("b", failed_twice) ∷ [] } }

weighted_run : (Strategy.select naturals (record sel { strategy = weighted }) both).0 ≡ some ca2
unfolding Strategy.select Strategy.select_weighted Strategy.fetch_add Strategy.total_weight
    Strategy.pick_weighted
weighted_run = refl

select_run : (select_allowed naturals pool ("a" ∷ "b" ∷ [])).0 ≡ some ca2
unfolding select_allowed routable Pool.contains Pool.status_available Dict.get Strategy.select
    Strategy.select_active_passive Strategy.min_by
select_run = refl

select_allowed-Routed_example : Routed naturals pool ("a" ∷ "b" ∷ []) ca2
select_allowed-Routed_example = select_allowed-Routed naturals pool ("a" ∷ "b" ∷ []) ca2 select_run

fail_all_trips_example :
    (t : CaStatus ℕ) × (Dict.get (fail_all naturals pool "b" (1 ∷ 2 ∷ 3 ∷ [])).statuses "b"
      ≡ some t)
    × (t.consecutive_failures ≡ 3)
    × (t.health ≡ health_after 3 3)
unfolding Dict.get
fail_all_trips_example =
    fail_all_trips naturals pool "b" (1 ∷ 2 ∷ 3 ∷ []) up refl refl refl (omega arith)

drain_queue-enqueue_request_example :
    ((drain_queue naturals (enqueue_request naturals pool (1 ∷ 2 ∷ []) 5).1 9).0
      ≡ (drain_queue naturals pool 9).0 ++ retain (is_live limits 9) (request (1 ∷ 2 ∷ []) 5 ∷ []))
    × (length (enqueue_request naturals pool (1 ∷ 2 ∷ []) 5).1.retry_queue ≡ 1)
unfolding enqueue_request
drain_queue-enqueue_request_example =
    drain_queue-enqueue_request naturals pool (1 ∷ 2 ∷ []) 5 9 30 1 (omega arith) refl

probe_all_stays_example :
    OpenSince naturals "a" 100
      (probe_all naturals
        (record checker { pool = pool })
        (("a", answered) ∷ ("b", answered) ∷ [])).pool
unfolding Dict.get
probe_all_stays_example =
    probe_all_stays naturals "a" 100 (record checker { pool = pool })
      (("a", answered) ∷ ("b", answered) ∷ []) 60 refl (down, refl, refl, refl) (omega arith)

-- The standby has failed twice already, and its circuit opens at 100.
should_reprobe-run_example :
    OpenSince naturals "b" 100
      (Recovery.run naturals failing
        (request_failed "b" 100 ∷ request_failed "b" 110 ∷ probed "b" answered ∷ [])).pool
    × (should_reprobe naturals
          (Recovery.run naturals failing
            (request_failed "b" 100 ∷ request_failed "b" 110 ∷ probed "b" answered ∷ [])).pool
          "b"
          160
        ≡ leb 60 (160 - 100))
unfolding Dict.get
should_reprobe-run_example =
    should_reprobe-run naturals failing "b" failed_twice 100 60 160
      (request_failed "b" 110 ∷ probed "b" answered ∷ []) refl refl (λ e. ground (arith, e))
      (omega arith) (omega arith) (omega arith, tt)
