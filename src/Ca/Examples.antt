-- ===== src/Ca/Examples.antt =====
-- Runs of an enrolment over several CAs (src/ca/pool.rs), and its theorem at concrete inputs. `f64`
-- is instantiated by natural numbers.
use Prim.Native.Nat.{compare}
use kipuka.Common.{ℕ, ◌+◌, ◌*◌, ◌≡◌, refl, some, [], ◌∷◌, string_eq, if◌then◌else◌, map}
use kipuka.Common.Dict
use kipuka.Ha.Status.{
  Float, CaConnection, active_passive, queue_and_retry, is_available, is_unavailable,
}
use kipuka.Ha.Strategy
use kipuka.Ha.Pool
use kipuka.Ha.Pool.{CaPool, with_queue_config}
use kipuka.Ca.Backend.{ok, err, backend_error, Reply, succeed, attempt_from, route_enrollment}
use kipuka.Ca.Backend.Tries.{Asked, route_enrollment-Asked}

abbrev numbers : Float
numbers = record {
  F = ℕ;
  zero_ms = 0;
  seven_tenths = 7;
  three_tenths = 3;
  thousand = 1000;
  as_secs_f64 = λ n. n;
  add = ◌+◌;
  mul = ◌*◌;
  partial_cmp = λ a b. some (compare a b);
}

abbrev primary : CaConnection
primary = record { id = "a"; endpoint = "https://a"; weight = 1; priority = 1 }

abbrev standby : CaConnection
standby = record { id = "b"; endpoint = "https://b"; weight = 1; priority = 2 }

abbrev two_cas : CaPool numbers
two_cas =
    with_queue_config numbers (primary ∷ standby ∷ [])
      (record {
        strategy = active_passive;
        fallback = queue_and_retry;
        circuit_breaker = record { failure_threshold = 3; cooldown = 60 };
      })
      (record { max_queue_size = 1; queue_ttl_secs = 300; max_csr_size = 4 })

-- The primary fails, the standby issues.
abbrev answers : ℕ → CaConnection → Reply
answers attempt ca = record {
  result = if string_eq.beq ca.id "a" then err (backend_error "a" []) else ok (1 ∷ []);
  elapsed = 1;
  ended = attempt;
}

-- With two retries the primary is asked three times and the standby never: the circuit of the
-- primary opens at its third failure.
asks_the_primary :
    map (λ (c : CaConnection). c.id) (route_enrollment numbers answers 2 two_cas).2
    ≡ "a" ∷ "a" ∷ "a" ∷ []
unfolding route_enrollment attempt_from succeed with_queue_config Pool.initial_statuses
    Pool.new_status Pool.select Pool.ids Pool.select_allowed Pool.routable Pool.contains
    Pool.status_available Pool.snapshot Dict.get Dict.insert Strategy.selector Strategy.select
    Strategy.select_active_passive Strategy.min_by Pool.record_failure Pool.update_status
    Pool.failed Pool.is_healthy is_available is_unavailable
asks_the_primary = refl

route_enrollment-Asked_example :
    Asked numbers answers 4 0 two_cas
      (route_enrollment numbers answers 3 two_cas).0
      (route_enrollment numbers answers 3 two_cas).1
      (route_enrollment numbers answers 3 two_cas).2
route_enrollment-Asked_example = route_enrollment-Asked numbers answers 3 two_cas
