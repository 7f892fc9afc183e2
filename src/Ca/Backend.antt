-- ===== src/Ca/Backend.antt =====
-- src/ca/pool.rs: an enrolment is sent to the CAs that the HA pool selects, until one answers. The
-- exchange with a CA over HTTP is an argument.
pub mod Tries
use kipuka.Common.{ℕ, zero, suc, ◌+◌, Option, none, some, List, [], ◌∷◌, String}
use kipuka.Ha.Status.{Float, CaConnection}
use kipuka.Ha.Pool
use kipuka.Ha.Pool.{CaPool, select, record_success, record_failure}

pub data CaBackendError : Type 0 where
  no_healthy_backend : CaBackendError
  timeout : String → ℕ → CaBackendError
  retries_exhausted : ℕ → CaBackendError
  backend_error : String → List ℕ → CaBackendError

pub data Issued : Type 0 where
  ok : List ℕ → Issued
  err : CaBackendError → Issued

-- The answer of a CA to one attempt, how long it took, and when it was there.
pub record Reply : Type 0 where
  pub result : Issued
  pub elapsed : ℕ
  pub ended : ℕ

abbrev pub last_or : ℕ → Option CaBackendError → CaBackendError
last_or attempts none = retries_exhausted attempts
last_or attempts (some e) = e

-- `send` is `send_to_ca` for one request: the answer to an attempt, by its number.
module _ (fl : Float) (send : ℕ → CaConnection → Reply) where
  -- The result, the pool after it, and the CAs that were asked, in their order.
  abbrev pub Routing : Type 0
  Routing = Issued × CaPool fl × List CaConnection

  abbrev pub and_before : CaConnection → Routing → Routing
  and_before ca (result, p, asked) = (result, p, ca ∷ asked)

  unfoldable pub succeed : CaPool fl → CaConnection → Reply → List ℕ → Routing
  succeed p ca reply cert = (ok cert, record_success fl p ca.id reply.elapsed reply.ended, ca ∷ [])

  -- The loop, with the number of attempts that are left and of those that were made.
  unfoldable pub attempt_from : ℕ → ℕ → Option CaBackendError → CaPool fl → Routing
  unfolding succeed
  attempt_from zero attempts last_error p = (err (last_or attempts last_error), p, [])
  attempt_from (suc left) attempts last_error p =
      let (chosen, p') = select fl p in
      elim chosen [
        | none ↦ (err no_healthy_backend, p', [])
        | some ca ↦
            let reply = send attempts ca in
            elim reply.result [
              | ok cert ↦ succeed p' ca reply cert
              | err e ↦ and_before ca (
                  attempt_from left (attempts + 1) (some e)
                    (record_failure fl p' ca.id reply.ended))
            ]
      ]

  unfoldable pub route_enrollment : ℕ → CaPool fl → Routing
  unfolding attempt_from
  route_enrollment max_retries p = attempt_from (max_retries + 1) 0 none p
