-- ===== src/Ca/Backend/Tries.antt =====
-- What an enrolment asks of the CAs and what comes of it (src/ca/pool.rs, `route_enrollment`).
use kipuka.Common.{
  ℕ, zero, suc, false, ◌+◌, ◌≡◌, ◌⊎◌, inl, inr, refl, Option, none, some, List, [], ◌∷◌, arith, In,
  Option-cases,
}
use kipuka.Ha.Status.{Float, CaConnection}
use kipuka.Ha.Pool.{CaPool, ids, routable, select, record_success, record_failure}
use kipuka.Ha.Pool.Routing.{Routed, select_allowed-Routed, select_allowed-none}
use kipuka.Ca.Backend.{
  CaBackendError, no_healthy_backend, Issued, ok, err, Reply, Routing, and_before, succeed,
  attempt_from, route_enrollment,
}

Issued-cases :
    (r : Issued) → ((cert : List ℕ) × (r ≡ ok cert)) ⊎ ((e : CaBackendError) × (r ≡ err e))
Issued-cases (ok cert) = inl (cert, refl)
Issued-cases (err e) = inr (e, refl)

module _ (fl : Float) (send : ℕ → CaConnection → Reply) where
  -- No registered CA may be routed to.
  abbrev pub NoneAvailable : CaPool fl → Type 0
  NoneAvailable p =
      (c : CaConnection) → In c p.connections → routable fl p (ids fl p.connections) c ≡ false

  -- A registered CA whose health permits routing.
  abbrev pub Available : CaPool fl → CaConnection → Type 0
  Available p c = Routed fl p (ids fl p.connections) c

  -- From a pool and an attempt on, the result, the pool in the end and the CAs asked: each is available
  -- when it is asked, a failure is recorded and leads to another attempt where one is left, and a
  -- success is recorded and is the end.
  pub data Asked : ℕ → ℕ → CaPool fl → Issued → CaPool fl → List CaConnection → Type 0 where
    nobody :
        (left attempt : ℕ) (p : CaPool fl)
        → NoneAvailable p
        → Asked (suc left) attempt p (err no_healthy_backend) (select fl p).1 []
    issued :
        (left attempt : ℕ) (p : CaPool fl) (ca : CaConnection) (cert : List ℕ)
        → Available p ca
        → (send attempt ca).result ≡ ok cert
        → Asked
            (suc left)
            attempt
            p
            (ok cert)
            (record_success fl
              (select fl p).1
              ca.id
              (send attempt ca).elapsed
              (send attempt ca).ended)
            (ca ∷ [])
    exhausted :
        (attempt : ℕ) (p : CaPool fl) (ca : CaConnection) (e error : CaBackendError)
        → Available p ca
        → (send attempt ca).result ≡ err e
        → Asked 1 attempt p
            (err error)
            (record_failure fl (select fl p).1 ca.id (send attempt ca).ended)
            (ca ∷ [])
    refused :
        (left attempt : ℕ) (p : CaPool fl) (ca : CaConnection) (e : CaBackendError)
        (result : Issued) (q : CaPool fl) (asked : List CaConnection)
        → Available p ca
        → (send attempt ca).result ≡ err e
        → Asked
            (suc left)
            (attempt + 1)
            (record_failure fl (select fl p).1 ca.id (send attempt ca).ended)
            result
            q
            asked
        → Asked (suc (suc left)) attempt p result q (ca ∷ asked)

  select-Available :
      (p : CaPool fl) (ca : CaConnection) → (select fl p).0 ≡ some ca → Available p ca
  unfolding select
  select-Available p ca e = select_allowed-Routed fl p (ids fl p.connections) ca e

  select-NoneAvailable : (p : CaPool fl) → (select fl p).0 ≡ none → NoneAvailable p
  unfolding select
  select-NoneAvailable p e = (select_allowed-none fl p (ids fl p.connections)).0 e

  attempt_from-none :
      (left attempts : ℕ) (last_error : Option CaBackendError) (p : CaPool fl)
      → (select fl p).0 ≡ none
      → attempt_from fl send (suc left) attempts last_error p
        ≡ (err no_healthy_backend, (select fl p).1, [])
  unfolding attempt_from
  attempt_from-none left attempts last_error p e = rw (e, attempt_from) refl

  attempt_from-ok :
      (left attempts : ℕ) (last_error : Option CaBackendError) (p : CaPool fl) (ca : CaConnection)
      (cert : List ℕ)
      → (select fl p).0 ≡ some ca
      → (send attempts ca).result ≡ ok cert
      → attempt_from fl send (suc left) attempts last_error p
        ≡ succeed fl send (select fl p).1 ca (send attempts ca) cert
  unfolding attempt_from
  attempt_from-ok left attempts last_error p ca cert e r = rw (e, r, attempt_from) refl

  attempt_from-err :
      (left attempts : ℕ) (last_error : Option CaBackendError) (p : CaPool fl) (ca : CaConnection)
      (fault : CaBackendError)
      → (select fl p).0 ≡ some ca
      → (send attempts ca).result ≡ err fault
      → attempt_from fl send (suc left) attempts last_error p
        ≡ and_before fl send ca (
            attempt_from fl send left
              (attempts + 1)
              (some fault)
              (record_failure fl (select fl p).1 ca.id (send attempts ca).ended))
  unfolding attempt_from
  attempt_from-err left attempts last_error p ca fault e r = rw (e, r, attempt_from) refl

  abbrev Of : ℕ → ℕ → CaPool fl → Routing fl send → Type 0
  Of left attempts p (result, q, asked) = Asked left attempts p result q asked

  refused-Of :
      (left attempts : ℕ) (p : CaPool fl) (ca : CaConnection) (e : CaBackendError)
      (r : Routing fl send)
      → Available p ca
      → (send attempts ca).result ≡ err e
      → Of
          (suc left)
          (attempts + 1)
          (record_failure fl (select fl p).1 ca.id (send attempts ca).ended)
          r
      → Of (suc (suc left)) attempts p (and_before fl send ca r)
  refused-Of left attempts p ca e (result, q, asked) m f o =
      refused left attempts p ca e result q asked m f o

  -- One round, given what follows a failure.
  step-Asked :
      (left attempts : ℕ) (last_error : Option CaBackendError) (p : CaPool fl)
      (after : (ca : CaConnection) (e : CaBackendError)
        → Available p ca
        → (send attempts ca).result ≡ err e
        → Of (suc left) attempts p (
            and_before fl send ca (
              attempt_from fl send left
                (attempts + 1)
                (some e)
                (record_failure fl (select fl p).1 ca.id (send attempts ca).ended))))
      → Of (suc left) attempts p (attempt_from fl send (suc left) attempts last_error p)
  unfolding succeed
  step-Asked left attempts last_error p after = elim (Option-cases (select fl p).0) [
    | inl none_left ↦
        rw (attempt_from-none left attempts last_error p none_left)
          (nobody left attempts p (select-NoneAvailable p none_left))
    | inr (ca, chosen) ↦
        let m = select-Available p ca chosen in
        elim (Issued-cases (send attempts ca).result) [
          | inl (cert, answer) ↦
              rw (attempt_from-ok left attempts last_error p ca cert chosen answer)
                (issued left attempts p ca cert m answer)
          | inr (e, failure) ↦
              rw (attempt_from-err left attempts last_error p ca e chosen failure)
                (after ca e m failure)
        ]
  ]

  attempt_from-Asked :
      (left attempts : ℕ) (last_error : Option CaBackendError) (p : CaPool fl)
      → Of (suc left) attempts p (attempt_from fl send (suc left) attempts last_error p)
  unfolding attempt_from
  attempt_from-Asked zero attempts last_error p =
      step-Asked zero attempts last_error p (λ ca e m f. exhausted attempts p ca e e m f)
  attempt_from-Asked (suc left) attempts last_error p =
      step-Asked (suc left) attempts last_error p (λ ca e m f.
        let p' = record_failure fl (select fl p).1 ca.id (send attempts ca).ended in
        refused-Of left attempts p ca e (attempt_from fl send (suc left) (attempts + 1) (some e) p')
          m f (attempt_from-Asked left (attempts + 1) (some e) p'))

-- An enrolment asks one CA at each attempt, at most one more than the retries, and each is registered
-- and available when it is asked. A failure is recorded in the pool, and the next attempt follows
-- where one is left; the first success is recorded, its certificate is the result, and nobody is
-- asked after it. Where no registered CA is available the result says so and nobody is asked; where
-- the last attempt fails it is an error.
pub route_enrollment-Asked :
    (fl : Float) (send : ℕ → CaConnection → Reply) (max_retries : ℕ) (p : CaPool fl)
    → Asked fl send
        (suc max_retries)
        0
        p
        (route_enrollment fl send max_retries p).0
        (route_enrollment fl send max_retries p).1
        (route_enrollment fl send max_retries p).2
unfolding route_enrollment
route_enrollment-Asked fl send max_retries p =
    let n : suc max_retries ≡ max_retries + 1 = omega arith in
    rw (← n) (attempt_from-Asked fl send max_retries 0 none p)
