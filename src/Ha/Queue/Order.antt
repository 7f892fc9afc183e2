-- ===== src/Ha/Queue/Order.antt =====
-- The retry queue of src/ha/pool.rs is first in, first out, within its limits.
use mathlib.Core.List.{append_assoc, append-nil}
use kipuka.Common.{
  ℕ, ◌≤◌, Bool, true, ◌≡◌, refl, sym, ap, ◌∙◌, arith, List, [], ◌∷◌, ◌++◌, length, length-append,
  retain, length-retain-le, Bool-cases, inl, inr, ◌⊎◌,
}
use kipuka.Ha.Status.{Float, QueueConfig, QueuedRequest}
use kipuka.Ha.Pool.{CaPool}
use kipuka.Ha.Queue.{queued, queue_full, is_live, drain_loop, enqueue_request, drain_queue}

module _ (c : QueueConfig) where
  drain_loop-retain :
      (now : ℕ) (live queue : List QueuedRequest)
      → drain_loop c now live queue ≡ live ++ retain (is_live c now) queue
  unfolding drain_loop
  drain_loop-retain now live [] = sym (append-nil live)
  drain_loop-retain now live (r ∷ queue) = elim (Bool-cases (is_live c now r)) [
    | inl e ↦
        rw (e, drain_loop)
          (drain_loop-retain now (live ++ r ∷ []) queue
            ∙ append_assoc live (r ∷ []) (retain (is_live c now) queue))
    | inr e ↦ rw (e, drain_loop) (drain_loop-retain now live queue)
  ]

  -- What is live later is live now.
  is_live_mono :
      (now later : ℕ) (r : QueuedRequest)
      → now ≤ later
      → is_live c later r ≡ true
      → is_live c now r ≡ true
  unfolding is_live
  is_live_mono now later r h e = ground arith

  retain-is_live :
      (now later : ℕ) (queue : List QueuedRequest)
      → now ≤ later
      → retain (is_live c later) (retain (is_live c now) queue) ≡ retain (is_live c later) queue
  retain-is_live now later [] h = refl
  retain-is_live now later (r ∷ queue) h =
      ground (arith, retain-is_live now later queue h, is_live_mono now later r h)

retain-append {ℓ} :
    {A : Type ℓ} (p : A → Bool) (xs ys : List A) → retain p (xs ++ ys) ≡ retain p xs ++ retain p ys
retain-append p [] ys = refl
retain-append p (x ∷ xs) ys = ground (arith, retain-append p xs ys)

drain_queue-retain :
    (fl : Float) (p : CaPool fl) (now : ℕ)
    → (drain_queue fl p now).0 ≡ retain (is_live p.queue_config now) p.retry_queue
unfolding drain_queue
drain_queue-retain fl p now = drain_loop-retain p.queue_config now [] p.retry_queue

abbrev pub request : List ℕ → ℕ → QueuedRequest
request csr_der now = record { csr_der = csr_der; queued_at = now }

module _ (fl : Float) (p : CaPool fl) (csr_der : List ℕ) (now : ℕ) where
  enqueue_request-queued :
      (retry depth : ℕ)
      → (enqueue_request fl p csr_der now).0 ≡ queued retry depth
      → ((enqueue_request fl p csr_der now).1.retry_queue
          ≡ retain (is_live p.queue_config now) p.retry_queue ++ request csr_der now ∷ [])
        × ((enqueue_request fl p csr_der now).1.queue_config ≡ p.queue_config)
        × (length (enqueue_request fl p csr_der now).1.retry_queue ≡ depth)
        × (length csr_der ≤ p.queue_config.max_csr_size)
  unfolding enqueue_request
  enqueue_request-queued retry depth e = ground arith

  enqueue_request-full :
      (max_size : ℕ)
      → (enqueue_request fl p csr_der now).0 ≡ queue_full max_size
      → ((enqueue_request fl p csr_der now).1.queue_config ≡ p.queue_config)
        × (((enqueue_request fl p csr_der now).1.retry_queue ≡ p.retry_queue)
            ⊎ ((enqueue_request fl p csr_der now).1.retry_queue
                ≡ retain (is_live p.queue_config now) p.retry_queue))
  unfolding enqueue_request
  enqueue_request-full max_size e = ground arith

  -- A request that is queued adds exactly itself, behind all the others, to what a drain at any
  -- later time hands out, as long as its time to live lasts; the depth reported is the length of
  -- the queue.
  pub drain_queue-enqueue_request :
      (later retry depth : ℕ)
      → now ≤ later
      → (enqueue_request fl p csr_der now).0 ≡ queued retry depth
      → ((drain_queue fl (enqueue_request fl p csr_der now).1 later).0
          ≡ (drain_queue fl p later).0
            ++ retain (is_live p.queue_config later) (request csr_der now ∷ []))
        × (length (enqueue_request fl p csr_der now).1.retry_queue ≡ depth)
  drain_queue-enqueue_request later retry depth h e =
      let q = (enqueue_request fl p csr_der now).1 in
      let (queue, config, size, _) = enqueue_request-queued retry depth e in
      let live = is_live p.queue_config later in
      (
        drain_queue-retain fl q later
            ∙ ap (λ c. retain (is_live c later) q.retry_queue) config
            ∙ ap (retain live) queue
            ∙ retain-append live (retain (is_live p.queue_config now) p.retry_queue)
                (request csr_der now ∷ [])
            ∙ ap (λ l. l ++ retain live (request csr_der now ∷ []))
                (retain-is_live p.queue_config now later p.retry_queue h
                  ∙ sym (drain_queue-retain fl p later)),
        size,
      )

  -- A request that is turned away leaves what a drain at any later time hands out.
  pub drain_queue-enqueue_full :
      (later max_size : ℕ)
      → now ≤ later
      → (enqueue_request fl p csr_der now).0 ≡ queue_full max_size
      → (drain_queue fl (enqueue_request fl p csr_der now).1 later).0 ≡ (drain_queue fl p later).0
  drain_queue-enqueue_full later max_size h e =
      let q = (enqueue_request fl p csr_der now).1 in
      let (config, queue) = enqueue_request-full max_size e in
      drain_queue-retain fl q later
      ∙ ap (λ c. retain (is_live c later) q.retry_queue) config
      ∙ (elim queue [
        | inl same ↦ ap (retain (is_live p.queue_config later)) same
        | inr pruned ↦
            ap (retain (is_live p.queue_config later)) pruned
            ∙ retain-is_live p.queue_config now later p.retry_queue h
      ])
      ∙ sym (drain_queue-retain fl p later)

-- One call on the queue.
pub data Op : Type 0 where
  enqueues : (csr_der : List ℕ) → Op
  drains : Op

unfoldable pub run : (fl : Float) → CaPool fl → List (Op × ℕ) → CaPool fl
run fl p [] = p
run fl p ((enqueues csr_der, now) ∷ ops) = run fl (enqueue_request fl p csr_der now).1 ops
run fl p ((drains, now) ∷ ops) = run fl (drain_queue fl p now).1 ops

-- The queue is within its limits: its depth, and the size of each request in it.
abbrev pub AllSmall : ℕ → List QueuedRequest → Type 0
AllSmall n [] = Unit {0}
AllSmall n (r ∷ queue) = (length r.csr_der ≤ n) × AllSmall n queue

pub record IsBounded (c : QueueConfig) (fl : Float) (p : CaPool fl) : Type 0 where
  pub config : p.queue_config ≡ c
  pub depth : length p.retry_queue ≤ c.max_queue_size
  pub sizes : AllSmall c.max_csr_size p.retry_queue

AllSmall-retain :
    (n : ℕ) (keep : QueuedRequest → Bool) (queue : List QueuedRequest)
    → AllSmall n queue
    → AllSmall n (retain keep queue)
AllSmall-retain n keep [] h = tt
AllSmall-retain n keep (r ∷ queue) h = ground (arith, AllSmall-retain n keep queue h.1)

AllSmall-append :
    (n : ℕ) (queue : List QueuedRequest) (r : QueuedRequest)
    → AllSmall n queue
    → length r.csr_der ≤ n
    → AllSmall n (queue ++ r ∷ [])
AllSmall-append n [] r h small = (small, tt)
AllSmall-append n (q ∷ queue) r h small = (h.0, AllSmall-append n queue r h.1 small)

module _ (c : QueueConfig) (fl : Float) where
  enqueue_request-IsBounded :
      (p : CaPool fl) (csr_der : List ℕ) (now : ℕ)
      → IsBounded c fl p
      → IsBounded c fl (enqueue_request fl p csr_der now).1
  unfolding enqueue_request
  enqueue_request-IsBounded p csr_der now b =
      let queue = retain (is_live p.queue_config now) p.retry_queue in
      ground (
        arith,
        b,
        b.config,
        length-retain-le (is_live p.queue_config now) p.retry_queue,
        length-append queue (request csr_der now ∷ []),
        AllSmall-retain c.max_csr_size (is_live p.queue_config now) p.retry_queue b.sizes,
        AllSmall-append c.max_csr_size queue (request csr_der now),
      )

  -- After any history of calls of a pool whose queue is within its limits, the queue holds at most
  -- `max_queue_size` requests, none larger than `max_csr_size`.
  pub run-IsBounded :
      (p : CaPool fl) (ops : List (Op × ℕ)) → IsBounded c fl p → IsBounded c fl (run fl p ops)
  unfolding run drain_queue
  run-IsBounded p [] b = b
  run-IsBounded p ((enqueues csr_der, now) ∷ ops) b =
      run-IsBounded (enqueue_request fl p csr_der now).1 ops
        (enqueue_request-IsBounded p csr_der now b)
  run-IsBounded p ((drains, now) ∷ ops) b =
      run-IsBounded (drain_queue fl p now).1 ops
        (record { config = b.config; depth = omega arith; sizes = tt })
