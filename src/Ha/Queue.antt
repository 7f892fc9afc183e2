-- ===== src/Ha/Queue.antt =====
-- The retry queue of src/ha/pool.rs. The mutex is held for the whole of a call, and a call is
-- modelled at one reading of the clock.
pub mod Order
use kipuka.Common.{ℕ, ◌-◌, ◌*◌, Bool, List, [], ◌∷◌, ◌++◌, ltb, leb, if◌then◌else◌, length, retain}
use kipuka.Ha.Status.{Float, QueueConfig, QueuedRequest}
use kipuka.Ha.Pool.{CaPool}

abbrev pub second : ℕ
second = 1_000_000_000

pub data EnqueueResult : Type 0 where
  queued : (retry_after_secs queue_depth : ℕ) → EnqueueResult
  queue_full : (max_size : ℕ) → EnqueueResult

unfoldable pub is_live : QueueConfig → ℕ → QueuedRequest → Bool
is_live c now req = ltb (now - req.queued_at) (c.queue_ttl_secs * second)

-- The `while let Some(req) = queue.pop_front()` loop of `drain_queue`, with `live` so far.
unfoldable pub drain_loop :
    QueueConfig → ℕ → List QueuedRequest → List QueuedRequest → List QueuedRequest
drain_loop c now live [] = live
drain_loop c now live (req ∷ queue) =
    drain_loop c now (if is_live c now req then live ++ req ∷ [] else live) queue

module _ (fl : Float) where
  unfoldable pub enqueue_request : CaPool fl → List ℕ → ℕ → EnqueueResult × CaPool fl
  enqueue_request p csr_der now =
      if ltb p.queue_config.max_csr_size (length csr_der)
      then (queue_full p.queue_config.max_queue_size, p)
      else let queue = retain (is_live p.queue_config now) p.retry_queue in
        if leb p.queue_config.max_queue_size (length queue)
        then (queue_full p.queue_config.max_queue_size, record p { retry_queue = queue })
        else let queue' = queue ++ record { csr_der = csr_der; queued_at = now } ∷ [] in
          (queued 30 (length queue'), record p { retry_queue = queue' })

  unfoldable pub drain_queue : CaPool fl → ℕ → List QueuedRequest × CaPool fl
  unfolding drain_loop
  drain_queue p now =
      (drain_loop p.queue_config now [] p.retry_queue, record p { retry_queue = [] })

  unfoldable pub queue_depth : CaPool fl → ℕ
  queue_depth p = length p.retry_queue
