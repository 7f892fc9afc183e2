-- ===== src/Ha/Strategy/Shares.antt =====
-- How requests are shared out over the candidates (src/ha/strategy.rs).
use kipuka.Common.{
  ℕ, false, zero, suc, ◌+◌, ◌%◌, ◌≤◌, ◌<◌, ◌≡◌, ◌≢◌, refl, ap, ◌∙◌, arith, some, List, [], ◌∷◌,
  ◌++◌, ◌==◌, length, get_elem?,
}
use kipuka.Ha.Status.{Float, CaStatus, CaConnection, round_robin, weighted, u32_mod}
use kipuka.Ha.Strategy.{
  StrategySelector, Candidate, fetch_add, connection_of, select_round_robin, select_weighted,
  pick_weighted, total_weight, select, usize_mod,
}

-- The sum of the weights, which does not wrap.
abbrev pub weight_sum : {F : Type 0} → List (Candidate F) → ℕ
weight_sum [] = 0
weight_sum ((c, _) ∷ rest) = c.weight + weight_sum rest

module _ {F : Type 0} where
  total_weight-sum :
      (xs : List (Candidate F)) → weight_sum xs < u32_mod → total_weight xs ≡ weight_sum xs
  unfolding total_weight
  total_weight-sum [] h = refl
  total_weight-sum ((c, _) ∷ rest) h = omega (arith, total_weight-sum rest (omega arith))

  weight_sum-append :
      (before : List (Candidate F)) (c : CaConnection) (s : CaStatus F) (after : List (Candidate F))
      → weight_sum (before ++ (c, s) ∷ after) ≡ weight_sum before + c.weight + weight_sum after
  weight_sum-append [] c s after = omega arith
  weight_sum-append ((d, t) ∷ before) c s after = omega (arith, weight_sum-append before c s after)

  pick_weighted-interval :
      (before : List (Candidate F)) (c : CaConnection) (s : CaStatus F) (after : List (Candidate F))
      (tick cumulative : ℕ)
      → cumulative + weight_sum (before ++ (c, s) ∷ after) < u32_mod
      → cumulative + weight_sum before ≤ tick
      → tick < cumulative + weight_sum before + c.weight
      → pick_weighted tick cumulative (before ++ (c, s) ∷ after) ≡ some c
  unfolding pick_weighted
  pick_weighted-interval [] c s after tick cumulative small low high = ground arith
  pick_weighted-interval ((d, t) ∷ before) c s after tick cumulative small low high =
      ground
        (arith, pick_weighted-interval before c s after tick ((cumulative + d.weight) % u32_mod))

module _ (fl : Float) where
  -- The selector after a number of requests with the same candidates.
  unfoldable pub after_requests : StrategySelector → List (Candidate fl.F) → ℕ → StrategySelector
  after_requests sel xs zero = sel
  after_requests sel xs (suc n) = after_requests (select fl sel xs).1 xs n

  round_robin-step :
      (sel : StrategySelector) (x : Candidate fl.F) (xs : List (Candidate fl.F))
      → sel.strategy ≡ round_robin
      → ((select fl sel (x ∷ xs)).1 ≡ record sel { rr_counter = (sel.rr_counter + 1) % usize_mod })
        × ((select fl sel (x ∷ xs)).0
            ≡ connection_of (get_elem? (x ∷ xs) (sel.rr_counter % length (x ∷ xs))))
  unfolding select select_round_robin fetch_add
  round_robin-step sel x xs e = (ground arith, ground arith)

  round_robin-after :
      (sel : StrategySelector) (x : Candidate fl.F) (xs : List (Candidate fl.F)) (n : ℕ)
      → sel.strategy ≡ round_robin
      → sel.rr_counter + n < usize_mod
      → (select fl (after_requests sel (x ∷ xs) n) (x ∷ xs)).0
        ≡ connection_of (get_elem? (x ∷ xs) ((sel.rr_counter + n) % length (x ∷ xs)))
  unfolding after_requests
  round_robin-after sel x xs zero e h =
      (round_robin-step sel x xs e).1
      ∙ ap (λ (k : ℕ). connection_of (get_elem? (x ∷ xs) (k % length (x ∷ xs)))) (omega arith)
  round_robin-after sel x xs (suc n) e h =
      let s = (select fl sel (x ∷ xs)).1 in
      let step = (round_robin-step sel x xs e).0 in
      let count : s.rr_counter ≡ sel.rr_counter + 1 = ground (arith, step) in
      round_robin-after s x xs n (ground (arith, step)) (omega (arith, count))
      ∙ ap (λ (k : ℕ). connection_of (get_elem? (x ∷ xs) (k % length (x ∷ xs))))
          (omega (arith, count))

  -- Round-robin: while the counter does not wrap, the request after `n` others with the same
  -- candidates goes to the candidate at the counter plus `n`, modulo their number, so successive
  -- requests pass through the candidates in their order and start again.
  pub select_round_robin_cycles :
      (sel : StrategySelector) (xs : List (Candidate fl.F)) (n : ℕ)
      → sel.strategy ≡ round_robin
      → xs ≢ []
      → sel.rr_counter + n < usize_mod
      → (select fl (after_requests sel xs n) xs).0
        ≡ connection_of (get_elem? xs ((sel.rr_counter + n) % length xs))
  select_round_robin_cycles sel [] n e ne h = absurd (ne refl)
  select_round_robin_cycles sel (x ∷ xs) n e ne h = round_robin-after sel x xs n e h

  weighted-pick :
      (sel : StrategySelector) (xs : List (Candidate fl.F)) (c : CaConnection)
      → sel.strategy ≡ weighted
      → 0 < total_weight xs
      → pick_weighted (sel.rr_counter % u32_mod % total_weight xs) 0 xs ≡ some c
      → (select fl sel xs).0 ≡ some c
  unfolding select select_weighted fetch_add pick_weighted
  weighted-pick sel [] c e pos p = cc
  weighted-pick sel (x ∷ xs) c e pos p =
      let nonzero : (total_weight (x ∷ xs) == 0) ≡ false = ground arith in
      rw (e, select) (rw (nonzero, select_weighted) (rw p refl))

  -- Weighted: with weights that sum to less than 2^32, a request goes to a candidate when the
  -- counter, modulo the sum, falls into the interval that begins at the sum of the weights before it
  -- and is as long as its weight.
  pub select_weighted_interval :
      (sel : StrategySelector) (before : List (Candidate fl.F)) (c : CaConnection)
      (s : CaStatus fl.F) (after : List (Candidate fl.F))
      → sel.strategy ≡ weighted
      → weight_sum (before ++ (c, s) ∷ after) < u32_mod
      → weight_sum before ≤ sel.rr_counter % u32_mod % weight_sum (before ++ (c, s) ∷ after)
      → sel.rr_counter % u32_mod % weight_sum (before ++ (c, s) ∷ after)
        < weight_sum before + c.weight
      → (select fl sel (before ++ (c, s) ∷ after)).0 ≡ some c
  select_weighted_interval sel before c s after e small low high =
      let xs = before ++ (c, s) ∷ after in
      let sum = total_weight-sum xs small in
      let tick = sel.rr_counter % u32_mod % weight_sum xs in
      weighted-pick sel xs c e (omega (arith, sum, weight_sum-append before c s after)) (
        ap (λ (t : ℕ). pick_weighted (sel.rr_counter % u32_mod % t) 0 xs) sum
        ∙ pick_weighted-interval before c s after tick 0 (omega arith) (omega arith) (omega arith))
