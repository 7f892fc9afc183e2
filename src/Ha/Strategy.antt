-- ===== src/Ha/Strategy.antt =====
-- src/ha/strategy.rs: how a CA is chosen among the healthy candidates. The counter is a `usize` of
-- 64 bits, and sums of weights are `u32`; both wrap.
pub mod Choice
pub mod Shares
use Prim.Native.Nat.{compare, Ordering}
use kipuka.Common.{
  ℕ, ◌+◌, ◌%◌, ◌^◌, Option, none, some, List, [], ◌∷◌, ltb, ◌==◌, if◌then◌else◌, length, get_elem?,
}
use kipuka.Ha.Status.{
  Float, CaStatus, CaConnection, FailoverStrategy, active_passive, round_robin, weighted,
  latency_based, u32_mod,
}

abbrev pub usize_mod : ℕ
usize_mod = 2 ^ 64

pub record StrategySelector : Type 0 where
  pub strategy : FailoverStrategy
  pub rr_counter : ℕ

unfoldable pub selector : FailoverStrategy → StrategySelector
selector strategy = record { strategy = strategy; rr_counter = 0 }

-- `fetch_add(1)`: the counter before, and the selector after.
unfoldable pub fetch_add : StrategySelector → ℕ × StrategySelector
fetch_add s = (s.rr_counter, record s { rr_counter = (s.rr_counter + 1) % usize_mod })

abbrev pub Candidate : Type 0 → Type 0
Candidate F = CaConnection × CaStatus F

-- The first of the least, in the order of the candidates: `Iterator::min_by`.
unfoldable pub min_by {ℓ} : {A : Type ℓ} → (A → A → Ordering) → A → List A → A
min_by cmp best [] = best
min_by cmp best (x ∷ xs) = min_by cmp (elim (cmp best x) [ Ordering.gt ↦ x | _ ↦ best ]) xs

abbrev pub connection_of : {F : Type 0} → Option (Candidate F) → Option CaConnection
connection_of none = none
connection_of (some (c, _)) = some c

unfoldable pub select_active_passive : {F : Type 0} → List (Candidate F) → Option CaConnection
select_active_passive [] = none
select_active_passive (x ∷ xs) = some (min_by (λ a b. compare (a.0).priority (b.0).priority) x xs).0

unfoldable pub select_round_robin :
    {F : Type 0} → StrategySelector → List (Candidate F) → Option CaConnection × StrategySelector
select_round_robin s candidates =
    let (counter, s') = fetch_add s in
    (connection_of (get_elem? candidates (counter % length candidates)), s')

unfoldable pub total_weight : {F : Type 0} → List (Candidate F) → ℕ
total_weight [] = 0
total_weight ((c, _) ∷ rest) = (c.weight + total_weight rest) % u32_mod

abbrev pub last_connection : {F : Type 0} → List (Candidate F) → Option CaConnection
last_connection [] = none
last_connection ((c, _) ∷ []) = some c
last_connection (x ∷ y ∷ rest) = last_connection (y ∷ rest)

-- The loop over the candidates, with the cumulative weight so far; `none` where it ends.
unfoldable pub pick_weighted : {F : Type 0} → ℕ → ℕ → List (Candidate F) → Option CaConnection
pick_weighted tick cumulative [] = none
pick_weighted tick cumulative ((c, _) ∷ rest) =
    let sum = (cumulative + c.weight) % u32_mod in
    let later = pick_weighted tick sum rest in if ltb tick sum then some c else later

unfoldable pub select_weighted :
    {F : Type 0} → StrategySelector → List (Candidate F) → Option CaConnection × StrategySelector
select_weighted s candidates =
    if total_weight candidates == 0
    then select_round_robin s candidates
    else let (counter, s') = fetch_add s in
      let tick = counter % u32_mod % total_weight candidates in
      (
        elim (pick_weighted tick 0 candidates) [
          | some c ↦ some c
          | none ↦ last_connection candidates
        ],
        s',
      )

-- `partial_cmp(..).unwrap_or(Equal)` on the latency averages.
unfoldable pub by_latency : (fl : Float) → Candidate fl.F → Candidate fl.F → Ordering
by_latency fl (_, a) (_, b) = elim (fl.partial_cmp a.latency_ema_ms b.latency_ema_ms) [
  | some o ↦ o
  | none ↦ Ordering.eq
]

unfoldable pub select_latency_based : (fl : Float) → List (Candidate fl.F) → Option CaConnection
select_latency_based fl [] = none
select_latency_based fl (x ∷ xs) = some (min_by (by_latency fl) x xs).0

unfoldable pub select :
    (fl : Float) → StrategySelector → List (Candidate fl.F) → Option CaConnection × StrategySelector
select fl s [] = (none, s)
select fl s (x ∷ xs) = elim s.strategy [
  | active_passive ↦ (select_active_passive (x ∷ xs), s)
  | round_robin ↦ select_round_robin s (x ∷ xs)
  | weighted ↦ select_weighted s (x ∷ xs)
  | latency_based ↦ (select_latency_based fl (x ∷ xs), s)
]
