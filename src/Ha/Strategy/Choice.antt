-- ===== src/Ha/Strategy/Choice.antt =====
-- Every strategy of src/ha/strategy.rs chooses one of the candidates, and which.
use Prim.Native.Nat.{compare, Ordering}
use kipuka.Common.{
  ℕ, ◌+◌, ◌%◌, ◌≤◌, ◌<◌, ◌≡◌, refl, sym, ap, ◌∙◌, arith, Option, some, List, [], ◌∷◌, ltb, ◌==◌,
  length, In, here, there, get_elem?-In, Bool-cases, Option-cases, inl, inr, In-skip, In-cons,
}
use kipuka.Ha.Status.{
  Float, CaStatus, CaConnection, active_passive, round_robin, weighted, latency_based, u32_mod,
}
use kipuka.Ha.Strategy.{
  StrategySelector, Candidate, fetch_add, min_by, connection_of, last_connection,
  select_active_passive, select_round_robin, select_weighted, select_latency_based, pick_weighted,
  total_weight, by_latency, select,
}

min_by-In {ℓ} :
    {A : Type ℓ} (cmp : A → A → Ordering) (best : A) (xs : List A)
    → In (min_by cmp best xs) (best ∷ xs)
unfolding min_by
min_by-In cmp best [] = here refl
min_by-In cmp best (x ∷ xs) =
    elim (cmp best x)
      as (λ o. In (min_by cmp (elim o [ Ordering.gt ↦ x | _ ↦ best ]) xs) (best ∷ x ∷ xs)) [
        | Ordering.lt ↦ In-skip _ best x xs (min_by-In cmp best xs)
        | Ordering.eq ↦ In-skip _ best x xs (min_by-In cmp best xs)
        | Ordering.gt ↦ there (min_by-In cmp x xs)
      ]

abbrev priority_of : {F : Type 0} → Candidate F → ℕ
priority_of (c, _) = c.priority

abbrev compare_priority : {F : Type 0} → Candidate F → Candidate F → Ordering
compare_priority a b = compare (a.0).priority (b.0).priority

abbrev better : {F : Type 0} → Candidate F → Candidate F → Candidate F
better best x = elim (compare_priority best x) [ Ordering.gt ↦ x | _ ↦ best ]

better-le :
    {F : Type 0} (best x : Candidate F)
    → (priority_of (better best x) ≤ priority_of best)
      × (priority_of (better best x) ≤ priority_of x)
better-le (c, s) (d, t) = ground arith

min_by-priority_le :
    {F : Type 0} (best : Candidate F) (xs : List (Candidate F))
    → (priority_of (min_by compare_priority best xs) ≤ priority_of best)
      × ((y : Candidate F)
          → In y xs
          → priority_of (min_by compare_priority best xs) ≤ priority_of y)
unfolding min_by
min_by-priority_le best [] = (omega arith, λ y m. elim m [ ])
min_by-priority_le best (x ∷ xs) =
    let (low, all) = min_by-priority_le (better best x) xs in
    let (p, q) = better-le best x in
    (omega arith, λ y m. elim (In-cons m) [ inl e ↦ rw e (omega arith) | inr n ↦ all y n ])

active_passive-eq :
    (fl : Float) (sel : StrategySelector) (x : Candidate fl.F) (xs : List (Candidate fl.F))
    → sel.strategy ≡ active_passive
    → (select fl sel (x ∷ xs)).0 ≡ some (min_by compare_priority x xs).0
unfolding select select_active_passive
active_passive-eq fl sel x xs a = rw (a, select)

-- Active-passive chooses a candidate whose priority number is least.
pub select_active_passive_least :
    (fl : Float) (sel : StrategySelector) (xs : List (Candidate fl.F)) (c : CaConnection)
    → sel.strategy ≡ active_passive
    → (select fl sel xs).0 ≡ some c
    → (d : CaConnection) (s : CaStatus fl.F) → In (d, s) xs
    → c.priority ≤ d.priority
select_active_passive_least fl sel [] c a e d s m = elim m [ ]
select_active_passive_least fl sel (x ∷ xs) c a e d s m =
    let (low, all) = min_by-priority_le x xs in
    let same : some (min_by compare_priority x xs).0 ≡ some c =
      sym (active_passive-eq fl sel x xs a) ∙ e in
    let chosen : priority_of (min_by compare_priority x xs) ≡ c.priority = ground (arith, same) in
    elim (In-cons m) [
      | inl q ↦ omega (arith, chosen, low, ap (λ (y : Candidate fl.F). (y.0).priority) q)
      | inr n ↦ omega (arith, chosen, all (d, s) n)
    ]

module _ {F : Type 0} where
  -- One of the candidates is chosen.
  abbrev pub Chosen : List (Candidate F) → Option CaConnection → Type 0
  Chosen xs chosen = (c : CaConnection) × (s : CaStatus F) × (chosen ≡ some c) × In (c, s) xs

  round_robin-Chosen :
      (sel : StrategySelector) (xs : List (Candidate F))
      → 0 < length xs
      → Chosen xs (select_round_robin sel xs).0
  unfolding select_round_robin fetch_add
  round_robin-Chosen sel xs h =
      let (y, e, m) = get_elem?-In xs (sel.rr_counter % length xs) (omega arith) in
      (y.0, y.1, ap connection_of e, m)

  last_connection-Chosen :
      (x : Candidate F) (xs : List (Candidate F)) → Chosen (x ∷ xs) (last_connection (x ∷ xs))
  last_connection-Chosen (c, s) [] = (c, s, refl, here refl)
  last_connection-Chosen x (y ∷ ys) =
      let (c, s, e, m) = last_connection-Chosen y ys in (c, s, e, there m)

  pick_weighted-Chosen :
      (tick cumulative : ℕ) (xs : List (Candidate F)) {c : CaConnection}
      → pick_weighted tick cumulative xs ≡ some c
      → Chosen xs (some c)
  unfolding pick_weighted
  pick_weighted-Chosen tick cumulative [] e = cc
  pick_weighted-Chosen tick cumulative ((d, s) ∷ rest) {c} e =
      elim (Bool-cases (ltb tick ((cumulative + d.weight) % u32_mod))) [
        | inl h ↦ (d, s, sym (rw h at e), here refl)
        | inr h ↦
            let (b, s', q, m) =
              pick_weighted-Chosen tick ((cumulative + d.weight) % u32_mod) rest (rw h at e) in
            (b, s', q, there m)
      ]

  weighted-Chosen :
      (sel : StrategySelector) (x : Candidate F) (xs : List (Candidate F))
      → Chosen (x ∷ xs) (select_weighted sel (x ∷ xs)).0
  unfolding select_weighted fetch_add
  weighted-Chosen sel x xs =
      let total = total_weight (x ∷ xs) in
      elim (Bool-cases (total == 0)) [
        | inl z ↦ rw (z, select_weighted) (round_robin-Chosen sel (x ∷ xs) (omega arith))
        | inr n ↦
            let tick = sel.rr_counter % u32_mod % total in
            elim (Option-cases (pick_weighted tick 0 (x ∷ xs))) [
              | inl e ↦ rw (n, e, select_weighted) (last_connection-Chosen x xs)
              | inr (c, e) ↦ rw (n, e, select_weighted) (pick_weighted-Chosen tick 0 (x ∷ xs) e)
            ]
      ]

-- Whatever the strategy, a request with at least one candidate is given one of the candidates.
pub select-Chosen :
    (fl : Float) (sel : StrategySelector) (x : Candidate fl.F) (xs : List (Candidate fl.F))
    → Chosen (x ∷ xs) (select fl sel (x ∷ xs)).0
unfolding select select_active_passive select_latency_based
select-Chosen fl sel x xs =
    elim sel.strategy
      as (λ s. Chosen (x ∷ xs) (select fl (record sel { strategy = s }) (x ∷ xs)).0) [
        | active_passive ↦ (_, _, refl, min_by-In compare_priority x xs)
        | round_robin ↦ round_robin-Chosen _ (x ∷ xs) (omega arith)
        | weighted ↦ weighted-Chosen _ x xs
        | latency_based ↦ (_, _, refl, min_by-In (by_latency fl) x xs)
      ]
