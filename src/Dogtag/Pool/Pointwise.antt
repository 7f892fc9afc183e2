-- ===== src/Dogtag/Pool/Pointwise.antt =====
-- One pass of health checks, entry by entry (crates/kipuka-dogtag/src/pool.rs).
use kipuka.Common.{
  ◌-◌, ◌%◌, ◌^◌, ◌≤◌, ◌<◌, true, false, ◌≢◌, ◌⊎◌, inl, inr, some, arith, leb, Bool-cases, ℕ, ◌+◌,
  Bool, true, false, ◌≡◌, refl, sym, ap, ◌∙◌, List, [], ◌∷◌, ◌++◌, length, length-append,
  if◌then◌else◌,
}
use kipuka.Dogtag.Pool.{
  healthy, unhealthy, is_unhealthy, failed, PoolEntry, DogtagPool, Probe, is_due, due_from, probed,
  update_at, probe_all, health_check_all,
}

-- The entry after a pass, as the code computes it.
unfoldable pub checked : ℕ → ℕ → ℕ → Probe → PoolEntry → PoolEntry
unfolding is_due probed
checked failure_threshold cooldown now p e =
    if is_due cooldown now e then probed failure_threshold p e else e

-- Each of the entries by itself, where the first of them has index `i`.
unfoldable pub check_each : ℕ → ℕ → ℕ → (ℕ → Probe) → ℕ → List PoolEntry → List PoolEntry
unfolding checked
check_each failure_threshold cooldown now probe i [] = []
check_each failure_threshold cooldown now probe i (e ∷ entries) =
    checked failure_threshold cooldown now (probe i) e
    ∷ check_each failure_threshold cooldown now probe (i + 1) entries

update_at-append :
    (f : PoolEntry → PoolEntry) (front : List PoolEntry) (e : PoolEntry) (back : List PoolEntry)
    → update_at f (length front) (front ++ (e ∷ back)) ≡ (front ++ (f e ∷ [])) ++ back
unfolding update_at
update_at-append f [] e back = refl
update_at-append f (x ∷ front) e back = ap (λ t. x ∷ t) (update_at-append f front e back)

append_one :
    (front : List PoolEntry) (e : PoolEntry) (back : List PoolEntry)
    → (front ++ (e ∷ [])) ++ back ≡ front ++ (e ∷ back)
append_one [] e back = refl
append_one (x ∷ front) e back = ap (λ t. x ∷ t) (append_one front e back)

module _ (failure_threshold cooldown now : ℕ) (probe : ℕ → Probe) where
  -- Whether the first entry of the rest is to be probed or not.
  probe_one :
      (b : Bool) (i : ℕ) (is : List ℕ) (front : List PoolEntry) (e : PoolEntry)
      (back : List PoolEntry)
      → i ≡ length front
      → probe_all failure_threshold probe (if b then i ∷ is else is) (front ++ (e ∷ back))
        ≡ probe_all failure_threshold probe is
            ((front ++ ((if b then probed failure_threshold (probe i) e else e) ∷ [])) ++ back)
  unfolding probe_all
  probe_one true i is front e back q =
      let f = probed failure_threshold (probe i) in
      ap (λ k. probe_all failure_threshold probe is (update_at f k (front ++ (e ∷ back)))) q
      ∙ ap (probe_all failure_threshold probe is) (update_at-append f front e back)
  probe_one false i is front e back q =
      ap (probe_all failure_threshold probe is) (sym (append_one front e back))

  probe_all-check_each :
      (front back : List PoolEntry) (i : ℕ)
      → i ≡ length front
      → probe_all failure_threshold probe (due_from cooldown now i back) (front ++ back)
        ≡ front ++ check_each failure_threshold cooldown now probe i back
  unfolding probe_all due_from check_each checked
  probe_all-check_each front [] i q = refl
  probe_all-check_each front (e ∷ back) i q =
      let c = checked failure_threshold cooldown now (probe i) e in
      let longer : i + 1 ≡ length (front ++ (c ∷ [])) =
        ap (λ n. n + 1) q ∙ sym (length-append front (c ∷ [])) in
      probe_one (is_due cooldown now e) i (due_from cooldown now (i + 1) back) front e back q
      ∙ probe_all-check_each (front ++ (c ∷ [])) back (i + 1) longer
      ∙ append_one front c (check_each failure_threshold cooldown now probe (i + 1) back)

-- A pass, which notes the indices of the entries to be probed and then goes from index to index, does
-- the same as each entry by itself.
pub health_check_all-check_each :
    (now : ℕ) (probe : ℕ → Probe) (pool : DogtagPool)
    → health_check_all now probe pool ≡ record pool {
      entries = check_each pool.failure_threshold pool.cooldown now probe 0 pool.entries;
    }
unfolding health_check_all
health_check_all-check_each now probe pool =
    ap (λ (l : List PoolEntry). record pool { entries = l })
      (probe_all-check_each pool.failure_threshold pool.cooldown now probe [] pool.entries 0 refl)

module _ (failure_threshold cooldown now : ℕ) where
  -- The entry may be probed: it is not unhealthy, or it has not been healthy for the cooldown.
  abbrev pub MayProbe : PoolEntry → Type 0
  MayProbe e =
      (e.health ≢ unhealthy) ⊎ ((last : ℕ) → e.last_healthy ≡ some last → cooldown ≤ now - last)

  -- What a pass makes of an entry, given the answer to its own probe.
  pub data After (p : Probe) : PoolEntry → PoolEntry → Type 0 where
    left_alone : (e : PoolEntry) → e.health ≡ unhealthy → After p e e
    answered :
        (e : PoolEntry)
        → MayProbe e
        → p.answer ≡ true
        → After p e (record {
          client = e.client;
          health = healthy;
          last_healthy = some p.at;
          consecutive_failures = 0;
        })
    counted :
        (e : PoolEntry)
        → MayProbe e
        → p.answer ≡ false
        → (e.consecutive_failures + 1) % 2 ^ 32 < failure_threshold
        → After p e (record {
          client = e.client;
          health = e.health;
          last_healthy = e.last_healthy;
          consecutive_failures = (e.consecutive_failures + 1) % 2 ^ 32;
        })
    marked :
        (e : PoolEntry)
        → MayProbe e
        → p.answer ≡ false
        → failure_threshold ≤ (e.consecutive_failures + 1) % 2 ^ 32
        → After p e (record {
          client = e.client;
          health = unhealthy;
          last_healthy = e.last_healthy;
          consecutive_failures = (e.consecutive_failures + 1) % 2 ^ 32;
        })

  -- The entries one by one, the first of them at an index.
  pub data EachAfter (probe : ℕ → Probe) : ℕ → List PoolEntry → List PoolEntry → Type 0 where
    none_left : (i : ℕ) → EachAfter probe i [] []
    entry :
        (i : ℕ) (e e' : PoolEntry) (entries entries' : List PoolEntry)
        → After (probe i) e e'
        → EachAfter probe (i + 1) entries entries'
        → EachAfter probe i (e ∷ entries) (e' ∷ entries')

  is_due-MayProbe : (e : PoolEntry) → is_due cooldown now e ≡ true → MayProbe e
  unfolding is_due
  is_due-MayProbe e d = elim (Bool-cases (is_unhealthy e.health)) [
    | inl down ↦ inr (λ last q. ground (arith, down, d, q))
    | inr up ↦ inl (λ q. ground (arith, up, q))
  ]

  not_due-unhealthy : (e : PoolEntry) → is_due cooldown now e ≡ false → e.health ≡ unhealthy
  unfolding is_due
  not_due-unhealthy e d = ground (arith, d)

  probed-answer :
      (p : Probe) (e : PoolEntry)
      → p.answer ≡ true
      → probed failure_threshold p e ≡ record {
        client = e.client;
        health = healthy;
        last_healthy = some p.at;
        consecutive_failures = 0;
      }
  unfolding probed
  probed-answer p e a = ground (arith, a)

  probed-silence :
      (p : Probe) (e : PoolEntry)
      → p.answer ≡ false
      → probed failure_threshold p e ≡ failed failure_threshold e
  unfolding probed
  probed-silence p e a = ground (arith, a)

  probed-After : (p : Probe) (e : PoolEntry) → MayProbe e → After p e (probed failure_threshold p e)
  unfolding probed failed
  probed-After p e m = elim (Bool-cases p.answer) [
    | inl yes_ ↦ rw (probed-answer p e yes_) (answered e m yes_)
    | inr no_ ↦
        let failures = (e.consecutive_failures + 1) % 2 ^ 32 in
        elim (Bool-cases (leb failure_threshold failures)) [
          | inl reached ↦
              rw (probed-silence p e no_)
                (rw (failed, reached) (marked e m no_ (ground (arith, reached))))
          | inr below ↦
              rw (probed-silence p e no_)
                (rw (failed, below) (counted e m no_ (ground (arith, below))))
        ]
  ]

  checked-After :
      (p : Probe) (e : PoolEntry) → After p e (checked failure_threshold cooldown now p e)
  unfolding checked
  checked-After p e = elim (Bool-cases (is_due cooldown now e)) [
    | inl due ↦ rw due (probed-After p e (is_due-MayProbe e due))
    | inr not_due ↦ rw not_due (left_alone e (not_due-unhealthy e not_due))
  ]

  check_each-EachAfter :
      (probe : ℕ → Probe) (i : ℕ) (entries : List PoolEntry)
      → EachAfter probe i entries (check_each failure_threshold cooldown now probe i entries)
  unfolding check_each
  check_each-EachAfter probe i [] = none_left i
  check_each-EachAfter probe i (e ∷ entries) =
      entry i e _ entries _ (checked-After (probe i) e) (check_each-EachAfter probe (i + 1) entries)

-- In a pass every entry that is not unhealthy takes the answer to its own probe: it is healthy at
-- the time of an answer, with no failures; without an answer it has one failure more, and is
-- unhealthy where the failures reach the threshold. An unhealthy entry that was healthy less than
-- the cooldown ago is left as it is, and any other either is too or takes the answer.
pub health_check_all-EachAfter :
    (now : ℕ) (probe : ℕ → Probe) (pool : DogtagPool)
    → EachAfter pool.failure_threshold pool.cooldown now probe 0 pool.entries
        (health_check_all now probe pool).entries
health_check_all-EachAfter now probe pool =
    rw (ap (λ (q : DogtagPool). q.entries) (health_check_all-check_each now probe pool))
      (check_each-EachAfter pool.failure_threshold pool.cooldown now probe 0 pool.entries)
