-- ===== src/Star/Bound.antt =====
-- The limit on active orders (src/star/mod.rs).
use kipuka.Common.{
  ℕ, ◌+◌, ◌≤◌, false, ◌≡◌, refl, ap, some, List, [], ◌∷◌, String, string_eq, arith, if◌then◌else◌,
  Option-cases, inl, inr,
}
use kipuka.Common.Dict
use kipuka.Common.Dict.{Dict}
use kipuka.Star.Order.{
  Float, StarConfig, StarOrder, StarCertificate, OrderRequest, is_active, cancelled, expired,
}
use kipuka.Star.Manager.{
  StarManager, Op, creates, stores, cancels, removes, cleans, count_active, active_order_count, new,
  new_order, create_order, remove_order, store_renewed_certificate, cancel_order, cleanup_expired,
  renewed, expired_ids, remove_expired, remove_all, step, run_ops,
}

count_active-insert-le :
    (d : Dict String StarOrder) (id : String) (o : StarOrder)
    → count_active (Dict.insert d id o) ≤ count_active d + 1
unfolding count_active Dict.insert
count_active-insert-le [] id o = ground arith
count_active-insert-le ((j, q) ∷ d) id o = ground (arith, count_active-insert-le d id o)

-- An order that takes the place of one adds none, unless it is active and the other was not.
count_active-insert :
    (d : Dict String StarOrder) (id : String) (q o : StarOrder)
    → Dict.get d id ≡ some q
    → (is_active q.status ≡ false → is_active o.status ≡ false)
    → count_active (Dict.insert d id o) ≤ count_active d
unfolding count_active Dict.insert Dict.get
count_active-insert [] id q o e h = cc
count_active-insert ((j, p) ∷ d) id q o e h = ground (arith, count_active-insert d id q o, h)

count_active-remove :
    (d : Dict String StarOrder) (id : String) → count_active (Dict.remove d id) ≤ count_active d
unfolding count_active Dict.remove
count_active-remove [] id = omega arith
count_active-remove ((j, q) ∷ d) id = ground (arith, count_active-remove d id)

marked_inactive :
    (o : StarOrder)
    → is_active o.status ≡ false
    → is_active (if is_active o.status then record o { status = expired } else o).status ≡ false
marked_inactive o h = ground arith

count_active-remove_expired :
    (d : Dict String StarOrder) (id : String) → count_active (remove_expired d id) ≤ count_active d
unfolding remove_expired
count_active-remove_expired d id = elim (Option-cases (Dict.get d id)) [
  | inl n ↦ rw (n, remove_expired) (count_active-remove d id)
  | inr (o, g) ↦
      let marked = if is_active o.status then record o { status = expired } else o in
      let kept = count_active-insert d id o marked g (marked_inactive o) in
      rw (g, remove_expired) (omega (arith, count_active-remove (Dict.insert d id marked) id, kept))
]

count_active-remove_all :
    (d : Dict String StarOrder) (ids : List String)
    → count_active (remove_all d ids) ≤ count_active d
unfolding remove_all
count_active-remove_all d [] = omega arith
count_active-remove_all d (id ∷ ids) =
    omega
      (arith, count_active-remove_all (remove_expired d id) ids, count_active-remove_expired d id)

renewed-active :
    (o : StarOrder) (cert : StarCertificate)
    → is_active o.status ≡ false
    → is_active (renewed o cert).status ≡ false
unfolding renewed is_active
renewed-active o cert h = ground arith

module _ (fl : Float) where
  -- The active orders are within the limit, which is the configured one.
  record IsWithin (c : StarConfig fl.F) (m : StarManager fl) : Type 0 where
    config : m.config ≡ c
    bounded : count_active m.orders ≤ c.max_active_orders

  create_order-IsWithin :
      (c : StarConfig fl.F) (m : StarManager fl) (r : OrderRequest) (id : String) (now : ℕ)
      → IsWithin c m
      → IsWithin c (create_order fl m r id now).1
  unfolding create_order active_order_count
  create_order-IsWithin c m r id now v = record {
    config = ground (arith, v.config);
    bounded =
        let insert = count_active-insert-le m.orders id (new_order fl m.config r id now) in
        let limit : m.config.max_active_orders ≡ c.max_active_orders =
          ap (λ (x : StarConfig fl.F). x.max_active_orders) v.config in
        ground (arith, v.bounded, insert, limit);
  }

  store-IsWithin :
      (c : StarConfig fl.F) (m : StarManager fl) (id : String) (cert : StarCertificate)
      → IsWithin c m
      → IsWithin c (store_renewed_certificate fl m id cert).1
  unfolding store_renewed_certificate
  store-IsWithin c m id cert v = elim (Option-cases (Dict.get m.orders id)) [
    | inl n ↦ rw (n, store_renewed_certificate) v
    | inr (o, g) ↦
        let insert = count_active-insert m.orders id o (renewed o cert) g (renewed-active o cert) in
        record {
          config = ground (arith, g, v.config);
          bounded = ground (arith, g, v.bounded, insert);
        }
  ]

  cancel_order-IsWithin :
      (c : StarConfig fl.F) (m : StarManager fl) (id : String) (now : ℕ)
      → IsWithin c m
      → IsWithin c (cancel_order fl m id now).1
  unfolding cancel_order is_active
  cancel_order-IsWithin c m id now v = elim (Option-cases (Dict.get m.orders id)) [
    | inl n ↦ rw (n, cancel_order) v
    | inr (o, g) ↦
        let o' = record o { status = cancelled; cancelled_at = some now } in
        let insert = count_active-insert m.orders id o o' g (λ h. refl) in
        record {
          config = ground (arith, g, v.config);
          bounded = ground (arith, g, v.bounded, insert);
        }
  ]

  step-IsWithin :
      (c : StarConfig fl.F) (m : StarManager fl) (op : Op) (now : ℕ)
      → IsWithin c m
      → IsWithin c (step fl m op now)
  unfolding step remove_order cleanup_expired
  step-IsWithin c m (creates r id) now v = create_order-IsWithin c m r id now v
  step-IsWithin c m (stores id cert) now v = store-IsWithin c m id cert v
  step-IsWithin c m (cancels id) now v = cancel_order-IsWithin c m id now v
  step-IsWithin c m (removes id) now v = record {
    config = v.config;
    bounded = omega (arith, count_active-remove m.orders id, v.bounded);
  }
  step-IsWithin c m cleans now v = record {
    config = v.config;
    bounded = omega (arith, count_active-remove_all m.orders (expired_ids m.orders now), v.bounded);
  }

  run_ops-IsWithin :
      (c : StarConfig fl.F) (m : StarManager fl) (ops : List (Op × ℕ))
      → IsWithin c m
      → IsWithin c (run_ops fl m ops)
  unfolding run_ops
  run_ops-IsWithin c m [] v = v
  run_ops-IsWithin c m ((op, now) ∷ ops) v =
      run_ops-IsWithin c (step fl m op now) ops (step-IsWithin c m op now v)

  -- After any history of calls of a new manager no more orders are active than are configured.
  pub active_order_count_le :
      (c : StarConfig fl.F) (ops : List (Op × ℕ))
      → active_order_count fl (run_ops fl (new fl c) ops) ≤ c.max_active_orders
  unfolding active_order_count new count_active
  active_order_count_le c ops =
      (run_ops-IsWithin c (new fl c) ops (record { config = refl; bounded = omega arith })).bounded
