-- ===== src/Star/Cancel.antt =====
-- A cancelled order stays cancelled (src/star/mod.rs).
use text.Mathlib.TextEquality.{eq_iff}
use kipuka.Common.{
  ℕ, ◌<◌, ◌≡◌, ◌≢◌, some, List, [], ◌∷◌, String, string_eq, arith, if◌then◌else◌, Option-cases, inl,
  inr,
}
use kipuka.Common.Dict
use kipuka.Common.Dict.{Dict, get-insert, get-remove}
use kipuka.Star.Order.{
  Float, StarOrder, StarCertificate, ok, err, order_cancelled, OrderRequest, is_active, cancelled,
  completed, expired, is_cancelled,
}
use kipuka.Star.Manager.{
  StarManager, Op, creates, stores, cancels, removes, cleans, new_order, create_order, remove_order,
  store_renewed_certificate, cancel_order, cleanup_expired, get_current_certificate, expired_ids,
  remove_expired, remove_all, step, run_ops, renewed,
}

get-remove_expired :
    (d : Dict String StarOrder) (j i : String) (o : StarOrder)
    → Dict.get (remove_expired d j) i ≡ some o
    → Dict.get d i ≡ some o
unfolding remove_expired
get-remove_expired d j i o e = elim (Option-cases (Dict.get d j)) [
  | inl n ↦ ground (arith, n, e, get-remove d j i)
  | inr (q, g) ↦
      let marked = if is_active q.status then record q { status = expired } else q in
      ground (arith, g, e, get-remove (Dict.insert d j marked) j i, get-insert d j i marked)
]

pub get-remove_all :
    (d : Dict String StarOrder) (ids : List String) (i : String) (o : StarOrder)
    → Dict.get (remove_all d ids) i ≡ some o
    → Dict.get d i ≡ some o
unfolding remove_all
get-remove_all d [] i o e = e
get-remove_all d (j ∷ ids) i o e =
    get-remove_expired d j i o (get-remove_all (remove_expired d j) ids i o e)

-- No order of the id is created.
abbrev pub Spares : String → List (Op × ℕ) → Type 0
Spares id [] = Unit {0}
Spares id ((creates r j, now) ∷ ops) = (j ≢ id) × Spares id ops
Spares id ((stores j cert, now) ∷ ops) = Spares id ops
Spares id ((cancels j, now) ∷ ops) = Spares id ops
Spares id ((removes j, now) ∷ ops) = Spares id ops
Spares id ((cleans, now) ∷ ops) = Spares id ops

module _ (fl : Float) (id : String) where
  -- The order is cancelled, or it is not there any more.
  record IsStopped (m : StarManager fl) : Type 0 where
    stopped : (o : StarOrder) → Dict.get m.orders id ≡ some o → o.status ≡ cancelled

  create_order-IsStopped :
      (m : StarManager fl) (r : OrderRequest) (j : String) (now : ℕ)
      → j ≢ id
      → IsStopped m
      → IsStopped (create_order fl m r j now).1
  unfolding create_order
  create_order-IsStopped m r j now ne v = record {
    stopped = λ o e. v.stopped o (
        ground
          (arith, e, get-insert m.orders j id (new_order fl m.config r j now), eq_iff j id, ne));
  }

  store-IsStopped :
      (m : StarManager fl) (j : String) (cert : StarCertificate)
      → IsStopped m
      → IsStopped (store_renewed_certificate fl m j cert).1
  unfolding store_renewed_certificate
  store-IsStopped m j cert v = elim (Option-cases (Dict.get m.orders j)) [
    | inl n ↦ rw (n, store_renewed_certificate) v
    | inr (q, g) ↦ record {
      stopped = λ o e. ground (
        arith,
        g,
        e,
        v.stopped o,
        v.stopped q,
        get-insert m.orders j id (renewed q cert),
        eq_iff j id,
      );
    }
  ]

  cancel_order-IsStopped :
      (m : StarManager fl) (j : String) (now : ℕ)
      → IsStopped m
      → IsStopped (cancel_order fl m j now).1
  unfolding cancel_order
  cancel_order-IsStopped m j now v = elim (Option-cases (Dict.get m.orders j)) [
    | inl n ↦ rw (n, cancel_order) v
    | inr (q, g) ↦
        let q' = record q { status = cancelled; cancelled_at = some now } in
        record { stopped = λ o e. ground (arith, g, e, v.stopped o, get-insert m.orders j id q') }
  ]

  run_ops-IsStopped :
      (m : StarManager fl) (ops : List (Op × ℕ))
      → Spares id ops
      → IsStopped m
      → IsStopped (run_ops fl m ops)
  unfolding run_ops step remove_order cleanup_expired
  run_ops-IsStopped m [] h v = v
  run_ops-IsStopped m ((creates r j, now) ∷ ops) h v =
      run_ops-IsStopped (create_order fl m r j now).1 ops h.1
        (create_order-IsStopped m r j now h.0 v)
  run_ops-IsStopped m ((stores j cert, now) ∷ ops) h v =
      run_ops-IsStopped (store_renewed_certificate fl m j cert).1 ops h (store-IsStopped m j cert v)
  run_ops-IsStopped m ((cancels j, now) ∷ ops) h v =
      run_ops-IsStopped (cancel_order fl m j now).1 ops h (cancel_order-IsStopped m j now v)
  run_ops-IsStopped m ((removes j, now) ∷ ops) h v =
      run_ops-IsStopped (remove_order fl m j) ops h
        (record { stopped = λ o e. v.stopped o (ground (arith, e, get-remove m.orders j id)) })
  run_ops-IsStopped m ((cleans, now) ∷ ops) h v =
      run_ops-IsStopped (cleanup_expired fl m now).1 ops h (record {
        stopped = λ o e. v.stopped o (get-remove_all m.orders (expired_ids m.orders now) id o e);
      })

  cancel_order-stops : (m : StarManager fl) (now : ℕ) → IsStopped (cancel_order fl m id now).1
  unfolding cancel_order is_cancelled
  cancel_order-stops m now = elim (Option-cases (Dict.get m.orders id)) [
    | inl n ↦ record { stopped = λ o e. absurd (ground (arith, n, e)) }
    | inr (q, g) ↦
        let q' = record q { status = cancelled; cancelled_at = some now } in
        record { stopped = λ o e. ground (arith, g, e, get-insert m.orders id id q', eq_iff id id) }
  ]

  no_certificate :
      (m : StarManager fl) (at : ℕ) {c : StarCertificate}
      → IsStopped m
      → get_current_certificate fl m id at ≢ ok c
  unfolding get_current_certificate
  no_certificate m at v = elim (Option-cases (Dict.get m.orders id)) [
    | inl n ↦ ground (arith, n)
    | inr (q, g) ↦ ground (arith, g, v.stopped q g)
  ]

  no_renewal :
      (m : StarManager fl) (cert : StarCertificate)
      → IsStopped m
      → (store_renewed_certificate fl m id cert).0 ≢ ok tt
  unfolding store_renewed_certificate
  no_renewal m cert v = elim (Option-cases (Dict.get m.orders id)) [
    | inl n ↦ ground (arith, n)
    | inr (q, g) ↦ ground (arith, g, v.stopped q g)
  ]

  -- Cancellation is final: once an order is cancelled, after any calls, of which none creates an
  -- order of the same id, no certificate of it is handed out and none is stored.
  pub cancelled_is_final :
      (m : StarManager fl) (now : ℕ) (ops : List (Op × ℕ)) (at : ℕ) (c cert : StarCertificate)
      → Spares id ops
      → (get_current_certificate fl (run_ops fl (cancel_order fl m id now).1 ops) id at ≢ ok c)
        × ((store_renewed_certificate fl (run_ops fl (cancel_order fl m id now).1 ops) id cert).0
            ≢ ok tt)
  cancelled_is_final m now ops at c cert h =
      let m' = run_ops fl (cancel_order fl m id now).1 ops in
      let v = run_ops-IsStopped (cancel_order fl m id now).1 ops h (cancel_order-stops m now) in
      (no_certificate m' at v, no_renewal m' cert v)

  -- An order that is completed is not exempt: cancelling it succeeds, and until its end it is then
  -- reported as cancelled.
  pub cancel_order_completed :
      (m : StarManager fl) (now at : ℕ) (o : StarOrder)
      → Dict.get m.orders id ≡ some o
      → o.status ≡ completed
      → at < o.lifetime_end
      → ((cancel_order fl m id now).0 ≡ ok tt)
        × (get_current_certificate fl (cancel_order fl m id now).1 id at ≡ err (order_cancelled id))
  unfolding cancel_order is_cancelled get_current_certificate
  cancel_order_completed m now at o g s h =
      let o' = record o { status = cancelled; cancelled_at = some now } in
      ground (arith, g, s, get-insert m.orders id id o', eq_iff id id)
