-- ===== src/Star/Manager.antt =====
-- `StarManager` of src/star/mod.rs. The map is an association list, and the clock's reading and the
-- new identifier are arguments. The restoring of orders from the database is not modelled.
use kipuka.Common.{
  ℕ, ◌+◌, ◌-◌, ◌*◌, ◌/◌, ◌%◌, min, Bool, true, not, ◌||◌, Option, none, some, List, [], ◌∷◌, String,
  string_eq, length, ltb, leb, ◌==◌, if◌then◌else◌,
}
use kipuka.Common.Dict
use kipuka.Common.Dict.{Dict}
use kipuka.Star.Order.{
  second, u32_mod, u64_mod, ℤ, pos, negsuc, Float, StarConfig, order_not_found, order_cancelled,
  order_expired, max_orders_reached, invalid_interval, lifetime_out_of_bounds, StarResult, ok, err,
  StarCertificate, active, cancelled, completed, expired, is_active, is_cancelled, StarOrder,
  OrderRequest,
}

pub record StarManager (fl : Float) : Type 0 where
  pub orders : Dict String StarOrder
  pub config : StarConfig fl.F

unfoldable pub count_active : Dict String StarOrder → ℕ
count_active [] = 0
count_active ((id, o) ∷ orders) =
    let rest = count_active orders in if is_active o.status then 1 + rest else rest

-- The renewal window before the end of a certificate, `not_after - secs <= now`.
unfoldable pub deadline_passed : ℕ → ℤ → ℕ → Bool
deadline_passed not_after (pos secs) now = leb not_after (now + secs * second)
deadline_passed not_after (negsuc secs) now = leb (not_after + (secs + 1) * second) now

abbrev certificate_of : String → Option StarCertificate → StarResult StarCertificate
certificate_of id none = err (order_not_found id)
certificate_of id (some c) = ok c

-- The order with a new certificate; `timestamp` drops the part of a second.
unfoldable pub renewed : StarOrder → StarCertificate → StarOrder
renewed o cert =
    let stored : StarOrder = record o {
      current_renewals = (o.current_renewals + 1) % u32_mod;
      current_certificate = some cert;
    } in
    if leb (o.lifetime_end / second) (cert.not_after / second)
    then record stored { status = completed }
    else stored

unfoldable pub expired_ids : Dict String StarOrder → ℕ → List String
expired_ids [] now = []
expired_ids ((id, o) ∷ orders) now =
    let rest = expired_ids orders now in if leb o.lifetime_end now then o.id ∷ rest else rest

-- The state of the order is set before it is removed.
unfoldable pub remove_expired : Dict String StarOrder → String → Dict String StarOrder
remove_expired orders id = elim (Dict.get orders id) [
  | none ↦ Dict.remove orders id
  | some o ↦
      let marked = if is_active o.status then record o { status = expired } else o in
      Dict.remove (Dict.insert orders id marked) id
]

unfoldable pub remove_all : Dict String StarOrder → List String → Dict String StarOrder
remove_all orders [] = orders
remove_all orders (id ∷ ids) = remove_all (remove_expired orders id) ids

module _ (fl : Float) where
  unfoldable pub new : StarConfig fl.F → StarManager fl
  new config = record { orders = []; config = config }

  unfoldable pub remove_order : StarManager fl → String → StarManager fl
  remove_order m id = record m { orders = Dict.remove m.orders id }

  unfoldable pub active_order_count : StarManager fl → ℕ
  active_order_count m = count_active m.orders

  -- `div_ceil`, `saturating_add` and the casts of the informational estimate.
  unfoldable pub renewals : fl.F → ℕ → ℕ → ℕ
  renewals factor interval_secs total_secs =
      let spaced = fl.mul (fl.of_u64 interval_secs) (fl.sub fl.one factor) in
      let cadence = fl.as_u64 (fl.max (fl.floor spaced) fl.one) in
      min (min ((total_secs + cadence - 1) / cadence + 1) (u64_mod - 1)) (u32_mod - 1)

  unfoldable pub new_order : StarConfig fl.F → OrderRequest → String → ℕ → StarOrder
  unfolding renewals
  new_order c r id now =
      let total_secs = r.lifetime_days * 86_400 in
      record {
        id = id;
        subject_dn = r.subject_dn;
        key_type = r.key_type;
        profile = r.profile;
        renewal_interval = r.renewal_interval_secs * second;
        lifetime_end = now + total_secs * second;
        max_renewals = renewals c.pre_renewal_factor r.renewal_interval_secs total_secs;
        current_renewals = 0;
        status = active;
        requestor_dn = r.requestor_dn;
        ca_id = r.ca_id;
        csr_der = r.csr_der;
        current_certificate = none;
        created_at = now;
        cancelled_at = none;
      }

  unfoldable pub create_order :
      StarManager fl → OrderRequest → String → ℕ → StarResult StarOrder × StarManager fl
  create_order m r id now =
      if (r.lifetime_days == 0) || ltb m.config.max_lifetime_days r.lifetime_days
      then (err lifetime_out_of_bounds, m)
      else if ltb r.renewal_interval_secs m.config.min_renewal_interval_secs
          || ltb m.config.max_renewal_interval_secs r.renewal_interval_secs
      then (
        err (
            invalid_interval r.renewal_interval_secs m.config.min_renewal_interval_secs
              m.config.max_renewal_interval_secs),
        m,
      )
      else if leb m.config.max_active_orders (active_order_count m)
      then (err (max_orders_reached m.config.max_active_orders), m)
      else let order = new_order m.config r id now in
        (ok order, record m { orders = Dict.insert m.orders id order })

  unfoldable pub get_current_certificate : StarManager fl → String → ℕ → StarResult StarCertificate
  get_current_certificate m id now = elim (Dict.get m.orders id) [
    | none ↦ err (order_not_found id)
    | some o ↦ if leb o.lifetime_end now then err (order_expired id) else elim o.status [
      | cancelled ↦ err (order_cancelled id)
      | expired ↦ err (order_expired id)
      | active ↦ certificate_of id o.current_certificate
      | completed ↦ certificate_of id o.current_certificate
    ]
  ]

  abbrev put : StarManager fl → String → StarOrder → StarManager fl
  put m id o = record m { orders = Dict.insert m.orders id o }

  unfoldable pub store_renewed_certificate :
      StarManager fl → String → StarCertificate → StarResult (Unit {0}) × StarManager fl
  store_renewed_certificate m id cert = elim (Dict.get m.orders id) [
    | none ↦ (err (order_not_found id), m)
    | some o ↦ elim o.status [
      | cancelled ↦ (err (order_cancelled id), m)
      | expired ↦ (err (order_expired id), m)
      | active ↦ (ok tt, put m id (renewed o cert))
      | completed ↦ (ok tt, put m id (renewed o cert))
    ]
  ]

  -- An order that is completed or expired is warned of, and cancelled all the same.
  unfoldable pub cancel_order : StarManager fl → String → ℕ → StarResult (Unit {0}) × StarManager fl
  cancel_order m id now = elim (Dict.get m.orders id) [
    | none ↦ (err (order_not_found id), m)
    | some o ↦
        if is_cancelled o.status
        then (ok tt, m)
        else (ok tt, put m id (record o { status = cancelled; cancelled_at = some now }))
  ]

  unfoldable pub cleanup_expired : StarManager fl → ℕ → ℕ × StarManager fl
  cleanup_expired m now =
      let ids = expired_ids m.orders now in
      (length ids, record m { orders = remove_all m.orders ids })

  unfoldable pub should_renew : fl.F → StarOrder → ℕ → Bool
  should_renew factor o now = elim o.current_certificate [
    | none ↦ true
    | some cert ↦
        let pre_renewal_secs =
          fl.as_i64 (fl.mul (fl.of_u64 (o.renewal_interval / second)) factor) in
        deadline_passed cert.not_after pre_renewal_secs now
  ]

  unfoldable pub needing_renewal : fl.F → Dict String StarOrder → ℕ → List String
  needing_renewal factor [] now = []
  needing_renewal factor ((id, o) ∷ orders) now =
      let rest = needing_renewal factor orders now in
      if not (is_active o.status) || leb o.lifetime_end now
      then rest
      else if should_renew factor o now
      then o.id ∷ rest
      else rest

  unfoldable pub orders_needing_renewal_at : StarManager fl → ℕ → List String
  unfolding needing_renewal
  orders_needing_renewal_at m now = needing_renewal m.config.pre_renewal_factor m.orders now

  unfoldable pub get_order : StarManager fl → String → Option StarOrder
  get_order m id = Dict.get m.orders id

-- One call of the manager.
pub data Op : Type 0 where
  creates : (r : OrderRequest) (id : String) → Op
  stores : (id : String) (cert : StarCertificate) → Op
  cancels removes : (id : String) → Op
  cleans : Op

module _ (fl : Float) where
  unfoldable pub step : StarManager fl → Op → ℕ → StarManager fl
  step m (creates r id) now = (create_order fl m r id now).1
  step m (stores id cert) now = (store_renewed_certificate fl m id cert).1
  step m (cancels id) now = (cancel_order fl m id now).1
  step m (removes id) now = remove_order fl m id
  step m cleans now = (cleanup_expired fl m now).1

  -- A history of calls, each with its time.
  unfoldable pub run_ops : StarManager fl → List (Op × ℕ) → StarManager fl
  unfolding step
  run_ops m [] = m
  run_ops m ((op, now) ∷ ops) = run_ops (step m op now) ops
