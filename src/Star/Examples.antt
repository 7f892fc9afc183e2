-- ===== src/Star/Examples.antt =====
-- Runs of the STAR manager (src/star/mod.rs), and its theorems at concrete inputs. `f64` is
-- instantiated by natural numbers.
use kipuka.Common.{
  some, ℕ, ◌-◌, ◌*◌, ◌≤◌, ◌≡◌, ◌≢◌, refl, arith, none, [], ◌∷◌, string_eq, leb, if◌then◌else◌, In,
}
use kipuka.Common.Dict
use kipuka.Star.Order.{
  Float, StarConfig, pos, StarOrder, StarCertificate, OrderRequest, ok, err, max_orders_reached,
  is_active,
}
use kipuka.Star.Manager.{
  StarManager, new, new_order, create_order, active_order_count, count_active, cancel_order,
  get_current_certificate, store_renewed_certificate, orders_needing_renewal_at, run_ops, creates,
  stores, cancels, cleans,
}
use kipuka.Star.Bound.{active_order_count_le}
use kipuka.Star.Cancel.{cancelled_is_final}
use kipuka.Star.Renewal.{orders_needing_renewal_at-In}

abbrev naturals : Float
naturals = record {
  F = ℕ;
  one = 1;
  of_u64 = λ n. n;
  sub = λ m n. m - n;
  mul = λ m n. m * n;
  floor = λ n. n;
  max = λ m n. if leb m n then n else m;
  as_u64 = λ n. n;
  as_i64 = pos;
}

abbrev config : StarConfig ℕ
config = record {
  min_renewal_interval_secs = 3600;
  max_renewal_interval_secs = 604_800;
  max_lifetime_days = 365;
  max_active_orders = 1;
  pre_renewal_factor = 0;
}

abbrev request : OrderRequest
request = record {
  subject_dn = "CN=host";
  key_type = "rsa:2048";
  profile = "tls";
  renewal_interval_secs = 3600;
  lifetime_days = 1;
  ca_id = "ca";
  csr_der = 1 ∷ [];
  requestor_dn = none;
}

abbrev cert : StarCertificate
cert = record {
  certificate_der = 2 ∷ [];
  serial_number = "01";
  not_before = 0;
  not_after = 3_600_000_000_000;
  renewal_number = 1;
  star_order_id = "a";
}

abbrev order : StarOrder
order = new_order naturals config request "a" 0

abbrev manager : StarManager naturals
manager = record { orders = ("a", order) ∷ []; config = config }

abbrev certified : StarOrder
certified = record order { current_certificate = some cert }

abbrev early_manager : StarManager naturals
early_manager = record {
  orders = ("a", certified) ∷ [];
  config = record config { pre_renewal_factor = 1 };
}

create_order_first : create_order naturals (new naturals config) request "a" 0 ≡ (ok order, manager)
unfolding create_order active_order_count count_active new Dict.insert
create_order_first = refl

create_order_limit : (create_order naturals manager request "b" 5).0 ≡ err (max_orders_reached 1)
unfolding create_order active_order_count count_active new_order is_active
create_order_limit = refl

active_order_count_le_example :
    active_order_count naturals (
      run_ops naturals (new naturals config) (
        (creates request "a", 0)
        ∷ (creates request "b", 1)
        ∷ (cancels "a", 2)
        ∷ (creates request "b", 3)
        ∷ (cleans, 4)
        ∷ []))
    ≤ 1
active_order_count_le_example = active_order_count_le naturals config (
    (creates request "a", 0)
    ∷ (creates request "b", 1)
    ∷ (cancels "a", 2)
    ∷ (creates request "b", 3)
    ∷ (cleans, 4)
    ∷ [])

cancelled_is_final_example :
    (get_current_certificate naturals
        (run_ops naturals (cancel_order naturals manager "a" 5).1 ((stores "a" cert, 6) ∷ []))
        "a"
        7
      ≢ ok cert)
    × ((store_renewed_certificate naturals
          (run_ops naturals (cancel_order naturals manager "a" 5).1 ((stores "a" cert, 6) ∷ []))
          "a"
          cert).0
        ≢ ok tt)
cancelled_is_final_example =
    cancelled_is_final naturals "a" manager 5 ((stores "a" cert, 6) ∷ []) 7 cert cert tt

-- The certificate ends in an hour, and the renewal window is an hour.
orders_needing_renewal_at-In_example :
    In certified.id (orders_needing_renewal_at naturals early_manager 9)
unfolding Dict.get new_order
orders_needing_renewal_at-In_example =
    orders_needing_renewal_at-In naturals early_manager 3600 "a" certified 9 refl refl refl
      (omega arith) (omega arith)
