-- ===== src/Star/Order.antt =====
-- The types of src/star/mod.rs and src/config/star.rs. A time is a number of nanoseconds.
use kipuka.Common.{ℕ, ◌^◌, Bool, true, false, Option, List, String, string_eq}

abbrev pub second : ℕ
second = 1_000_000_000

abbrev pub u32_mod : ℕ
u32_mod = 2 ^ 32

abbrev pub u64_mod : ℕ
u64_mod = 2 ^ 64

-- A signed 64-bit number.
pub data ℤ : Type 0 where
  pos negsuc : ℕ → ℤ

-- The operations of `f64` that the orders use.
pub record Float : Type 1 where
  pub F : Type 0
  pub one : F
  pub of_u64 : ℕ → F
  pub sub : F → F → F
  pub mul : F → F → F
  pub floor : F → F
  pub max : F → F → F
  pub as_u64 : F → ℕ
  pub as_i64 : F → ℤ

pub record StarConfig (F : Type 0) : Type 0 where
  pub min_renewal_interval_secs : ℕ
  pub max_renewal_interval_secs : ℕ
  pub max_lifetime_days : ℕ
  pub max_active_orders : ℕ
  pub pre_renewal_factor : F

pub data StarError : Type 0 where
  order_not_found order_cancelled order_expired : (id : String) → StarError
  max_orders_reached : (limit : ℕ) → StarError
  invalid_interval : (requested min max : ℕ) → StarError
  lifetime_out_of_bounds : StarError

pub data StarResult (A : Type 0) : Type 0 where
  ok : A → StarResult A
  err : StarError → StarResult A

pub record StarCertificate : Type 0 where
  pub certificate_der : List ℕ
  pub serial_number : String
  pub not_before : ℕ
  pub not_after : ℕ
  pub renewal_number : ℕ
  pub star_order_id : String

pub data StarOrderStatus : Type 0 where
  active cancelled completed expired : StarOrderStatus

unfoldable pub is_active : StarOrderStatus → Bool
is_active active = true
is_active cancelled = false
is_active completed = false
is_active expired = false

unfoldable pub is_cancelled : StarOrderStatus → Bool
is_cancelled active = false
is_cancelled cancelled = true
is_cancelled completed = false
is_cancelled expired = false

pub record StarOrder : Type 0 where
  pub id : String
  pub subject_dn : String
  pub key_type : String
  pub profile : String
  pub renewal_interval : ℕ
  pub lifetime_end : ℕ
  pub max_renewals : ℕ
  pub current_renewals : ℕ
  pub status : StarOrderStatus
  pub requestor_dn : Option String
  pub ca_id : String
  pub csr_der : List ℕ
  pub current_certificate : Option StarCertificate
  pub created_at : ℕ
  pub cancelled_at : Option ℕ

-- What a client asks for.
pub record OrderRequest : Type 0 where
  pub subject_dn : String
  pub key_type : String
  pub profile : String
  pub renewal_interval_secs : ℕ
  pub lifetime_days : ℕ
  pub ca_id : String
  pub csr_der : List ℕ
  pub requestor_dn : Option String
