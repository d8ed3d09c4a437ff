-- ===== src/Grpc/External.antt =====
-- The libraries bigdecimal and chrono, as the crate daml-grpc uses them.
use Prim.Native.Nat.{Ordering}
use rust_daml_bindings.Base.{ℕ, String, Option, Result}
use rust_daml_bindings.Base.Int.{ℤ}

pub record External : Type 1 where
  -- `BigDecimal`, a decimal number.
  pub Numeric : Type 0
  pub numeric_from_str : String → Result String Numeric
  pub to_plain_string : Numeric → String
  pub compare_numeric : Numeric → Numeric → Ordering
  -- `DateTime<Utc>`: `from_timestamp`, `timestamp`, `nanosecond` and `cmp`.
  pub DateTime : Type 0
  pub from_timestamp : ℤ → ℕ → Option DateTime
  pub timestamp : DateTime → ℤ
  pub nanosecond : DateTime → ℕ
  pub compare_datetime : DateTime → DateTime → Ordering
  -- `NaiveDate`: `from_ymd_opt(1970, 1, 1)`, `num_days_from_ce`, `from_num_days_from_ce_opt`,
  -- `signed_duration_since(…).num_days()` and `cmp`.
  pub NaiveDate : Type 0
  pub epoch : NaiveDate
  pub num_days_from_ce : NaiveDate → ℤ
  pub from_num_days_from_ce_opt : ℤ → Option NaiveDate
  pub days_since : NaiveDate → NaiveDate → ℤ
  pub compare_date : NaiveDate → NaiveDate → Ordering
