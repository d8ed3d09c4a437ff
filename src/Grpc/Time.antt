-- ===== src/Grpc/Time.antt =====
-- Dates, instants and durations on the wire, daml-grpc/src/util.rs.
pub mod Laws
use Prim.Native.String.{◌++◌}
use rust_daml_bindings.Base.{
  ℕ, ◌+◌, ◌*◌, ◌/◌, ◌%◌, String, Option, none, some, Result, ok, err, ◌>>=◌, ok_or, ltb,
  if◌then◌else◌,
}
use rust_daml_bindings.Base.Int.{
  ℤ, pos, negsuc, to_unsigned, div_euclid, rem_euclid, show_ℤ, show_ℕ, checked_add_i32, wrap_i32,
}
use rust_daml_bindings.Grpc.Error.{DamlError, DamlResult, failed_conversion}
use rust_daml_bindings.Grpc.External.{External}

-- The protobuf messages `google.protobuf.Timestamp` and `Duration`.
pub record WireTime : Type 0 where
  pub seconds : ℤ
  pub nanos : ℤ

-- `std::time::Duration::new(secs, nanos)`: whole seconds in `nanos` are carried; it panics where the
-- seconds overflow.
pub record Duration : Type 0 where
  pub secs : ℕ
  pub subsec_nanos : ℕ

-- `try_from` into i32 and i64 of an unsigned number, with the text of the error.
abbrev conversion_text : String
conversion_text = "out of range integral type conversion attempted"

abbrev pub try_i32 : ℕ → DamlResult ℤ
try_i32 n = if ltb n 2147483648 then ok (pos n) else err (failed_conversion conversion_text)

abbrev pub try_i64 : ℕ → DamlResult ℤ
try_i64 n =
    if ltb n 9223372036854775808 then ok (pos n) else err (failed_conversion conversion_text)

module _ (x : External) where
  open x use {
    DateTime, from_timestamp, timestamp, nanosecond, NaiveDate, epoch, num_days_from_ce,
    from_num_days_from_ce_opt, days_since,
  }

  unfoldable pub from_grpc_timestamp : WireTime → DamlResult DateTime
  from_grpc_timestamp t = elim (to_unsigned t.nanos) [
    | none ↦ err (failed_conversion ("negative nanos " ++ show_ℤ t.nanos))
    | some nanos ↦
        ok_or
          (failed_conversion
            ("timestamp (" ++ (show_ℤ t.seconds ++ (", " ++ (show_ℕ nanos ++ ") out of range")))))
          (from_timestamp t.seconds nanos)
  ]

  unfoldable pub to_grpc_timestamp : DateTime → DamlResult WireTime
  to_grpc_timestamp d = do
    nanos ← try_i32 (nanosecond d)
    ok (record { seconds = timestamp d; nanos = nanos })

  unfoldable pub date_from_days : ℤ → DamlResult NaiveDate
  date_from_days days = do
    offset ←
        ok_or (failed_conversion ("date from days " ++ (show_ℤ days ++ " overflowed i32")))
          (checked_add_i32 days (num_days_from_ce epoch))
    ok_or (failed_conversion ("date from days " ++ (show_ℤ days ++ " out of range")))
        (from_num_days_from_ce_opt offset)

  unfoldable pub datetime_from_micros : ℤ → DamlResult DateTime
  datetime_from_micros micros =
      ok_or (failed_conversion ("datetime from micros " ++ (show_ℤ micros ++ " out of range")))
        (from_timestamp (div_euclid micros 1000000) (rem_euclid micros 1000000 * 1000))

  unfoldable pub days_from_date : NaiveDate → ℤ
  days_from_date d = wrap_i32 (days_since d epoch)

-- `Duration::new`, where the seconds do not overflow.
abbrev new_duration : ℕ → ℕ → Duration
new_duration secs nanos = record {
  secs = secs + nanos / 1000000000;
  subsec_nanos = nanos % 1000000000;
}

unfoldable pub from_grpc_duration : WireTime → DamlResult Duration
from_grpc_duration d = elim (to_unsigned d.seconds) [
  | none ↦ err (failed_conversion ("negative seconds " ++ show_ℤ d.seconds))
  | some secs ↦ elim (to_unsigned d.nanos) [
    | none ↦ err (failed_conversion ("negative nanos " ++ show_ℤ d.nanos))
    | some nanos ↦ ok (new_duration secs nanos)
  ]
]

unfoldable pub to_grpc_duration : Duration → DamlResult WireTime
to_grpc_duration d = do
  seconds ← try_i64 d.secs
  nanos ← try_i32 d.subsec_nanos
  ok (record { seconds = seconds; nanos = nanos })
