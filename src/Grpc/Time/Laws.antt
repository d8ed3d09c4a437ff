-- ===== src/Grpc/Time/Laws.antt =====
-- Round trips of dates, instants and durations, daml-grpc/src/util.rs.
use rust_daml_bindings.Base.{
  ◌+◌, ◌/◌, ◌%◌, ◌≤◌, ◌<◌, ◌≡◌, refl, arith, ok, err, ◌>>=◌, some, ltb, if◌then◌else◌, true,
  Bool-cases, inl, inr,
}
use rust_daml_bindings.Base.Int.{
  ℤ, pos, negsuc, pos_part, neg_part, ◌-ℤ◌, ◌+ℤ◌, in_i32, wrap_i32, checked_add_i32,
}
use rust_daml_bindings.Grpc.External.{External}
use rust_daml_bindings.Grpc.Error.{failed_conversion}
use rust_daml_bindings.Grpc.Time.{
  Duration, try_i32, from_grpc_timestamp, to_grpc_timestamp, date_from_days, days_from_date,
  from_grpc_duration, to_grpc_duration,
}

-- What the library's calendar does: an instant is made of its seconds and its nanoseconds, a date of
-- the number of its day, and the days of all its years (-262143 to 262142) are less than a hundred
-- millions from the first day of the common era, the day 1. The epoch is the day 719163.
pub record IsCalendar (x : External) : Type 0 where
  pub from_timestamp-timestamp :
      (t : x.DateTime) → x.from_timestamp (x.timestamp t) (x.nanosecond t) ≡ some t
  pub nanosecond_bound : (t : x.DateTime) → x.nanosecond t < 2000000000
  pub from_num_days :
      (d : x.NaiveDate) → x.from_num_days_from_ce_opt (x.num_days_from_ce d) ≡ some d
  pub days_since_lem :
      (d e : x.NaiveDate) → x.days_since d e ≡ x.num_days_from_ce d -ℤ x.num_days_from_ce e
  pub days_above : (d : x.NaiveDate) → pos_part (x.num_days_from_ce d) ≤ 100000000
  pub days_below : (d : x.NaiveDate) → neg_part (x.num_days_from_ce d) ≤ 100000000
  pub epoch_day : x.num_days_from_ce x.epoch ≡ pos 719163

wrap_i32-in_i32 : (a : ℤ) → in_i32 a ≡ true → wrap_i32 a ≡ a
unfolding wrap_i32
wrap_i32-in_i32 (pos n) h = ground arith
wrap_i32-in_i32 (negsuc n) h = ground arith

-- A day of the calendar is a day from the epoch and back.
day_back :
    (a : ℤ)
    → pos_part a ≤ 100000000
    → neg_part a ≤ 100000000
    → checked_add_i32 (wrap_i32 (a -ℤ pos 719163)) (pos 719163) ≡ some a
unfolding checked_add_i32 wrap_i32 ◌-ℤ◌ ◌+ℤ◌
day_back (pos n) p q = ground arith
day_back (negsuc n) p q = ground arith

module _ (x : External) (law : IsCalendar x) where
  -- With a calendar as `IsCalendar` says, an instant is read back from the timestamp that it is written as.
  pub timestamp_round_trip :
      (t : x.DateTime) → (to_grpc_timestamp x t >>= from_grpc_timestamp x) ≡ ok t
  unfolding to_grpc_timestamp from_grpc_timestamp
  timestamp_round_trip t =
      let b = law.nanosecond_bound t in
      let f : try_i32 (x.nanosecond t) ≡ ok (pos (x.nanosecond t)) = ground arith in
      rw (f, law.from_timestamp-timestamp t) refl

  -- With a calendar as `IsCalendar` says, a date is read back from the number of days that it is written as.
  pub date_from_days-days_from_date :
      (d : x.NaiveDate) → date_from_days x (days_from_date x d) ≡ ok d
  unfolding date_from_days days_from_date
  date_from_days-days_from_date d =
      rw
        (
          law.days_since_lem d x.epoch,
          law.epoch_day,
          day_back (x.num_days_from_ce d) (law.days_above d) (law.days_below d),
          law.from_num_days d,
        )
        refl

-- A duration whose nanoseconds are below a second is read back from what it is written as where its
-- seconds fit in 63 bits; else the writing fails.
pub duration_round_trip :
    (d : Duration)
    → d.subsec_nanos < 1000000000
    → (to_grpc_duration d >>= from_grpc_duration) ≡ (
        if ltb d.secs 9223372036854775808
        then ok d
        else err (failed_conversion "out of range integral type conversion attempted"))
unfolding to_grpc_duration from_grpc_duration
duration_round_trip d p =
    let f : try_i32 d.subsec_nanos ≡ ok (pos d.subsec_nanos) = ground arith in
    let g : d.subsec_nanos / 1000000000 ≡ 0 = omega arith in
    let h : d.subsec_nanos % 1000000000 ≡ d.subsec_nanos = omega arith in
    let k : d.secs + 0 ≡ d.secs = omega arith in
    elim (Bool-cases (ltb d.secs 9223372036854775808)) [
      | inl e ↦ rw (e, f, g, h, k) refl
      | inr e ↦ rw e refl
    ]
