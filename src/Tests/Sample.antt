-- ===== src/Tests/Sample.antt =====
-- Small stand-ins for the libraries: decimals are their texts, instants are whole seconds, and the
-- calendar has the epoch and the day after it.

use rust_daml_bindings.Base.{
  ℕ, ◌≡◌, ◌≤◌, refl, arith, String, Bool, true, false, Option, none, some, ok, ◌==◌, if◌then◌else◌,
}
use rust_daml_bindings.Base.Int.{ℤ, pos, negsuc, pos_part, neg_part, compare_ℤ, ◌-ℤ◌}
use rust_daml_bindings.Grpc.External.{External}
use rust_daml_bindings.Grpc.Time.Laws.{IsCalendar}
use rust_daml_bindings.Grpc.Value.Order.{compare_text, compare_bool}
use rust_daml_bindings.Grpc.Value.Order.Laws.{IsOrdered, reverse, compare_text-flip, compare_ℤ-flip}

-- The day after the epoch is `true`.
abbrev pub day_number : Bool → ℤ
day_number false = pos 719163
day_number true = pos 719164

abbrev pub day_at : ℤ → Option Bool
day_at (pos n) = if n == 719163 then some false else if n == 719164 then some true else none
day_at (negsuc n) = none

abbrev pub sample : External
sample = record {
  Numeric = String;
  numeric_from_str = λ s. ok s;
  to_plain_string = λ s. s;
  compare_numeric = compare_text;
  DateTime = ℤ;
  from_timestamp = λ s n. if n == 0 then some s else none;
  timestamp = λ t. t;
  nanosecond = λ t. 0;
  compare_datetime = compare_ℤ;
  NaiveDate = Bool;
  epoch = false;
  num_days_from_ce = day_number;
  from_num_days_from_ce_opt = day_at;
  days_since = λ d e. day_number d -ℤ day_number e;
  compare_date = compare_bool;
}

day_at-day_number : (d : Bool) → day_at (day_number d) ≡ some d
day_at-day_number false = refl
day_at-day_number true = refl

day_number-above : (d : Bool) → pos_part (day_number d) ≤ 100000000
day_number-above false = omega arith
day_number-above true = omega arith

day_number-below : (d : Bool) → neg_part (day_number d) ≤ 100000000
day_number-below false = omega arith
day_number-below true = omega arith

pub sample-IsCalendar : IsCalendar sample
sample-IsCalendar = record {
  from_timestamp-timestamp = λ t. refl;
  nanosecond_bound = λ t. omega arith;
  from_num_days = day_at-day_number;
  days_since_lem = λ d e. refl;
  days_above = day_number-above;
  days_below = day_number-below;
  epoch_day = refl;
}

compare_bool-flip : (a b : Bool) → compare_bool b a ≡ reverse (compare_bool a b)
unfolding compare_bool
compare_bool-flip false false = refl
compare_bool-flip false true = refl
compare_bool-flip true false = refl
compare_bool-flip true true = refl

pub sample-IsOrdered : IsOrdered sample
sample-IsOrdered = record {
  numeric_flip = compare_text-flip;
  datetime_flip = compare_ℤ-flip;
  date_flip = compare_bool-flip;
}

-- An instant that is made stands in the second asked for.
pub sample-seconds :
    (s : ℤ) (n : ℕ) (t : ℤ) → sample.from_timestamp s n ≡ some t → sample.timestamp t ≡ s
sample-seconds s n t h = ground arith
