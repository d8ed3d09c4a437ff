-- ===== src/Grpc/Value/Convert/Timestamps.antt =====
-- Instants on the wire, the `Timestamp` cases of the conversions in daml-grpc/src/data/value/values.rs:
-- one direction counts seconds, the other microseconds.
use rust_daml_bindings.Base.{
  ℕ, ◌*◌, ◌/◌, ◌≡◌, ◌≢◌, arith, ok, some, >>=-eq-ok, ok_inj, ok_or-eq-ok, subst, sym,
}
use rust_daml_bindings.Base.Int.{ℤ, pos, negsuc, div_euclid, rem_euclid}
use rust_daml_bindings.Grpc.External.{External}
use rust_daml_bindings.Grpc.Time.{datetime_from_micros}
use rust_daml_bindings.Grpc.Value.{DamlValue, timestamp}
use rust_daml_bindings.Grpc.Value.Convert.{to_daml, to_value}

-- A million divides only two numbers into themselves.
div_euclid-fixed : (s : ℤ) → s ≢ pos 0 → s ≢ negsuc 0 → div_euclid s 1000000 ≢ s
div_euclid-fixed (pos n) z m e =
    let f : n / 1000000 ≡ n = cc in let g : n ≡ 0 = omega arith in z (rw g)
div_euclid-fixed (negsuc n) z m e =
    let f : n / 1000000 ≡ n = cc in let g : n ≡ 0 = omega arith in m (rw g)

timestamp_inj :
    {x : External} {t d : x.DateTime} → ◌≡◌ {A = DamlValue x} (timestamp t) (timestamp d) → t ≡ d
timestamp_inj e = cc

-- An instant read from microseconds stands in the second that they are in.
datetime_from_micros-second :
    (x : External)
    (law : (s : ℤ) (n : ℕ) (d : x.DateTime) → x.from_timestamp s n ≡ some d → x.timestamp d ≡ s)
    → (s : ℤ) (t : x.DateTime) → datetime_from_micros x s ≡ ok t
    → x.timestamp t ≡ div_euclid s 1000000
unfolding datetime_from_micros
datetime_from_micros-second x law s t h =
    law (div_euclid s 1000000) (rem_euclid s 1000000 * 1000) t (ok_or-eq-ok _ _ h)

-- Where the library makes an instant that stands in the second asked for, an instant that is not in
-- the second 0 or -1 is not read back from the value that it is written as.
pub to_daml-to_value-timestamp :
    (x : External)
    (law : (s : ℤ) (n : ℕ) (d : x.DateTime) → x.from_timestamp s n ≡ some d → x.timestamp d ≡ s)
    → (t : x.DateTime) → x.timestamp t ≢ pos 0
    → x.timestamp t ≢ negsuc 0
    → to_daml x (to_value x (timestamp t)) ≢ ok (timestamp t)
unfolding to_daml to_value
to_daml-to_value-timestamp x law t z m e =
    let (d, f, g) = >>=-eq-ok (datetime_from_micros x (x.timestamp t)) (λ t. ok (timestamp t)) e in
    let h = timestamp_inj (ok_inj g) in
    let k = datetime_from_micros-second x law (x.timestamp t) d f in
    div_euclid-fixed (x.timestamp t) z m
      (subst (λ d. div_euclid (x.timestamp t) 1000000 ≡ x.timestamp d) h (sym k))
