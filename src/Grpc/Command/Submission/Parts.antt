-- ===== src/Grpc/Command/Submission/Parts.antt =====
-- How the parts of a submission are read back, for the laws of daml-grpc/src/data/commands.rs.
use rust_daml_bindings.Base.{
  ◌<◌, ◌≡◌, ◌∙◌, refl, Bool, true, false, ltb, List, [], ◌∷◌, map, map_option, Option, none, some,
  ok, err, ◌>>=◌, >>=-eq-ok, map_results,
}
use rust_daml_bindings.Grpc.Error.{DamlError, DamlResult, req, failed_conversion, other}
use rust_daml_bindings.Grpc.External.{External}
use rust_daml_bindings.Grpc.Identifier.{to_identifier, of_identifier}
use rust_daml_bindings.Grpc.Time.{
  Duration, WireTime, from_grpc_timestamp, to_grpc_timestamp, from_grpc_duration, to_grpc_duration,
}
use rust_daml_bindings.Grpc.Time.Laws.{IsCalendar, timestamp_round_trip, duration_round_trip}
use rust_daml_bindings.Grpc.Value.Convert.{to_daml, to_value}
use rust_daml_bindings.Grpc.Value.Convert.RoundTrip.{
  IsWireSafe, to_daml-to_value, of_identifier-to_identifier,
}
use rust_daml_bindings.Grpc.Command.{DamlCommand, of_command, to_command}
use rust_daml_bindings.Grpc.Command.RoundTrip.{IsCommandSafe, to_command-of_command}
use rust_daml_bindings.Grpc.Command.Proto as Wire
use rust_daml_bindings.Grpc.Command.Submission.{
  DamlMinLedgerTime, absolute, relative, DamlCommandsDeduplicationPeriod, deduplication_offset,
  deduplication_duration, DamlDisclosedContract, DamlPrefetchContractKey, of_period, of_disclosed,
  of_prefetch, min_time_abs, min_time_rel,
}

-- The error of a duration whose seconds do not fit in 63 bits.
abbrev pub overflow : DamlError
overflow = failed_conversion "out of range integral type conversion attempted"

abbrev pub duration_fits : Duration → Bool
duration_fits d = ltb d.secs 9223372036854775808

abbrev pub period_fits : Option DamlCommandsDeduplicationPeriod → Bool
period_fits none = true
period_fits (some (deduplication_offset o)) = true
period_fits (some (deduplication_duration d)) = duration_fits d

-- A duration has less than a second in its nanoseconds.
abbrev pub IsDuration : Duration → Type 0
IsDuration d = d.subsec_nanos < 1000000000

abbrev pub IsPeriodValid : Option DamlCommandsDeduplicationPeriod → Type 0
IsPeriodValid none = Unit
IsPeriodValid (some (deduplication_offset o)) = Unit
IsPeriodValid (some (deduplication_duration d)) = IsDuration d

abbrev pub read_period :
    Option Wire.DeduplicationPeriod → DamlResult (Option DamlCommandsDeduplicationPeriod)
read_period none = ok none
read_period (some (Wire.deduplication_offset o)) = ok (some (deduplication_offset o))
read_period (some (Wire.deduplication_duration w)) =
    from_grpc_duration w >>= λ d. ok (some (deduplication_duration d))

abbrev pub read_disclosed : Wire.DisclosedContract → DamlDisclosedContract
read_disclosed d = record {
  template_id = map_option of_identifier d.template_id;
  contract_id = d.contract_id;
  created_event_blob = d.created_event_blob;
  synchronizer_id = d.synchronizer_id;
}

pub disclosed_back :
    (ds : List DamlDisclosedContract) → map read_disclosed (map of_disclosed ds) ≡ ds
disclosed_back [] = refl
disclosed_back (d ∷ ds) = rw (of_identifier-to_identifier d.template_id, disclosed_back ds) refl

duration_back :
    (d : Duration)
    → IsDuration d
    → duration_fits d ≡ true
    → (w : WireTime) × (to_grpc_duration d ≡ ok w) × (from_grpc_duration w ≡ ok d)
duration_back d p f =
    >>=-eq-ok (to_grpc_duration d) from_grpc_duration (duration_round_trip d p ∙ rw f refl)

duration_overflow : (d : Duration) → duration_fits d ≡ false → to_grpc_duration d ≡ err overflow
unfolding to_grpc_duration
duration_overflow d f = rw f refl

pub period_back :
    (p : Option DamlCommandsDeduplicationPeriod)
    → IsPeriodValid p
    → period_fits p ≡ true
    → (w : Option Wire.DeduplicationPeriod) × (of_period p ≡ ok w) × (read_period w ≡ ok p)
unfolding of_period
period_back none v f = (none, refl, refl)
period_back (some (deduplication_offset o)) v f = (some (Wire.deduplication_offset o), refl, refl)
period_back (some (deduplication_duration d)) v f =
    let (w, g, h) = duration_back d v f in
    (some (Wire.deduplication_duration w), rw g refl, rw h refl)

pub period_overflow :
    (p : Option DamlCommandsDeduplicationPeriod)
    → period_fits p ≡ false
    → of_period p ≡ err overflow
unfolding of_period
period_overflow none f = cc
period_overflow (some (deduplication_offset o)) f = cc
period_overflow (some (deduplication_duration d)) f = rw (duration_overflow d f) refl

module _ {x : External} where
  abbrev pub time_fits : Option (DamlMinLedgerTime x) → Bool
  time_fits none = true
  time_fits (some (absolute t)) = true
  time_fits (some (relative d)) = duration_fits d

  abbrev pub IsTimeValid : Option (DamlMinLedgerTime x) → Type 0
  IsTimeValid none = Unit
  IsTimeValid (some (absolute t)) = Unit
  IsTimeValid (some (relative d)) = IsDuration d

  abbrev pub AreCommandsSafe : List (DamlCommand x) → Type 0
  AreCommandsSafe [] = Unit
  AreCommandsSafe (c ∷ cs) = IsCommandSafe c × AreCommandsSafe cs

  abbrev pub AreKeysSafe : List (DamlPrefetchContractKey x) → Type 0
  AreKeysSafe [] = Unit
  AreKeysSafe (k ∷ ks) = IsWireSafe k.contract_key × AreKeysSafe ks

module _ (x : External) where
  -- The absolute and the relative bound: at most one is there.
  abbrev pub read_time :
      Option WireTime → Option WireTime → DamlResult (Option (DamlMinLedgerTime x))
  read_time none none = ok none
  read_time (some a) none = from_grpc_timestamp x a >>= λ t. ok (some (absolute t))
  read_time none (some r) = from_grpc_duration r >>= λ d. ok (some (relative d))
  read_time (some a) (some r) = err (other "two bounds")

  abbrev pub read_key : Wire.PrefetchContractKey → DamlResult (DamlPrefetchContractKey x)
  read_key k = do
    template_id ← req k.template_id
    key ← req k.contract_key
    contract_key ← to_daml x key
    ok (record {
      template_id = of_identifier template_id;
      contract_key = contract_key;
      limit = k.limit;
    })

  pub time_overflow :
      (m : Option (DamlMinLedgerTime x))
      → time_fits m ≡ false
      → (min_time_abs x m ≡ ok none) × (min_time_rel x m ≡ err overflow)
  unfolding min_time_abs min_time_rel
  time_overflow none f = cc
  time_overflow (some (absolute t)) f = cc
  time_overflow (some (relative d)) f = (refl, rw (duration_overflow d f) refl)

module _ (x : External) (law : IsCalendar x) where
  pub time_back :
      (m : Option (DamlMinLedgerTime x))
      → IsTimeValid m
      → time_fits m ≡ true
      → (a r : Option WireTime) × (min_time_abs x m ≡ ok a)
        × (min_time_rel x m ≡ ok r)
        × (read_time x a r ≡ ok m)
  unfolding min_time_abs min_time_rel
  time_back none v f = (none, none, refl, refl, refl)
  time_back (some (absolute t)) v f =
      let (w, g, h) =
        >>=-eq-ok (to_grpc_timestamp x t) (from_grpc_timestamp x) (timestamp_round_trip x law t) in
      (some w, none, rw g refl, refl, rw h refl)
  time_back (some (relative d)) v f =
      let (w, g, h) = duration_back d v f in (none, some w, refl, rw g refl, rw h refl)

  module _ (numeric_law : (n : x.Numeric) → x.numeric_from_str (x.to_plain_string n) ≡ ok n) where
    pub commands_back :
        (cs : List (DamlCommand x))
        → AreCommandsSafe cs
        → map_results (to_command x) (map (of_command x) cs) ≡ ok cs
    commands_back [] s = refl
    commands_back (c ∷ cs) (s, t) =
        rw (to_command-of_command x law numeric_law c s, commands_back cs t) refl

    pub keys_back :
        (ks : List (DamlPrefetchContractKey x))
        → AreKeysSafe ks
        → (ws : List Wire.PrefetchContractKey) × (map_results (of_prefetch x) ks ≡ ok ws)
          × (map_results (read_key x) ws ≡ ok ks)
    keys_back [] s = ([], refl, refl)
    keys_back (k ∷ ks) (s, t) =
        let (ws, f, g) = keys_back ks t in
        (
          record {
            template_id = some (to_identifier k.template_id);
            contract_key = some (to_value x k.contract_key);
            limit = k.limit;
          }
              ∷ ws,
          rw f refl,
          rw (to_daml-to_value x law numeric_law k.contract_key s, g) refl,
        )
