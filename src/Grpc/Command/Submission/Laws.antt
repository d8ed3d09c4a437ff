-- ===== src/Grpc/Command/Submission/Laws.antt =====
-- A submission comes back from the wire, the conversion of daml-grpc/src/data/commands.rs.
use rust_daml_bindings.Base.{
  ◌≡◌, refl, ◌&&◌, Bool-cases, inl, inr, map, ok, err, ◌>>=◌, map_results, if◌then◌else◌,
}
use rust_daml_bindings.Grpc.Error.{DamlResult}
use rust_daml_bindings.Grpc.External.{External}
use rust_daml_bindings.Grpc.Time.Laws.{IsCalendar}
use rust_daml_bindings.Grpc.Command.{to_command}
use rust_daml_bindings.Grpc.Command.Proto as Wire
use rust_daml_bindings.Grpc.Command.Submission.{DamlCommands, of_commands}
use rust_daml_bindings.Grpc.Command.Submission.Parts.{
  AreCommandsSafe, AreKeysSafe, IsTimeValid, IsPeriodValid, time_fits, period_fits, read_time,
  read_period, read_key, read_disclosed, overflow, time_back, time_overflow, period_back,
  period_overflow, commands_back, keys_back, disclosed_back,
}

-- How a participant reads the message.
abbrev pub read_commands : (x : External) → Wire.Commands → DamlResult (DamlCommands x)
read_commands x w = do
  commands ← map_results (to_command x) w.commands
  time ← read_time x w.min_ledger_time_abs w.min_ledger_time_rel
  period ← read_period w.deduplication_period
  keys ← map_results (read_key x) w.prefetch_contract_keys
  ok (record {
    workflow_id = w.workflow_id;
    user_id = w.user_id;
    command_id = w.command_id;
    submission_id = w.submission_id;
    act_as = w.act_as;
    read_as = w.read_as;
    commands = commands;
    deduplication_period = period;
    min_ledger_time = time;
    disclosed_contracts = map read_disclosed w.disclosed_contracts;
    synchronizer_id = w.synchronizer_id;
    package_id_selection_preference = w.package_id_selection_preference;
    prefetch_contract_keys = keys;
    taps_max_passes = w.taps_max_passes;
  })

-- What a submission must be to come back: its values are `IsWireSafe`, and its durations have less
-- than a second in their nanoseconds.
abbrev pub IsSubmittable : {x : External} → DamlCommands x → Type 0
IsSubmittable d =
    AreCommandsSafe d.commands
    × AreKeysSafe d.prefetch_contract_keys
    × IsTimeValid d.min_ledger_time
    × IsPeriodValid d.deduplication_period

module _ (x : External) (law : IsCalendar x)
    (numeric_law : (n : x.Numeric) → x.numeric_from_str (x.to_plain_string n) ≡ ok n) where
  -- With a calendar as `IsCalendar` says, and where a number is read back from its plain decimal form,
  -- a submission that is `IsSubmittable` is read back from the message that it is written as, where
  -- the seconds of its durations fit in 63 bits; else the writing fails.
  pub of_commands_round_trip :
      (d : DamlCommands x)
      → IsSubmittable d
      → (of_commands x d >>= read_commands x) ≡ (
          if time_fits d.min_ledger_time && period_fits d.deduplication_period
          then ok d
          else err overflow)
  unfolding of_commands
  of_commands_round_trip d (s, k, t, p) = elim (Bool-cases (time_fits d.min_ledger_time)) [
    | inr e ↦ let (f, g) = time_overflow x d.min_ledger_time e in rw (e, f, g) refl
    | inl e ↦
        let (a, r, f, g, h) = time_back x law d.min_ledger_time t e in
        elim (Bool-cases (period_fits d.deduplication_period)) [
          | inr m ↦ rw (e, m, f, g, period_overflow d.deduplication_period m) refl
          | inl m ↦
              let (w, q, n) = period_back d.deduplication_period p m in
              let (ks, i, j) = keys_back x law numeric_law d.prefetch_contract_keys k in
              let c = commands_back x law numeric_law d.commands s in
              rw (e, m, f, g, q, i, c, h, n, j, disclosed_back d.disclosed_contracts) refl
        ]
  ]
