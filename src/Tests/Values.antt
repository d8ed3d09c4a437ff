-- ===== src/Tests/Values.antt =====
-- Runs of the claims about identifiers, times and values.

use rust_daml_bindings.Base.{
  ◌↔◌, ◌&&◌, if◌then◌else◌, arith, ◌≡◌, ◌≢◌, refl, ◌⊎◌, String, true, none, some, [], ◌∷◌, ok, err,
  ◌>>=◌,
}
use rust_daml_bindings.Base.Int.{pos}
use rust_daml_bindings.Grpc.Error.{unknown_field}
use rust_daml_bindings.Grpc.Identifier.{DamlIdentifier}
use rust_daml_bindings.Grpc.Time.{Duration}
use rust_daml_bindings.Grpc.Value.{
  DamlValue, DamlRecord, record_value, list, int64, text, timestamp, text_map, gen_map, unit, bool,
  value_then, no_value, record_of, no_field, field_then, no_text_entry, text_entry_then,
  no_gen_entry, gen_entry_then,
}
use rust_daml_bindings.Grpc.Value.Order.{compare_text, partial_cmp}
use rust_daml_bindings.Grpc.Value.Order.Laws.{Flips, partial_cmp-Flips}
use rust_daml_bindings.Grpc.Value.Convert.{to_daml, to_value}
use rust_daml_bindings.Grpc.Value.Convert.RoundTrip.{IsWireSafe, to_daml-to_value}
use rust_daml_bindings.Grpc.Value.Convert.Timestamps.{to_daml-to_value-timestamp}
use rust_daml_bindings.Grpc.Value.Access.Laws.{TryAreAccess, try_lem}
use rust_daml_bindings.Grpc.Value.Record.{field, take_field}
use rust_daml_bindings.Grpc.Value.Record.Laws.{take_field-cases}
use rust_daml_bindings.Grpc.Value.Serialize.{
  Shape, Typed, of_list, of_optional, of_int64, of_gen_map,
}
use rust_daml_bindings.Grpc.Command.{DamlCommand, exercise_by_key}
use rust_daml_bindings.Grpc.Command.Submission.{
  DamlCommands, new_commands, relative, deduplication_duration, of_commands,
}
use rust_daml_bindings.Grpc.Command.Submission.Parts.{time_fits, period_fits, overflow}
use rust_daml_bindings.Grpc.Command.Submission.Laws.{
  IsSubmittable, read_commands, of_commands_round_trip,
}
use rust_daml_bindings.Grpc.User.{can_act_as, can_read_as, of_right, to_right}
use rust_daml_bindings.Grpc.User.Laws.{to_right_iff}
use rust_daml_bindings.Tests.Sample.{sample, sample-IsCalendar, sample-IsOrdered, sample-seconds}

abbrev two_fields : DamlRecord sample
two_fields = record_of none (field_then (some "a") (int64 (pos 1)) (field_then none unit no_field))

abbrev maps : DamlValue sample
maps = list (
    value_then (record_value two_fields) (
      value_then
        (text_map (text_entry_then "x" (bool true) (text_entry_then "y" unit no_text_entry)))
        (value_then
          (gen_map (gen_entry_then unit unit (gen_entry_then (text "k") unit no_gen_entry)))
          no_value)))

abbrev by_id : DamlIdentifier
by_id = record { package_ref = "abc"; module_name = "M"; entity_name = "T" }

abbrev a_minute : Duration
a_minute = record { secs = 60; subsec_nanos = 500 }

partial_cmp-Flips_example :
    Flips (partial_cmp maps (text "t")) (partial_cmp {x = sample} (text "t") maps)
partial_cmp-Flips_example = partial_cmp-Flips sample-IsOrdered maps (text "t")

maps-IsWireSafe : IsWireSafe maps
unfolding IsWireSafe compare_text partial_cmp
maps-IsWireSafe = (
  ((λ e. cc), tt, ((λ e. cc), tt, tt)),
  (((refl, (tt, tt)), (tt, (tt, tt))), (((refl, (tt, tt)), (tt, tt, (tt, tt, tt))), tt)),
)

to_daml-to_value_example : to_daml sample (to_value sample maps) ≡ ok maps
to_daml-to_value_example =
    to_daml-to_value sample sample-IsCalendar (λ n. refl) maps maps-IsWireSafe

to_daml-to_value-timestamp_example :
    to_daml sample (to_value sample (timestamp (pos 1700000000))) ≢ ok (timestamp (pos 1700000000))
to_daml-to_value-timestamp_example =
    to_daml-to_value-timestamp sample sample-seconds (pos 1700000000) (λ e. cc) (λ e. cc)

try_lem_example : TryAreAccess sample
try_lem_example = try_lem sample

take_field-cases_example :
    ((v : DamlValue sample) × (s : DamlRecord sample) × (take_field two_fields "a"
        ≡ some (ok (v, s)))
      × (field two_fields "a" ≡ ok v)
      × ((m : String) → m ≢ "a" → field s m ≡ field two_fields m))
    ⊎ ((take_field two_fields "a" ≡ some (err (unknown_field "a")))
        × (field two_fields "a" ≡ err (unknown_field "a")))
take_field-cases_example = take_field-cases two_fields "a"

abbrev a_shape : Shape
a_shape = of_list (of_gen_map of_int64 (of_optional of_int64))

abbrev two_maps : Typed sample a_shape
two_maps = ((pos 1, none) ∷ (pos 2, some (pos 7)) ∷ []) ∷ [] ∷ []

abbrev key_command : DamlCommand sample
key_command = exercise_by_key (record {
  template_id = by_id;
  contract_key = unit;
  choice = "Go";
  choice_argument = bool true;
})

abbrev two_seconds : Duration
two_seconds = record { secs = 2; subsec_nanos = 5 }

abbrev submission : DamlCommands sample
submission = record (new_commands sample "user" "id" ("p" ∷ []) (key_command ∷ [])) {
  min_ledger_time = some (relative two_seconds);
  deduplication_period = some (deduplication_duration two_seconds);
  prefetch_contract_keys = record { template_id = by_id; contract_key = unit; limit = some 1 } ∷ [];
}

submission-IsSubmittable : IsSubmittable submission
unfolding IsWireSafe
submission-IsSubmittable = (((tt, tt), tt), (tt, tt), omega arith, omega arith)

of_commands_round_trip_example : (of_commands sample submission >>= read_commands sample) ≡ (
    if time_fits submission.min_ledger_time && period_fits submission.deduplication_period
    then ok submission
    else err overflow)
of_commands_round_trip_example =
    of_commands_round_trip sample sample-IsCalendar (λ n. refl) submission submission-IsSubmittable

to_right_iff_example :
    (to_right (of_right (can_read_as "p")) ≡ ok (can_act_as "p"))
    ↔ (of_right (can_read_as "p") ≡ of_right (can_act_as "p"))
to_right_iff_example = to_right_iff (of_right (can_read_as "p")) (can_act_as "p")
