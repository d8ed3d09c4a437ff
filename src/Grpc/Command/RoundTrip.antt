-- ===== src/Grpc/Command/RoundTrip.antt =====
-- A command comes back from the wire, the conversions of daml-grpc/src/data/command.
use rust_daml_bindings.Base.{ok, ◌≡◌, refl}
use rust_daml_bindings.Grpc.External.{External}
use rust_daml_bindings.Grpc.Time.Laws.{IsCalendar}
use rust_daml_bindings.Grpc.Value.{record_value}
use rust_daml_bindings.Grpc.Value.Convert.RoundTrip.{
  IsWireSafe, to_daml-to_value, to_daml_record-to_record,
}
use rust_daml_bindings.Grpc.Command.{
  DamlCommand, create, exercise, exercise_by_key, create_and_exercise, of_command, kind_of,
  to_command, to_kind,
}

-- The values of the command come back from the wire.
abbrev pub IsCommandSafe : {x : External} → DamlCommand x → Type 0
IsCommandSafe (create c) = IsWireSafe (record_value c.create_arguments)
IsCommandSafe (exercise c) = IsWireSafe c.choice_argument
IsCommandSafe (exercise_by_key c) = IsWireSafe c.contract_key × IsWireSafe c.choice_argument
IsCommandSafe (create_and_exercise c) =
    IsWireSafe (record_value c.create_arguments) × IsWireSafe c.choice_argument

module _ (x : External) (law : IsCalendar x)
    (numeric_law : (n : x.Numeric) → x.numeric_from_str (x.to_plain_string n) ≡ ok n) where
  -- With a calendar as `IsCalendar` says, and where a number is read back from its plain decimal form,
  -- a command of any kind whose values are `IsWireSafe` is read back from the protobuf command that
  -- it is written as.
  pub to_command-of_command :
      (c : DamlCommand x) → IsCommandSafe c → to_command x (of_command x c) ≡ ok c
  unfolding kind_of to_kind
  to_command-of_command (create c) s =
      rw (to_daml_record-to_record x law numeric_law c.create_arguments s) refl
  to_command-of_command (exercise c) s =
      rw (to_daml-to_value x law numeric_law c.choice_argument s) refl
  to_command-of_command (exercise_by_key c) (k, s) =
      rw
        (
          to_daml-to_value x law numeric_law c.contract_key k,
          to_daml-to_value x law numeric_law c.choice_argument s,
        )
        refl
  to_command-of_command (create_and_exercise c) (r, s) =
      rw
        (
          to_daml_record-to_record x law numeric_law c.create_arguments r,
          to_daml-to_value x law numeric_law c.choice_argument s,
        )
        refl
