-- ===== src/Grpc/Command.antt =====
-- The commands of a ledger and their protobuf form, daml-grpc/src/data/command.
pub mod Proto
pub mod RoundTrip
pub mod Submission
use rust_daml_bindings.Base.{String, some, ok, ◌>>=◌}
use rust_daml_bindings.Grpc.Error.{DamlResult, req}
use rust_daml_bindings.Grpc.External.{External}
use rust_daml_bindings.Grpc.Identifier.{DamlIdentifier, to_identifier, of_identifier}
use rust_daml_bindings.Grpc.Value.{DamlValue, DamlRecord}
use rust_daml_bindings.Grpc.Value.Convert.{to_daml, to_value, to_daml_record, to_record}
use rust_daml_bindings.Grpc.Command.Proto as Wire

pub record DamlCreateCommand (x : External) : Type 0 where
  pub template_id : DamlIdentifier
  pub create_arguments : DamlRecord x

pub record DamlExerciseCommand (x : External) : Type 0 where
  pub template_id : DamlIdentifier
  pub contract_id : String
  pub choice : String
  pub choice_argument : DamlValue x

pub record DamlExerciseByKeyCommand (x : External) : Type 0 where
  pub template_id : DamlIdentifier
  pub contract_key : DamlValue x
  pub choice : String
  pub choice_argument : DamlValue x

pub record DamlCreateAndExerciseCommand (x : External) : Type 0 where
  pub template_id : DamlIdentifier
  pub create_arguments : DamlRecord x
  pub choice : String
  pub choice_argument : DamlValue x

pub data DamlCommand (x : External) : Type 0 where
  create : DamlCreateCommand x → DamlCommand x
  exercise : DamlExerciseCommand x → DamlCommand x
  exercise_by_key : DamlExerciseByKeyCommand x → DamlCommand x
  create_and_exercise : DamlCreateAndExerciseCommand x → DamlCommand x

module _ (x : External) where
  -- `From<…> for Command`, one for each kind.
  abbrev pub of_create : DamlCreateCommand x → Wire.CommandKind
  of_create c = Wire.create (record {
    template_id = some (to_identifier c.template_id);
    create_arguments = some (to_record x c.create_arguments);
  })

  abbrev pub of_exercise : DamlExerciseCommand x → Wire.CommandKind
  of_exercise c = Wire.exercise (record {
    template_id = some (to_identifier c.template_id);
    contract_id = c.contract_id;
    choice = c.choice;
    choice_argument = some (to_value x c.choice_argument);
  })

  abbrev pub of_exercise_by_key : DamlExerciseByKeyCommand x → Wire.CommandKind
  of_exercise_by_key c = Wire.exercise_by_key (record {
    template_id = some (to_identifier c.template_id);
    contract_key = some (to_value x c.contract_key);
    choice = c.choice;
    choice_argument = some (to_value x c.choice_argument);
  })

  abbrev pub of_create_and_exercise : DamlCreateAndExerciseCommand x → Wire.CommandKind
  of_create_and_exercise c = Wire.create_and_exercise (record {
    template_id = some (to_identifier c.template_id);
    create_arguments = some (to_record x c.create_arguments);
    choice = c.choice;
    choice_argument = some (to_value x c.choice_argument);
  })

  unfoldable pub kind_of : DamlCommand x → Wire.CommandKind
  kind_of (create c) = of_create c
  kind_of (exercise c) = of_exercise c
  kind_of (exercise_by_key c) = of_exercise_by_key c
  kind_of (create_and_exercise c) = of_create_and_exercise c

  -- `From<DamlCommand> for Command`.
  abbrev pub of_command : DamlCommand x → Wire.Command
  of_command c = record { command = some (kind_of c) }

  -- `TryFrom<…>`, one for each kind.
  abbrev pub to_create : Wire.CreateCommand → DamlResult (DamlCreateCommand x)
  to_create c = do
    template_id ← req c.template_id
    arguments ← req c.create_arguments
    create_arguments ← to_daml_record x arguments
    ok (record { template_id = of_identifier template_id; create_arguments = create_arguments })

  abbrev pub to_exercise : Wire.ExerciseCommand → DamlResult (DamlExerciseCommand x)
  to_exercise c = do
    template_id ← req c.template_id
    argument ← req c.choice_argument
    choice_argument ← to_daml x argument
    ok (record {
      template_id = of_identifier template_id;
      contract_id = c.contract_id;
      choice = c.choice;
      choice_argument = choice_argument;
    })

  abbrev pub to_exercise_by_key :
      Wire.ExerciseByKeyCommand → DamlResult (DamlExerciseByKeyCommand x)
  to_exercise_by_key c = do
    template_id ← req c.template_id
    key ← req c.contract_key
    contract_key ← to_daml x key
    argument ← req c.choice_argument
    choice_argument ← to_daml x argument
    ok (record {
      template_id = of_identifier template_id;
      contract_key = contract_key;
      choice = c.choice;
      choice_argument = choice_argument;
    })

  abbrev pub to_create_and_exercise :
      Wire.CreateAndExerciseCommand → DamlResult (DamlCreateAndExerciseCommand x)
  to_create_and_exercise c = do
    template_id ← req c.template_id
    arguments ← req c.create_arguments
    create_arguments ← to_daml_record x arguments
    argument ← req c.choice_argument
    choice_argument ← to_daml x argument
    ok (record {
      template_id = of_identifier template_id;
      create_arguments = create_arguments;
      choice = c.choice;
      choice_argument = choice_argument;
    })

  unfoldable pub to_kind : Wire.CommandKind → DamlResult (DamlCommand x)
  to_kind (Wire.create c) = to_create c >>= λ d. ok (create d)
  to_kind (Wire.exercise c) = to_exercise c >>= λ d. ok (exercise d)
  to_kind (Wire.exercise_by_key c) = to_exercise_by_key c >>= λ d. ok (exercise_by_key d)
  to_kind (Wire.create_and_exercise c) =
      to_create_and_exercise c >>= λ d. ok (create_and_exercise d)

  -- `TryFrom<Command> for DamlCommand`.
  abbrev pub to_command : Wire.Command → DamlResult (DamlCommand x)
  to_command c = req c.command >>= to_kind
