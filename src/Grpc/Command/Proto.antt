-- ===== src/Grpc/Command/Proto.antt =====
-- The protobuf commands of the Ledger API v2, as prost generates them from
-- daml-grpc/resources/protobuf/com/daml/ledger/api/v2/commands.proto.
use rust_daml_bindings.Base.{ℕ, String, List, Option}
use rust_daml_bindings.Base.Int.{ℤ}
use rust_daml_bindings.Grpc.Identifier.{Identifier}
use rust_daml_bindings.Grpc.Time.{WireTime}
use rust_daml_bindings.Grpc.Proto.{Value, Record}

pub record CreateCommand : Type 0 where
  pub template_id : Option Identifier
  pub create_arguments : Option Record

pub record ExerciseCommand : Type 0 where
  pub template_id : Option Identifier
  pub contract_id : String
  pub choice : String
  pub choice_argument : Option Value

pub record ExerciseByKeyCommand : Type 0 where
  pub template_id : Option Identifier
  pub contract_key : Option Value
  pub choice : String
  pub choice_argument : Option Value

pub record CreateAndExerciseCommand : Type 0 where
  pub template_id : Option Identifier
  pub create_arguments : Option Record
  pub choice : String
  pub choice_argument : Option Value

pub data CommandKind : Type 0 where
  create : CreateCommand → CommandKind
  exercise : ExerciseCommand → CommandKind
  exercise_by_key : ExerciseByKeyCommand → CommandKind
  create_and_exercise : CreateAndExerciseCommand → CommandKind

-- The message `Command`, whose `oneof` may be unset.
pub record Command : Type 0 where
  pub command : Option CommandKind

pub data DeduplicationPeriod : Type 0 where
  deduplication_offset : ℤ → DeduplicationPeriod
  deduplication_duration : WireTime → DeduplicationPeriod

pub record DisclosedContract : Type 0 where
  pub template_id : Option Identifier
  pub contract_id : String
  pub created_event_blob : List ℕ
  pub synchronizer_id : String

pub record PrefetchContractKey : Type 0 where
  pub template_id : Option Identifier
  pub contract_key : Option Value
  pub limit : Option ℕ

pub record Commands : Type 0 where
  pub workflow_id : String
  pub user_id : String
  pub command_id : String
  pub submission_id : String
  pub act_as : List String
  pub read_as : List String
  pub commands : List Command
  pub min_ledger_time_abs : Option WireTime
  pub min_ledger_time_rel : Option WireTime
  pub deduplication_period : Option DeduplicationPeriod
  pub disclosed_contracts : List DisclosedContract
  pub synchronizer_id : String
  pub package_id_selection_preference : List String
  pub prefetch_contract_keys : List PrefetchContractKey
  pub taps_max_passes : Option ℕ
