-- ===== src/Grpc/Event/Proto.antt =====
-- The protobuf events of the Ledger API v2, as prost generates them from
-- daml-grpc/resources/protobuf/com/daml/ledger/api/v2/event.proto.
use rust_daml_bindings.Base.{ℕ, String, Bool, List, Option}
use rust_daml_bindings.Base.Int.{ℤ}
use rust_daml_bindings.Grpc.Identifier.{Identifier}
use rust_daml_bindings.Grpc.Time.{WireTime}
use rust_daml_bindings.Grpc.Proto.{Value, Record}

-- `google.protobuf.Any` and `google.rpc.Status`.
pub record Any : Type 0 where
  pub type_url : String
  pub value : List ℕ

pub record Status : Type 0 where
  pub code : ℤ
  pub message : String
  pub details : List Any

pub record InterfaceView : Type 0 where
  pub interface_id : Option Identifier
  pub view_status : Option Status
  pub view_value : Option Record
  pub implementation_package_id : String

pub record CreatedEvent : Type 0 where
  pub offset : ℤ
  pub node_id : ℤ
  pub contract_id : String
  pub template_id : Option Identifier
  pub contract_key : Option Value
  pub contract_key_hash : List ℕ
  pub create_arguments : Option Record
  pub created_event_blob : List ℕ
  pub interface_views : List InterfaceView
  pub witness_parties : List String
  pub signatories : List String
  pub observers : List String
  pub created_at : Option WireTime
  pub package_name : String
  pub acs_delta : Bool
  pub representative_package_id : String

pub record ArchivedEvent : Type 0 where
  pub offset : ℤ
  pub node_id : ℤ
  pub contract_id : String
  pub template_id : Option Identifier
  pub witness_parties : List String
  pub package_name : String
  pub implemented_interfaces : List Identifier

pub record ExercisedEvent : Type 0 where
  pub offset : ℤ
  pub node_id : ℤ
  pub contract_id : String
  pub template_id : Option Identifier
  pub interface_id : Option Identifier
  pub choice : String
  pub choice_argument : Option Value
  pub acting_parties : List String
  pub consuming : Bool
  pub witness_parties : List String
  pub last_descendant_node_id : ℤ
  pub exercise_result : Option Value
  pub package_name : String
  pub implemented_interfaces : List Identifier
  pub acs_delta : Bool

pub data EventKind : Type 0 where
  created : CreatedEvent → EventKind
  archived : ArchivedEvent → EventKind
  exercised : ExercisedEvent → EventKind

-- The message `Event`, whose `oneof` may be unset.
pub record Event : Type 0 where
  pub event : Option EventKind
