-- ===== src/Grpc/Update/Proto.antt =====
-- The protobuf updates of the Ledger API v2, as prost generates them from transaction.proto,
-- reassignment.proto, topology_transaction.proto, completion.proto, offset_checkpoint.proto and
-- update_service.proto of daml-grpc/resources/protobuf/com/daml/ledger/api/v2.
use rust_daml_bindings.Base.{ℕ, String, List, Option}
use rust_daml_bindings.Base.Int.{ℤ}
use rust_daml_bindings.Grpc.Identifier.{Identifier}
use rust_daml_bindings.Grpc.Time.{WireTime}
use rust_daml_bindings.Grpc.Event.Proto.{Event, CreatedEvent, Status}

pub record Transaction : Type 0 where
  pub update_id : String
  pub command_id : String
  pub workflow_id : String
  pub effective_at : Option WireTime
  pub events : List Event
  pub offset : ℤ
  pub synchronizer_id : String
  pub record_time : Option WireTime
  pub external_transaction_hash : Option (List ℕ)
  pub paid_traffic_cost : Option ℤ

pub record UnassignedEvent : Type 0 where
  pub reassignment_id : String
  pub contract_id : String
  pub template_id : Option Identifier
  pub source : String
  pub target : String
  pub submitter : String
  pub reassignment_counter : ℕ
  pub assignment_exclusivity : Option WireTime
  pub witness_parties : List String
  pub package_name : String
  pub offset : ℤ
  pub node_id : ℤ

pub record AssignedEvent : Type 0 where
  pub source : String
  pub target : String
  pub reassignment_id : String
  pub submitter : String
  pub reassignment_counter : ℕ
  pub created_event : Option CreatedEvent

pub data ReassignmentEventKind : Type 0 where
  unassigned : UnassignedEvent → ReassignmentEventKind
  assigned : AssignedEvent → ReassignmentEventKind

pub record ReassignmentEvent : Type 0 where
  pub event : Option ReassignmentEventKind

pub record Reassignment : Type 0 where
  pub update_id : String
  pub command_id : String
  pub workflow_id : String
  pub offset : ℤ
  pub events : List ReassignmentEvent
  pub record_time : Option WireTime
  pub synchronizer_id : String
  pub paid_traffic_cost : Option ℤ

-- The party, the participant and the number of the permission.
pub record ParticipantAuthorization : Type 0 where
  pub party_id : String
  pub participant_id : String
  pub participant_permission : ℤ

pub record ParticipantAuthorizationRevoked : Type 0 where
  pub party_id : String
  pub participant_id : String

pub data TopologyEventKind : Type 0 where
  participant_authorization_added : ParticipantAuthorization → TopologyEventKind
  participant_authorization_changed : ParticipantAuthorization → TopologyEventKind
  participant_authorization_revoked : ParticipantAuthorizationRevoked → TopologyEventKind
  participant_authorization_onboarding : ParticipantAuthorization → TopologyEventKind

pub record TopologyEvent : Type 0 where
  pub event : Option TopologyEventKind

pub record TopologyTransaction : Type 0 where
  pub update_id : String
  pub offset : ℤ
  pub synchronizer_id : String
  pub record_time : Option WireTime
  pub events : List TopologyEvent

pub record SynchronizerTime : Type 0 where
  pub synchronizer_id : String
  pub record_time : Option WireTime

pub record OffsetCheckpoint : Type 0 where
  pub offset : ℤ
  pub synchronizer_times : List SynchronizerTime

pub data DeduplicationPeriod : Type 0 where
  deduplication_offset : ℤ → DeduplicationPeriod
  deduplication_duration : WireTime → DeduplicationPeriod

pub record Completion : Type 0 where
  pub command_id : String
  pub status : Option Status
  pub update_id : String
  pub user_id : String
  pub act_as : List String
  pub submission_id : String
  pub deduplication_period : Option DeduplicationPeriod
  pub offset : ℤ
  pub synchronizer_time : Option SynchronizerTime
  pub paid_traffic_cost : ℤ

pub data CompletionResponse : Type 0 where
  completion : Completion → CompletionResponse
  completion_checkpoint : OffsetCheckpoint → CompletionResponse

pub record CompletionStreamResponse : Type 0 where
  pub completion_response : Option CompletionResponse

pub data PointUpdateKind : Type 0 where
  point_transaction : Transaction → PointUpdateKind
  point_reassignment : Reassignment → PointUpdateKind
  point_topology : TopologyTransaction → PointUpdateKind

pub record GetUpdateResponse : Type 0 where
  pub update : Option PointUpdateKind

pub data StreamUpdateKind : Type 0 where
  stream_transaction : Transaction → StreamUpdateKind
  stream_reassignment : Reassignment → StreamUpdateKind
  stream_topology : TopologyTransaction → StreamUpdateKind
  stream_checkpoint : OffsetCheckpoint → StreamUpdateKind

pub record GetUpdatesResponse : Type 0 where
  pub update : Option StreamUpdateKind

pub record UnassignCommand : Type 0 where
  pub contract_id : String
  pub source : String
  pub target : String

pub record AssignCommand : Type 0 where
  pub reassignment_id : String
  pub source : String
  pub target : String

pub data ReassignmentCommandKind : Type 0 where
  unassign_command : UnassignCommand → ReassignmentCommandKind
  assign_command : AssignCommand → ReassignmentCommandKind

pub record ReassignmentCommand : Type 0 where
  pub command : Option ReassignmentCommandKind

pub record ReassignmentCommands : Type 0 where
  pub workflow_id : String
  pub user_id : String
  pub command_id : String
  pub submitter : String
  pub submission_id : String
  pub commands : List ReassignmentCommand
