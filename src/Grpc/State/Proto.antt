-- ===== src/Grpc/State/Proto.antt =====
-- The protobuf messages of the contracts that are active, as prost generates them from
-- daml-grpc/resources/protobuf/com/daml/ledger/api/v2/state_service.proto.
use rust_daml_bindings.Base.{ℕ, String, List, Option}
use rust_daml_bindings.Base.Int.{ℤ}
use rust_daml_bindings.Grpc.Event.Proto.{CreatedEvent}
use rust_daml_bindings.Grpc.Update.Proto.{UnassignedEvent, AssignedEvent}

pub record ActiveContract : Type 0 where
  pub created_event : Option CreatedEvent
  pub synchronizer_id : String
  pub reassignment_counter : ℕ

pub record IncompleteUnassigned : Type 0 where
  pub created_event : Option CreatedEvent
  pub unassigned_event : Option UnassignedEvent

pub record IncompleteAssigned : Type 0 where
  pub assigned_event : Option AssignedEvent

pub data ContractEntry : Type 0 where
  active_contract : ActiveContract → ContractEntry
  incomplete_unassigned : IncompleteUnassigned → ContractEntry
  incomplete_assigned : IncompleteAssigned → ContractEntry

pub record GetActiveContractsResponse : Type 0 where
  pub workflow_id : String
  pub contract_entry : Option ContractEntry
  pub stream_continuation_token : List ℕ

pub record ConnectedSynchronizer : Type 0 where
  pub synchronizer_alias : String
  pub synchronizer_id : String
  pub permission : ℤ
