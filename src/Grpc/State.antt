-- ===== src/Grpc/State.antt =====
-- The active contracts of a ledger, daml-grpc/src/data/state.rs.
pub mod Proto
use rust_daml_bindings.Base.{ℕ, String, List, Option, none, some, ok, ◌>>=◌}
use rust_daml_bindings.Grpc.Error.{DamlResult, req}
use rust_daml_bindings.Grpc.External.{External}
use rust_daml_bindings.Grpc.Offset.{DamlLedgerOffset}
use rust_daml_bindings.Grpc.Event.{DamlCreatedEvent, to_created}
use rust_daml_bindings.Grpc.Update.Reassignment.{
  DamlUnassignedEvent, DamlAssignedEvent, to_unassigned, to_assigned,
}
use rust_daml_bindings.Grpc.Update.Topology.{DamlParticipantPermission, unspecified, permission_of}
use rust_daml_bindings.Grpc.State.Proto as Wire

pub record DamlActiveContract (x : External) : Type 0 where
  pub created_event : DamlCreatedEvent x
  pub synchronizer_id : String
  pub reassignment_counter : ℕ

pub record DamlIncompleteUnassigned (x : External) : Type 0 where
  pub created_event : DamlCreatedEvent x
  pub unassigned_event : DamlUnassignedEvent x

pub record DamlIncompleteAssigned (x : External) : Type 0 where
  pub assigned_event : DamlAssignedEvent x

pub data DamlContractEntry (x : External) : Type 0 where
  active : DamlActiveContract x → DamlContractEntry x
  incomplete_unassigned : DamlIncompleteUnassigned x → DamlContractEntry x
  incomplete_assigned : DamlIncompleteAssigned x → DamlContractEntry x

pub record DamlActiveContractsResponse (x : External) : Type 0 where
  pub workflow_id : String
  pub contract_entry : DamlContractEntry x
  pub stream_continuation_token : List ℕ

pub record DamlActiveContractsPage (x : External) : Type 0 where
  pub active_contracts : List (DamlActiveContractsResponse x)
  pub active_at_offset : DamlLedgerOffset
  pub next_page_token : Option (List ℕ)

pub record DamlConnectedSynchronizer : Type 0 where
  pub synchronizer_alias : String
  pub synchronizer_id : String
  pub permission : Option DamlParticipantPermission

module _ (x : External) where
  unfoldable to_active : Wire.ActiveContract → DamlResult (DamlActiveContract x)
  to_active c = do
    wire_created ← req c.created_event
    created_event ← to_created x wire_created
    ok (record {
      created_event = created_event;
      synchronizer_id = c.synchronizer_id;
      reassignment_counter = c.reassignment_counter;
    })

  unfoldable to_incomplete_unassigned :
      Wire.IncompleteUnassigned → DamlResult (DamlIncompleteUnassigned x)
  to_incomplete_unassigned u = do
    wire_created ← req u.created_event
    created_event ← to_created x wire_created
    wire_unassigned ← req u.unassigned_event
    unassigned_event ← to_unassigned x wire_unassigned
    ok (record { created_event = created_event; unassigned_event = unassigned_event })

  unfoldable to_incomplete_assigned :
      Wire.IncompleteAssigned → DamlResult (DamlIncompleteAssigned x)
  to_incomplete_assigned a = do
    wire_assigned ← req a.assigned_event
    assigned_event ← to_assigned x wire_assigned
    ok (record { assigned_event = assigned_event })

  -- `TryFrom<ContractEntry> for DamlContractEntry`.
  unfoldable to_entry : Wire.ContractEntry → DamlResult (DamlContractEntry x)
  unfolding to_active to_incomplete_unassigned to_incomplete_assigned
  to_entry (Wire.active_contract c) = to_active c >>= λ d. ok (active d)
  to_entry (Wire.incomplete_unassigned u) =
      to_incomplete_unassigned u >>= λ d. ok (incomplete_unassigned d)
  to_entry (Wire.incomplete_assigned a) =
      to_incomplete_assigned a >>= λ d. ok (incomplete_assigned d)

  -- `TryFrom<GetActiveContractsResponse>`.
  unfoldable pub to_active_contracts :
      Wire.GetActiveContractsResponse → DamlResult (DamlActiveContractsResponse x)
  unfolding to_entry
  to_active_contracts r = do
    wire_entry ← req r.contract_entry
    contract_entry ← to_entry wire_entry
    ok (record {
      workflow_id = r.workflow_id;
      contract_entry = contract_entry;
      stream_continuation_token = r.stream_continuation_token;
    })

-- A permission that is not specified is none.
abbrev specified : DamlParticipantPermission → Option DamlParticipantPermission
specified unspecified = none
specified p = some p

-- `TryFrom<ConnectedSynchronizer>`.
unfoldable pub to_synchronizer : Wire.ConnectedSynchronizer → DamlResult DamlConnectedSynchronizer
to_synchronizer c = do
  permission ← req (permission_of c.permission)
  ok (record {
    synchronizer_alias = c.synchronizer_alias;
    synchronizer_id = c.synchronizer_id;
    permission = specified permission;
  })
