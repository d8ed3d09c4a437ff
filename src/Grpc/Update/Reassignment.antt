-- ===== src/Grpc/Update/Reassignment.antt =====
-- Reassignments, daml-grpc/src/data/reassignment.rs.
use rust_daml_bindings.Base.{ℕ, String, List, Option, ok, ◌>>=◌, map_results}
use rust_daml_bindings.Base.Int.{ℤ}
use rust_daml_bindings.Grpc.Error.{DamlResult, req}
use rust_daml_bindings.Grpc.External.{External}
use rust_daml_bindings.Grpc.Identifier.{DamlIdentifier, of_identifier}
use rust_daml_bindings.Grpc.Offset.{DamlLedgerOffset, new_offset}
use rust_daml_bindings.Grpc.Time.{from_grpc_timestamp}
use rust_daml_bindings.Grpc.Event.{DamlCreatedEvent, to_created, traverse}
use rust_daml_bindings.Grpc.Update.Proto as Wire

pub record DamlUnassignedEvent (x : External) : Type 0 where
  pub reassignment_id : String
  pub contract_id : String
  pub template_id : DamlIdentifier
  pub source : String
  pub target : String
  pub submitter : String
  pub reassignment_counter : ℕ
  pub assignment_exclusivity : Option x.DateTime
  pub witness_parties : List String
  pub package_name : String
  pub offset : DamlLedgerOffset
  pub node_id : ℤ

pub record DamlAssignedEvent (x : External) : Type 0 where
  pub source : String
  pub target : String
  pub reassignment_id : String
  pub submitter : String
  pub reassignment_counter : ℕ
  pub created_event : DamlCreatedEvent x

pub data DamlReassignmentEvent (x : External) : Type 0 where
  unassigned : DamlUnassignedEvent x → DamlReassignmentEvent x
  assigned : DamlAssignedEvent x → DamlReassignmentEvent x

pub record DamlReassignment (x : External) : Type 0 where
  pub update_id : String
  pub command_id : String
  pub workflow_id : String
  pub offset : DamlLedgerOffset
  pub events : List (DamlReassignmentEvent x)
  pub record_time : x.DateTime
  pub synchronizer_id : String
  pub paid_traffic_cost : Option ℤ

module _ (x : External) where
  unfoldable pub to_unassigned : Wire.UnassignedEvent → DamlResult (DamlUnassignedEvent x)
  to_unassigned e = do
    template ← req e.template_id
    assignment_exclusivity ← traverse (from_grpc_timestamp x) e.assignment_exclusivity
    ok (record {
      reassignment_id = e.reassignment_id;
      contract_id = e.contract_id;
      template_id = of_identifier template;
      source = e.source;
      target = e.target;
      submitter = e.submitter;
      reassignment_counter = e.reassignment_counter;
      assignment_exclusivity = assignment_exclusivity;
      witness_parties = e.witness_parties;
      package_name = e.package_name;
      offset = new_offset e.offset;
      node_id = e.node_id;
    })

  unfoldable pub to_assigned : Wire.AssignedEvent → DamlResult (DamlAssignedEvent x)
  to_assigned e = do
    wire_created ← req e.created_event
    created_event ← to_created x wire_created
    ok (record {
      source = e.source;
      target = e.target;
      reassignment_id = e.reassignment_id;
      submitter = e.submitter;
      reassignment_counter = e.reassignment_counter;
      created_event = created_event;
    })

  unfoldable pub to_reassignment_kind :
      Wire.ReassignmentEventKind → DamlResult (DamlReassignmentEvent x)
  unfolding to_unassigned to_assigned
  to_reassignment_kind (Wire.unassigned e) = to_unassigned e >>= λ d. ok (unassigned d)
  to_reassignment_kind (Wire.assigned e) = to_assigned e >>= λ d. ok (assigned d)

  -- `TryFrom<ReassignmentEvent> for DamlReassignmentEvent`.
  unfoldable pub to_reassignment_event :
      Wire.ReassignmentEvent → DamlResult (DamlReassignmentEvent x)
  unfolding to_reassignment_kind
  to_reassignment_event e = req e.event >>= to_reassignment_kind

  unfoldable pub to_reassignment : Wire.Reassignment → DamlResult (DamlReassignment x)
  unfolding to_reassignment_event
  to_reassignment e = do
    events ← map_results to_reassignment_event e.events
    wire_record_time ← req e.record_time
    record_time ← from_grpc_timestamp x wire_record_time
    ok (record {
      update_id = e.update_id;
      command_id = e.command_id;
      workflow_id = e.workflow_id;
      offset = new_offset e.offset;
      events = events;
      record_time = record_time;
      synchronizer_id = e.synchronizer_id;
      paid_traffic_cost = e.paid_traffic_cost;
    })
