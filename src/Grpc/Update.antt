-- ===== src/Grpc/Update.antt =====
-- Transactions and updates, daml-grpc/src/data/transaction.rs and update.rs.
pub mod Proto
pub mod Reassignment
pub mod Reassign
pub mod Topology
pub mod Completion
pub mod Laws
use rust_daml_bindings.Base.{ℕ, String, List, Option, ok, ◌>>=◌, map_results, map, some}
use rust_daml_bindings.Base.Int.{ℤ}
use rust_daml_bindings.Grpc.Error.{DamlResult, req}
use rust_daml_bindings.Grpc.External.{External}
use rust_daml_bindings.Grpc.Identifier.{DamlIdentifier, of_identifier}
use rust_daml_bindings.Grpc.Offset.{DamlLedgerOffset, new_offset}
use rust_daml_bindings.Grpc.Time.{Duration, from_grpc_timestamp, from_grpc_duration}
use rust_daml_bindings.Grpc.Event.{
  DamlCreatedEvent, DamlEvent, DamlStatus, of_status, to_created, to_event, traverse,
}
use rust_daml_bindings.Grpc.Update.Proto as Wire
use rust_daml_bindings.Grpc.Update.Reassignment.{DamlReassignment, to_reassignment}
use rust_daml_bindings.Grpc.Update.Topology.{DamlTopologyTransaction, to_topology_transaction}
use rust_daml_bindings.Grpc.Update.Completion.{DamlOffsetCheckpoint, to_checkpoint}

pub record DamlTransaction (x : External) : Type 0 where
  pub update_id : String
  pub command_id : String
  pub workflow_id : String
  pub effective_at : x.DateTime
  pub events : List (DamlEvent x)
  pub offset : DamlLedgerOffset
  pub synchronizer_id : String
  pub record_time : x.DateTime
  pub external_transaction_hash : Option (List ℕ)
  pub paid_traffic_cost : Option ℤ

pub data DamlUpdate (x : External) : Type 0 where
  transaction : DamlTransaction x → DamlUpdate x
  reassignment : DamlReassignment x → DamlUpdate x
  topology_transaction : DamlTopologyTransaction x → DamlUpdate x

pub data DamlUpdateResponse (x : External) : Type 0 where
  update : DamlUpdate x → DamlUpdateResponse x
  offset_checkpoint : DamlOffsetCheckpoint x → DamlUpdateResponse x

module _ (x : External) where
  unfoldable pub to_transaction : Wire.Transaction → DamlResult (DamlTransaction x)
  to_transaction e = do
    wire_effective_at ← req e.effective_at
    effective_at ← from_grpc_timestamp x wire_effective_at
    events ← map_results (to_event x) e.events
    wire_record_time ← req e.record_time
    record_time ← from_grpc_timestamp x wire_record_time
    ok (record {
      update_id = e.update_id;
      command_id = e.command_id;
      workflow_id = e.workflow_id;
      effective_at = effective_at;
      events = events;
      offset = new_offset e.offset;
      synchronizer_id = e.synchronizer_id;
      record_time = record_time;
      external_transaction_hash = e.external_transaction_hash;
      paid_traffic_cost = e.paid_traffic_cost;
    })

  unfoldable pub to_point : Wire.PointUpdateKind → DamlResult (DamlUpdate x)
  unfolding to_transaction
  to_point (Wire.point_transaction t) = to_transaction t >>= λ d. ok (transaction d)
  to_point (Wire.point_reassignment r) = to_reassignment x r >>= λ d. ok (reassignment d)
  to_point (Wire.point_topology t) =
      to_topology_transaction x t >>= λ d. ok (topology_transaction d)

  -- `TryFrom<GetUpdateResponse> for DamlUpdate`.
  unfoldable pub to_update : Wire.GetUpdateResponse → DamlResult (DamlUpdate x)
  unfolding to_point
  to_update r = req r.update >>= to_point

  unfoldable pub to_stream : Wire.StreamUpdateKind → DamlResult (DamlUpdateResponse x)
  unfolding to_transaction
  to_stream (Wire.stream_transaction t) = to_transaction t >>= λ d. ok (update (transaction d))
  to_stream (Wire.stream_reassignment r) = to_reassignment x r >>= λ d. ok (update (reassignment d))
  to_stream (Wire.stream_topology t) =
      to_topology_transaction x t >>= λ d. ok (update (topology_transaction d))
  to_stream (Wire.stream_checkpoint c) = to_checkpoint x c >>= λ d. ok (offset_checkpoint d)

  -- `TryFrom<GetUpdatesResponse> for DamlUpdateResponse`.
  unfoldable pub to_update_response : Wire.GetUpdatesResponse → DamlResult (DamlUpdateResponse x)
  unfolding to_stream
  to_update_response r = req r.update >>= to_stream
