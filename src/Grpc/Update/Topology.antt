-- ===== src/Grpc/Update/Topology.antt =====
-- Topology transactions, daml-grpc/src/data/topology.rs. The three structs with a permission have the
-- same fields; they stand as one record.
use rust_daml_bindings.Base.{
  String, List, Option, ok, ◌>>=◌, map_results, some, none, if◌then◌else◌,
}
use rust_daml_bindings.Base.Int.{ℤ, pos, int_eq}
use rust_daml_bindings.Grpc.Error.{DamlResult, req}
use rust_daml_bindings.Grpc.External.{External}
use rust_daml_bindings.Grpc.Offset.{DamlLedgerOffset, new_offset}
use rust_daml_bindings.Grpc.Time.{from_grpc_timestamp}
use rust_daml_bindings.Grpc.Update.Proto as Wire

pub data DamlParticipantPermission : Type 0 where
  unspecified : DamlParticipantPermission
  submission : DamlParticipantPermission
  confirmation : DamlParticipantPermission
  observation : DamlParticipantPermission

-- `ParticipantPermission::try_from`, on the numbers of state_service.proto, and the cases of the
-- binding.
abbrev pub permission_of : ℤ → Option DamlParticipantPermission
permission_of n =
    if int_eq n (pos 0)
    then some unspecified
    else if int_eq n (pos 1)
    then some submission
    else if int_eq n (pos 2)
    then some confirmation
    else if int_eq n (pos 3)
    then some observation
    else none

pub record DamlParticipantAuthorization : Type 0 where
  pub party_id : String
  pub participant_id : String
  pub permission : DamlParticipantPermission

pub record DamlParticipantAuthorizationRevoked : Type 0 where
  pub party_id : String
  pub participant_id : String

pub data DamlTopologyEvent : Type 0 where
  participant_authorization_added : DamlParticipantAuthorization → DamlTopologyEvent
  participant_authorization_changed : DamlParticipantAuthorization → DamlTopologyEvent
  participant_authorization_revoked : DamlParticipantAuthorizationRevoked → DamlTopologyEvent
  participant_authorization_onboarding : DamlParticipantAuthorization → DamlTopologyEvent

pub record DamlTopologyTransaction (x : External) : Type 0 where
  pub update_id : String
  pub offset : DamlLedgerOffset
  pub synchronizer_id : String
  pub record_time : x.DateTime
  pub events : List DamlTopologyEvent

unfoldable pub to_authorization :
    Wire.ParticipantAuthorization → DamlResult DamlParticipantAuthorization
to_authorization e = do
  permission ← req (permission_of e.participant_permission)
  ok (record { party_id = e.party_id; participant_id = e.participant_id; permission = permission })

abbrev pub to_revoked : Wire.ParticipantAuthorizationRevoked → DamlParticipantAuthorizationRevoked
to_revoked e = record { party_id = e.party_id; participant_id = e.participant_id }

unfoldable pub to_topology_kind : Wire.TopologyEventKind → DamlResult DamlTopologyEvent
unfolding to_authorization
to_topology_kind (Wire.participant_authorization_added e) =
    to_authorization e >>= λ d. ok (participant_authorization_added d)
to_topology_kind (Wire.participant_authorization_changed e) =
    to_authorization e >>= λ d. ok (participant_authorization_changed d)
to_topology_kind (Wire.participant_authorization_revoked e) =
    ok (participant_authorization_revoked (to_revoked e))
to_topology_kind (Wire.participant_authorization_onboarding e) =
    to_authorization e >>= λ d. ok (participant_authorization_onboarding d)

-- `TryFrom<TopologyEvent> for DamlTopologyEvent`.
unfoldable pub to_topology_event : Wire.TopologyEvent → DamlResult DamlTopologyEvent
unfolding to_topology_kind
to_topology_event e = req e.event >>= to_topology_kind

module _ (x : External) where
  unfoldable pub to_topology_transaction :
      Wire.TopologyTransaction → DamlResult (DamlTopologyTransaction x)
  unfolding to_topology_event
  to_topology_transaction e = do
    wire_record_time ← req e.record_time
    record_time ← from_grpc_timestamp x wire_record_time
    events ← map_results to_topology_event e.events
    ok (record {
      update_id = e.update_id;
      offset = new_offset e.offset;
      synchronizer_id = e.synchronizer_id;
      record_time = record_time;
      events = events;
    })
