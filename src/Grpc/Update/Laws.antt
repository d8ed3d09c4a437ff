-- ===== src/Grpc/Update/Laws.antt =====
-- What the updates of a ledger keep of their messages, daml-grpc/src/data/update.rs: where they stand,
-- and the places of their events.
use rust_daml_bindings.Base.{
  map_results, sym, >>=-assoc, ◌≡◌, refl, List, map, map_option, Option, none, some, ok, ◌>>=◌,
  String,
}
use rust_daml_bindings.Base.Yields.{
  Yields, >>=-Yields, >>=-Yields-part, Yields-ok, map_results-Yields,
}
use rust_daml_bindings.Base.Int.{ℤ}
use rust_daml_bindings.Grpc.External.{External}
use rust_daml_bindings.Grpc.Error.{req}
use rust_daml_bindings.Grpc.Time.{from_grpc_timestamp}
use rust_daml_bindings.Grpc.Event.{address, to_event}
use rust_daml_bindings.Grpc.Event.Places.{Place, wire_place, event_place}
use rust_daml_bindings.Grpc.Update.{
  DamlTransaction, DamlUpdateResponse, transaction, reassignment, topology_transaction, update,
  offset_checkpoint, to_transaction, to_point, to_update, to_stream, to_update_response,
}
use rust_daml_bindings.Grpc.Update.Reassignment.{
  to_reassignment_event, DamlReassignment, to_reassignment,
}
use rust_daml_bindings.Grpc.Update.Topology.{
  to_topology_event, DamlTopologyTransaction, to_topology_transaction,
}
use rust_daml_bindings.Grpc.Update.Completion.{
  DamlSynchronizerTime, DamlOffsetCheckpoint, to_checkpoint, to_synchronizer_time,
}
use rust_daml_bindings.Grpc.Update.Proto as Wire

-- The kind of an update with its offset, and the places of the events of a transaction.
pub data View : Type 0 where
  of_transaction : ℤ → List Place → View
  of_reassignment : ℤ → View
  of_topology : ℤ → View
  of_checkpoint : ℤ → List String → View

abbrev kind_view : Wire.StreamUpdateKind → View
kind_view (Wire.stream_transaction t) = of_transaction t.offset (map wire_place t.events)
kind_view (Wire.stream_reassignment r) = of_reassignment r.offset
kind_view (Wire.stream_topology t) = of_topology t.offset
kind_view (Wire.stream_checkpoint c) =
    of_checkpoint c.offset
      (map (λ (s : Wire.SynchronizerTime). s.synchronizer_id) c.synchronizer_times)

abbrev pub wire_view : Wire.GetUpdatesResponse → Option View
wire_view r = map_option kind_view r.update

abbrev pub view : {x : External} → DamlUpdateResponse x → View
view (update (transaction t)) = of_transaction t.offset.value (map (λ e. some (address e)) t.events)
view (update (reassignment r)) = of_reassignment r.offset.value
view (update (topology_transaction t)) = of_topology t.offset.value
view (offset_checkpoint c) =
    of_checkpoint c.offset.value (map (λ s. s.synchronizer_id) c.synchronizer_times)

abbrev stream_of : Wire.PointUpdateKind → Wire.StreamUpdateKind
stream_of (Wire.point_transaction t) = Wire.stream_transaction t
stream_of (Wire.point_reassignment r) = Wire.stream_reassignment r
stream_of (Wire.point_topology t) = Wire.stream_topology t

-- The message of the stream with the update that a lookup gives.
abbrev pub as_stream : Wire.GetUpdateResponse → Wire.GetUpdatesResponse
as_stream r = record { update = map_option stream_of r.update }

module _ (x : External) where
  transaction_view :
      (t : Wire.Transaction)
      → Yields
          (λ d. kind_view (Wire.stream_transaction t) ≡ view (update (transaction d)))
          (to_transaction x t)
  unfolding to_transaction
  transaction_view t =
      let P = (λ (d : DamlTransaction x).
        kind_view (Wire.stream_transaction t) ≡ view (update (transaction d))) in
      >>=-Yields P (req t.effective_at) _ (λ w. >>=-Yields P (from_grpc_timestamp x w) _ (λ _.
        >>=-Yields-part P (map_results (to_event x) t.events) _
          (map_results-Yields (to_event x) wire_place (λ e. some (address e)) (event_place x)
            t.events)
          (λ _ p.
            >>=-Yields P (req t.record_time) _
              (λ w. >>=-Yields P (from_grpc_timestamp x w) _ (λ _. rw p refl)))))

  reassignment_view :
      (r : Wire.Reassignment)
      → Yields
          (λ d. kind_view (Wire.stream_reassignment r) ≡ view (update (reassignment d)))
          (to_reassignment x r)
  unfolding to_reassignment
  reassignment_view r =
      let P = (λ (d : DamlReassignment x).
        kind_view (Wire.stream_reassignment r) ≡ view (update (reassignment d))) in
      >>=-Yields P (map_results (to_reassignment_event x) r.events) _ (λ _.
        >>=-Yields P (req r.record_time) _
          (λ w. >>=-Yields P (from_grpc_timestamp x w) _ (λ _. refl)))

  topology_view :
      (t : Wire.TopologyTransaction)
      → Yields
          (λ d. kind_view (Wire.stream_topology t) ≡ view (update (topology_transaction d)))
          (to_topology_transaction x t)
  unfolding to_topology_transaction
  topology_view t =
      let P = (λ (d : DamlTopologyTransaction x).
        kind_view (Wire.stream_topology t) ≡ view (update (topology_transaction d))) in
      >>=-Yields P (req t.record_time) _ (λ w.
        >>=-Yields P (from_grpc_timestamp x w) _
          (λ _. >>=-Yields P (map_results to_topology_event t.events) _ (λ _. refl)))

  time_id :
      (s : Wire.SynchronizerTime)
      → Yields (λ d. s.synchronizer_id ≡ d.synchronizer_id) (to_synchronizer_time x s)
  unfolding to_synchronizer_time
  time_id s =
      let P = (λ (d : DamlSynchronizerTime x). s.synchronizer_id ≡ d.synchronizer_id) in
      >>=-Yields P (req s.record_time) _ (λ w. >>=-Yields P (from_grpc_timestamp x w) _ (λ _. refl))

  checkpoint_view :
      (c : Wire.OffsetCheckpoint)
      → Yields
          (λ d. kind_view (Wire.stream_checkpoint c) ≡ view (offset_checkpoint d))
          (to_checkpoint x c)
  unfolding to_checkpoint
  checkpoint_view c =
      let P = (λ (d : DamlOffsetCheckpoint x).
        kind_view (Wire.stream_checkpoint c) ≡ view (offset_checkpoint d)) in
      >>=-Yields-part P (map_results (to_synchronizer_time x) c.synchronizer_times) _
        (map_results-Yields (to_synchronizer_time x) (λ s. s.synchronizer_id)
          (λ s. s.synchronizer_id) time_id c.synchronizer_times)
        (λ times p. rw p refl)

  stream_view :
      (u : Option Wire.StreamUpdateKind)
      → Yields (λ d. map_option kind_view u ≡ some (view d)) (req u >>= to_stream x)
  unfolding to_stream
  stream_view none = tt
  stream_view (some (Wire.stream_transaction t)) =
      >>=-Yields-part _ (to_transaction x t) _ (transaction_view t) (λ d p. rw p refl)
  stream_view (some (Wire.stream_reassignment r)) =
      >>=-Yields-part _ (to_reassignment x r) _ (reassignment_view r) (λ d p. rw p refl)
  stream_view (some (Wire.stream_topology t)) =
      >>=-Yields-part _ (to_topology_transaction x t) _ (topology_view t) (λ d p. rw p refl)
  stream_view (some (Wire.stream_checkpoint c)) =
      >>=-Yields-part _ (to_checkpoint x c) _ (checkpoint_view c) (λ d p. rw p refl)

  -- An element of the stream of updates that is converted stands at the offset of its message and is of
  -- the same kind; a transaction has its events in their order, each at its offset and node, and a
  -- checkpoint its synchronizers in their order.
  pub to_update_response-eq-ok :
      (r : Wire.GetUpdatesResponse) (d : DamlUpdateResponse x)
      → to_update_response x r ≡ ok d
      → wire_view r ≡ some (view d)
  unfolding to_update_response
  to_update_response-eq-ok r d h =
      Yields-ok (λ d. wire_view r ≡ some (view d)) _ (stream_view r.update) h

  -- The conversion of an update that is looked up agrees with the one of the same update in the stream,
  -- errors included.
  pub to_update_response-as_stream :
      (r : Wire.GetUpdateResponse)
      → to_update_response x (as_stream r) ≡ (to_update x r >>= λ u. ok (update u))
  unfolding to_update_response to_update to_stream to_point
  to_update_response-as_stream r = point_agrees r.update
    where
      point_agrees :
          (u : Option Wire.PointUpdateKind)
          → (req (map_option stream_of u) >>= to_stream x)
            ≡ (req u >>= to_point x >>= λ u. ok (update u))
      point_agrees none = refl
      point_agrees (some (Wire.point_transaction t)) = sym (>>=-assoc (to_transaction x t) _ _)
      point_agrees (some (Wire.point_reassignment r)) = sym (>>=-assoc (to_reassignment x r) _ _)
      point_agrees (some (Wire.point_topology t)) =
          sym (>>=-assoc (to_topology_transaction x t) _ _)
