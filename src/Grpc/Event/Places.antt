-- ===== src/Grpc/Event/Places.antt =====
-- The places of events, which their conversion keeps, daml-grpc/src/data/event.
use rust_daml_bindings.Base.{map_results, ◌≡◌, refl, map_option, Option, none, some, ◌>>=◌}
use rust_daml_bindings.Base.Yields.{Yields, >>=-Yields, >>=-Yields-part}
use rust_daml_bindings.Base.Int.{ℤ}
use rust_daml_bindings.Grpc.External.{External}
use rust_daml_bindings.Grpc.Error.{req}
use rust_daml_bindings.Grpc.Time.{from_grpc_timestamp}
use rust_daml_bindings.Grpc.Value.Convert.{to_daml, to_daml_record}
use rust_daml_bindings.Grpc.Offset.{DamlLedgerOffset, new_offset}
use rust_daml_bindings.Grpc.Event.{
  DamlCreatedEvent, DamlArchivedEvent, DamlExercisedEvent, address, to_archived, to_created,
  to_exercised, to_event, to_event_kind, to_interface_view, traverse,
}
use rust_daml_bindings.Grpc.Event.Proto as WireEvent

abbrev pub Place : Type 0
Place = Option (DamlLedgerOffset × ℤ)

-- The place of an event in the message.
abbrev kind_place : WireEvent.EventKind → DamlLedgerOffset × ℤ
kind_place (WireEvent.created e) = (new_offset e.offset, e.node_id)
kind_place (WireEvent.archived e) = (new_offset e.offset, e.node_id)
kind_place (WireEvent.exercised e) = (new_offset e.offset, e.node_id)

abbrev pub wire_place : WireEvent.Event → Place
wire_place e = map_option kind_place e.event

module _ (x : External) where
  created_place :
      (e : WireEvent.CreatedEvent)
      → Yields
          (λ d.
            ◌≡◌ {A = DamlLedgerOffset × ℤ} (new_offset e.offset, e.node_id) (d.offset, d.node_id))
          (to_created x e)
  unfolding to_created
  created_place e =
      let P = (λ (d : DamlCreatedEvent x).
        ◌≡◌ {A = DamlLedgerOffset × ℤ} (new_offset e.offset, e.node_id) (d.offset, d.node_id)) in
      >>=-Yields P (req e.template_id) _ (λ _.
        >>=-Yields P (traverse (to_daml x) e.contract_key) _ (λ _.
          >>=-Yields P (req e.create_arguments) _ (λ a. >>=-Yields P (to_daml_record x a) _ (λ _.
            >>=-Yields P (map_results (to_interface_view x) e.interface_views) _ (λ _.
              >>=-Yields P (req e.created_at) _
                (λ w. >>=-Yields P (from_grpc_timestamp x w) _ (λ _. refl)))))))

  archived_place :
      (e : WireEvent.ArchivedEvent)
      → Yields
          (λ d.
            ◌≡◌ {A = DamlLedgerOffset × ℤ} (new_offset e.offset, e.node_id) (d.offset, d.node_id))
          (to_archived e)
  unfolding to_archived
  archived_place e =
      let P = (λ (d : DamlArchivedEvent).
        ◌≡◌ {A = DamlLedgerOffset × ℤ} (new_offset e.offset, e.node_id) (d.offset, d.node_id)) in
      >>=-Yields P (req e.template_id) _ (λ _. refl)

  exercised_place :
      (e : WireEvent.ExercisedEvent)
      → Yields
          (λ d.
            ◌≡◌ {A = DamlLedgerOffset × ℤ} (new_offset e.offset, e.node_id) (d.offset, d.node_id))
          (to_exercised x e)
  unfolding to_exercised
  exercised_place e =
      let P = (λ (d : DamlExercisedEvent x).
        ◌≡◌ {A = DamlLedgerOffset × ℤ} (new_offset e.offset, e.node_id) (d.offset, d.node_id)) in
      >>=-Yields P (req e.template_id) _ (λ _. >>=-Yields P (req e.choice_argument) _ (λ a.
        >>=-Yields P (to_daml x a) _
          (λ _. >>=-Yields P (traverse (to_daml x) e.exercise_result) _ (λ _. refl))))

  pub event_place :
      (e : WireEvent.Event) → Yields (λ d. wire_place e ≡ some (address d)) (to_event x e)
  unfolding to_event to_event_kind
  event_place e = kind_of_option e.event
    where
      kind_of_option :
          (k : Option WireEvent.EventKind)
          → Yields (λ d. map_option kind_place k ≡ some (address d)) (req k >>= to_event_kind x)
      kind_of_option none = tt
      kind_of_option (some (WireEvent.created e)) =
          >>=-Yields-part _ (to_created x e) _ (created_place e) (λ d p. rw p refl)
      kind_of_option (some (WireEvent.archived e)) =
          >>=-Yields-part _ (to_archived e) _ (archived_place e) (λ d p. rw p refl)
      kind_of_option (some (WireEvent.exercised e)) =
          >>=-Yields-part _ (to_exercised x e) _ (exercised_place e) (λ d p. rw p refl)
