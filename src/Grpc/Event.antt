-- ===== src/Grpc/Event.antt =====
-- The events of a transaction, daml-grpc/src/data/event, with `DamlStatus` of data/completion.rs.
pub mod Proto
pub mod Places
use rust_daml_bindings.Base.{
  ℕ, String, Bool, List, map, Option, none, some, Result, ok, err, ◌>>=◌, map_results, map_option,
}
use rust_daml_bindings.Base.Int.{ℤ}
use rust_daml_bindings.Grpc.Error.{DamlError, DamlResult, unexpected_type, req}
use rust_daml_bindings.Grpc.External.{External}
use rust_daml_bindings.Grpc.Identifier.{DamlIdentifier, of_identifier}
use rust_daml_bindings.Grpc.Offset.{DamlLedgerOffset, new_offset}
use rust_daml_bindings.Grpc.Time.{from_grpc_timestamp}
use rust_daml_bindings.Grpc.Value.{DamlValue, DamlRecord}
use rust_daml_bindings.Grpc.Value.Convert.{to_daml, to_daml_record}
use rust_daml_bindings.Grpc.Event.Proto as Wire

-- `map(f).transpose()` of an option.
abbrev pub traverse {ℓ κ} :
    {A : Type ℓ} {B : Type κ} → (A → DamlResult B) → Option A → DamlResult (Option B)
traverse f none = ok none
traverse f (some a) = f a >>= λ b. ok (some b)

pub record DamlStatus : Type 0 where
  pub code : ℤ
  pub message : String
  pub details : List Wire.Any

abbrev pub of_status : Wire.Status → DamlStatus
of_status s = record { code = s.code; message = s.message; details = s.details }

pub record DamlInterfaceView (x : External) : Type 0 where
  pub interface_id : DamlIdentifier
  pub view_status : DamlStatus
  pub view_value : Option (DamlRecord x)
  pub implementation_package_id : String

pub record DamlCreatedEvent (x : External) : Type 0 where
  pub offset : DamlLedgerOffset
  pub node_id : ℤ
  pub contract_id : String
  pub template_id : DamlIdentifier
  pub contract_key : Option (DamlValue x)
  pub contract_key_hash : List ℕ
  pub create_arguments : DamlRecord x
  pub created_event_blob : List ℕ
  pub interface_views : List (DamlInterfaceView x)
  pub witness_parties : List String
  pub signatories : List String
  pub observers : List String
  pub created_at : x.DateTime
  pub package_name : String
  pub acs_delta : Bool
  pub representative_package_id : String

pub record DamlArchivedEvent : Type 0 where
  pub offset : DamlLedgerOffset
  pub node_id : ℤ
  pub contract_id : String
  pub template_id : DamlIdentifier
  pub witness_parties : List String
  pub package_name : String
  pub implemented_interfaces : List DamlIdentifier

pub record DamlExercisedEvent (x : External) : Type 0 where
  pub offset : DamlLedgerOffset
  pub node_id : ℤ
  pub contract_id : String
  pub template_id : DamlIdentifier
  pub interface_id : Option DamlIdentifier
  pub choice : String
  pub choice_argument : DamlValue x
  pub acting_parties : List String
  pub consuming : Bool
  pub witness_parties : List String
  pub last_descendant_node_id : ℤ
  pub exercise_result : Option (DamlValue x)
  pub package_name : String
  pub implemented_interfaces : List DamlIdentifier
  pub acs_delta : Bool

pub data DamlEvent (x : External) : Type 0 where
  created : DamlCreatedEvent x → DamlEvent x
  archived : DamlArchivedEvent → DamlEvent x
  exercised : DamlExercisedEvent x → DamlEvent x

unfoldable pub to_archived : Wire.ArchivedEvent → DamlResult DamlArchivedEvent
to_archived e = do
  template ← req e.template_id
  ok (record {
    offset = new_offset e.offset;
    node_id = e.node_id;
    contract_id = e.contract_id;
    template_id = of_identifier template;
    witness_parties = e.witness_parties;
    package_name = e.package_name;
    implemented_interfaces = map of_identifier e.implemented_interfaces;
  })

module _ (x : External) where
  unfoldable pub to_interface_view : Wire.InterfaceView → DamlResult (DamlInterfaceView x)
  to_interface_view e = do
    interface ← req e.interface_id
    status ← req e.view_status
    view_value ← traverse (to_daml_record x) e.view_value
    ok (record {
      interface_id = of_identifier interface;
      view_status = of_status status;
      view_value = view_value;
      implementation_package_id = e.implementation_package_id;
    })

  unfoldable pub to_created : Wire.CreatedEvent → DamlResult (DamlCreatedEvent x)
  unfolding to_interface_view
  to_created e = do
    template ← req e.template_id
    contract_key ← traverse (to_daml x) e.contract_key
    wire_arguments ← req e.create_arguments
    create_arguments ← to_daml_record x wire_arguments
    interface_views ← map_results to_interface_view e.interface_views
    wire_created_at ← req e.created_at
    created_at ← from_grpc_timestamp x wire_created_at
    ok (record {
      offset = new_offset e.offset;
      node_id = e.node_id;
      contract_id = e.contract_id;
      template_id = of_identifier template;
      contract_key = contract_key;
      contract_key_hash = e.contract_key_hash;
      create_arguments = create_arguments;
      created_event_blob = e.created_event_blob;
      interface_views = interface_views;
      witness_parties = e.witness_parties;
      signatories = e.signatories;
      observers = e.observers;
      created_at = created_at;
      package_name = e.package_name;
      acs_delta = e.acs_delta;
      representative_package_id = e.representative_package_id;
    })

  unfoldable pub to_exercised : Wire.ExercisedEvent → DamlResult (DamlExercisedEvent x)
  to_exercised e = do
    template ← req e.template_id
    wire_argument ← req e.choice_argument
    choice_argument ← to_daml x wire_argument
    exercise_result ← traverse (to_daml x) e.exercise_result
    ok (record {
      offset = new_offset e.offset;
      node_id = e.node_id;
      contract_id = e.contract_id;
      template_id = of_identifier template;
      interface_id = map_option of_identifier e.interface_id;
      choice = e.choice;
      choice_argument = choice_argument;
      acting_parties = e.acting_parties;
      consuming = e.consuming;
      witness_parties = e.witness_parties;
      last_descendant_node_id = e.last_descendant_node_id;
      exercise_result = exercise_result;
      package_name = e.package_name;
      implemented_interfaces = map of_identifier e.implemented_interfaces;
      acs_delta = e.acs_delta;
    })

  -- `TryFrom<Event> for DamlEvent`.
  unfoldable pub to_event_kind : Wire.EventKind → DamlResult (DamlEvent x)
  unfolding to_created to_archived to_exercised
  to_event_kind (Wire.created e) = to_created e >>= λ d. ok (created d)
  to_event_kind (Wire.archived e) = to_archived e >>= λ d. ok (archived d)
  to_event_kind (Wire.exercised e) = to_exercised e >>= λ d. ok (exercised d)

  unfoldable pub to_event : Wire.Event → DamlResult (DamlEvent x)
  unfolding to_event_kind
  to_event e = req e.event >>= to_event_kind

module _ {x : External} where
  abbrev pub event_name : DamlEvent x → String
  event_name (created e) = "Created"
  event_name (archived e) = "Archived"
  event_name (exercised e) = "Exercised"

  abbrev pub unexpected_event {ℓ} : {A : Type ℓ} → DamlEvent x → String → DamlResult A
  unexpected_event e expected = err (unexpected_type expected (event_name e))

  abbrev pub try_created : DamlEvent x → DamlResult (DamlCreatedEvent x)
  try_created (created e) = ok e
  try_created e = unexpected_event e "Created"

  abbrev pub try_archived : DamlEvent x → DamlResult DamlArchivedEvent
  try_archived (archived e) = ok e
  try_archived e = unexpected_event e "Archived"

  abbrev pub try_exercised : DamlEvent x → DamlResult (DamlExercisedEvent x)
  try_exercised (exercised e) = ok e
  try_exercised e = unexpected_event e "Exercised"

  abbrev pub address : DamlEvent x → DamlLedgerOffset × ℤ
  address (created e) = (e.offset, e.node_id)
  address (archived e) = (e.offset, e.node_id)
  address (exercised e) = (e.offset, e.node_id)
