-- ===== src/Tests/Updates.antt =====
-- Runs of the claims about updates.

use rust_daml_bindings.Base.{◌≡◌, refl, none, some, [], ◌∷◌, ok, ◌>>=◌}
use rust_daml_bindings.Base.Int.{pos}
use rust_daml_bindings.Grpc.Offset.{new_offset}
use rust_daml_bindings.Grpc.Time.{WireTime, from_grpc_timestamp}
use rust_daml_bindings.Grpc.Event.{archived, to_event}
use rust_daml_bindings.Grpc.Event.Proto as WireEvent
use rust_daml_bindings.Grpc.Identifier.{Identifier, of_identifier}
use rust_daml_bindings.Grpc.Update.{
  DamlTransaction, transaction, update, to_update, to_update_response,
}
use rust_daml_bindings.Grpc.Update.Laws.{
  wire_view, view, as_stream, to_update_response-eq-ok, to_update_response-as_stream,
}
use rust_daml_bindings.Grpc.Update.Proto as Wire
use rust_daml_bindings.Tests.Sample.{sample}

abbrev a_time : WireTime
a_time = record { seconds = pos 1700000000; nanos = pos 0 }

abbrev a_template : Identifier
a_template = record { package_id = "abc"; module_name = "M"; entity_name = "T" }

abbrev an_archive : WireEvent.ArchivedEvent
an_archive = record {
  offset = pos 5;
  node_id = pos 2;
  contract_id = "c";
  template_id = some a_template;
  witness_parties = "p" ∷ [];
  package_name = "pkg";
  implemented_interfaces = [];
}

abbrev a_transaction : Wire.Transaction
a_transaction = record {
  update_id = "u";
  command_id = "";
  workflow_id = "";
  effective_at = some a_time;
  events = record { event = some (WireEvent.archived an_archive) } ∷ [];
  offset = pos 5;
  synchronizer_id = "s";
  record_time = some a_time;
  external_transaction_hash = none;
  paid_traffic_cost = none;
}

abbrev streamed : Wire.GetUpdatesResponse
streamed = record { update = some (Wire.stream_transaction a_transaction) }

abbrev converted : DamlTransaction sample
converted = record {
  update_id = "u";
  command_id = "";
  workflow_id = "";
  effective_at = pos 1700000000;
  events =
      archived (record {
        offset = new_offset (pos 5);
        node_id = pos 2;
        contract_id = "c";
        template_id = of_identifier a_template;
        witness_parties = "p" ∷ [];
        package_name = "pkg";
        implemented_interfaces = [];
      })
      ∷ [];
  offset = new_offset (pos 5);
  synchronizer_id = "s";
  record_time = pos 1700000000;
  external_transaction_hash = none;
  paid_traffic_cost = none;
}

streamed-converted : to_update_response sample streamed ≡ ok (update (transaction converted))
unfolding to_update_response from_grpc_timestamp to_event
streamed-converted = refl

to_update_response-eq-ok_example :
    ◌≡◌ (wire_view streamed) (some (view {x = sample} (update (transaction converted))))
to_update_response-eq-ok_example =
    to_update_response-eq-ok sample streamed (update (transaction converted)) streamed-converted

abbrev looked_up : Wire.GetUpdateResponse
looked_up = record { update = some (Wire.point_transaction a_transaction) }

to_update_response-as_stream_example :
    to_update_response sample (as_stream looked_up)
    ≡ (to_update sample looked_up >>= λ u. ok (update u))
to_update_response-as_stream_example = to_update_response-as_stream sample looked_up
