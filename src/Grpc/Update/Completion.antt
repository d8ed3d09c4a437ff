-- ===== src/Grpc/Update/Completion.antt =====
-- Completions and checkpoints, daml-grpc/src/data/completion.rs.
use rust_daml_bindings.Base.{String, List, Option, ok, ◌>>=◌, map_results}
use rust_daml_bindings.Base.Int.{ℤ}
use rust_daml_bindings.Grpc.Error.{DamlResult, req}
use rust_daml_bindings.Grpc.External.{External}
use rust_daml_bindings.Grpc.Offset.{DamlLedgerOffset, new_offset}
use rust_daml_bindings.Grpc.Time.{Duration, from_grpc_timestamp, from_grpc_duration}
use rust_daml_bindings.Grpc.Event.{DamlStatus, of_status, traverse}
use rust_daml_bindings.Grpc.Update.Proto as Wire

pub data DamlCompletionDeduplicationPeriod : Type 0 where
  deduplication_offset : ℤ → DamlCompletionDeduplicationPeriod
  deduplication_duration : Duration → DamlCompletionDeduplicationPeriod

pub record DamlSynchronizerTime (x : External) : Type 0 where
  pub synchronizer_id : String
  pub record_time : x.DateTime

pub record DamlOffsetCheckpoint (x : External) : Type 0 where
  pub offset : DamlLedgerOffset
  pub synchronizer_times : List (DamlSynchronizerTime x)

pub record DamlCompletion (x : External) : Type 0 where
  pub command_id : String
  pub status : DamlStatus
  pub update_id : String
  pub user_id : String
  pub act_as : List String
  pub submission_id : String
  pub deduplication_period : Option DamlCompletionDeduplicationPeriod
  pub offset : DamlLedgerOffset
  pub synchronizer_time : Option (DamlSynchronizerTime x)
  pub paid_traffic_cost : ℤ

pub data DamlCompletionResponse (x : External) : Type 0 where
  completion : DamlCompletion x → DamlCompletionResponse x
  completion_checkpoint : DamlOffsetCheckpoint x → DamlCompletionResponse x

unfoldable pub to_period : Wire.DeduplicationPeriod → DamlResult DamlCompletionDeduplicationPeriod
to_period (Wire.deduplication_offset o) = ok (deduplication_offset o)
to_period (Wire.deduplication_duration w) =
    from_grpc_duration w >>= λ d. ok (deduplication_duration d)

module _ (x : External) where
  unfoldable pub to_synchronizer_time : Wire.SynchronizerTime → DamlResult (DamlSynchronizerTime x)
  to_synchronizer_time e = do
    wire_record_time ← req e.record_time
    record_time ← from_grpc_timestamp x wire_record_time
    ok (record { synchronizer_id = e.synchronizer_id; record_time = record_time })

  unfoldable pub to_checkpoint : Wire.OffsetCheckpoint → DamlResult (DamlOffsetCheckpoint x)
  unfolding to_synchronizer_time
  to_checkpoint e = do
    synchronizer_times ← map_results to_synchronizer_time e.synchronizer_times
    ok (record { offset = new_offset e.offset; synchronizer_times = synchronizer_times })

  unfoldable pub to_completion : Wire.Completion → DamlResult (DamlCompletion x)
  unfolding to_synchronizer_time to_period
  to_completion e = do
    status ← req e.status
    deduplication_period ← traverse to_period e.deduplication_period
    synchronizer_time ← traverse to_synchronizer_time e.synchronizer_time
    ok (record {
      command_id = e.command_id;
      status = of_status status;
      update_id = e.update_id;
      user_id = e.user_id;
      act_as = e.act_as;
      submission_id = e.submission_id;
      deduplication_period = deduplication_period;
      offset = new_offset e.offset;
      synchronizer_time = synchronizer_time;
      paid_traffic_cost = e.paid_traffic_cost;
    })

  unfoldable pub to_completion_kind :
      Wire.CompletionResponse → DamlResult (DamlCompletionResponse x)
  unfolding to_completion to_checkpoint
  to_completion_kind (Wire.completion c) = to_completion c >>= λ d. ok (completion d)
  to_completion_kind (Wire.completion_checkpoint c) =
      to_checkpoint c >>= λ d. ok (completion_checkpoint d)

  -- `TryFrom<CompletionStreamResponse> for DamlCompletionResponse`.
  unfoldable pub to_completion_response :
      Wire.CompletionStreamResponse → DamlResult (DamlCompletionResponse x)
  unfolding to_completion_kind
  to_completion_response r = req r.completion_response >>= to_completion_kind
