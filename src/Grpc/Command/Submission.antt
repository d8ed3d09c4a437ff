-- ===== src/Grpc/Command/Submission.antt =====
-- Submissions of commands, daml-grpc/src/data/commands.rs.
pub mod Parts
pub mod Laws
use rust_daml_bindings.Base.{
  ℕ, String, List, [], ◌∷◌, map, map_option, Option, none, some, ok, ◌>>=◌, map_results,
}
use rust_daml_bindings.Base.Int.{ℤ}
use rust_daml_bindings.Grpc.Error.{DamlResult}
use rust_daml_bindings.Grpc.External.{External}
use rust_daml_bindings.Grpc.Identifier.{DamlIdentifier, to_identifier}
use rust_daml_bindings.Grpc.Time.{Duration, WireTime, to_grpc_timestamp, to_grpc_duration}
use rust_daml_bindings.Grpc.Value.{DamlValue}
use rust_daml_bindings.Grpc.Value.Convert.{to_value}
use rust_daml_bindings.Grpc.Command.{DamlCommand, of_command}
use rust_daml_bindings.Grpc.Command.Proto as Wire

pub data DamlMinLedgerTime (x : External) : Type 0 where
  absolute : x.DateTime → DamlMinLedgerTime x
  relative : Duration → DamlMinLedgerTime x

pub data DamlCommandsDeduplicationPeriod : Type 0 where
  deduplication_offset : ℤ → DamlCommandsDeduplicationPeriod
  deduplication_duration : Duration → DamlCommandsDeduplicationPeriod

pub record DamlDisclosedContract : Type 0 where
  pub template_id : Option DamlIdentifier
  pub contract_id : String
  pub created_event_blob : List ℕ
  pub synchronizer_id : String

pub record DamlPrefetchContractKey (x : External) : Type 0 where
  pub template_id : DamlIdentifier
  pub contract_key : DamlValue x
  pub limit : Option ℕ

pub record DamlCommands (x : External) : Type 0 where
  pub workflow_id : String
  pub user_id : String
  pub command_id : String
  pub submission_id : String
  pub act_as : List String
  pub read_as : List String
  pub commands : List (DamlCommand x)
  pub deduplication_period : Option DamlCommandsDeduplicationPeriod
  pub min_ledger_time : Option (DamlMinLedgerTime x)
  pub disclosed_contracts : List DamlDisclosedContract
  pub synchronizer_id : String
  pub package_id_selection_preference : List String
  pub prefetch_contract_keys : List (DamlPrefetchContractKey x)
  pub taps_max_passes : Option ℕ

-- `TryFrom<DamlCommandsDeduplicationPeriod>`, on an option with `transpose`.
unfoldable pub of_period :
    Option DamlCommandsDeduplicationPeriod → DamlResult (Option Wire.DeduplicationPeriod)
of_period none = ok none
of_period (some (deduplication_offset o)) = ok (some (Wire.deduplication_offset o))
of_period (some (deduplication_duration d)) =
    to_grpc_duration d >>= λ t. ok (some (Wire.deduplication_duration t))

abbrev pub of_disclosed : DamlDisclosedContract → Wire.DisclosedContract
of_disclosed d = record {
  template_id = map_option to_identifier d.template_id;
  contract_id = d.contract_id;
  created_event_blob = d.created_event_blob;
  synchronizer_id = d.synchronizer_id;
}

module _ (x : External) where
  -- `DamlCommands::new`.
  abbrev pub new_commands : String → String → List String → List (DamlCommand x) → DamlCommands x
  new_commands user_id command_id act_as commands = record {
    workflow_id = "";
    user_id = user_id;
    command_id = command_id;
    submission_id = "";
    act_as = act_as;
    read_as = [];
    commands = commands;
    deduplication_period = none;
    min_ledger_time = none;
    disclosed_contracts = [];
    synchronizer_id = "";
    package_id_selection_preference = [];
    prefetch_contract_keys = [];
    taps_max_passes = none;
  }

  abbrev pub of_prefetch : DamlPrefetchContractKey x → DamlResult Wire.PrefetchContractKey
  of_prefetch p = ok (record {
    template_id = some (to_identifier p.template_id);
    contract_key = some (to_value x p.contract_key);
    limit = p.limit;
  })

  -- The two matches on `min_ledger_time`.
  unfoldable pub min_time_abs : Option (DamlMinLedgerTime x) → DamlResult (Option WireTime)
  min_time_abs none = ok none
  min_time_abs (some (absolute t)) = to_grpc_timestamp x t >>= λ w. ok (some w)
  min_time_abs (some (relative d)) = ok none

  unfoldable pub min_time_rel : Option (DamlMinLedgerTime x) → DamlResult (Option WireTime)
  min_time_rel none = ok none
  min_time_rel (some (absolute t)) = ok none
  min_time_rel (some (relative d)) = to_grpc_duration d >>= λ w. ok (some w)

  -- `TryFrom<DamlCommands> for Commands`.
  unfoldable pub of_commands : DamlCommands x → DamlResult Wire.Commands
  unfolding min_time_abs min_time_rel of_period
  of_commands d = do
    abs ← min_time_abs d.min_ledger_time
    rel ← min_time_rel d.min_ledger_time
    period ← of_period d.deduplication_period
    keys ← map_results of_prefetch d.prefetch_contract_keys
    ok (record {
      workflow_id = d.workflow_id;
      user_id = d.user_id;
      command_id = d.command_id;
      submission_id = d.submission_id;
      act_as = d.act_as;
      read_as = d.read_as;
      commands = map (of_command x) d.commands;
      min_ledger_time_abs = abs;
      min_ledger_time_rel = rel;
      deduplication_period = period;
      disclosed_contracts = map of_disclosed d.disclosed_contracts;
      synchronizer_id = d.synchronizer_id;
      package_id_selection_preference = d.package_id_selection_preference;
      prefetch_contract_keys = keys;
      taps_max_passes = d.taps_max_passes;
    })
