-- ===== src/Grpc/Update/Reassign.antt =====
-- The commands of reassignments, daml-grpc/src/data/reassignment.rs.
use rust_daml_bindings.Base.{String, List, map, some}
use rust_daml_bindings.Grpc.Update.Proto as Wire

pub record DamlUnassignCommand : Type 0 where
  pub contract_id : String
  pub source : String
  pub target : String

pub record DamlAssignCommand : Type 0 where
  pub reassignment_id : String
  pub source : String
  pub target : String

pub data DamlReassignmentCommand : Type 0 where
  unassign : DamlUnassignCommand → DamlReassignmentCommand
  assign : DamlAssignCommand → DamlReassignmentCommand

pub record DamlReassignmentCommands : Type 0 where
  pub workflow_id : String
  pub user_id : String
  pub command_id : String
  pub submitter : String
  pub submission_id : String
  pub commands : List DamlReassignmentCommand

abbrev of_unassign : DamlUnassignCommand → Wire.UnassignCommand
of_unassign c = record { contract_id = c.contract_id; source = c.source; target = c.target }

abbrev of_assign : DamlAssignCommand → Wire.AssignCommand
of_assign c = record { reassignment_id = c.reassignment_id; source = c.source; target = c.target }

-- `From<DamlReassignmentCommand> for ReassignmentCommand`.
abbrev of_reassignment_command : DamlReassignmentCommand → Wire.ReassignmentCommand
of_reassignment_command (unassign u) = record {
  command = some (Wire.unassign_command (of_unassign u));
}
of_reassignment_command (assign a) = record { command = some (Wire.assign_command (of_assign a)) }

-- `From<DamlReassignmentCommands> for ReassignmentCommands`.
abbrev pub of_reassignment_commands : DamlReassignmentCommands → Wire.ReassignmentCommands
of_reassignment_commands c = record {
  workflow_id = c.workflow_id;
  user_id = c.user_id;
  command_id = c.command_id;
  submitter = c.submitter;
  submission_id = c.submission_id;
  commands = map of_reassignment_command c.commands;
}
