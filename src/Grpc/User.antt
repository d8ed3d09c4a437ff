-- ===== src/Grpc/User.antt =====
-- Parties, users and their rights, daml-grpc/src/data/party.rs and user.rs. The annotations of a
-- `HashMap` are a list of pairs.
pub mod Proto
pub mod Laws
use rust_daml_bindings.Base.{String, Bool, List, Option, some, ok, ◌>>=◌, map_option}
use rust_daml_bindings.Grpc.Error.{DamlResult, req}
use rust_daml_bindings.Grpc.User.Proto as Wire

pub record DamlObjectMeta : Type 0 where
  pub resource_version : String
  pub annotations : List (String × String)

pub record DamlPartyDetails : Type 0 where
  pub party : String
  pub is_local : Bool
  pub local_metadata : Option DamlObjectMeta
  pub identity_provider_id : String

pub record DamlUser : Type 0 where
  pub id : String
  pub primary_party : String
  pub is_deactivated : Bool
  pub metadata : Option DamlObjectMeta
  pub identity_provider_id : String
  pub primary_party_authentication : Bool

pub data DamlUserRight : Type 0 where
  participant_admin : DamlUserRight
  can_act_as : String → DamlUserRight
  can_read_as : String → DamlUserRight
  can_execute_as : String → DamlUserRight
  identity_provider_admin : DamlUserRight
  can_read_as_any_party : DamlUserRight
  can_execute_as_any_party : DamlUserRight

-- `From<ObjectMeta>` and back.
abbrev pub to_meta : Wire.ObjectMeta → DamlObjectMeta
to_meta m = record { resource_version = m.resource_version; annotations = m.annotations }

abbrev pub of_meta : DamlObjectMeta → Wire.ObjectMeta
of_meta m = record { resource_version = m.resource_version; annotations = m.annotations }

-- `From<PartyDetails>` and back.
abbrev pub to_party_details : Wire.PartyDetails → DamlPartyDetails
to_party_details d = record {
  party = d.party;
  is_local = d.is_local;
  local_metadata = map_option to_meta d.local_metadata;
  identity_provider_id = d.identity_provider_id;
}

abbrev pub of_party_details : DamlPartyDetails → Wire.PartyDetails
of_party_details d = record {
  party = d.party;
  is_local = d.is_local;
  local_metadata = map_option of_meta d.local_metadata;
  identity_provider_id = d.identity_provider_id;
}

-- `From<User>` and back.
abbrev pub to_user : Wire.User → DamlUser
to_user u = record {
  id = u.id;
  primary_party = u.primary_party;
  is_deactivated = u.is_deactivated;
  metadata = map_option to_meta u.metadata;
  identity_provider_id = u.identity_provider_id;
  primary_party_authentication = u.primary_party_authentication;
}

abbrev pub of_user : DamlUser → Wire.User
of_user u = record {
  id = u.id;
  primary_party = u.primary_party;
  is_deactivated = u.is_deactivated;
  metadata = map_option of_meta u.metadata;
  identity_provider_id = u.identity_provider_id;
  primary_party_authentication = u.primary_party_authentication;
}

unfoldable pub kind_of_right : DamlUserRight → Wire.RightKind
kind_of_right participant_admin = Wire.participant_admin
kind_of_right (can_act_as p) = Wire.can_act_as p
kind_of_right (can_read_as p) = Wire.can_read_as p
kind_of_right (can_execute_as p) = Wire.can_execute_as p
kind_of_right identity_provider_admin = Wire.identity_provider_admin
kind_of_right can_read_as_any_party = Wire.can_read_as_any_party
kind_of_right can_execute_as_any_party = Wire.can_execute_as_any_party

-- `From<DamlUserRight> for Right`.
abbrev pub of_right : DamlUserRight → Wire.Right
of_right r = record { kind = some (kind_of_right r) }

unfoldable pub right_of_kind : Wire.RightKind → DamlUserRight
right_of_kind Wire.participant_admin = participant_admin
right_of_kind (Wire.can_act_as p) = can_act_as p
right_of_kind (Wire.can_read_as p) = can_read_as p
right_of_kind (Wire.can_execute_as p) = can_execute_as p
right_of_kind Wire.identity_provider_admin = identity_provider_admin
right_of_kind Wire.can_read_as_any_party = can_read_as_any_party
right_of_kind Wire.can_execute_as_any_party = can_execute_as_any_party

-- `TryFrom<Right> for DamlUserRight`.
abbrev pub to_right : Wire.Right → DamlResult DamlUserRight
to_right r = req r.kind >>= λ k. ok (right_of_kind k)
