-- ===== src/Grpc/User/Proto.antt =====
-- The protobuf parties, users and rights of the Ledger API v2, as prost generates them from
-- daml-grpc/resources/protobuf/com/daml/ledger/api/v2/admin.
use rust_daml_bindings.Base.{String, Bool, List, Option}

pub record ObjectMeta : Type 0 where
  pub resource_version : String
  pub annotations : List (String × String)

pub record PartyDetails : Type 0 where
  pub party : String
  pub is_local : Bool
  pub local_metadata : Option ObjectMeta
  pub identity_provider_id : String

pub record User : Type 0 where
  pub id : String
  pub primary_party : String
  pub is_deactivated : Bool
  pub metadata : Option ObjectMeta
  pub identity_provider_id : String
  pub primary_party_authentication : Bool

pub data RightKind : Type 0 where
  participant_admin : RightKind
  can_act_as : String → RightKind
  can_read_as : String → RightKind
  can_execute_as : String → RightKind
  identity_provider_admin : RightKind
  can_read_as_any_party : RightKind
  can_execute_as_any_party : RightKind

-- The message `Right`, whose `oneof` may be unset.
pub record Right : Type 0 where
  pub kind : Option RightKind
