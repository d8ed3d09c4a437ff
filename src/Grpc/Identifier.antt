-- ===== src/Grpc/Identifier.antt =====
-- Identifiers, daml-grpc/src/data/identifier.rs.
pub mod Laws
use Prim.Native.String.{◌++◌}
use Prim.Native.Char.{code}
use rust_daml_bindings.Base.{String, Bool, true, false, Option, none, some, ◌==◌, if◌then◌else◌}

pub record DamlIdentifier : Type 0 where
  pub package_ref : String
  pub module_name : String
  pub entity_name : String

-- The protobuf message `Identifier`.
pub record Identifier : Type 0 where
  pub package_id : String
  pub module_name : String
  pub entity_name : String

unfoldable pub from_package_name : String → String → String → DamlIdentifier
from_package_name package_name module_name entity_name = record {
  package_ref = "#" ++ package_name;
  module_name = module_name;
  entity_name = entity_name;
}

-- `strip_prefix('#')`.
unfoldable pub strip_prefix : String → Option String
strip_prefix String.[] = none
strip_prefix (String.◌∷◌ c s) = if code c == b'#' then some s else none

-- `starts_with('#')`.
unfoldable pub starts_with_prefix : String → Bool
starts_with_prefix String.[] = false
starts_with_prefix (String.◌∷◌ c s) = code c == b'#'

unfoldable pub is_package_name : DamlIdentifier → Bool
unfolding starts_with_prefix
is_package_name id = starts_with_prefix id.package_ref

unfoldable pub package_name : DamlIdentifier → Option String
unfolding strip_prefix
package_name id = strip_prefix id.package_ref

unfoldable pub package_id : DamlIdentifier → Option String
unfolding is_package_name
package_id id = if is_package_name id then none else some id.package_ref

-- The two conversions.
abbrev pub to_identifier : DamlIdentifier → Identifier
to_identifier id = record {
  package_id = id.package_ref;
  module_name = id.module_name;
  entity_name = id.entity_name;
}

abbrev pub of_identifier : Identifier → DamlIdentifier
of_identifier id = record {
  package_ref = id.package_id;
  module_name = id.module_name;
  entity_name = id.entity_name;
}
