-- ===== src/Lf/Convert/Names.antt =====
-- The names of type constructors, daml-lf/src/convert/type_payload.rs, and kinds,
-- daml-lf/src/convert/typevar_payload.rs.
pub mod Path
use Prim.Native.String.{◌++◌}
use rust_daml_bindings.Base.{
  ℕ, zero, suc, String, Option, none, some, List, [], ◌∷◌, ◌++◌ as ◌⋄◌, ok, err, ◌>>=◌, ok_or,
  str_eq, if◌then◌else◌, get_elem?,
}
use rust_daml_bindings.Base.Int.{ℤ, show_ℤ}
use rust_daml_bindings.Lf.Error.{DamlLfConvertError, DamlLfConvertResult, unsupported_feature_used}
use rust_daml_bindings.Lf.Version.{version_text}
use rust_daml_bindings.Lf.Proto.{
  PackageRef, self_package_id, imported_package_id_interned_str, package_import_id,
  SelfOrImportedPackageId, ModuleId, TypeConId,
}
use rust_daml_bindings.Lf.Convert.{
  DamlPackagePayload, req, cross_pkg_name, resolve_string, resolve_dotted,
}

-- `DamlAbsoluteTyCon`.
pub record DamlAbsoluteTyCon : Type 0 where
  pub data_name : String
  pub package_id : String
  pub package_name : String
  pub module_path : List String

unfoldable pub resolve_package_ref :
    SelfOrImportedPackageId → DamlPackagePayload → DamlLfConvertResult String
resolve_package_ref proto p = do
  sum ← req proto.sum
  elim sum [
    | self_package_id ↦ ok p.id
    | imported_package_id_interned_str idx ↦ resolve_string p idx
    | package_import_id _ ↦
        err (unsupported_feature_used (version_text p.language_version) "PackageImportId" "2.dev")
  ]

-- The package id and the segments of the module path.
unfoldable pub resolve_module_id :
    ModuleId → DamlPackagePayload → DamlLfConvertResult (String × List String)
unfolding resolve_package_ref
resolve_module_id proto p = do
  ref ← req proto.package_id
  pkg_id ← resolve_package_ref ref p
  module_path ← resolve_dotted p proto.module_name_interned_dname
  ok (pkg_id, module_path)

-- `split_last`.
abbrev pub split_from : String → List String → String × List String
split_from s [] = (s, [])
split_from s (t ∷ ss) = let parts = split_from t ss in (parts.0, s ∷ parts.1)

abbrev pub split_last : List String → Option (String × List String)
split_last [] = none
split_last (s ∷ ss) = some (split_from s ss)

unfoldable pub split_data_name : List String → DamlLfConvertResult (String × List String)
split_data_name segments = req (split_last segments)

unfoldable pub resolve_package_name : DamlPackagePayload → String → String
resolve_package_name p pkg_id =
    if str_eq pkg_id p.id
    then p.name
    else elim (cross_pkg_name p pkg_id) [ none ↦ "" | some name ↦ name ]

unfoldable pub convert_tycon_id :
    TypeConId → DamlPackagePayload → DamlLfConvertResult DamlAbsoluteTyCon
unfolding resolve_module_id split_data_name resolve_package_name
convert_tycon_id proto p = do
  module_id ← req proto.module_id
  place ← resolve_module_id module_id p
  data_name_segments ← resolve_dotted p proto.name_interned_dname
  parts ← split_data_name data_name_segments
  ok (record {
    data_name = parts.0;
    package_id = place.0;
    package_name = resolve_package_name p place.0;
    module_path = place.1 ⋄ parts.1;
  })
