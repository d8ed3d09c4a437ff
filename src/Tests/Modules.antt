-- ===== src/Tests/Modules.antt =====
-- Runs of the claims about the conversion of payloads.
use rust_daml_bindings.Base.{
  ◌≡◌, refl, String, none, some, List, [], ◌∷◌, ◌++◌, lookup, map_option, ok, ok_part,
}
use rust_daml_bindings.Base.Int.{pos}
use rust_daml_bindings.Lf.Version.{v1, lv2}
use rust_daml_bindings.Lf.Proto.{
  LfType, LfTypes, Package, Kind, ModuleId, TypeConId, self_package_id,
}
use rust_daml_bindings.Lf.Payload.{decode_dotted_name, join_dots}
use rust_daml_bindings.Lf.Archive.{DamlLfArchive, sha256}
use rust_daml_bindings.Lf.Manifest.{new_implied}
use rust_daml_bindings.Lf.DarFile.{DarFile}
use rust_daml_bindings.Lf.Convert.{
  DamlPackagePayload, DamlArchivePayload, package_payload, archive_payload, cross_pkg_name,
  metadata_string, resolve_dotted, resolve_dotted_to_indices, resolve_strings, resolve_string,
}
use rust_daml_bindings.Lf.Convert.Interned.{decode_dotted_name-eq-resolve_dotted}
use rust_daml_bindings.Lf.Convert.Table.{cross_pkg_name-archive_payload}
use rust_daml_bindings.Lf.Convert.Names.{
  DamlAbsoluteTyCon, convert_tycon_id, resolve_module_id, resolve_package_ref, split_data_name,
  resolve_package_name,
}
use rust_daml_bindings.Lf.Convert.Names.Path.{convert_tycon_id-eq-ok}
use rust_daml_bindings.Lf.Convert.Kinds.{convert_kind}
use rust_daml_bindings.Lf.Convert.Types.{
  DamlType, contract_id, tycon, end, more, builtin_of, convert_type,
}
use rust_daml_bindings.Lf.Convert.Types.Bounds.{IsBounded, convert_type-IsBounded}
use rust_daml_bindings.Lf.Convert.Kinds.Ends.{self_reference, convert_kind-self_reference}

abbrev shapes : Package
shapes = record {
  modules = [];
  interned_strings = "shapes" ∷ "Main" ∷ "Shape" ∷ "Circle" ∷ [];
  interned_dotted_names = (pos 1 ∷ []) ∷ (pos 2 ∷ pos 3 ∷ []) ∷ [];
  metadata = some (record { name_interned_str = pos 0; version_interned_str = pos 1 });
  interned_types = [];
  interned_kinds = [];
}

abbrev dalf : DamlLfArchive
dalf = record {
  name = "shapes";
  payload = record { language_version = lv2 v1; lf_package = shapes };
  hash_function = sha256;
  hash = "abc";
}

abbrev payload : DamlPackagePayload
payload = record {
  name = "shapes";
  version = some "Main";
  language_version = lv2 v1;
  id = "abc";
  interned_strings = shapes.interned_strings;
  interned_dotted_names = shapes.interned_dotted_names;
  interned_types = [];
  interned_kinds = [];
  modules = [];
  pkg_names = ("abc", "shapes") ∷ [];
}

payload_made : package_payload dalf ≡ ok payload
unfolding package_payload metadata_string
payload_made = refl

decode_dotted_name-eq-resolve_dotted_example :
    decode_dotted_name shapes (pos 1)
    ≡ map_option join_dots (ok_part (resolve_dotted payload (pos 1)))
decode_dotted_name-eq-resolve_dotted_example =
    decode_dotted_name-eq-resolve_dotted dalf payload payload_made (pos 1)

abbrev dar : DarFile
dar = record { manifest = new_implied "shapes" []; main = dalf; dependencies = [] }

abbrev archive : DamlArchivePayload
archive = record {
  archive_name = "shapes";
  main_package_id = "abc";
  packages = ("abc", payload) ∷ [];
}

archive_made : archive_payload dar ≡ ok archive
unfolding archive_payload package_payload metadata_string
archive_made = refl

cross_pkg_name-archive_payload_example :
    cross_pkg_name payload "abc"
    ≡ map_option (λ (q : DamlPackagePayload). q.name) (lookup "abc" archive.packages)
cross_pkg_name-archive_payload_example =
    cross_pkg_name-archive_payload dar archive archive_made "abc" payload refl "abc"

abbrev circle : TypeConId
circle = record {
  module_id = some (record {
    package_id = some (record { sum = some self_package_id });
    module_name_interned_dname = pos 0;
  });
  name_interned_dname = pos 1;
}

abbrev circle_name : DamlAbsoluteTyCon
circle_name = record {
  data_name = "Circle";
  package_id = "abc";
  package_name = "shapes";
  module_path = "Main" ∷ "Shape" ∷ [];
}

circle_made : convert_tycon_id circle payload ≡ ok circle_name
unfolding convert_tycon_id resolve_module_id resolve_package_ref split_data_name
    resolve_package_name resolve_dotted resolve_dotted_to_indices resolve_strings resolve_string
circle_made = refl

convert_tycon_id-eq-ok_example :
    (m : ModuleId) × (path : List String) × (segments : List String) × (circle.module_id ≡ some m)
    × (resolve_module_id m payload ≡ ok ("abc", path))
    × (resolve_dotted payload (pos 1) ≡ ok segments)
    × (circle_name.module_path ++ "Circle" ∷ [] ≡ path ++ segments)
    × (circle_name.package_name ≡ resolve_package_name payload "abc")
convert_tycon_id-eq-ok_example = convert_tycon_id-eq-ok circle payload circle_name circle_made

abbrev star_table : List Kind
star_table = Kind.star ∷ []

convert_kind-self_reference_example : convert_kind (self_reference ∷ []) 5 self_reference ≡ none
convert_kind-self_reference_example = convert_kind-self_reference 5

-- `ContractId Circle`.
abbrev circle_id : LfType
circle_id = LfType.builtin (pos 8) (LfTypes.more (LfType.con (some circle) LfTypes.end) LfTypes.end)

abbrev circle_id_type : DamlType
circle_id_type = contract_id (more (tycon circle_name end) end)

circle_id_made : convert_type payload 2 3 circle_id ≡ some (ok circle_id_type)
unfolding convert_type builtin_of convert_tycon_id resolve_module_id resolve_package_ref
    split_data_name resolve_package_name resolve_dotted resolve_dotted_to_indices resolve_strings
    resolve_string
circle_id_made = refl

convert_type-IsBounded_example : IsBounded circle_id_type
convert_type-IsBounded_example =
    convert_type-IsBounded payload 2 3 circle_id circle_id_type circle_id_made
