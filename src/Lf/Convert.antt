-- ===== src/Lf/Convert.antt =====
-- Packages and archives ready for conversion, daml-lf/src/convert: package_payload.rs,
-- module_payload.rs, archive_payload.rs and interned.rs.
pub mod Names
pub mod Interned
pub mod Table
pub mod Kinds
pub mod Types
pub mod Data
pub mod Modules
use Prim.Native.String.{◌++◌}
use rust_daml_bindings.Base.{
  ℕ, String, Bool, Option, none, some, List, [], ◌∷◌, Result, ok, err, ◌>>=◌, ok_or, map_results,
  map_option, get_elem?, Assoc, lookup, insert,
}
use rust_daml_bindings.Base.Int.{ℤ, to_unsigned, show_ℤ, show_ℕ}
use rust_daml_bindings.Lf.Error.{
  DamlLfConvertError, DamlLfConvertResult, missing_required_field, internal_error,
}
use rust_daml_bindings.Lf.Version.{LanguageVersion}
use rust_daml_bindings.Lf.Proto.{LfType, Kind, Package, Module, FeatureFlags, PackageMetadata}
use rust_daml_bindings.Lf.Payload.{DamlLfArchivePayload}
use rust_daml_bindings.Lf.Archive.{DamlLfArchive}
use rust_daml_bindings.Lf.DarFile.{DarFile}

-- `req` of convert/util.rs.
abbrev pub req {ℓ} : {A : Type ℓ} → Option A → Result DamlLfConvertError A
req none = err missing_required_field
req (some a) = ok a

pub record ModuleFlags : Type 0 where
  pub forbid_party_literals : Bool
  pub dont_divulge_contract_ids_in_create_arguments : Bool
  pub dont_disclose_non_consuming_choices_to_observers : Bool

pub record DamlModulePayload : Type 0 where
  pub name_index : ℤ
  pub flags : ModuleFlags
  pub lf_module : Module

unfoldable pub module_payload : Module → DamlLfConvertResult DamlModulePayload
module_payload m = do
  f ← req m.flags
  ok (record {
    name_index = m.name_interned_dname;
    flags = record {
      forbid_party_literals = f.forbid_party_literals;
      dont_divulge_contract_ids_in_create_arguments =
          f.dont_divulge_contract_ids_in_create_arguments;
      dont_disclose_non_consuming_choices_to_observers =
          f.dont_disclose_non_consuming_choices_to_observers;
    };
    lf_module = m;
  })

pub record DamlPackagePayload : Type 0 where
  pub name : String
  pub version : Option String
  pub language_version : LanguageVersion
  pub id : String
  pub interned_strings : List String
  pub interned_dotted_names : List (List ℤ)
  pub interned_types : List LfType
  pub interned_kinds : List Kind
  pub modules : List DamlModulePayload
  pub pkg_names : Assoc String

-- An entry of a table by a signed index, with the texts of the two errors.
abbrev pub entry {ℓ} : {A : Type ℓ} → String → String → List A → ℤ → Result DamlLfConvertError A
entry negative absent xs i = elim (to_unsigned i) [
  | none ↦ err (internal_error negative)
  | some n ↦ ok_or (internal_error absent) (get_elem? xs n)
]

abbrev show_index : ℤ → String
show_index i = elim (to_unsigned i) [ none ↦ show_ℤ i | some n ↦ show_ℕ n ]

-- A string of the metadata, the field named in the errors.
unfoldable pub metadata_string : String → List String → ℤ → DamlLfConvertResult String
metadata_string label strings i =
    entry ("package metadata " ++ (label ++ (" " ++ (show_ℤ i ++ " is negative"))))
      ("package metadata " ++ (label ++ (" " ++ (show_index i ++ " out of range")))) strings i

-- `TryFrom<&DamlLfArchive> for DamlPackagePayload`.
unfoldable pub package_payload : DamlLfArchive → DamlLfConvertResult DamlPackagePayload
unfolding metadata_string module_payload
package_payload dalf = do
  let p = dalf.payload.lf_package
  metadata ← req p.metadata
  name ← metadata_string "name_interned_str" p.interned_strings metadata.name_interned_str
  version ← metadata_string "version_interned_str" p.interned_strings metadata.version_interned_str
  modules ← map_results module_payload p.modules
  ok (record {
    name = name;
    version = some version;
    language_version = dalf.payload.language_version;
    id = dalf.hash;
    interned_strings = p.interned_strings;
    interned_dotted_names = p.interned_dotted_names;
    interned_types = p.interned_types;
    interned_kinds = p.interned_kinds;
    modules = modules;
    pkg_names = insert dalf.hash name [];
  })

unfoldable pub cross_pkg_name : DamlPackagePayload → String → Option String
cross_pkg_name p package_id = lookup package_id p.pkg_names

abbrev pub set_pkg_names : Assoc String → DamlPackagePayload → DamlPackagePayload
set_pkg_names names p = record p { pkg_names = names }

pub record DamlArchivePayload : Type 0 where
  pub archive_name : String
  pub main_package_id : String
  pub packages : Assoc DamlPackagePayload

-- The values of a map, each changed.
abbrev pub map_values {ℓ κ} : {V : Type ℓ} {W : Type κ} → (V → W) → Assoc V → Assoc W
map_values f [] = []
map_values f ((k, v) ∷ m) = (k, f v) ∷ map_values f m

-- The loop over the archives.
abbrev pub insert_packages :
    Assoc DamlPackagePayload → List DamlLfArchive → DamlLfConvertResult (Assoc DamlPackagePayload)
insert_packages acc [] = ok acc
insert_packages acc (dep ∷ deps) =
    package_payload dep >>= λ p. insert_packages (insert p.id p acc) deps

-- `TryFrom<&DarFile> for DamlArchivePayload`: every package gets the table of all names.
unfoldable pub archive_payload : DarFile → DamlLfConvertResult DamlArchivePayload
archive_payload dar = do
  packages ← insert_packages [] (dar.main ∷ dar.dependencies)
  ok (record {
    archive_name = dar.main.name;
    main_package_id = dar.main.hash;
    packages =
        map_values (set_pkg_names (map_values (λ (p : DamlPackagePayload). p.name) packages))
          packages;
  })

unfoldable pub from_single_package : DamlPackagePayload → DamlArchivePayload
from_single_package p = record {
  archive_name = "unnamed";
  main_package_id = p.id;
  packages = insert p.id p [];
}

-- The interning tables.
unfoldable pub resolve_string : DamlPackagePayload → ℤ → DamlLfConvertResult String
resolve_string p index =
    entry ("negative interned-string index " ++ show_ℤ index)
      ("interned-string index " ++ (show_index index ++ " out of range")) p.interned_strings index

unfoldable pub resolve_strings : DamlPackagePayload → List ℤ → DamlLfConvertResult (List String)
unfolding resolve_string
resolve_strings p = map_results (resolve_string p)

unfoldable pub resolve_dotted_to_indices : DamlPackagePayload → ℤ → DamlLfConvertResult (List ℤ)
resolve_dotted_to_indices p index =
    entry ("negative interned-dotted-name index " ++ show_ℤ index)
      ("interned-dotted-name index " ++ (show_index index ++ " out of range"))
      p.interned_dotted_names index

unfoldable pub resolve_dotted : DamlPackagePayload → ℤ → DamlLfConvertResult (List String)
unfolding resolve_dotted_to_indices resolve_strings
resolve_dotted p index = resolve_dotted_to_indices p index >>= resolve_strings p
