-- ===== src/Lf/Element/Archive.antt =====
-- Packages and archives, daml_package.rs and daml_archive.rs of daml-lf/src/element.
use rust_daml_bindings.Base.{String, Option, List, Assoc, lookup, bind_option}
use rust_daml_bindings.Lf.Version.{LanguageVersion}
use rust_daml_bindings.Lf.Convert.Names.{DamlAbsoluteTyCon}
use rust_daml_bindings.Lf.Element.Data.{DamlData}
use rust_daml_bindings.Lf.Element.Module.{DamlModule, child_module_path, data_type}

pub record DamlPackage : Type 0 where
  pub name : String
  pub package_id : String
  pub version : Option String
  pub language_version : LanguageVersion
  pub root_module : DamlModule

pub record DamlArchive : Type 0 where
  pub name : String
  pub main_package_id : String
  pub packages : Assoc DamlPackage

abbrev pub main_package : DamlArchive → Option DamlPackage
main_package a = lookup a.main_package_id a.packages

-- `packages.get(package_id)?.root_module().child_module_path(module_path)`.
abbrev pub module_at : DamlArchive → String → List String → Option DamlModule
module_at a package_id module_path =
    bind_option (lookup package_id a.packages)
      (λ (pkg : DamlPackage). child_module_path module_path pkg.root_module)

-- `data` and `data_by_tycon_name`.
unfoldable pub data_at : DamlArchive → String → List String → String → Option DamlData
data_at a package_id module_path data_name =
    bind_option (module_at a package_id module_path) (data_type data_name)

unfoldable pub data_by_tycon_name : DamlArchive → DamlAbsoluteTyCon → Option DamlData
unfolding data_at
data_by_tycon_name a name = data_at a name.package_id name.module_path name.data_name
