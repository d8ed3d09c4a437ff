-- ===== src/Lf/Convert/Modules.antt =====
-- Packages as trees of modules, and archives, daml-lf/src/convert.rs. Of a failed conversion nothing but its
-- error is seen, so that a step that fails returns no tree. All errors here are those of a conversion, which
-- `?` wraps for the caller: they are wrapped at the end. The table of packages is read in the order in
-- which it is written, where the source's order is that of a hash map.
pub mod Flat
pub mod Found
pub mod Built
use rust_daml_bindings.Base.{
  ℕ, String, Bool, Option, none, some, List, [], ◌∷◌, ◌++◌, ok, err, if◌then◌else◌, Assoc, insert,
  Result, map_err, map_option, first,
}
use rust_daml_bindings.Lf.Error.{
  DamlLfConvertError, DamlLfResult, missing_required_field, unsupported_feature_used,
  daml_lf_convert_error,
}
use rust_daml_bindings.Lf.Version.{LanguageVersion, version_text}
use rust_daml_bindings.Lf.Proto.{
  DefTypeSyn, DefInterface, DefException, DefTemplate, DefDataType, Module,
}
use rust_daml_bindings.Lf.Archive.{DamlLfArchive}
use rust_daml_bindings.Lf.DarFile.{DarFile}
use rust_daml_bindings.Lf.Convert.{
  ModuleFlags, DamlModulePayload, DamlPackagePayload, DamlArchivePayload, req, resolve_dotted,
  package_payload, archive_payload, from_single_package,
}
use rust_daml_bindings.Lf.Convert.Names.{split_last}
use rust_daml_bindings.Lf.Convert.Kinds.{Converted, ◌>>=◌}
use rust_daml_bindings.Lf.Convert.Types.{convert_typevars}
use rust_daml_bindings.Lf.Convert.Data.{
  convert_all, lift, done, required_type, build_data_type, convert_interface, convert_exception,
}
use rust_daml_bindings.Lf.Element.Data.{DamlData, data_name}
use rust_daml_bindings.Lf.Element.Module.{
  DamlInterface, DamlException, DamlDefTypeSyn, DamlFeatureFlags, DamlModule, new_root, new_leaf,
  child_module_or_new, synthetic_child_or_new, take_from, insert_data_type, walk,
}
use rust_daml_bindings.Lf.Element.Archive.{DamlPackage, DamlArchive}

-- The flags that a module must have, in the order in which they are looked at.
unfoldable pub check_flags : LanguageVersion → ModuleFlags → Converted (Unit {0})
check_flags v flags =
    if flags.forbid_party_literals
    then if flags.dont_divulge_contract_ids_in_create_arguments
      then if flags.dont_disclose_non_consuming_choices_to_observers
        then done tt
        else lift (
            err (
              unsupported_feature_used (version_text v)
                "non-consuming choice disclosure to observers (LF1-only)" "LF1"))
      else lift (
          err (
            unsupported_feature_used (version_text v)
              "contract-id divulgence in create arguments (LF1-only)" "LF1"))
    else lift (
        err (
          unsupported_feature_used (version_text v)
            "party-literal syntax (LF1-only; use the Party type instead)" "LF1"))

-- Data with the path below its module at which it goes and its key there.
abbrev pub Routed : Type 0
Routed = List String × String × DamlData

pub record BuiltDataTypes : Type 0 where
  pub direct : Assoc DamlData
  pub nested : List Routed

-- What `insert_module` makes of the declarations of a module.
pub record BuiltModule : Type 0 where
  pub leaf : DamlModule
  pub routed : List Routed

-- One data type, put where it belongs: `nested.push` adds at the end.
abbrev pub route : String → List String → Option DamlData → BuiltDataTypes → BuiltDataTypes
route last_seg prefix none built = built
route last_seg [] (some d) built = record built { direct = insert (data_name d) d built.direct }
route last_seg (x ∷ prefix) (some d) built = record built {
  nested = built.nested ++ (x ∷ prefix, last_seg, d) ∷ [];
}

-- The loop over the routed data, from the module that they come from.
abbrev pub route_all : List Routed → DamlModule → DamlModule
route_all [] cursor = cursor
route_all ((extra_path, key, d) ∷ nested) cursor =
    route_all nested (walk synthetic_child_or_new extra_path (insert_data_type key d) cursor)

-- The module is put at its path, then its routed data below it.
unfoldable pub install : List String → BuiltModule → DamlModule → DamlModule
install path built root =
    walk child_module_or_new path (λ cursor. route_all built.routed (take_from built.leaf cursor))
      root

module _ (p : DamlPackagePayload) (kind_depth depth : ℕ) where
  unfoldable pub build_data_types :
      List DefTemplate → List String → BuiltDataTypes → List DefDataType → Converted BuiltDataTypes
  unfolding build_data_type
  build_data_types templates module_path built [] = done built
  build_data_types templates module_path built (payload ∷ payloads) = do
    path ← lift (resolve_dotted p payload.name_interned_dname)
    parts ← lift (req (split_last path))
    data_item ←
        build_data_type p kind_depth depth payload parts.0 (module_path ++ parts.1) templates
    build_data_types templates module_path (route parts.0 parts.1 data_item built) payloads

  unfoldable pub build_synonym : List String → DefTypeSyn → Converted DamlDefTypeSyn
  unfolding required_type
  build_synonym module_path syn = do
    name_segments ← lift (resolve_dotted p syn.name_interned_dname)
    params ← convert_typevars p kind_depth syn.params
    ty ← required_type p kind_depth depth syn.syn_type
    done (record { params = params; ty = ty; name = module_path ++ name_segments })

  unfoldable pub build_interfaces :
      List String → Assoc DamlInterface → List DefInterface → Converted (Assoc DamlInterface)
  unfolding convert_interface
  build_interfaces module_path out [] = done out
  build_interfaces module_path out (proto ∷ protos) = do
    interface ← convert_interface p kind_depth depth module_path proto
    build_interfaces module_path (insert interface.name interface out) protos

  unfoldable pub build_exceptions :
      List String → Assoc DamlException → List DefException → Converted (Assoc DamlException)
  unfolding convert_exception
  build_exceptions module_path out [] = done out
  build_exceptions module_path out (proto ∷ protos) = do
    exception ← convert_exception p kind_depth depth module_path proto
    build_exceptions module_path (insert exception.name exception out) protos

  -- The part of `insert_module` before the tree changes.
  unfoldable pub build_leaf : List String → DamlModulePayload → Converted BuiltModule
  unfolding check_flags build_data_types build_synonym build_interfaces build_exceptions
  build_leaf path m = do
    checked ← check_flags p.language_version m.flags
    built ←
        build_data_types m.lf_module.templates path (record { direct = []; nested = [] })
          m.lf_module.data_types
    synonyms ← convert_all (build_synonym path) m.lf_module.synonyms
    interfaces ← build_interfaces path [] m.lf_module.interfaces
    exceptions ← build_exceptions path [] m.lf_module.exceptions
    done (record {
      leaf =
          new_leaf path
            (record {
              forbid_party_literals = m.flags.forbid_party_literals;
              dont_divulge_contract_ids_in_create_arguments =
                  m.flags.dont_divulge_contract_ids_in_create_arguments;
              dont_disclose_non_consuming_choices_to_observers =
                  m.flags.dont_disclose_non_consuming_choices_to_observers;
            })
            synonyms built.direct interfaces exceptions;
      routed = built.nested;
    })

  unfoldable pub insert_module : List String → DamlModulePayload → DamlModule → Converted DamlModule
  unfolding build_leaf install
  insert_module path m root = build_leaf path m >>= λ built. done (install path built root)

  -- The loop of `build_module_tree`.
  unfoldable pub insert_modules : List DamlModulePayload → DamlModule → Converted DamlModule
  unfolding insert_module
  insert_modules [] root = done root
  insert_modules (m ∷ ms) root = do
    path ← lift (resolve_dotted p m.name_index)
    grown ← insert_module path m root
    insert_modules ms grown

  unfoldable pub build_module_tree : Converted DamlModule
  unfolding insert_modules
  build_module_tree = insert_modules p.modules new_root

  unfoldable pub build_package : Converted DamlPackage
  unfolding build_module_tree
  build_package = build_module_tree >>= λ root. done (record {
    name = p.name;
    package_id = p.id;
    version = p.version;
    language_version = p.language_version;
    root_module = root;
  })

module _ (kind_depth depth : ℕ) where
  abbrev pub build_packages :
      Assoc DamlPackage → Assoc DamlPackagePayload → Converted (Assoc DamlPackage)
  build_packages acc [] = done acc
  build_packages acc ((k, p) ∷ ps) =
      build_package p kind_depth depth >>= λ pkg. build_packages (insert p.id pkg acc) ps

  unfoldable pub build_archive : DamlArchivePayload → Converted DamlArchive
  unfolding build_package
  build_archive payload = build_packages [] payload.packages >>= λ packages. done (record {
    name = payload.archive_name;
    main_package_id = payload.main_package_id;
    packages = packages;
  })

  -- `to_owned_archive`, and `apply_dar` with the archive as what is asked for.
  unfoldable pub apply_dar : DarFile → Option (DamlLfResult DamlArchive)
  unfolding build_archive
  apply_dar dar =
      map_option (map_err daml_lf_convert_error) (lift (archive_payload dar) >>= build_archive)

  -- The first package of the table; `none` inside is the panic of `expect`.
  abbrev pub only_package : DamlArchive → Option DamlPackage
  only_package a = map_option (λ (e : String × DamlPackage). e.1) (first a.packages)

  unfoldable pub apply_dalf : DamlLfArchive → Option (DamlLfResult (Option DamlPackage))
  unfolding build_archive
  apply_dalf dalf = map_option (map_err daml_lf_convert_error) (
      lift (package_payload dalf) >>= λ p.
      build_archive (from_single_package p) >>= λ a. done (only_package a))
