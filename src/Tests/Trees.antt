-- ===== src/Tests/Trees.antt =====
-- Runs of the claims about the tree of modules of a package.
use rust_daml_bindings.Base.{
  ◌≡◌, refl, String, true, false, none, some, List, [], ◌∷◌, lookup, bind_option, map_option, ok,
}
use rust_daml_bindings.Base.Int.{ℤ, pos}
use rust_daml_bindings.Lf.Version.{v1, lv2}
use rust_daml_bindings.Lf.Proto.{DefDataType, record_cons}
use rust_daml_bindings.Lf.Convert.{
  DamlModulePayload, DamlPackagePayload, resolve_dotted, resolve_dotted_to_indices, resolve_strings,
  resolve_string,
}
use rust_daml_bindings.Lf.Convert.Data.{done, build_data_type, build_data_cons, record_or_template}
use rust_daml_bindings.Lf.Convert.Modules.{
  BuiltDataTypes, check_flags, build_data_types, build_interfaces, build_exceptions, build_leaf,
  install, insert_module, insert_modules, build_module_tree,
}
use rust_daml_bindings.Lf.Convert.Modules.Flat.{map_converted, flat_modules, build_module_tree-flat}
use rust_daml_bindings.Lf.Convert.Modules.Built.{
  build_module_tree-IsSound, build_module_tree-finds, insert_module-data,
}
use rust_daml_bindings.Lf.Element.Data.{DamlData, record_data}
use rust_daml_bindings.Lf.Element.Module.{
  ModuleBody, DamlModule, node, child, no_child, body_of, empty_body, synthetic_body, safe_flags,
  child_module_path, data_type, new_root,
}
use rust_daml_bindings.Lf.Element.Module.Tree.{IsRooted, table_of}

-- The record `Shape.Circle`, without fields.
abbrev circle_def : DefDataType
circle_def = record {
  name_interned_dname = pos 1;
  params = [];
  serializable = true;
  data_cons = some (record_cons []);
}

abbrev module_of : ℤ → List DefDataType → DamlModulePayload
module_of name data_types = record {
  name_index = name;
  flags = record {
    forbid_party_literals = true;
    dont_divulge_contract_ids_in_create_arguments = true;
    dont_disclose_non_consuming_choices_to_observers = true;
  };
  lf_module = record {
    name_interned_dname = name;
    flags = none;
    synonyms = [];
    data_types = data_types;
    templates = [];
    exceptions = [];
    interfaces = [];
  };
}

abbrev main_module : DamlModulePayload
main_module = module_of (pos 0) (circle_def ∷ [])

abbrev shape_module : DamlModulePayload
shape_module = module_of (pos 2) []

-- The modules `Main`, which declares `Shape.Circle`, and `Main.Shape`.
abbrev shapes : DamlPackagePayload
shapes = record {
  name = "shapes";
  version = none;
  language_version = lv2 v1;
  id = "abc";
  interned_strings = "Main" ∷ "Shape" ∷ "Circle" ∷ [];
  interned_dotted_names = (pos 0 ∷ []) ∷ (pos 1 ∷ pos 2 ∷ []) ∷ (pos 0 ∷ pos 1 ∷ []) ∷ [];
  interned_types = [];
  interned_kinds = [];
  modules = main_module ∷ shape_module ∷ [];
  pkg_names = [];
}

abbrev circle : DamlData
circle = record_data (record {
  name = "Circle";
  package_id = "abc";
  module_path = "Main" ∷ "Shape" ∷ [];
  fields = [];
  type_params = [];
  serializable = true;
})

-- The tree after `Main`: the record is routed to a synthetic module.
abbrev before : DamlModule
before = node (empty_body []) (
    child "Main"
      (node (empty_body ("Main" ∷ [])) (
        child "Shape"
          (node
            (record (synthetic_body ("Main" ∷ "Shape" ∷ [])) {
              data_types = ("Circle", circle) ∷ [];
            })
            no_child)
          no_child))
      no_child)

-- The tree after both: the record is gone.
abbrev after : DamlModule
after = node (empty_body []) (
    child "Main"
      (node (empty_body ("Main" ∷ []))
        (child "Shape" (node (empty_body ("Main" ∷ "Shape" ∷ [])) no_child) no_child))
      no_child)

main_inserted : insert_modules shapes 1 1 (main_module ∷ []) new_root ≡ done before
unfolding insert_modules insert_module build_leaf install check_flags build_data_types
    build_data_type build_data_cons record_or_template resolve_dotted resolve_dotted_to_indices
    resolve_strings resolve_string
main_inserted = refl

shape_inserted : insert_module shapes 1 1 ("Main" ∷ "Shape" ∷ []) shape_module before ≡ done after
unfolding insert_module build_leaf install check_flags build_data_types build_interfaces
    build_exceptions
shape_inserted = refl

tree_built : build_module_tree shapes 1 1 ≡ done after
unfolding build_module_tree insert_modules insert_module build_leaf install check_flags
    build_data_types build_data_type build_data_cons record_or_template resolve_dotted
    resolve_dotted_to_indices resolve_strings resolve_string
tree_built = refl

abbrev shape_path : List String
shape_path = "Main" ∷ "Shape" ∷ []

build_module_tree-IsSound_example :
    ((empty_body shape_path).path ≡ shape_path) × ((empty_body shape_path).flags ≡ safe_flags)
build_module_tree-IsSound_example =
    build_module_tree-IsSound shapes 1 1 after tree_built shape_path (empty_body shape_path) refl

build_module_tree-finds_example :
    (path : List String) × (b : ModuleBody) × (resolve_dotted shapes shape_module.name_index
      ≡ ok path)
    × (map_option body_of (child_module_path path after) ≡ some b)
    × (b.synthetic ≡ false)
build_module_tree-finds_example =
    build_module_tree-finds shapes 1 1 after tree_built 1 shape_module refl

before-IsRooted : IsRooted [] before
unfolding IsRooted
before-IsRooted = (refl, ((refl, ((refl, tt), tt)), tt))

-- The record that stood at the path of the second module is lost.
insert_module-data_example :
    (b : BuiltDataTypes) × (build_data_types shapes 1 1 [] shape_path
        (record { direct = []; nested = [] })
        []
      ≡ done b)
    × ((name : String)
        → bind_option (child_module_path shape_path after) (data_type name) ≡ lookup name b.direct)
insert_module-data_example =
    insert_module-data shapes 1 1 shape_path shape_module before after before-IsRooted
      shape_inserted

build_module_tree-flat_example :
    map_converted table_of (build_module_tree shapes 1 1)
    ≡ flat_modules shapes 1 1 shapes.modules (table_of new_root)
build_module_tree-flat_example = build_module_tree-flat shapes 1 1
