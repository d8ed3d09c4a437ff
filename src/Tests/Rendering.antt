-- ===== src/Tests/Rendering.antt =====
-- Runs of the claims about code generation.
use rust_daml_bindings.Base.{◌≡◌, refl, String, true, false, none, List, [], ◌∷◌, str_eq, contains}
use rust_daml_bindings.Lf.Version.{v1, lv2}
use rust_daml_bindings.Lf.Convert.Types.{DamlType, simple, list, more, end, text, arrow}
use rust_daml_bindings.Lf.Element.Data.{DamlField, DamlData, record_data, variant_data}
use rust_daml_bindings.Lf.Element.Module.{
  ModuleBody, DamlModule, node, child, no_child, empty_body, synthetic_body,
}
use rust_daml_bindings.Lf.Element.Archive.{DamlPackage}
use rust_daml_bindings.Codegen.Names.{
  reserved, escape_identifier, starts_with_digit, escape_identifier_lem,
}
use rust_daml_bindings.Codegen.Types.{
  RenderContext, higher_kinded_type, Casing, quote_fields, supported_fields,
}
use rust_daml_bindings.Codegen.Types.Supported.{Renders, quote_fields-supported_fields}
use rust_daml_bindings.Codegen.Modules.{
  ModuleMatcher, matches, to_module_path, quote_module_tree, quote_module_tree_inner,
  generate_package_source, generate_module_source, is_interesting_module, children_of,
}
use rust_daml_bindings.Codegen.Modules.Combined.{
  rendered_bodies, matched_bodies, with_nearest, quote_module_tree-matched,
}
use rust_daml_bindings.Codegen.Modules.Separate.{
  bodies_written, interesting_of, child_subtrees, generate_package_source-interesting,
}

-- Names that are in the right case already.
abbrev as_is : Casing
as_is = record { to_snake_case = λ s. s; to_uppercase = λ s. s }

abbrev circle : DamlData
circle = record_data (record {
  name = "Circle";
  package_id = "abc";
  module_path = "Main" ∷ "Shape" ∷ [];
  fields = [];
  type_params = [];
  serializable = true;
})

abbrev shape : DamlData
shape = variant_data (record {
  name = "Shape";
  package_id = "abc";
  module_path = "Main" ∷ [];
  fields = [];
  type_params = [];
  serializable = true;
})

abbrev main_body : ModuleBody
main_body = record (empty_body ("Main" ∷ [])) { data_types = ("Shape", shape) ∷ [] }

abbrev shape_body : ModuleBody
shape_body = record (synthetic_body ("Main" ∷ "Shape" ∷ [])) {
  data_types = ("Circle", circle) ∷ [];
}

-- The variant `Shape`, and the record `Circle` of one of its cases in a synthetic module.
abbrev root : DamlModule
root =
    node (empty_body [])
      (child "Main" (node main_body (child "Shape" (node shape_body no_child) no_child)) no_child)

abbrev shapes : DamlPackage
shapes = record {
  name = "shapes";
  package_id = "abc";
  version = none;
  language_version = lv2 v1;
  root_module = root;
}

-- The filter for the module `Main` alone.
abbrev main_only : ModuleMatcher
main_only = record { matchers = (λ path. str_eq path "Main") ∷ [] }

quote_module_tree-matched_example :
    rendered_bodies (quote_module_tree as_is main_only "shapes" root)
    ≡ matched_bodies as_is main_only (with_nearest none root)
quote_module_tree-matched_example = quote_module_tree-matched as_is main_only "shapes" root

-- In one file the synthetic module is there.
combined_runs :
    rendered_bodies (quote_module_tree as_is main_only "shapes" root)
    ≡ empty_body [] ∷ main_body ∷ shape_body ∷ []
unfolding quote_module_tree quote_module_tree_inner rendered_bodies matches to_module_path
combined_runs = refl

generate_package_source-interesting_example :
    bodies_written as_is main_only (generate_package_source as_is main_only shapes)
    ≡ interesting_of as_is main_only (child_subtrees (children_of root))
generate_package_source-interesting_example =
    generate_package_source-interesting as_is main_only shapes

-- In files of their own it is not.
separate_runs :
    bodies_written as_is main_only (generate_package_source as_is main_only shapes) ≡ main_body ∷ []
unfolding generate_package_source generate_module_source is_interesting_module matches
    to_module_path
separate_runs = refl

abbrev field_of : String → DamlType → DamlField
field_of name ty = record { name = name; ty = ty }

abbrev ctx : RenderContext
ctx = record {
  archive = record { name = "shapes"; main_package_id = "abc"; packages = ("abc", shapes) ∷ [] };
  filter_mode = higher_kinded_type;
}

-- A list of texts, and a function.
abbrev fields : List DamlField
fields = field_of "type" (list (more (simple text) end)) ∷ field_of "run" (simple arrow) ∷ []

quote_fields-supported_fields_example : Renders (quote_fields as_is (supported_fields ctx fields))
quote_fields-supported_fields_example = quote_fields-supported_fields ctx as_is fields

escape_identifier_lem_example :
    (escape_identifier (escape_identifier "try") ≡ escape_identifier "try")
    × (starts_with_digit (escape_identifier "try") ≡ false)
    × (contains (escape_identifier "try") reserved ≡ true → escape_identifier "try" ≡ "Self")
escape_identifier_lem_example = escape_identifier_lem "try"
