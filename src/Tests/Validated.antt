-- ===== src/Tests/Validated.antt =====
-- Runs of the claims about the validation of archives and about types.
use rust_daml_bindings.Base.{
  zero, suc, ◌≡◌, ◌≢◌, refl, String, true, none, List, [], ◌∷◌, ◌⊎◌, ◌↔◌, subst, some_inj, arith,
}
use rust_daml_bindings.Base.Int.{pos}
use rust_daml_bindings.Lf.Version.{v1, lv2}
use rust_daml_bindings.Lf.Proto.{LfType, LfTypes}
use rust_daml_bindings.Lf.Convert.{DamlPackagePayload}
use rust_daml_bindings.Lf.Convert.Names.{DamlAbsoluteTyCon}
use rust_daml_bindings.Lf.Convert.Kinds.Ends.{IsBelow}
use rust_daml_bindings.Lf.Convert.Types.{DamlType, list, tycon, end, more, convert_type}
use rust_daml_bindings.Lf.Convert.Types.Ends.{TypesInOrder, Refers, convert_type_ends}
use rust_daml_bindings.Lf.Convert.Data.{done}
use rust_daml_bindings.Lf.Element.Data.{DamlRecord, DamlData, record_data, data_fields}
use rust_daml_bindings.Lf.Element.Data.Identity.{
  data_identity_eq, data_identity_eq_iff, IsPrefix, record_identity,
}
use rust_daml_bindings.Lf.Element.Module.{node, child, no_child, empty_body}
use rust_daml_bindings.Lf.Element.Archive.{DamlArchive, data_at, data_by_tycon_name}
use rust_daml_bindings.Lf.Element.Validate.{
  size, validate_tycon_name, type_loop, validate_type, validate_data, module_count, module_loop,
  validate,
}
use rust_daml_bindings.Lf.Element.Validate.Order.{tycons, check_names, validate_type-tycons}
use rust_daml_bindings.Lf.Element.Validate.Resolved.{AllOf, FieldResolves, validate-Resolves}
use rust_daml_bindings.Lf.Element.Validate.Ends.{validate_ends}

abbrev tree_name : DamlAbsoluteTyCon
tree_name = record {
  data_name = "Tree";
  package_id = "abc";
  package_name = "trees";
  module_path = "Main" ∷ [];
}

-- The record `Main.Tree`, with a list of trees as its field.
abbrev trees_type : DamlType
trees_type = list (more (tycon tree_name end) end)

abbrev tree_in : List String → DamlRecord
tree_in module_path = record {
  name = "Tree";
  package_id = "abc";
  module_path = module_path;
  fields = record { name = "branches"; ty = trees_type } ∷ [];
  type_params = [];
  serializable = true;
}

abbrev tree : DamlData
tree = record_data (tree_in ("Main" ∷ []))

abbrev forest : DamlArchive
forest = record {
  name = "trees";
  main_package_id = "abc";
  packages =
      (
        "abc",
        record {
          name = "trees";
          package_id = "abc";
          version = none;
          language_version = lv2 v1;
          root_module = node (empty_body []) (
              child "Main"
                (node (record (empty_body ("Main" ∷ [])) { data_types = ("Tree", tree) ∷ [] })
                  no_child)
                no_child);
        },
      )
      ∷ [];
}

abbrev no_text : DamlType → String
no_text t = ""

forest_valid : validate forest no_text ≡ done tt
unfolding validate module_loop module_count validate_data validate_type type_loop size
    validate_tycon_name data_by_tycon_name data_at
forest_valid = refl

validate-Resolves_example : AllOf (FieldResolves forest) (data_fields tree)
unfolding data_at
validate-Resolves_example =
    validate-Resolves forest no_text forest_valid "abc" ("Main" ∷ []) "Tree" tree refl

validate_ends_example : validate forest no_text ≢ none
validate_ends_example = validate_ends forest no_text

validate_type-tycons_example :
    validate_type forest trees_type ≡ check_names forest (tycons trees_type)
validate_type-tycons_example = validate_type-tycons forest trees_type

-- The table of types has the text, and a list of what stands at its first place.
abbrev types : List LfType
types =
    LfType.builtin (pos 7) LfTypes.end
    ∷ LfType.builtin (pos 10) (LfTypes.more (LfType.interned_type (pos 0)) LfTypes.end)
    ∷ []

abbrev texts : DamlPackagePayload
texts = record {
  name = "texts";
  version = none;
  language_version = lv2 v1;
  id = "abc";
  interned_strings = [];
  interned_dotted_names = [];
  interned_types = types;
  interned_kinds = [];
  modules = [];
  pkg_names = [];
}

types_in_order : TypesInOrder types
unfolding Refers
types_in_order zero t h = subst (Refers (IsBelow 0)) (some_inj h) tt
types_in_order (suc zero) t h = subst (Refers (IsBelow 1)) (some_inj h) (omega arith, tt)
types_in_order (suc (suc n)) t h = cc

abbrev listed : LfType
listed = LfType.interned_type (pos 1)

convert_type_ends_example : convert_type texts 2 4 listed ≢ none
convert_type_ends_example = convert_type_ends texts (λ n k h. cc) types_in_order listed

-- Two records of one name in a module and in a module below it count as the same.
data_identity_eq_iff_example :
    (data_identity_eq (tree_in ("Main" ∷ [])) (tree_in ("Main" ∷ "Old" ∷ [])) ≡ true) ↔ (
      ((tree_in ("Main" ∷ [])).package_id ≡ (tree_in ("Main" ∷ "Old" ∷ [])).package_id)
      × ((tree_in ("Main" ∷ [])).name ≡ (tree_in ("Main" ∷ "Old" ∷ [])).name)
      × (IsPrefix ("Main" ∷ []) ("Main" ∷ "Old" ∷ [])
          ⊎ IsPrefix ("Main" ∷ "Old" ∷ []) ("Main" ∷ [])))
data_identity_eq_iff_example =
    data_identity_eq_iff (tree_in ("Main" ∷ [])) (tree_in ("Main" ∷ "Old" ∷ []))
