-- ===== src/Lf/Element/Validate.antt =====
-- `validate` of daml-lf/src/element/daml_archive.rs. The work lists are lists with the top at the head; a
-- walk takes a number of rounds, and `none` is one that has run out of them. The packages, the data types
-- and the interfaces are read in the order in which their tables are written. `show_type` is what
-- `derive(Debug)` makes for types.
pub mod Order
pub mod Modules
pub mod Resolved
pub mod Ends
use rust_daml_bindings.Base.{
  ℕ, zero, suc, ◌+◌, String, Bool, true, false, Option, none, some, List, [], ◌∷◌, ◌++◌, ok, err,
  if◌then◌else◌, ◌||◌, Assoc, lookup, bind_option, find_first, first, str_eq, map_option,
}
use rust_daml_bindings.Lf.Error.{
  DamlLfConvertResult, unexpected_choice_data, unexpected_type, unknown_package, unknown_module,
  unknown_data,
}
use rust_daml_bindings.Lf.Payload.{join_dots}
use rust_daml_bindings.Lf.Convert.Names.{DamlAbsoluteTyCon}
use rust_daml_bindings.Lf.Convert.Kinds.{Converted, ◌>>=◌}
use rust_daml_bindings.Lf.Convert.Types.{
  DamlType, DamlTypes, DamlStructFields, var, tycon, syn, simple, numeric, contract_id, optional,
  list, text_map, gen_map, forall_type, struct_type, nat, end, more, no_field, field,
}
use rust_daml_bindings.Lf.Convert.Data.{lift, done}
use rust_daml_bindings.Lf.Element.Data.{
  DamlField, DamlChoice, DamlDefKey, DamlTemplate, DamlData, template_data, record_data,
  variant_data, enum_data,
}
use rust_daml_bindings.Lf.Element.Module.{
  DamlInterfaceMethod, DamlInterface, ModuleBody, DamlModule, ChildModules, node, no_child, child,
  body_of,
}
use rust_daml_bindings.Lf.Element.Archive.{DamlPackage, DamlArchive, module_at, data_by_tycon_name}

abbrev pub is_some {ℓ} : {A : Type ℓ} → Option A → Bool
is_some none = false
is_some (some a) = true

-- `values()` of a map.
abbrev pub values_of {ℓ} : {V : Type ℓ} → Assoc V → List V
values_of [] = []
values_of ((k, v) ∷ m) = v ∷ values_of m

-- `interface_by_tycon_name`, through the names of the interfaces.
unfoldable pub interface_by_tycon_name : DamlArchive → DamlAbsoluteTyCon → Option DamlInterface
interface_by_tycon_name a name = bind_option (module_at a name.package_id name.module_path) (λ m.
    find_first (λ (i : DamlInterface). str_eq i.name name.data_name)
      (values_of (body_of m).interfaces))

-- `for x in xs { check(x)?; }`.
abbrev pub check_each : {A : Type 0} → (A → Converted (Unit {0})) → List A → Converted (Unit {0})
check_each check [] = done tt
check_each check (x ∷ xs) = check x >>= λ u. check_each check xs

-- What is left to visit after a check.
abbrev pub then_stack :
    List DamlType → DamlLfConvertResult (Unit {0}) → DamlLfConvertResult (List DamlType)
then_stack stack (ok u) = ok stack
then_stack stack (err e) = err e

-- `stack.extend(args.iter())`.
abbrev pub push_types : DamlTypes → List DamlType → List DamlType
push_types end stack = stack
push_types (more t ts) stack = push_types ts (t ∷ stack)

abbrev pub push_fields : DamlStructFields → List DamlType → List DamlType
push_fields no_field stack = stack
push_fields (field l t fs) stack = push_fields fs (t ∷ stack)

unfoldable mutual
  pub size : DamlType → ℕ
  size (var v ts) = suc (sizes ts)
  size (tycon c ts) = suc (sizes ts)
  size (syn c ts) = suc (sizes ts)
  size (simple s) = 1
  size (numeric ts) = suc (sizes ts)
  size (contract_id ts) = suc (sizes ts)
  size (optional ts) = suc (sizes ts)
  size (list ts) = suc (sizes ts)
  size (text_map ts) = suc (sizes ts)
  size (gen_map ts) = suc (sizes ts)
  size (forall_type vs t) = suc (size t)
  size (struct_type fs) = suc (field_sizes fs)
  size (nat n) = 1

  pub sizes : DamlTypes → ℕ
  sizes end = 0
  sizes (more t ts) = size t + sizes ts

  pub field_sizes : DamlStructFields → ℕ
  field_sizes no_field = 0
  field_sizes (field l t fs) = size t + field_sizes fs

unfoldable mutual
  pub module_count : DamlModule → ℕ
  module_count (node b cs) = suc (child_count cs)

  pub child_count : ChildModules → ℕ
  child_count no_child = 0
  child_count (child k m cs) = module_count m + child_count cs

abbrev pub push_children : ChildModules → List DamlModule → List DamlModule
push_children no_child stack = stack
push_children (child k m cs) stack = push_children cs (m ∷ stack)

-- The root modules, the last one on the top.
abbrev pub push_roots : List DamlPackage → List DamlModule → List DamlModule
push_roots [] stack = stack
push_roots (pkg ∷ pkgs) stack = push_roots pkgs (pkg.root_module ∷ stack)

abbrev pub root_count : List DamlPackage → ℕ
root_count [] = 0
root_count (pkg ∷ pkgs) = module_count pkg.root_module + root_count pkgs

module _ (a : DamlArchive) where
  unfoldable pub validate_tycon_name : DamlAbsoluteTyCon → DamlLfConvertResult (Unit {0})
  unfolding data_by_tycon_name interface_by_tycon_name
  validate_tycon_name name =
      if is_some (data_by_tycon_name a name) || is_some (interface_by_tycon_name a name)
      then ok tt
      else elim (lookup name.package_id a.packages) [
        | none ↦ err (unknown_package name.package_id)
        | some pkg ↦ elim (module_at a name.package_id name.module_path) [
          | none ↦ err (unknown_module (join_dots name.module_path))
          | some m ↦ err (unknown_data name.data_name)
        ]
      ]

  -- One round: the check of a type, and what is put on the stack.
  abbrev pub visit_type : DamlType → List DamlType → DamlLfConvertResult (List DamlType)
  visit_type (tycon c ts) stack = then_stack (push_types ts stack) (validate_tycon_name c)
  visit_type (contract_id ts) stack = ok (push_types ts stack)
  visit_type (numeric ts) stack = ok (push_types ts stack)
  visit_type (list ts) stack = ok (push_types ts stack)
  visit_type (text_map ts) stack = ok (push_types ts stack)
  visit_type (gen_map ts) stack = ok (push_types ts stack)
  visit_type (optional ts) stack = ok (push_types ts stack)
  visit_type (var v ts) stack = ok (push_types ts stack)
  visit_type (forall_type vs t) stack = ok (t ∷ stack)
  visit_type (struct_type fs) stack = ok (push_fields fs stack)
  visit_type (syn c ts) stack = ok (push_types ts stack)
  visit_type (simple s) stack = ok stack
  visit_type (nat n) stack = ok stack

  unfoldable pub type_loop : ℕ → List DamlType → Converted (Unit {0})
  unfolding validate_tycon_name
  type_loop zero stack = none
  type_loop (suc rounds) [] = done tt
  type_loop (suc rounds) (t ∷ stack) = lift (visit_type t stack) >>= type_loop rounds

  unfoldable pub validate_type : DamlType → Converted (Unit {0})
  unfolding type_loop size
  validate_type t = type_loop (suc (size t)) (t ∷ [])

  abbrev pub is_record : Option DamlData → Bool
  is_record (some (record_data r)) = true
  is_record d = false

  abbrev pub resolves_to_record : DamlType → Bool
  resolves_to_record (tycon c ts) = is_record (data_by_tycon_name a c)
  resolves_to_record t = false

  unfoldable pub validate_choice : DamlChoice → Converted (Unit {0})
  unfolding validate_type data_by_tycon_name
  validate_choice choice = elim (first choice.fields) [
    | none ↦ lift (err unexpected_choice_data)
    | some f ↦
        if resolves_to_record f.ty
        then (validate_type f.ty >>= λ u. validate_type choice.return_type)
        else lift (err unexpected_choice_data)
  ]

  abbrev pub validate_fields : List DamlField → Converted (Unit {0})
  validate_fields = check_each (λ (f : DamlField). validate_type f.ty)

  abbrev pub validate_key : Option DamlDefKey → Converted (Unit {0})
  validate_key none = done tt
  validate_key (some k) = validate_type k.ty

  unfoldable pub validate_template : DamlTemplate → Converted (Unit {0})
  unfolding validate_type validate_choice
  validate_template t = validate_fields t.fields >>= λ u.
      check_each validate_choice t.choices >>= λ v. validate_key t.key

  unfoldable pub validate_data : DamlData → Converted (Unit {0})
  unfolding validate_type validate_template
  validate_data (record_data r) = validate_fields r.fields
  validate_data (variant_data v) = validate_fields v.fields
  validate_data (enum_data e) = done tt
  validate_data (template_data t) = validate_template t

  module _ (show_type : DamlType → String) where
    unfoldable pub validate_interface : DamlInterface → Converted (Unit {0})
    unfolding validate_type validate_choice validate_tycon_name data_by_tycon_name
    validate_interface i =
        if resolves_to_record i.view
        then (validate_type i.view >>= λ u.
            check_each (λ (m : DamlInterfaceMethod). validate_type m.ty) i.methods >>= λ v.
            check_each validate_choice i.choices >>= λ w.
            check_each (λ r. lift (validate_tycon_name r)) i.requires)
        else lift (err (unexpected_type "Record" (show_type i.view)))

    -- The checks of one module.
    abbrev pub validate_body : ModuleBody → Converted (Unit {0})
    validate_body b = check_each validate_data (values_of b.data_types) >>= λ u.
        check_each validate_interface (values_of b.interfaces)

    unfoldable pub module_loop : ℕ → List DamlModule → Converted (Unit {0})
    unfolding validate_data validate_interface
    module_loop zero modules = none
    module_loop (suc rounds) [] = done tt
    module_loop (suc rounds) (node b cs ∷ modules) =
        validate_body b >>= λ u. module_loop rounds (push_children cs modules)

    unfoldable pub validate : Converted (Unit {0})
    unfolding module_loop module_count
    validate =
        module_loop (suc (root_count (values_of a.packages))) (push_roots (values_of a.packages) [])
