-- ===== src/Codegen/Types.antt =====
-- The types that are rendered, daml-codegen/src/renderer: renderable.rs, type_renderer.rs and
-- field_renderer.rs. Rendered source is a list of tokens; `none` is the panic on an unsupported type.
-- Parameters are `to_snake_case` of the crate heck and `to_uppercase` of Unicode. `Ident::new` makes a
-- token of every text here, where it panics on one that is not an identifier.
pub mod Supported
use Prim.Native.Char.{code}
use Prim.Native.String.{◌++◌}
use rust_daml_bindings.Base.{
  ℕ, String, Bool, true, false, ◌&&◌, not, Option, none, some, List, [], ◌∷◌, ◌++◌ as ◌⋄◌, ◌==◌,
  keep_if, any_of, str_eq, if◌then◌else◌, bind_option,
}
use rust_daml_bindings.Base.Int.{show_ℕ}
use rust_daml_bindings.Lf.Convert.Names.{DamlAbsoluteTyCon}
use rust_daml_bindings.Lf.Convert.Kinds.{DamlKind, arrow}
use rust_daml_bindings.Lf.Convert.Types.{
  DamlType, DamlTypes, var, tycon, syn, simple, numeric, contract_id, optional, list, text_map,
  gen_map, forall_type, struct_type, nat, end, more, Simple,
}
use rust_daml_bindings.Lf.Convert.Types
use rust_daml_bindings.Lf.Element.Data.{DamlField, TypeVar, data_type_params, data_serializable}
use rust_daml_bindings.Lf.Element.Archive.{DamlArchive, data_by_tycon_name}
use rust_daml_bindings.Codegen.Names.{escape_identifier}

pub data RenderFilterMode : Type 0 where
  higher_kinded_type non_serializable : RenderFilterMode

pub record RenderContext : Type 0 where
  pub archive : DamlArchive
  pub filter_mode : RenderFilterMode

-- `DamlType::name`.
abbrev simple_name : Simple → String
simple_name Simple.unit = "DamlUnit"
simple_name Simple.bool = "DamlBool"
simple_name Simple.int64 = "DamlInt64"
simple_name Simple.date = "DamlDate"
simple_name Simple.timestamp = "DamlTimestamp"
simple_name Simple.party = "DamlParty"
simple_name Simple.text = "DamlText"
simple_name Simple.any = "None (Any)"
simple_name Simple.any_exception = "None (AnyException)"
simple_name Simple.type_rep = "None (TypeRep)"
simple_name Simple.arrow = "None (Arrow)"
simple_name Simple.update = "None (Update)"
simple_name Simple.bignumeric = "None (Bignumeric)"
simple_name Simple.failure_category = "None (FailureCategory)"
simple_name Simple.rounding_mode = "None (RoundingMode)"

abbrev pub type_name : DamlType → String
type_name (var v ts) = "None (Var)"
type_name (tycon c ts) = "None (TyCon)"
type_name (syn c ts) = "Syn"
type_name (simple s) = simple_name s
type_name (numeric ts) = "DamlFixedNumeric"
type_name (contract_id ts) = "DamlContractId"
type_name (optional ts) = "DamlOptional"
type_name (list ts) = "DamlList"
type_name (text_map ts) = "DamlTextMap"
type_name (gen_map ts) = "DamlGenMap"
type_name (forall_type vs t) = "Forall"
type_name (struct_type fs) = "Struct"
type_name (nat n) = "Nat"

-- The builtin types without arguments that are rendered.
abbrev pub is_plain : Simple → Bool
is_plain Simple.unit = true
is_plain Simple.bool = true
is_plain Simple.int64 = true
is_plain Simple.date = true
is_plain Simple.timestamp = true
is_plain Simple.party = true
is_plain Simple.text = true
is_plain s = false

abbrev is_higher : TypeVar → Bool
is_higher (v, arrow ps r) = true
is_higher (v, k) = false

module _ (ctx : RenderContext) where
  -- A reference to a missing data type is let through.
  unfoldable pub check_target_data : DamlAbsoluteTyCon → Bool
  check_target_data c = elim (data_by_tycon_name ctx.archive c) [
    | none ↦ true
    | some d ↦ elim ctx.filter_mode [
      | higher_kinded_type ↦ not (any_of is_higher (data_type_params d))
      | non_serializable ↦ data_serializable d
    ]
  ]

  unfoldable mutual
    unfolding check_target_data

    pub check_type : DamlType → Bool
    check_type (simple s) = is_plain s
    check_type (nat n) = true
    check_type (list ts) = check_types ts
    check_type (text_map ts) = check_types ts
    check_type (gen_map ts) = check_types ts
    check_type (optional ts) = check_types ts
    check_type (numeric ts) = check_types ts
    check_type (contract_id ts) = check_types ts
    check_type (tycon c ts) = check_target_data c && check_types ts
    check_type (var v ts) = check_types ts
    check_type (forall_type vs t) = false
    check_type (struct_type fs) = false
    check_type (syn c ts) = false

    pub check_types : DamlTypes → Bool
    check_types end = true
    check_types (more t ts) = check_type t && check_types ts

-- The names that other code makes: heck, and Rust's tables of Unicode.
pub record Casing : Type 0 where
  pub to_snake_case : String → String
  pub to_uppercase : String → String

-- `replace(' ', "_")`.
unfoldable pub sanitize_var_name : String → String
sanitize_var_name String.[] = ""
sanitize_var_name (String.◌∷◌ c s) =
    String.◌∷◌ (if code c == b' ' then "_" else c) (sanitize_var_name s)

module _ (casing : Casing) where
  abbrev path_tokens : List String → List String
  path_tokens [] = []
  path_tokens (s ∷ path) = escape_identifier (casing.to_snake_case s) ∷ "::" ∷ path_tokens path

  -- The path of a type constructor from the root of the generated crate.
  unfoldable pub quote_absolute_tycon : DamlAbsoluteTyCon → List String
  quote_absolute_tycon c =
      "crate"
      ∷ "::"
      ∷ path_tokens
          (if str_eq c.package_name "" then c.module_path else c.package_name ∷ c.module_path)

  unfoldable mutual
    unfolding quote_absolute_tycon sanitize_var_name

    pub quote_type : DamlType → Option (List String)
    quote_type (list ts) = quote_one (escape_identifier "DamlList") ts
    quote_type (optional ts) = quote_one (escape_identifier "DamlOptional") ts
    quote_type (numeric ts) = quote_one (escape_identifier "DamlFixedNumeric") ts
    quote_type (text_map ts) = quote_two (escape_identifier "DamlTextMap") ts
    quote_type (gen_map ts) = quote_two (escape_identifier "DamlGenMap") ts
    quote_type (tycon c ts) =
        bind_option (quote_generics ts)
          (λ args. some (quote_absolute_tycon c ⋄ escape_identifier c.data_name ∷ args))
    quote_type (var v ts) = some (casing.to_uppercase (sanitize_var_name v) ∷ [])
    quote_type (nat n) = some (("Nat" ++ show_ℕ n) ∷ [])
    quote_type (contract_id ts) = some (escape_identifier "DamlContractId" ∷ [])
    quote_type (simple s) =
        if is_plain s then some (escape_identifier (simple_name s) ∷ []) else none
    quote_type (forall_type vs t) = none
    quote_type (struct_type fs) = none
    quote_type (syn c ts) = none

    -- The first argument alone is rendered.
    pub quote_one : String → DamlTypes → Option (List String)
    quote_one name end = some (name ∷ [])
    quote_one name (more t ts) =
        bind_option (quote_type t) (λ arg. some (name ∷ "<" ∷ arg ⋄ ">" ∷ []))

    pub quote_two : String → DamlTypes → Option (List String)
    quote_two name end = some (name ∷ [])
    quote_two name (more k end) = some (name ∷ [])
    quote_two name (more k (more v ts)) = bind_option (quote_type k) (λ key.
        bind_option (quote_type v) (λ value. some (name ∷ "<" ∷ key ⋄ "," ∷ value ⋄ ">" ∷ [])))

    pub quote_generics : DamlTypes → Option (List String)
    quote_generics end = some []
    quote_generics (more t ts) =
        bind_option (quote_type t)
          (λ arg. bind_option (quote_rest ts) (λ rest. some ("<" ∷ arg ⋄ rest)))

    pub quote_rest : DamlTypes → Option (List String)
    quote_rest end = some (">" ∷ [])
    quote_rest (more t ts) =
        bind_option (quote_type t)
          (λ arg. bind_option (quote_rest ts) (λ rest. some ("," ∷ arg ⋄ rest)))

  unfoldable pub quote_field : DamlField → Option (List String)
  unfolding quote_type
  quote_field f = bind_option (quote_type f.ty) (λ ty. some (escape_identifier f.name ∷ ":" ∷ ty))

  abbrev comma_then : List String → List String
  comma_then [] = []
  comma_then (t ∷ ts) = "," ∷ t ∷ ts

  unfoldable pub quote_fields : List DamlField → Option (List String)
  unfolding quote_field
  quote_fields [] = some []
  quote_fields (f ∷ fs) =
      bind_option (quote_field f)
        (λ here. bind_option (quote_fields fs) (λ rest. some (here ⋄ comma_then rest)))

-- `fields.iter().filter(|&field| IsRenderable::new(ctx).check_type(field.ty()))`.
abbrev pub supported_fields : RenderContext → List DamlField → List DamlField
supported_fields ctx fields = keep_if (λ (f : DamlField). check_type ctx f.ty) fields
