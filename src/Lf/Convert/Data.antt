-- ===== src/Lf/Convert/Data.antt =====
-- The declarations of a module: field_payload.rs, template_payload.rs, interface_payload.rs,
-- exception_payload.rs and data_payload.rs of daml-lf/src/convert, and the functions of
-- daml-lf/src/convert.rs for a data type and a template. `kind_depth` and `depth` bound how deep references
-- to the tables of kinds and of types are followed; `none` is a conversion that has run out of them.
use Prim.Native.String.{◌++◌}
use rust_daml_bindings.Base.{
  ℕ, String, Bool, Option, none, some, List, [], ◌∷◌, ◌++◌ as ◌⋄◌, ok, err, if◌then◌else◌,
}
use rust_daml_bindings.Base.Int.{ℤ, show_ℤ, int_eq}
use rust_daml_bindings.Lf.Error.{
  DamlLfConvertResult, missing_required_field, internal_error, unsupported_feature_used,
}
use rust_daml_bindings.Lf.Version.{version_text}
use rust_daml_bindings.Lf.Proto.{
  LfType, FieldWithType, TemplateChoice, DefKey, Implements, DefTemplate, InterfaceMethod,
  DefInterface, DefException, DataCons, record_cons, variant_cons, enum_cons, interface_cons,
  DefDataType,
}
use rust_daml_bindings.Lf.Convert.{
  DamlPackagePayload, req, resolve_string, resolve_strings, resolve_dotted,
}
use rust_daml_bindings.Lf.Convert.Names.{DamlAbsoluteTyCon, convert_tycon_id, split_last}
use rust_daml_bindings.Lf.Convert.Kinds.{Converted, ◌>>=◌}
use rust_daml_bindings.Lf.Convert.Types.{DamlType, convert_typevars, convert_type}
use rust_daml_bindings.Lf.Element.Data.{
  DamlField, DamlChoice, DamlDefKey, DamlTemplate, TypeVar, DamlData, template_data, record_data,
  variant_data, enum_data,
}
use rust_daml_bindings.Lf.Element.Module.{DamlInterfaceMethod, DamlInterface, DamlException}

-- `collect` of conversions.
abbrev pub convert_all : {A B : Type 0} → (A → Converted B) → List A → Converted (List B)
convert_all f [] = some (ok [])
convert_all f (x ∷ xs) = f x >>= λ y. convert_all f xs >>= λ ys. some (ok (y ∷ ys))

-- A step without references to the tables, and the end of a conversion.
abbrev pub lift : {A : Type 0} → DamlLfConvertResult A → Converted A
lift r = some r

abbrev pub done : {A : Type 0} → A → Converted A
done a = some (ok a)

-- The name of a definition and what stands before it in its dotted name.
abbrev pub own_name : String → ℤ → List String → DamlLfConvertResult (String × List String)
own_name what index segments = elim (split_last segments) [
  | none ↦
      err (internal_error (what ++ (" " ++ (show_ℤ index ++ " resolves to an empty dotted-name"))))
  | some parts ↦ ok parts
]

-- The template of a data type: `collect` into a map keeps the last of an index.
abbrev pub template_for : ℤ → List DefTemplate → Option DefTemplate
template_for index [] = none
template_for index (t ∷ ts) = elim (template_for index ts) [
  | some u ↦ some u
  | none ↦ if int_eq t.tycon_interned_dname index then some t else none
]

module _ (p : DamlPackagePayload) (kind_depth depth : ℕ) where
  -- `convert_type(field.as_ref().req()?, package)`.
  unfoldable pub required_type : Option LfType → Converted DamlType
  unfolding convert_type
  required_type t = do proto ← lift (req t); convert_type p kind_depth depth proto

  unfoldable pub convert_field : FieldWithType → Converted DamlField
  unfolding required_type
  convert_field proto = do
    name ← lift (resolve_string p proto.field_interned_str)
    ty ← required_type proto.field_type
    done (record { name = name; ty = ty })

  unfoldable pub convert_choice : List String → TemplateChoice → Converted DamlChoice
  unfolding required_type
  convert_choice module_path proto =
      if proto.has_authorizers
      then lift (
          err (
            unsupported_feature_used (version_text p.language_version)
              "TemplateChoice.authorizers (LF2.dev-only)" "2.dev"))
      else do
        name ← lift (resolve_string p proto.name_interned_str)
        self_binder ← lift (resolve_string p proto.self_binder_interned_str)
        arg_binder ← lift (req proto.arg_binder)
        arg_name ← lift (resolve_string p arg_binder.var_interned_str)
        arg_ty ← required_type arg_binder.var_type
        return_type ← required_type proto.ret_type
        done (record {
          name = name;
          package_id = p.id;
          module_path = module_path;
          fields = record { name = arg_name; ty = arg_ty } ∷ [];
          return_type = return_type;
          consuming = proto.consuming;
          self_binder = self_binder;
        })

  unfoldable pub convert_def_key : DefKey → Converted DamlDefKey
  unfolding required_type
  convert_def_key proto = do ty ← required_type proto.key_type; done (record { ty = ty })

  -- `key.as_ref().map(…).transpose()`.
  abbrev pub convert_key : Option DefKey → Converted (Option DamlDefKey)
  convert_key none = done none
  convert_key (some k) = convert_def_key k >>= λ key. done (some key)

  unfoldable pub convert_implements : List Implements → Converted (List DamlAbsoluteTyCon)
  convert_implements =
      convert_all
        (λ (i : Implements). lift (req i.interface) >>= λ proto. lift (convert_tycon_id proto p))

  unfoldable pub build_template :
      DefTemplate → String → List String → List DamlField → Bool → Converted DamlTemplate
  unfolding convert_choice convert_implements convert_def_key
  build_template template name module_path fields serializable = do
    param ← lift (resolve_string p template.param_interned_str)
    choices ← convert_all (convert_choice module_path) template.choices
    key ← convert_key template.key
    implements ← convert_implements template.implements
    done (record {
      name = name;
      package_id = p.id;
      module_path = module_path;
      fields = fields;
      choices = choices;
      param = param;
      implements = implements;
      key = key;
      serializable = serializable;
    })

  -- The data type of a record: a template where one wraps it.
  unfoldable pub record_or_template :
      Option DefTemplate
      → String
      → List String
      → List DamlField
      → List TypeVar
      → Bool
      → Converted DamlData
  unfolding build_template
  record_or_template (some template) name module_path fields params serializable =
      build_template template name module_path fields serializable >>= λ t. done (template_data t)
  record_or_template none name module_path fields params serializable = done (
      record_data (record {
        name = name;
        package_id = p.id;
        module_path = module_path;
        fields = fields;
        type_params = params;
        serializable = serializable;
      }))

  -- `none` inside is the marker of an interface.
  unfoldable pub build_data_cons :
      DefDataType
      → String
      → List String
      → List DefTemplate
      → List TypeVar
      → Option DataCons
      → Converted (Option DamlData)
  unfolding record_or_template convert_field resolve_strings
  build_data_cons payload name module_path templates params none = lift (err missing_required_field)
  build_data_cons payload name module_path templates params (some (record_cons fs)) = do
    fields ← convert_all convert_field fs
    data_item ←
        record_or_template (template_for payload.name_interned_dname templates) name module_path
          fields params payload.serializable
    done (some data_item)
  build_data_cons payload name module_path templates params (some (variant_cons fs)) = do
    fields ← convert_all convert_field fs
    done (
        some (
          variant_data (record {
            name = name;
            package_id = p.id;
            module_path = module_path;
            fields = fields;
            type_params = params;
            serializable = payload.serializable;
          })))
  build_data_cons payload name module_path templates params (some (enum_cons cs)) = do
    constructors ← lift (resolve_strings p cs)
    done (
        some (
          enum_data (record {
            name = name;
            package_id = p.id;
            module_path = module_path;
            constructors = constructors;
            type_params = params;
            serializable = payload.serializable;
          })))
  build_data_cons payload name module_path templates params (some interface_cons) = done none

  unfoldable pub build_data_type :
      DefDataType → String → List String → List DefTemplate → Converted (Option DamlData)
  unfolding build_data_cons
  build_data_type payload name module_path templates = do
    params ← convert_typevars p kind_depth payload.params
    build_data_cons payload name module_path templates params payload.data_cons

  unfoldable pub convert_method : InterfaceMethod → Converted DamlInterfaceMethod
  unfolding required_type
  convert_method proto = do
    name ← lift (resolve_string p proto.method_interned_name)
    ty ← required_type proto.method_type
    done (record { name = name; ty = ty })

  unfoldable pub convert_interface : List String → DefInterface → Converted DamlInterface
  unfolding required_type convert_method convert_choice
  convert_interface module_path proto = do
    segments ← lift (resolve_dotted p proto.tycon_interned_dname)
    parts ← lift (own_name "interface tycon_interned_dname" proto.tycon_interned_dname segments)
    let full_module_path = module_path ⋄ parts.1
    param ← lift (resolve_string p proto.param_interned_str)
    methods ← convert_all convert_method proto.methods
    choices ← convert_all (convert_choice full_module_path) proto.choices
    view ← required_type proto.view
    requires ← convert_all (λ r. lift (convert_tycon_id r p)) proto.requires
    done (record {
      name = parts.0;
      package_id = p.id;
      module_path = full_module_path;
      param = param;
      methods = methods;
      choices = choices;
      view = view;
      requires = requires;
    })

  unfoldable pub convert_exception : List String → DefException → Converted DamlException
  convert_exception module_path proto = do
    segments ← lift (resolve_dotted p proto.name_interned_dname)
    parts ← lift (own_name "exception name_interned_dname" proto.name_interned_dname segments)
    done (record { name = parts.0; package_id = p.id; module_path = module_path ⋄ parts.1 })
