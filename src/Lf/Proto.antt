-- ===== src/Lf/Proto.antt =====
-- The protobuf messages of Daml-LF 2 that the crate daml-lf reads, as prost generates them from
-- daml-lf/resources/protobuf: a message field is an `Option`, a `oneof` may be unset. Left
-- out are expressions, values, source locations and the imports of a package.
use rust_daml_bindings.Base.{String, Bool, Option, List}
use rust_daml_bindings.Base.Int.{ℤ}

mutual
  pub data Kind : Type 0 where
    unset star nat : Kind
    arrow : Kinds → MaybeKind → Kind
    interned_kind : ℤ → Kind

  pub data Kinds : Type 0 where
    end : Kinds
    more : Kind → Kinds → Kinds

  pub data MaybeKind : Type 0 where
    absent : MaybeKind
    present : Kind → MaybeKind

pub data PackageRef : Type 0 where
  self_package_id : PackageRef
  imported_package_id_interned_str : ℤ → PackageRef
  package_import_id : ℤ → PackageRef

pub record SelfOrImportedPackageId : Type 0 where
  pub sum : Option PackageRef

pub record ModuleId : Type 0 where
  pub package_id : Option SelfOrImportedPackageId
  pub module_name_interned_dname : ℤ

-- `TypeConId` and `TypeSynId` have the same fields.
pub record TypeConId : Type 0 where
  pub module_id : Option ModuleId
  pub name_interned_dname : ℤ

pub record TypeVarWithKind : Type 0 where
  pub var_interned_str : ℤ
  pub kind : Option Kind

-- `daml_lf_2::Type`.
mutual
  pub data LfType : Type 0 where
    unset : LfType
    var : ℤ → LfTypes → LfType
    con : Option TypeConId → LfTypes → LfType
    syn : Option TypeConId → LfTypes → LfType
    builtin : ℤ → LfTypes → LfType
    forall_type : List TypeVarWithKind → MaybeType → LfType
    struct_type : FieldsWithType → LfType
    nat : ℤ → LfType
    interned_type : ℤ → LfType
    tapp : LfType

  pub data LfTypes : Type 0 where
    end : LfTypes
    more : LfType → LfTypes → LfTypes

  pub data MaybeType : Type 0 where
    absent : MaybeType
    present : LfType → MaybeType

  pub data FieldsWithType : Type 0 where
    no_field : FieldsWithType
    field : ℤ → MaybeType → FieldsWithType → FieldsWithType

pub record FeatureFlags : Type 0 where
  pub forbid_party_literals : Bool
  pub dont_divulge_contract_ids_in_create_arguments : Bool
  pub dont_disclose_non_consuming_choices_to_observers : Bool

pub record FieldWithType : Type 0 where
  pub field_interned_str : ℤ
  pub field_type : Option LfType

pub record VarWithType : Type 0 where
  pub var_interned_str : ℤ
  pub var_type : Option LfType

-- Of the authorizers only their presence is read.
pub record TemplateChoice : Type 0 where
  pub name_interned_str : ℤ
  pub consuming : Bool
  pub arg_binder : Option VarWithType
  pub ret_type : Option LfType
  pub self_binder_interned_str : ℤ
  pub has_authorizers : Bool

pub record DefKey : Type 0 where
  pub key_type : Option LfType

pub record Implements : Type 0 where
  pub interface : Option TypeConId

pub record DefTemplate : Type 0 where
  pub tycon_interned_dname : ℤ
  pub param_interned_str : ℤ
  pub choices : List TemplateChoice
  pub key : Option DefKey
  pub implements : List Implements

pub record InterfaceMethod : Type 0 where
  pub method_interned_name : ℤ
  pub method_type : Option LfType

pub record DefInterface : Type 0 where
  pub tycon_interned_dname : ℤ
  pub methods : List InterfaceMethod
  pub param_interned_str : ℤ
  pub choices : List TemplateChoice
  pub view : Option LfType
  pub requires : List TypeConId

pub record DefException : Type 0 where
  pub name_interned_dname : ℤ

pub data DataCons : Type 0 where
  record_cons : List FieldWithType → DataCons
  variant_cons : List FieldWithType → DataCons
  enum_cons : List ℤ → DataCons
  interface_cons : DataCons

pub record DefDataType : Type 0 where
  pub name_interned_dname : ℤ
  pub params : List TypeVarWithKind
  pub serializable : Bool
  pub data_cons : Option DataCons

pub record DefTypeSyn : Type 0 where
  pub name_interned_dname : ℤ
  pub params : List TypeVarWithKind
  pub syn_type : Option LfType

pub record Module : Type 0 where
  pub name_interned_dname : ℤ
  pub flags : Option FeatureFlags
  pub synonyms : List DefTypeSyn
  pub data_types : List DefDataType
  pub templates : List DefTemplate
  pub exceptions : List DefException
  pub interfaces : List DefInterface

pub record PackageMetadata : Type 0 where
  pub name_interned_str : ℤ
  pub version_interned_str : ℤ

pub record Package : Type 0 where
  pub modules : List Module
  pub interned_strings : List String
  pub interned_dotted_names : List (List ℤ)
  pub metadata : Option PackageMetadata
  pub interned_types : List LfType
  pub interned_kinds : List Kind
