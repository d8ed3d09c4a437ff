-- ===== src/Lf/Element/Data.antt =====
-- Data types, choices and keys: daml_data.rs and daml_field.rs of daml-lf/src/element. The name of a
-- type constructor is an absolute one, the only kind that the conversion makes.
pub mod Identity
use rust_daml_bindings.Base.{String, Bool, Option, List, []}
use rust_daml_bindings.Lf.Convert.Names.{DamlAbsoluteTyCon}
use rust_daml_bindings.Lf.Convert.Kinds.{DamlKind}
use rust_daml_bindings.Lf.Convert.Types.{DamlType}

pub record DamlField : Type 0 where
  pub name : String
  pub ty : DamlType

pub record DamlChoice : Type 0 where
  pub name : String
  pub package_id : String
  pub module_path : List String
  pub fields : List DamlField
  pub return_type : DamlType
  pub consuming : Bool
  pub self_binder : String

pub record DamlDefKey : Type 0 where
  pub ty : DamlType

pub record DamlTemplate : Type 0 where
  pub name : String
  pub package_id : String
  pub module_path : List String
  pub fields : List DamlField
  pub choices : List DamlChoice
  pub param : String
  pub implements : List DamlAbsoluteTyCon
  pub key : Option DamlDefKey
  pub serializable : Bool

-- `DamlTypeVarWithKind`.
abbrev pub TypeVar : Type 0
TypeVar = String × DamlKind

pub record DamlRecord : Type 0 where
  pub name : String
  pub package_id : String
  pub module_path : List String
  pub fields : List DamlField
  pub type_params : List TypeVar
  pub serializable : Bool

pub record DamlVariant : Type 0 where
  pub name : String
  pub package_id : String
  pub module_path : List String
  pub fields : List DamlField
  pub type_params : List TypeVar
  pub serializable : Bool

pub record DamlEnum : Type 0 where
  pub name : String
  pub package_id : String
  pub module_path : List String
  pub constructors : List String
  pub type_params : List TypeVar
  pub serializable : Bool

pub data DamlData : Type 0 where
  template_data : DamlTemplate → DamlData
  record_data : DamlRecord → DamlData
  variant_data : DamlVariant → DamlData
  enum_data : DamlEnum → DamlData

-- The accessors of `DamlData`.
abbrev pub data_name : DamlData → String
data_name (template_data t) = t.name
data_name (record_data r) = r.name
data_name (variant_data v) = v.name
data_name (enum_data e) = e.name

abbrev pub data_package_id : DamlData → String
data_package_id (template_data t) = t.package_id
data_package_id (record_data r) = r.package_id
data_package_id (variant_data v) = v.package_id
data_package_id (enum_data e) = e.package_id

abbrev pub data_module_path : DamlData → List String
data_module_path (template_data t) = t.module_path
data_module_path (record_data r) = r.module_path
data_module_path (variant_data v) = v.module_path
data_module_path (enum_data e) = e.module_path

abbrev pub data_fields : DamlData → List DamlField
data_fields (template_data t) = t.fields
data_fields (record_data r) = r.fields
data_fields (variant_data v) = v.fields
data_fields (enum_data e) = []

abbrev pub data_type_params : DamlData → List TypeVar
data_type_params (template_data t) = []
data_type_params (record_data r) = r.type_params
data_type_params (variant_data v) = v.type_params
data_type_params (enum_data e) = e.type_params

abbrev pub data_serializable : DamlData → Bool
data_serializable (template_data t) = t.serializable
data_serializable (record_data r) = r.serializable
data_serializable (variant_data v) = v.serializable
data_serializable (enum_data e) = e.serializable
