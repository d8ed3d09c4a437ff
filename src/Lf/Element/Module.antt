-- ===== src/Lf/Element/Module.antt =====
-- Modules, interfaces and exceptions: daml_module.rs, daml_interface.rs and daml_exception.rs of
-- daml-lf/src/element. A function of the source that returns a reference to a child is one that applies a
-- change to that child.
pub mod Tree
use rust_daml_bindings.Base.{
  String, Bool, true, false, Option, none, some, List, [], ◌∷◌, ◌++◌, if◌then◌else◌, str_eq, Assoc,
  lookup, insert, bind_option,
}
use rust_daml_bindings.Lf.Convert.Names.{DamlAbsoluteTyCon}
use rust_daml_bindings.Lf.Convert.Types.{DamlType}
use rust_daml_bindings.Lf.Element.Data.{DamlChoice, DamlData, TypeVar}

pub record DamlInterfaceMethod : Type 0 where
  pub name : String
  pub ty : DamlType

pub record DamlInterface : Type 0 where
  pub name : String
  pub package_id : String
  pub module_path : List String
  pub param : String
  pub methods : List DamlInterfaceMethod
  pub choices : List DamlChoice
  pub view : DamlType
  pub requires : List DamlAbsoluteTyCon

pub record DamlException : Type 0 where
  pub name : String
  pub package_id : String
  pub module_path : List String

pub record DamlDefTypeSyn : Type 0 where
  pub params : List TypeVar
  pub ty : DamlType
  pub name : List String

pub record DamlFeatureFlags : Type 0 where
  pub forbid_party_literals : Bool
  pub dont_divulge_contract_ids_in_create_arguments : Bool
  pub dont_disclose_non_consuming_choices_to_observers : Bool

-- A module without its children.
pub record ModuleBody : Type 0 where
  pub path : List String
  pub flags : DamlFeatureFlags
  pub synonyms : List DamlDefTypeSyn
  pub data_types : Assoc DamlData
  pub interfaces : Assoc DamlInterface
  pub exceptions : Assoc DamlException
  pub synthetic : Bool

mutual
  pub data DamlModule : Type 0 where
    node : ModuleBody → ChildModules → DamlModule

  pub data ChildModules : Type 0 where
    no_child : ChildModules
    child : String → DamlModule → ChildModules → ChildModules

abbrev pub body_of : DamlModule → ModuleBody
body_of (node b cs) = b

abbrev pub safe_flags : DamlFeatureFlags
safe_flags = record {
  forbid_party_literals = true;
  dont_divulge_contract_ids_in_create_arguments = true;
  dont_disclose_non_consuming_choices_to_observers = true;
}

abbrev pub empty_body : List String → ModuleBody
empty_body path = record {
  path = path;
  flags = safe_flags;
  synonyms = [];
  data_types = [];
  interfaces = [];
  exceptions = [];
  synthetic = false;
}

abbrev pub synthetic_body : List String → ModuleBody
synthetic_body path = record (empty_body path) { synthetic = true }

-- `new_empty` and `new_root`.
abbrev pub new_empty : List String → DamlModule
new_empty path = node (empty_body path) no_child

abbrev pub new_root : DamlModule
new_root = new_empty []

-- `new_leaf`.
abbrev pub new_leaf :
    List String
    → DamlFeatureFlags
    → List DamlDefTypeSyn
    → Assoc DamlData
    → Assoc DamlInterface
    → Assoc DamlException
    → DamlModule
new_leaf path flags synonyms data_types interfaces exceptions =
    node
      (record {
        path = path;
        flags = flags;
        synonyms = synonyms;
        data_types = data_types;
        interfaces = interfaces;
        exceptions = exceptions;
        synthetic = false;
      })
      no_child

abbrev pub find_child : String → ChildModules → Option DamlModule
find_child name no_child = none
find_child name (child k m cs) = if str_eq k name then some m else find_child name cs

abbrev pub child_module : String → DamlModule → Option DamlModule
child_module name (node b cs) = find_child name cs

abbrev pub child_module_path : List String → DamlModule → Option DamlModule
child_module_path [] m = some m
child_module_path (head ∷ tail) m = bind_option (child_module head m) (child_module_path tail)

abbrev pub data_type : String → DamlModule → Option DamlData
data_type name m = lookup name (body_of m).data_types

-- A change to what a module holds itself.
abbrev pub on_body : (ModuleBody → ModuleBody) → DamlModule → DamlModule
on_body g (node b cs) = node (g b) cs

abbrev pub take_body : ModuleBody → ModuleBody → ModuleBody
take_body other b = record b {
  flags = other.flags;
  data_types = other.data_types;
  synonyms = other.synonyms;
  interfaces = other.interfaces;
  exceptions = other.exceptions;
  synthetic = false;
}

-- `take_from`.
abbrev pub take_from : DamlModule → DamlModule → DamlModule
take_from other m = on_body (take_body (body_of other)) m

abbrev pub insert_data : String → DamlData → ModuleBody → ModuleBody
insert_data name d b = record b { data_types = insert name d b.data_types }

abbrev pub insert_data_type : String → DamlData → DamlModule → DamlModule
insert_data_type name d m = on_body (insert_data name d) m

-- `entry(name).or_insert_with(…)`, and then a change to the child.
abbrev pub edit_child :
    DamlModule → String → (DamlModule → DamlModule) → ChildModules → ChildModules
edit_child fresh name f no_child = child name (f fresh) no_child
edit_child fresh name f (child k m cs) =
    if str_eq k name then child k (f m) cs else child k m (edit_child fresh name f cs)

-- A missing child starts as `mk` of its path.
abbrev pub child_or :
    (List String → ModuleBody) → String → (DamlModule → DamlModule) → DamlModule → DamlModule
child_or mk name f (node b cs) =
    node b (edit_child (node (mk (b.path ++ name ∷ [])) no_child) name f cs)

abbrev pub child_module_or_new : String → (DamlModule → DamlModule) → DamlModule → DamlModule
child_module_or_new = child_or empty_body

abbrev pub synthetic_child_or_new : String → (DamlModule → DamlModule) → DamlModule → DamlModule
synthetic_child_or_new = child_or synthetic_body

-- The loops that go down a path by one of these.
abbrev pub walk :
    (String → (DamlModule → DamlModule) → DamlModule → DamlModule)
    → List String
    → (DamlModule → DamlModule)
    → DamlModule
    → DamlModule
walk step [] f m = f m
walk step (segment ∷ path) f m = step segment (walk step path f) m
