-- ===== src/Grpc/Value.antt =====
-- The values of a ledger, daml-grpc/src/data/value: `DamlValue` and the types that it holds. A
-- `HashMap` with text keys is the list of its entries in the order of the keys, which is what is
-- left of it where the order of iteration is open; a `BTreeMap` is the list of its entries in order.
pub mod Order
pub mod Convert
pub mod Access
pub mod Record
pub mod Serialize
use rust_daml_bindings.Base.{ℕ, zero, suc, String, Bool, Option}
use rust_daml_bindings.Base.Int.{ℤ}
use rust_daml_bindings.Grpc.External.{External}
use rust_daml_bindings.Grpc.Identifier.{DamlIdentifier}

pub record DamlEnum : Type 0 where
  pub enum_id : Option DamlIdentifier
  pub constructor_name : String

module _ (x : External) where
  mutual
    pub data DamlValue : Type 0 where
      record_value : DamlRecord → DamlValue
      variant_value : DamlVariant → DamlValue
      enum_value : DamlEnum → DamlValue
      contract_id : String → DamlValue
      list : DamlList → DamlValue
      int64 : ℤ → DamlValue
      numeric : x.Numeric → DamlValue
      text : String → DamlValue
      timestamp : x.DateTime → DamlValue
      party : String → DamlValue
      bool : Bool → DamlValue
      unit : DamlValue
      date : x.NaiveDate → DamlValue
      optional : DamlOptional → DamlValue
      text_map : DamlTextMap → DamlValue
      gen_map : DamlGenMap → DamlValue

    -- `Option<Box<DamlValue>>`.
    pub data DamlOptional : Type 0 where
      nothing : DamlOptional
      just : DamlValue → DamlOptional

    pub data DamlList : Type 0 where
      no_value : DamlList
      value_then : DamlValue → DamlList → DamlList

    -- The record id, and the fields.
    pub data DamlRecord : Type 0 where
      record_of : Option DamlIdentifier → DamlFields → DamlRecord

    -- The fields, each with its label and its value.
    pub data DamlFields : Type 0 where
      no_field : DamlFields
      field_then : Option String → DamlValue → DamlFields → DamlFields

    -- The variant id, the constructor and the value.
    pub data DamlVariant : Type 0 where
      variant_of : Option DamlIdentifier → String → DamlValue → DamlVariant

    pub data DamlTextMap : Type 0 where
      no_text_entry : DamlTextMap
      text_entry_then : String → DamlValue → DamlTextMap → DamlTextMap

    pub data DamlGenMap : Type 0 where
      no_gen_entry : DamlGenMap
      gen_entry_then : DamlValue → DamlValue → DamlGenMap → DamlGenMap

module _ {x : External} where
  abbrev pub count_text_entries : DamlTextMap x → ℕ
  count_text_entries no_text_entry = 0
  count_text_entries (text_entry_then k v m) = suc (count_text_entries m)

  abbrev pub count_gen_entries : DamlGenMap x → ℕ
  count_gen_entries no_gen_entry = 0
  count_gen_entries (gen_entry_then k v m) = suc (count_gen_entries m)
