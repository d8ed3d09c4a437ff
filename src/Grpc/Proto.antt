-- ===== src/Grpc/Proto.antt =====
-- The protobuf values of the Ledger API v2, as prost generates them from
-- daml-grpc/resources/protobuf/com/daml/ledger/api/v2/value.proto: a message field is an `Option`,
-- a `oneof` may be unset.
use rust_daml_bindings.Base.{String, Bool, Option}
use rust_daml_bindings.Base.Int.{ℤ}
use rust_daml_bindings.Grpc.Identifier.{Identifier}

mutual
  pub data Value : Type 0 where
    unset : Value
    record_value : Record → Value
    variant_value : Variant → Value
    enum_value : Option Identifier → String → Value
    contract_id : String → Value
    list : Values → Value
    int64 : ℤ → Value
    numeric : String → Value
    text : String → Value
    timestamp : ℤ → Value
    party : String → Value
    bool : Bool → Value
    unit : Value
    date : ℤ → Value
    optional : MaybeValue → Value
    text_map : TextEntries → Value
    gen_map : GenEntries → Value

  pub data MaybeValue : Type 0 where
    absent : MaybeValue
    present : Value → MaybeValue

  pub data Values : Type 0 where
    no_value : Values
    value_then : Value → Values → Values

  -- The record id, and the fields.
  pub data Record : Type 0 where
    record_of : Option Identifier → RecordFields → Record

  pub data RecordFields : Type 0 where
    no_field : RecordFields
    field_then : String → MaybeValue → RecordFields → RecordFields

  -- The variant id, the constructor and the value.
  pub data Variant : Type 0 where
    variant_of : Option Identifier → String → MaybeValue → Variant

  pub data TextEntries : Type 0 where
    no_text_entry : TextEntries
    text_entry_then : String → MaybeValue → TextEntries → TextEntries

  pub data GenEntries : Type 0 where
    no_gen_entry : GenEntries
    gen_entry_then : MaybeValue → MaybeValue → GenEntries → GenEntries
