-- ===== src/Grpc/Value/Convert.antt =====
-- Values to and from protobuf, the conversions of daml-grpc/src/data/value. A value is there in
-- both forms under the same constructor names; `Wire` stands before those of protobuf.
pub mod RoundTrip
pub mod Timestamps
use Prim.Native.Nat.{Ordering, lt, eq, gt}
use rust_daml_bindings.Base.{
  String, Bool, Option, none, some, ok, err, ◌>>=◌, str_eq, if◌then◌else◌, Result, map_err,
  map_option,
}
use rust_daml_bindings.Base.Int.{ℤ}
use rust_daml_bindings.Grpc.Error.{DamlResult, missing_required_field, failed_conversion}
use rust_daml_bindings.Grpc.External.{External}
use rust_daml_bindings.Grpc.Time.{datetime_from_micros, date_from_days, days_from_date}
use rust_daml_bindings.Grpc.Identifier.{DamlIdentifier, Identifier, to_identifier, of_identifier}
use rust_daml_bindings.Grpc.Proto as Wire
use rust_daml_bindings.Grpc.Value.{
  DamlEnum, DamlValue, DamlOptional, DamlList, DamlRecord, DamlFields, DamlVariant, DamlTextMap,
  DamlGenMap, record_value, variant_value, enum_value, contract_id, list, int64, numeric, text,
  timestamp, party, bool, unit, date, optional, text_map, gen_map, nothing, just, no_value,
  value_then, record_of, no_field, field_then, variant_of, no_text_entry, text_entry_then,
  no_gen_entry, gen_entry_then,
}
use rust_daml_bindings.Grpc.Value.Order.{compare_text, partial_cmp}

-- `label.is_empty().not().then_some(label)`, and `label.unwrap_or_default()` back.
abbrev pub label_of : String → Option String
label_of s = if str_eq s "" then none else some s

abbrev pub label_text : Option String → String
label_text none = ""
label_text (some s) = s

module _ {x : External} where
  -- An entry goes before the collected ones, unless one of these has its key: the last entry with a
  -- key stays. The entries are kept in the order of the keys.
  unfoldable pub add_text : String → DamlValue x → DamlTextMap x → DamlTextMap x
  add_text k v no_text_entry = text_entry_then k v no_text_entry
  add_text k v (text_entry_then l w m) =
      let rest = add_text k v m in
      elim (compare_text k l) [
        | lt ↦ text_entry_then k v (text_entry_then l w m)
        | eq ↦ text_entry_then l w m
        | gt ↦ text_entry_then l w rest
      ]

  -- `collect` into a `HashMap`.
  unfoldable pub collect_text : DamlTextMap x → DamlTextMap x
  unfolding add_text
  collect_text no_text_entry = no_text_entry
  collect_text (text_entry_then k v m) = add_text k v (collect_text m)

  unfoldable pub add_gen : DamlValue x → DamlValue x → DamlGenMap x → DamlGenMap x
  add_gen k v no_gen_entry = gen_entry_then k v no_gen_entry
  add_gen k v (gen_entry_then l w m) =
      let rest = add_gen k v m in
      elim (partial_cmp k l) [
        | some o ↦ elim o [
          | lt ↦ gen_entry_then k v (gen_entry_then l w m)
          | eq ↦ gen_entry_then l w m
          | gt ↦ gen_entry_then l w rest
        ]
        | none ↦ gen_entry_then l w m
      ]

  -- `collect` into a `BTreeMap`. (Keys compare: see `partial_cmp-Flips`.)
  unfoldable pub collect_gen : DamlGenMap x → DamlGenMap x
  unfolding add_gen
  collect_gen no_gen_entry = no_gen_entry
  collect_gen (gen_entry_then k v m) = add_gen k v (collect_gen m)

module _ (x : External) where
  -- `DamlNumeric::from_str`.
  abbrev pub parse_numeric : String → DamlResult x.Numeric
  parse_numeric s = map_err failed_conversion (x.numeric_from_str s)

  unfoldable mutual
    unfolding collect_text collect_gen

    -- `TryFrom<Value> for DamlValue`.
    pub to_daml : Wire.Value → DamlResult (DamlValue x)
    to_daml Wire.unset = err missing_required_field
    to_daml (Wire.record_value v) = to_daml_record v >>= λ r. ok (record_value r)
    to_daml (Wire.variant_value v) = to_daml_variant v >>= λ r. ok (variant_value r)
    to_daml (Wire.enum_value i c) =
        ok (enum_value (record { enum_id = map_option of_identifier i; constructor_name = c }))
    to_daml (Wire.contract_id v) = ok (contract_id v)
    to_daml (Wire.list v) = to_daml_list v >>= λ r. ok (list r)
    to_daml (Wire.int64 v) = ok (int64 v)
    to_daml (Wire.numeric v) = parse_numeric v >>= λ n. ok (numeric n)
    to_daml (Wire.text v) = ok (text v)
    to_daml (Wire.timestamp v) = datetime_from_micros x v >>= λ t. ok (timestamp t)
    to_daml (Wire.party v) = ok (party v)
    to_daml (Wire.bool v) = ok (bool v)
    to_daml Wire.unit = ok unit
    to_daml (Wire.date v) = date_from_days x v >>= λ d. ok (date d)
    to_daml (Wire.optional v) = to_daml_optional v >>= λ o. ok (optional o)
    to_daml (Wire.text_map v) = to_daml_text_map v >>= λ m. ok (text_map (collect_text m))
    to_daml (Wire.gen_map v) = to_daml_gen_map v >>= λ m. ok (gen_map (collect_gen m))

    -- `req().and_then(DamlValue::try_from)`.
    pub to_daml_required : Wire.MaybeValue → DamlResult (DamlValue x)
    to_daml_required Wire.absent = err missing_required_field
    to_daml_required (Wire.present v) = to_daml v

    pub to_daml_optional : Wire.MaybeValue → DamlResult (DamlOptional x)
    to_daml_optional Wire.absent = ok nothing
    to_daml_optional (Wire.present v) = to_daml v >>= λ w. ok (just w)

    pub to_daml_list : Wire.Values → DamlResult (DamlList x)
    to_daml_list Wire.no_value = ok no_value
    to_daml_list (Wire.value_then v vs) =
        to_daml v >>= λ w. to_daml_list vs >>= λ ws. ok (value_then w ws)

    -- `TryFrom<Record> for DamlRecord`.
    pub to_daml_record : Wire.Record → DamlResult (DamlRecord x)
    to_daml_record (Wire.record_of i fs) =
        to_daml_fields fs >>= λ gs. ok (record_of (map_option of_identifier i) gs)

    -- `TryFrom<RecordField> for DamlRecordField`, on each field.
    pub to_daml_fields : Wire.RecordFields → DamlResult (DamlFields x)
    to_daml_fields Wire.no_field = ok no_field
    to_daml_fields (Wire.field_then l v fs) =
        to_daml_required v >>= λ w. to_daml_fields fs >>= λ gs. ok (field_then (label_of l) w gs)

    -- `TryFrom<Variant> for DamlVariant`.
    pub to_daml_variant : Wire.Variant → DamlResult (DamlVariant x)
    to_daml_variant (Wire.variant_of i c v) =
        to_daml_required v >>= λ w. ok (variant_of (map_option of_identifier i) c w)

    -- The entries as they come.
    pub to_daml_text_map : Wire.TextEntries → DamlResult (DamlTextMap x)
    to_daml_text_map Wire.no_text_entry = ok no_text_entry
    to_daml_text_map (Wire.text_entry_then k v m) =
        to_daml_required v >>= λ w. to_daml_text_map m >>= λ n. ok (text_entry_then k w n)

    pub to_daml_gen_map : Wire.GenEntries → DamlResult (DamlGenMap x)
    to_daml_gen_map Wire.no_gen_entry = ok no_gen_entry
    to_daml_gen_map (Wire.gen_entry_then k v m) = to_daml_required k >>= λ j.
        to_daml_required v >>= λ w. to_daml_gen_map m >>= λ n. ok (gen_entry_then j w n)

  unfoldable mutual
    -- `From<DamlValue> for Value`. A map is written in the order of its keys.
    pub to_value : DamlValue x → Wire.Value
    to_value (record_value r) = Wire.record_value (to_record r)
    to_value (variant_value v) = Wire.variant_value (to_variant v)
    to_value (enum_value e) =
        Wire.enum_value (map_option to_identifier e.enum_id) e.constructor_name
    to_value (contract_id v) = Wire.contract_id v
    to_value (list v) = Wire.list (to_values v)
    to_value (int64 v) = Wire.int64 v
    to_value (numeric v) = Wire.numeric (x.to_plain_string v)
    to_value (text v) = Wire.text v
    to_value (timestamp v) = Wire.timestamp (x.timestamp v)
    to_value (party v) = Wire.party v
    to_value (bool v) = Wire.bool v
    to_value unit = Wire.unit
    to_value (date v) = Wire.date (days_from_date x v)
    to_value (optional o) = Wire.optional (to_optional o)
    to_value (text_map m) = Wire.text_map (to_text_entries m)
    to_value (gen_map m) = Wire.gen_map (to_gen_entries m)

    pub to_optional : DamlOptional x → Wire.MaybeValue
    to_optional nothing = Wire.absent
    to_optional (just v) = Wire.present (to_value v)

    pub to_values : DamlList x → Wire.Values
    to_values no_value = Wire.no_value
    to_values (value_then v vs) = Wire.value_then (to_value v) (to_values vs)

    -- `From<DamlRecord> for Record`.
    pub to_record : DamlRecord x → Wire.Record
    to_record (record_of i fs) = Wire.record_of (map_option to_identifier i) (to_fields fs)

    -- `From<DamlRecordField> for RecordField`, on each field.
    pub to_fields : DamlFields x → Wire.RecordFields
    to_fields no_field = Wire.no_field
    to_fields (field_then l v fs) =
        Wire.field_then (label_text l) (Wire.present (to_value v)) (to_fields fs)

    -- `From<DamlVariant> for Variant`.
    pub to_variant : DamlVariant x → Wire.Variant
    to_variant (variant_of i c v) =
        Wire.variant_of (map_option to_identifier i) c (Wire.present (to_value v))

    pub to_text_entries : DamlTextMap x → Wire.TextEntries
    to_text_entries no_text_entry = Wire.no_text_entry
    to_text_entries (text_entry_then k v m) =
        Wire.text_entry_then k (Wire.present (to_value v)) (to_text_entries m)

    pub to_gen_entries : DamlGenMap x → Wire.GenEntries
    to_gen_entries no_gen_entry = Wire.no_gen_entry
    to_gen_entries (gen_entry_then k v m) =
        Wire.gen_entry_then (Wire.present (to_value k)) (Wire.present (to_value v))
          (to_gen_entries m)
