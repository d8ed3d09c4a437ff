-- ===== src/Grpc/Value/Convert/RoundTrip.antt =====
-- A value comes back from the wire, the conversions of daml-grpc/src/data/value.
use Prim.Native.Nat.{lt}
use rust_daml_bindings.Base.{
  String, map_option, Option, none, some, ok, ◌≡◌, ◌≢◌, refl, str_eq, str_eq_iff, Bool-cases, inl,
  inr,
}
use rust_daml_bindings.Grpc.External.{External}
use rust_daml_bindings.Grpc.Time.{datetime_from_micros}
use rust_daml_bindings.Grpc.Time.Laws.{IsCalendar, date_from_days-days_from_date}
use rust_daml_bindings.Grpc.Identifier.{DamlIdentifier, to_identifier, of_identifier}
use rust_daml_bindings.Grpc.Value.{
  DamlValue, DamlOptional, DamlList, DamlRecord, DamlFields, DamlVariant, DamlTextMap, DamlGenMap,
  record_value, variant_value, enum_value, contract_id, list, int64, numeric, text, timestamp,
  party, bool, unit, date, optional, text_map, gen_map, nothing, just, no_value, value_then,
  record_of, no_field, field_then, variant_of, no_text_entry, text_entry_then, no_gen_entry,
  gen_entry_then,
}
use rust_daml_bindings.Grpc.Value.Order.{compare_text, partial_cmp}
use rust_daml_bindings.Grpc.Value.Convert.{
  label_of, label_text, add_text, collect_text, add_gen, collect_gen, to_daml, to_daml_optional,
  to_daml_list, to_daml_record, to_daml_fields, to_daml_variant, to_daml_text_map, to_daml_gen_map,
  to_value, to_optional, to_values, to_record, to_fields, to_variant, to_text_entries,
  to_gen_entries,
}

module _ {x : External} where
  -- The key stands before those of the map.
  abbrev IsBeforeText : String → DamlTextMap x → Type 0
  IsBeforeText k no_text_entry = Unit
  IsBeforeText k (text_entry_then l v m) = compare_text k l ≡ lt

  abbrev pub IsBeforeGen : DamlValue x → DamlGenMap x → Type 0
  IsBeforeGen k no_gen_entry = Unit
  IsBeforeGen k (gen_entry_then l v m) = partial_cmp k l ≡ some lt

  -- The keys go up.
  abbrev pub IsTextSorted : DamlTextMap x → Type 0
  IsTextSorted no_text_entry = Unit
  IsTextSorted (text_entry_then k v m) = IsBeforeText k m × IsTextSorted m

  abbrev pub IsGenSorted : DamlGenMap x → Type 0
  IsGenSorted no_gen_entry = Unit
  IsGenSorted (gen_entry_then k v m) = IsBeforeGen k m × IsGenSorted m

  add_text-first :
      (k : String) (v : DamlValue x) (m : DamlTextMap x)
      → IsBeforeText k m
      → add_text k v m ≡ text_entry_then k v m
  unfolding add_text
  add_text-first k v no_text_entry b = refl
  add_text-first k v (text_entry_then l w m) b = rw (add_text, b) refl

  collect_text-sorted : (m : DamlTextMap x) → IsTextSorted m → collect_text m ≡ m
  unfolding collect_text
  collect_text-sorted no_text_entry s = refl
  collect_text-sorted (text_entry_then k v m) (b, s) =
      rw (collect_text-sorted m s) (add_text-first k v m b)

  add_gen-first :
      (k v : DamlValue x) (m : DamlGenMap x)
      → IsBeforeGen k m
      → add_gen k v m ≡ gen_entry_then k v m
  unfolding add_gen
  add_gen-first k v no_gen_entry b = refl
  add_gen-first k v (gen_entry_then l w m) b = rw (add_gen, b) refl

  pub collect_gen-sorted : (m : DamlGenMap x) → IsGenSorted m → collect_gen m ≡ m
  unfolding collect_gen
  collect_gen-sorted no_gen_entry s = refl
  collect_gen-sorted (gen_entry_then k v m) (b, s) =
      rw (collect_gen-sorted m s) (add_gen-first k v m b)

  -- What a value must be to come back from the wire: the keys of its maps go up, as they do in the
  -- map types, no label is the empty text, and its instants come back from their seconds.
  unfoldable mutual
    pub IsWireSafe : DamlValue x → Type 0
    IsWireSafe (record_value r) = IsSafeRecord r
    IsWireSafe (variant_value v) = IsSafeVariant v
    IsWireSafe (enum_value e) = Unit
    IsWireSafe (contract_id v) = Unit
    IsWireSafe (list v) = IsSafeList v
    IsWireSafe (int64 v) = Unit
    IsWireSafe (numeric v) = Unit
    IsWireSafe (text v) = Unit
    IsWireSafe (timestamp t) = datetime_from_micros x (x.timestamp t) ≡ ok t
    IsWireSafe (party v) = Unit
    IsWireSafe (bool v) = Unit
    IsWireSafe unit = Unit
    IsWireSafe (date v) = Unit
    IsWireSafe (optional o) = IsSafeOptional o
    IsWireSafe (text_map m) = IsTextSorted m × IsSafeTextMap m
    IsWireSafe (gen_map m) = IsGenSorted m × IsSafeGenMap m

    IsSafeOptional : DamlOptional x → Type 0
    IsSafeOptional nothing = Unit
    IsSafeOptional (just v) = IsWireSafe v

    IsSafeList : DamlList x → Type 0
    IsSafeList no_value = Unit
    IsSafeList (value_then v vs) = IsWireSafe v × IsSafeList vs

    IsSafeRecord : DamlRecord x → Type 0
    IsSafeRecord (record_of i fs) = IsSafeFields fs

    IsSafeFields : DamlFields x → Type 0
    IsSafeFields no_field = Unit
    IsSafeFields (field_then l v fs) = (l ≢ some "") × IsWireSafe v × IsSafeFields fs

    IsSafeVariant : DamlVariant x → Type 0
    IsSafeVariant (variant_of i c v) = IsWireSafe v

    IsSafeTextMap : DamlTextMap x → Type 0
    IsSafeTextMap no_text_entry = Unit
    IsSafeTextMap (text_entry_then k v m) = IsWireSafe v × IsSafeTextMap m

    IsSafeGenMap : DamlGenMap x → Type 0
    IsSafeGenMap no_gen_entry = Unit
    IsSafeGenMap (gen_entry_then k v m) = IsWireSafe k × IsWireSafe v × IsSafeGenMap m

pub of_identifier-to_identifier :
    (i : Option DamlIdentifier) → map_option of_identifier (map_option to_identifier i) ≡ i
of_identifier-to_identifier none = refl
of_identifier-to_identifier (some i) = refl

label_of-label_text : (l : Option String) → l ≢ some "" → label_of (label_text l) ≡ l
label_of-label_text none h = refl
label_of-label_text (some s) h = elim (Bool-cases (str_eq s "")) [
  | inl e ↦ let f = (str_eq_iff s "").0 e in elim (h (rw f refl)) [ ]
  | inr e ↦ rw e refl
]

module _ (x : External) (law : IsCalendar x)
    (numeric_law : (n : x.Numeric) → x.numeric_from_str (x.to_plain_string n) ≡ ok n) where
  mutual
    unfolding to_daml to_value IsWireSafe

    value_back : (v : DamlValue x) → IsWireSafe v → to_daml x (to_value x v) ≡ ok v
    value_back (record_value r) s = rw (record_back r s) refl
    value_back (variant_value v) s = rw (variant_back v s) refl
    value_back (enum_value e) s = rw (of_identifier-to_identifier e.enum_id) refl
    value_back (contract_id v) s = refl
    value_back (list v) s = rw (list_back v s) refl
    value_back (int64 v) s = refl
    value_back (numeric v) s = rw (numeric_law v) refl
    value_back (text v) s = refl
    value_back (timestamp t) s = rw s refl
    value_back (party v) s = refl
    value_back (bool v) s = refl
    value_back unit s = refl
    value_back (date d) s = rw (date_from_days-days_from_date x law d) refl
    value_back (optional o) s = rw (optional_back o s) refl
    value_back (text_map m) (k, s) = rw (text_map_back m s, collect_text-sorted m k) refl
    value_back (gen_map m) (k, s) = rw (gen_map_back m s, collect_gen-sorted m k) refl

    optional_back :
        (o : DamlOptional x) → IsSafeOptional o → to_daml_optional x (to_optional x o) ≡ ok o
    optional_back nothing s = refl
    optional_back (just v) s = rw (value_back v s) refl

    list_back : (v : DamlList x) → IsSafeList v → to_daml_list x (to_values x v) ≡ ok v
    list_back no_value s = refl
    list_back (value_then v vs) (s, t) = rw (value_back v s, list_back vs t) refl

    record_back : (r : DamlRecord x) → IsSafeRecord r → to_daml_record x (to_record x r) ≡ ok r
    record_back (record_of i fs) s = rw (fields_back fs s, of_identifier-to_identifier i) refl

    fields_back : (fs : DamlFields x) → IsSafeFields fs → to_daml_fields x (to_fields x fs) ≡ ok fs
    fields_back no_field s = refl
    fields_back (field_then l v fs) (n, s, t) =
        rw (value_back v s, fields_back fs t, label_of-label_text l n) refl

    variant_back : (v : DamlVariant x) → IsSafeVariant v → to_daml_variant x (to_variant x v) ≡ ok v
    variant_back (variant_of i c v) s = rw (value_back v s, of_identifier-to_identifier i) refl

    text_map_back :
        (m : DamlTextMap x) → IsSafeTextMap m → to_daml_text_map x (to_text_entries x m) ≡ ok m
    text_map_back no_text_entry s = refl
    text_map_back (text_entry_then k v m) (s, t) = rw (value_back v s, text_map_back m t) refl

    gen_map_back :
        (m : DamlGenMap x) → IsSafeGenMap m → to_daml_gen_map x (to_gen_entries x m) ≡ ok m
    gen_map_back no_gen_entry s = refl
    gen_map_back (gen_entry_then k v m) (r, s, t) =
        rw (value_back k r, value_back v s, gen_map_back m t) refl

  -- With a calendar as `IsCalendar` says, and where a number is read back from its plain decimal form,
  -- a value that is `IsWireSafe` is read back from the protobuf value that it is written as.
  pub to_daml-to_value : (v : DamlValue x) → IsWireSafe v → to_daml x (to_value x v) ≡ ok v
  to_daml-to_value v s = value_back v s

  -- The same of a record.
  pub to_daml_record-to_record :
      (r : DamlRecord x) → IsWireSafe (record_value r) → to_daml_record x (to_record x r) ≡ ok r
  unfolding IsWireSafe
  to_daml_record-to_record r s = record_back r s
