-- ===== src/Grpc/Value/Order.antt =====
-- The order of values, `PartialOrd` and `Ord` of daml-grpc/src/data/value.
pub mod Laws
use Prim.Native.Nat.{compare, Ordering, lt, eq, gt}
use Prim.Native.Char.{code}
use rust_daml_bindings.Base.{
  ℕ, String, Bool, true, false, Option, none, some, ◌≡◌, ◌==◌, if◌then◌else◌,
}
use rust_daml_bindings.Base.Int.{compare_ℤ}
use rust_daml_bindings.Grpc.External.{External}
use rust_daml_bindings.Grpc.Identifier.{DamlIdentifier}
use rust_daml_bindings.Grpc.Value.{
  DamlEnum, DamlValue, DamlOptional, DamlList, DamlRecord, DamlFields, DamlVariant, DamlTextMap,
  DamlGenMap, record_value, variant_value, enum_value, contract_id, list, int64, numeric, text,
  timestamp, party, bool, unit, date, optional, text_map, gen_map, nothing, just, no_value,
  value_then, record_of, no_field, field_then, variant_of, no_text_entry, text_entry_then,
  no_gen_entry, gen_entry_then, count_text_entries, count_gen_entries,
}

-- `then`: the second order decides where the first finds two values equal.
abbrev pub or_then : Ordering → Ordering → Ordering
or_then lt o = lt
or_then eq o = o
or_then gt o = gt

-- The same on partial orders, as `derive(PartialOrd)` chains the fields.
abbrev pub or_then_partial : Option Ordering → Option Ordering → Option Ordering
or_then_partial none o = none
or_then_partial (some lt) o = some lt
or_then_partial (some eq) o = o
or_then_partial (some gt) o = some gt

-- `cmp` of two `str`: by code points, which order texts as their bytes do.
unfoldable pub compare_text : String → String → Ordering
compare_text String.[] String.[] = eq
compare_text String.[] (String.◌∷◌ d t) = lt
compare_text (String.◌∷◌ c s) String.[] = gt
compare_text (String.◌∷◌ c s) (String.◌∷◌ d t) =
    or_then (compare (code c) (code d)) (compare_text s t)

unfoldable pub compare_bool : Bool → Bool → Ordering
compare_bool false false = eq
compare_bool false true = lt
compare_bool true false = gt
compare_bool true true = eq

-- `derive(PartialOrd)` of `DamlIdentifier`.
unfoldable pub compare_identifier : DamlIdentifier → DamlIdentifier → Ordering
unfolding compare_text
compare_identifier a b =
    or_then (compare_text a.package_ref b.package_ref) (
      or_then (compare_text a.module_name b.module_name) (compare_text a.entity_name b.entity_name))

-- Options are ordered with `None` first.
abbrev pub compare_option {ℓ} : {A : Type ℓ} → (A → A → Ordering) → Option A → Option A → Ordering
compare_option f none none = eq
compare_option f none (some b) = lt
compare_option f (some a) none = gt
compare_option f (some a) (some b) = f a b

-- `derive(PartialOrd)` of `DamlEnum`.
unfoldable pub compare_enum : DamlEnum → DamlEnum → Ordering
unfolding compare_identifier
compare_enum a b =
    or_then (compare_option compare_identifier a.enum_id b.enum_id)
      (compare_text a.constructor_name b.constructor_name)

module _ {x : External} where
  -- `ordinal`.
  abbrev pub ordinal : DamlValue x → ℕ
  ordinal unit = 0
  ordinal (bool _) = 1
  ordinal (int64 _) = 2
  ordinal (numeric _) = 3
  ordinal (text _) = 4
  ordinal (party _) = 5
  ordinal (contract_id _) = 6
  ordinal (timestamp _) = 7
  ordinal (date _) = 8
  ordinal (optional _) = 9
  ordinal (list _) = 10
  ordinal (text_map _) = 11
  ordinal (gen_map _) = 12
  ordinal (record_value _) = 13
  ordinal (variant_value _) = 14
  ordinal (enum_value _) = 15

  unfoldable mutual
    unfolding compare_text compare_bool compare_identifier compare_enum compare_ℤ

    pub partial_cmp : DamlValue x → DamlValue x → Option Ordering
    partial_cmp (record_value a) (record_value b) = partial_cmp_record a b
    partial_cmp (variant_value a) (variant_value b) = partial_cmp_variant a b
    partial_cmp (enum_value a) (enum_value b) = some (compare_enum a b)
    partial_cmp (list a) (list b) = partial_cmp_list a b
    partial_cmp (int64 a) (int64 b) = some (compare_ℤ a b)
    partial_cmp (numeric a) (numeric b) = some (x.compare_numeric a b)
    partial_cmp (text a) (text b) = some (compare_text a b)
    partial_cmp (party a) (party b) = some (compare_text a b)
    partial_cmp (contract_id a) (contract_id b) = some (compare_text a b)
    partial_cmp (timestamp a) (timestamp b) = some (x.compare_datetime a b)
    partial_cmp (bool a) (bool b) = some (compare_bool a b)
    partial_cmp unit unit = some eq
    partial_cmp (date a) (date b) = some (x.compare_date a b)
    partial_cmp (optional a) (optional b) = partial_cmp_optional a b
    partial_cmp (text_map a) (text_map b) =
        if count_text_entries a == count_text_entries b
        then partial_cmp_text_map a b
        else some (compare (count_text_entries a) (count_text_entries b))
    partial_cmp (gen_map a) (gen_map b) =
        if count_gen_entries a == count_gen_entries b
        then partial_cmp_gen_map a b
        else some (compare (count_gen_entries a) (count_gen_entries b))
    partial_cmp a b = some (compare (ordinal a) (ordinal b))

    pub partial_cmp_record : DamlRecord x → DamlRecord x → Option Ordering
    partial_cmp_record (record_of i a) (record_of j b) =
        or_then_partial (some (compare_option compare_identifier i j)) (partial_cmp_fields a b)

    pub partial_cmp_fields : DamlFields x → DamlFields x → Option Ordering
    partial_cmp_fields no_field no_field = some eq
    partial_cmp_fields no_field (field_then _ _ _) = some lt
    partial_cmp_fields (field_then _ _ _) no_field = some gt
    partial_cmp_fields (field_then k v a) (field_then l w b) =
        or_then_partial (or_then_partial (some (compare_option compare_text k l)) (partial_cmp v w))
          (partial_cmp_fields a b)

    pub partial_cmp_variant : DamlVariant x → DamlVariant x → Option Ordering
    partial_cmp_variant (variant_of i c v) (variant_of j d w) =
        or_then_partial (some (compare_option compare_identifier i j))
          (or_then_partial (some (compare_text c d)) (partial_cmp v w))

    pub partial_cmp_list : DamlList x → DamlList x → Option Ordering
    partial_cmp_list no_value no_value = some eq
    partial_cmp_list no_value (value_then _ _) = some lt
    partial_cmp_list (value_then _ _) no_value = some gt
    partial_cmp_list (value_then v a) (value_then w b) =
        or_then_partial (partial_cmp v w) (partial_cmp_list a b)

    pub partial_cmp_optional : DamlOptional x → DamlOptional x → Option Ordering
    partial_cmp_optional nothing nothing = some eq
    partial_cmp_optional nothing (just _) = some lt
    partial_cmp_optional (just _) nothing = some gt
    partial_cmp_optional (just v) (just w) = partial_cmp v w

    pub partial_cmp_text_map : DamlTextMap x → DamlTextMap x → Option Ordering
    partial_cmp_text_map no_text_entry no_text_entry = some eq
    partial_cmp_text_map no_text_entry (text_entry_then _ _ _) = some lt
    partial_cmp_text_map (text_entry_then _ _ _) no_text_entry = some gt
    partial_cmp_text_map (text_entry_then k v a) (text_entry_then l w b) =
        or_then_partial (or_then_partial (some (compare_text k l)) (partial_cmp v w))
          (partial_cmp_text_map a b)

    pub partial_cmp_gen_map : DamlGenMap x → DamlGenMap x → Option Ordering
    partial_cmp_gen_map no_gen_entry no_gen_entry = some eq
    partial_cmp_gen_map no_gen_entry (gen_entry_then _ _ _) = some lt
    partial_cmp_gen_map (gen_entry_then _ _ _) no_gen_entry = some gt
    partial_cmp_gen_map (gen_entry_then k v a) (gen_entry_then l w b) =
        or_then_partial (or_then_partial (partial_cmp k l) (partial_cmp v w))
          (partial_cmp_gen_map a b)
