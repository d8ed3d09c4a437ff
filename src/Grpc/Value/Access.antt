-- ===== src/Grpc/Value/Access.antt =====
-- Access to the contents of a value, the `try_` functions of daml-grpc/src/data/value/values.rs. A
-- reference and the value behind it are one here, so `try_x_ref` and `try_x_clone` are `try_x`.
pub mod Laws
use rust_daml_bindings.Base.{String, Bool, ok, err, ◌>>=◌}
use rust_daml_bindings.Base.Int.{ℤ}
use rust_daml_bindings.Grpc.Error.{DamlError, DamlResult, unexpected_type}
use rust_daml_bindings.Grpc.External.{External}
use rust_daml_bindings.Grpc.Value.{
  DamlEnum, DamlValue, DamlOptional, DamlList, DamlRecord, DamlVariant, DamlTextMap, DamlGenMap,
  record_value, variant_value, enum_value, contract_id, list, int64, numeric, text, timestamp,
  party, bool, unit, date, optional, text_map, gen_map,
}

module _ {x : External} where
  abbrev pub variant_name : DamlValue x → String
  variant_name unit = "Unit"
  variant_name (date _) = "Date"
  variant_name (int64 _) = "Int64"
  variant_name (numeric _) = "Numeric"
  variant_name (bool _) = "Bool"
  variant_name (text _) = "Text"
  variant_name (timestamp _) = "Timestamp"
  variant_name (party _) = "Party"
  variant_name (contract_id _) = "ContractId"
  variant_name (record_value _) = "Record"
  variant_name (list _) = "List"
  variant_name (variant_value _) = "Variant"
  variant_name (enum_value _) = "Enum"
  variant_name (optional _) = "Optional"
  variant_name (text_map _) = "TextMap"
  variant_name (gen_map _) = "GenMap"

  abbrev pub make_unexpected_type_error : DamlValue x → String → DamlError
  make_unexpected_type_error v expected = unexpected_type expected (variant_name v)

  unfoldable pub try_unit : DamlValue x → DamlResult {0} Unit
  try_unit unit = ok tt
  try_unit v = err (make_unexpected_type_error v "Unit")

  unfoldable pub try_date : DamlValue x → DamlResult x.NaiveDate
  try_date (date a) = ok a
  try_date v = err (make_unexpected_type_error v "Date")

  unfoldable pub try_int64 : DamlValue x → DamlResult ℤ
  try_int64 (int64 a) = ok a
  try_int64 v = err (make_unexpected_type_error v "Int64")

  unfoldable pub try_numeric : DamlValue x → DamlResult x.Numeric
  try_numeric (numeric a) = ok a
  try_numeric v = err (make_unexpected_type_error v "Numeric")

  unfoldable pub try_bool : DamlValue x → DamlResult Bool
  try_bool (bool a) = ok a
  try_bool v = err (make_unexpected_type_error v "Bool")

  unfoldable pub try_text : DamlValue x → DamlResult String
  try_text (text a) = ok a
  try_text v = err (make_unexpected_type_error v "Text")

  unfoldable pub try_timestamp : DamlValue x → DamlResult x.DateTime
  try_timestamp (timestamp a) = ok a
  try_timestamp v = err (make_unexpected_type_error v "Timestamp")

  unfoldable pub try_party : DamlValue x → DamlResult String
  try_party (party a) = ok a
  try_party v = err (make_unexpected_type_error v "Party")

  unfoldable pub try_contract_id : DamlValue x → DamlResult String
  try_contract_id (contract_id a) = ok a
  try_contract_id v = err (make_unexpected_type_error v "ContractId")

  unfoldable pub try_record : DamlValue x → DamlResult (DamlRecord x)
  try_record (record_value a) = ok a
  try_record v = err (make_unexpected_type_error v "Record")

  unfoldable pub try_list : DamlValue x → DamlResult (DamlList x)
  try_list (list a) = ok a
  try_list v = err (make_unexpected_type_error v "List")

  unfoldable pub try_variant : DamlValue x → DamlResult (DamlVariant x)
  try_variant (variant_value a) = ok a
  try_variant v = err (make_unexpected_type_error v "Variant")

  unfoldable pub try_enum : DamlValue x → DamlResult DamlEnum
  try_enum (enum_value a) = ok a
  try_enum v = err (make_unexpected_type_error v "Enum")

  unfoldable pub try_optional : DamlValue x → DamlResult (DamlOptional x)
  try_optional (optional a) = ok a
  try_optional v = err (make_unexpected_type_error v "Optional")

  unfoldable pub try_text_map : DamlValue x → DamlResult (DamlTextMap x)
  try_text_map (text_map a) = ok a
  try_text_map v = err (make_unexpected_type_error v "TextMap")

  unfoldable pub try_genmap : DamlValue x → DamlResult (DamlGenMap x)
  try_genmap (gen_map a) = ok a
  try_genmap v = err (make_unexpected_type_error v "GenMap")

  unfoldable pub try_take_record : DamlValue x → DamlResult (DamlRecord x)
  try_take_record (record_value a) = ok a
  try_take_record v = err (make_unexpected_type_error v "Record")

  unfoldable pub try_take_variant : DamlValue x → DamlResult (DamlVariant x)
  try_take_variant (variant_value a) = ok a
  try_take_variant v = err (make_unexpected_type_error v "Variant")

  unfoldable pub try_take_enum : DamlValue x → DamlResult DamlEnum
  try_take_enum (enum_value a) = ok a
  try_take_enum v = err (make_unexpected_type_error v "Enum")

  unfoldable pub try_take_list : DamlValue x → DamlResult (DamlList x)
  try_take_list (list a) = ok a
  try_take_list v = err (make_unexpected_type_error v "List")

  unfoldable pub try_take_text_map : DamlValue x → DamlResult (DamlTextMap x)
  try_take_text_map (text_map a) = ok a
  try_take_text_map v = err (make_unexpected_type_error v "TextMap")

  unfoldable pub try_take_genmap : DamlValue x → DamlResult (DamlGenMap x)
  try_take_genmap (gen_map a) = ok a
  try_take_genmap v = err (make_unexpected_type_error v "Map")

  unfoldable pub try_take_optional : DamlValue x → DamlResult (DamlOptional x)
  try_take_optional (optional a) = ok a
  try_take_optional v = err (make_unexpected_type_error v "Optional")

  -- `extract` of a value, with the function on its record.
  unfoldable pub extract {ℓ} :
      {R : Type ℓ} → DamlValue x → (DamlRecord x → DamlResult R) → DamlResult R
  unfolding try_record
  extract v f = try_record v >>= f
