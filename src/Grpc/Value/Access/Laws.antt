-- ===== src/Grpc/Value/Access/Laws.antt =====
-- What the access to the contents of a value does, daml-grpc/src/data/value/values.rs.
use rust_daml_bindings.Base.{String, ok, err, ◌≡◌, ◌≢◌, refl, ◌⊎◌, inl, inr}
use rust_daml_bindings.Grpc.Error.{DamlResult, unexpected_type}
use rust_daml_bindings.Grpc.External.{External}
use rust_daml_bindings.Grpc.Value.{
  DamlValue, record_value, variant_value, enum_value, contract_id, list, int64, numeric, text,
  timestamp, party, bool, unit, date, optional, text_map, gen_map,
}
use rust_daml_bindings.Grpc.Value.Access.{
  variant_name, try_unit, try_date, try_int64, try_numeric, try_bool, try_text, try_timestamp,
  try_party, try_contract_id, try_record, try_list, try_variant, try_enum, try_optional,
  try_text_map, try_genmap, try_take_record, try_take_variant, try_take_enum, try_take_list,
  try_take_text_map, try_take_genmap, try_take_optional,
}

module _ {x : External} where
  -- Of a value that holds an `a` under the constructor the function returns `a`; of a value of another
  -- constructor it returns the error that names the type expected and the type found.
  abbrev pub IsAccessOf :
      {A : Type 0} → (A → DamlValue x) → String → (DamlValue x → DamlResult A) → Type 0
  IsAccessOf {A} inject expected f =
      (v : DamlValue x)
      → ((a : A) × (v ≡ inject a) × (f v ≡ ok a))
        ⊎ (((a : A) → v ≢ inject a) × (f v ≡ err (unexpected_type expected (variant_name v))))

  try_unit-cases : IsAccessOf (λ a. unit) "Unit" try_unit
  unfolding try_unit
  try_unit-cases unit = inl (tt, refl, refl)
  try_unit-cases v = inr (λ a e. cc, refl)

  try_date-cases : IsAccessOf date "Date" try_date
  unfolding try_date
  try_date-cases (date a) = inl (a, refl, refl)
  try_date-cases v = inr (λ a e. cc, refl)

  try_int64-cases : IsAccessOf int64 "Int64" try_int64
  unfolding try_int64
  try_int64-cases (int64 a) = inl (a, refl, refl)
  try_int64-cases v = inr (λ a e. cc, refl)

  try_numeric-cases : IsAccessOf numeric "Numeric" try_numeric
  unfolding try_numeric
  try_numeric-cases (numeric a) = inl (a, refl, refl)
  try_numeric-cases v = inr (λ a e. cc, refl)

  try_bool-cases : IsAccessOf bool "Bool" try_bool
  unfolding try_bool
  try_bool-cases (bool a) = inl (a, refl, refl)
  try_bool-cases v = inr (λ a e. cc, refl)

  try_text-cases : IsAccessOf text "Text" try_text
  unfolding try_text
  try_text-cases (text a) = inl (a, refl, refl)
  try_text-cases v = inr (λ a e. cc, refl)

  try_timestamp-cases : IsAccessOf timestamp "Timestamp" try_timestamp
  unfolding try_timestamp
  try_timestamp-cases (timestamp a) = inl (a, refl, refl)
  try_timestamp-cases v = inr (λ a e. cc, refl)

  try_party-cases : IsAccessOf party "Party" try_party
  unfolding try_party
  try_party-cases (party a) = inl (a, refl, refl)
  try_party-cases v = inr (λ a e. cc, refl)

  try_contract_id-cases : IsAccessOf contract_id "ContractId" try_contract_id
  unfolding try_contract_id
  try_contract_id-cases (contract_id a) = inl (a, refl, refl)
  try_contract_id-cases v = inr (λ a e. cc, refl)

  try_record-cases : IsAccessOf record_value "Record" try_record
  unfolding try_record
  try_record-cases (record_value a) = inl (a, refl, refl)
  try_record-cases v = inr (λ a e. cc, refl)

  try_list-cases : IsAccessOf list "List" try_list
  unfolding try_list
  try_list-cases (list a) = inl (a, refl, refl)
  try_list-cases v = inr (λ a e. cc, refl)

  try_variant-cases : IsAccessOf variant_value "Variant" try_variant
  unfolding try_variant
  try_variant-cases (variant_value a) = inl (a, refl, refl)
  try_variant-cases v = inr (λ a e. cc, refl)

  try_enum-cases : IsAccessOf enum_value "Enum" try_enum
  unfolding try_enum
  try_enum-cases (enum_value a) = inl (a, refl, refl)
  try_enum-cases v = inr (λ a e. cc, refl)

  try_optional-cases : IsAccessOf optional "Optional" try_optional
  unfolding try_optional
  try_optional-cases (optional a) = inl (a, refl, refl)
  try_optional-cases v = inr (λ a e. cc, refl)

  try_text_map-cases : IsAccessOf text_map "TextMap" try_text_map
  unfolding try_text_map
  try_text_map-cases (text_map a) = inl (a, refl, refl)
  try_text_map-cases v = inr (λ a e. cc, refl)

  try_genmap-cases : IsAccessOf gen_map "GenMap" try_genmap
  unfolding try_genmap
  try_genmap-cases (gen_map a) = inl (a, refl, refl)
  try_genmap-cases v = inr (λ a e. cc, refl)

  try_take_record-cases : IsAccessOf record_value "Record" try_take_record
  unfolding try_take_record
  try_take_record-cases (record_value a) = inl (a, refl, refl)
  try_take_record-cases v = inr (λ a e. cc, refl)

  try_take_variant-cases : IsAccessOf variant_value "Variant" try_take_variant
  unfolding try_take_variant
  try_take_variant-cases (variant_value a) = inl (a, refl, refl)
  try_take_variant-cases v = inr (λ a e. cc, refl)

  try_take_enum-cases : IsAccessOf enum_value "Enum" try_take_enum
  unfolding try_take_enum
  try_take_enum-cases (enum_value a) = inl (a, refl, refl)
  try_take_enum-cases v = inr (λ a e. cc, refl)

  try_take_list-cases : IsAccessOf list "List" try_take_list
  unfolding try_take_list
  try_take_list-cases (list a) = inl (a, refl, refl)
  try_take_list-cases v = inr (λ a e. cc, refl)

  try_take_text_map-cases : IsAccessOf text_map "TextMap" try_take_text_map
  unfolding try_take_text_map
  try_take_text_map-cases (text_map a) = inl (a, refl, refl)
  try_take_text_map-cases v = inr (λ a e. cc, refl)

  try_take_genmap-cases : IsAccessOf gen_map "Map" try_take_genmap
  unfolding try_take_genmap
  try_take_genmap-cases (gen_map a) = inl (a, refl, refl)
  try_take_genmap-cases v = inr (λ a e. cc, refl)

  try_take_optional-cases : IsAccessOf optional "Optional" try_take_optional
  unfolding try_take_optional
  try_take_optional-cases (optional a) = inl (a, refl, refl)
  try_take_optional-cases v = inr (λ a e. cc, refl)

-- The sixteen `try_` functions.
abbrev pub TryAreAccess : External → Type 0
TryAreAccess x =
    IsAccessOf {x = x} (λ a. unit) "Unit" try_unit
    × IsAccessOf {x = x} date "Date" try_date
    × IsAccessOf {x = x} int64 "Int64" try_int64
    × IsAccessOf {x = x} numeric "Numeric" try_numeric
    × IsAccessOf {x = x} bool "Bool" try_bool
    × IsAccessOf {x = x} text "Text" try_text
    × IsAccessOf {x = x} timestamp "Timestamp" try_timestamp
    × IsAccessOf {x = x} party "Party" try_party
    × IsAccessOf {x = x} contract_id "ContractId" try_contract_id
    × IsAccessOf {x = x} record_value "Record" try_record
    × IsAccessOf {x = x} list "List" try_list
    × IsAccessOf {x = x} variant_value "Variant" try_variant
    × IsAccessOf {x = x} enum_value "Enum" try_enum
    × IsAccessOf {x = x} optional "Optional" try_optional
    × IsAccessOf {x = x} text_map "TextMap" try_text_map
    × IsAccessOf {x = x} gen_map "GenMap" try_genmap

-- The seven `try_take_` functions.
abbrev pub TryTakeAreAccess : External → Type 0
TryTakeAreAccess x =
    IsAccessOf {x = x} record_value "Record" try_take_record
    × IsAccessOf {x = x} variant_value "Variant" try_take_variant
    × IsAccessOf {x = x} enum_value "Enum" try_take_enum
    × IsAccessOf {x = x} list "List" try_take_list
    × IsAccessOf {x = x} text_map "TextMap" try_take_text_map
    × IsAccessOf {x = x} gen_map "Map" try_take_genmap
    × IsAccessOf {x = x} optional "Optional" try_take_optional

-- Each of the sixteen `try_` functions returns what a value of its own constructor holds, and the
-- error that names its type and the value's type of every other value.
pub try_lem : (x : External) → TryAreAccess x
try_lem x = (
  try_unit-cases, try_date-cases, try_int64-cases, try_numeric-cases, try_bool-cases,
  try_text-cases, try_timestamp-cases, try_party-cases, try_contract_id-cases, try_record-cases,
  try_list-cases, try_variant-cases, try_enum-cases, try_optional-cases, try_text_map-cases,
  try_genmap-cases,
)

-- Each of the seven `try_take_` functions returns what a value of its own constructor holds, and the
-- error that names its type and the value's type of every other value; the one for a gen map names
-- its type "Map".
pub try_take_lem : (x : External) → TryTakeAreAccess x
try_take_lem x = (
  try_take_record-cases, try_take_variant-cases, try_take_enum-cases, try_take_list-cases,
  try_take_text_map-cases, try_take_genmap-cases, try_take_optional-cases,
)
