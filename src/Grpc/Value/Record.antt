-- ===== src/Grpc/Value/Record.antt =====
-- Records and their builder, daml-grpc/src/data/value/record.rs, record_field.rs and record_build.rs.
pub mod Laws
use rust_daml_bindings.Base.{
  ℕ, zero, suc, String, Bool, true, false, Option, none, some, ok, err, ok_or, map_option, str_eq,
  if◌then◌else◌,
}
use rust_daml_bindings.Grpc.Error.{DamlResult, unknown_field}
use rust_daml_bindings.Grpc.External.{External}
use rust_daml_bindings.Grpc.Identifier.{DamlIdentifier}
use rust_daml_bindings.Grpc.Value.{
  DamlValue, DamlFields, DamlRecord, no_field, field_then, record_of,
}

-- `rec.label() == Some(label)`.
abbrev pub has_label : String → Option String → Bool
has_label label none = false
has_label label (some l) = str_eq l label

module _ {x : External} where
  abbrev pub fields : DamlRecord x → DamlFields x
  fields (record_of i fs) = fs

  -- The `find_map` of `field`.
  unfoldable pub find_field : String → DamlFields x → Option (DamlValue x)
  find_field label no_field = none
  find_field label (field_then l v fs) = if has_label label l then some v else find_field label fs

  unfoldable pub field : DamlRecord x → String → DamlResult (DamlValue x)
  unfolding find_field
  field r label = ok_or (unknown_field label) (find_field label (fields r))

  -- The `position` of `take_field`.
  unfoldable pub position : String → DamlFields x → Option ℕ
  position label no_field = none
  position label (field_then l v fs) =
      let rest = position label fs in if has_label label l then some 0 else map_option suc rest

  -- `Vec::remove`, with the value removed; it panics out of range, which is `none` here.
  unfoldable pub remove : ℕ → DamlFields x → Option (DamlValue x × DamlFields x)
  remove n no_field = none
  remove zero (field_then l v fs) = some (v, fs)
  remove (suc n) (field_then l v fs) = map_option (λ p. (p.0, field_then l v p.1)) (remove n fs)

  -- The value and the record that is left; `none` where `remove` panics.
  unfoldable pub take_field :
      DamlRecord x → String → Option (DamlResult (DamlValue x × DamlRecord x))
  unfolding position remove
  take_field (record_of i fs) label = elim (position label fs) [
    | none ↦ some (err (unknown_field label))
    | some n ↦ map_option (λ p. ok (p.0, record_of i p.1)) (remove n fs)
  ]

  abbrev pub push : DamlFields x → Option String → DamlValue x → DamlFields x
  push no_field l v = field_then l v no_field
  push (field_then m w fs) l v = field_then m w (push fs l v)

pub record DamlRecordBuilder (x : External) : Type 0 where
  pub id : Option DamlIdentifier
  pub built : DamlFields x

module _ {x : External} where
  abbrev pub new : DamlRecordBuilder x
  new = record { id = none; built = no_field }

  unfoldable pub record_id : DamlRecordBuilder x → DamlIdentifier → DamlRecordBuilder x
  record_id b i = record b { id = some i }

  unfoldable pub add_field : DamlRecordBuilder x → String → DamlValue x → DamlRecordBuilder x
  add_field b label v = record b { built = push b.built (some label) v }

  unfoldable pub build : DamlRecordBuilder x → DamlRecord x
  build b = record_of b.id b.built
