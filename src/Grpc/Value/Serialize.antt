-- ===== src/Grpc/Value/Serialize.antt =====
-- Typed data to values and back, `DamlSerializeFrom` and `DamlDeserializeFrom` of
-- daml-grpc/src/data/value/values.rs. The types that have both are described by a `Shape`; a `Box` is
-- what it holds, a fixed numeric its number, and the entries of a `DamlTextMap` and of a `DamlGenMap` are
-- listed in the order of the keys. The order `K: Ord` of the keys of a `DamlGenMap` is that of the values
-- that they are serialized to.
pub mod RoundTrip
use Prim.Native.Nat.{Ordering, lt, eq, gt}
use rust_daml_bindings.Base.{String, Bool, Option, none, some, ok, err, ◌>>=◌, List, [], ◌∷◌}
use rust_daml_bindings.Base.Int.{ℤ}
use rust_daml_bindings.Grpc.Error.{DamlResult}
use rust_daml_bindings.Grpc.External.{External}
use rust_daml_bindings.Grpc.Value.{
  DamlValue, DamlOptional, DamlList, DamlTextMap, DamlGenMap, contract_id, list, int64, numeric,
  text, timestamp, party, bool, unit, date, optional, text_map, gen_map, nothing, just, no_value,
  value_then, no_text_entry, text_entry_then, no_gen_entry, gen_entry_then,
}
use rust_daml_bindings.Grpc.Value.Order.{partial_cmp}
use rust_daml_bindings.Grpc.Value.Convert.{collect_gen}
use rust_daml_bindings.Grpc.Value.Access.{make_unexpected_type_error}

pub data Shape : Type 0 where
  of_unit : Shape
  of_bool : Shape
  of_int64 : Shape
  of_text : Shape
  of_party : Shape
  of_contract_id : Shape
  of_numeric : Shape
  of_timestamp : Shape
  of_date : Shape
  of_optional : Shape → Shape
  of_list : Shape → Shape
  of_text_map : Shape → Shape
  of_gen_map : Shape → Shape → Shape

module _ (x : External) where
  -- The Rust type.
  abbrev pub Typed : Shape → Type 0
  Typed of_unit = Unit
  Typed of_bool = Bool
  Typed of_int64 = ℤ
  Typed of_text = String
  Typed of_party = String
  Typed of_contract_id = String
  Typed of_numeric = x.Numeric
  Typed of_timestamp = x.DateTime
  Typed of_date = x.NaiveDate
  Typed (of_optional s) = Option (Typed s)
  Typed (of_list s) = List (Typed s)
  Typed (of_text_map s) = List (String × Typed s)
  Typed (of_gen_map s t) = List (Typed s × Typed t)

  module _ {A : Type 0} (f : A → DamlValue x) where
    abbrev pub serialize_optional : Option A → DamlOptional x
    serialize_optional none = nothing
    serialize_optional (some a) = just (f a)

    abbrev pub serialize_list : List A → DamlList x
    serialize_list [] = no_value
    serialize_list (a ∷ l) = value_then (f a) (serialize_list l)

    abbrev pub serialize_text_map : List (String × A) → DamlTextMap x
    serialize_text_map [] = no_text_entry
    serialize_text_map ((k, a) ∷ m) = text_entry_then k (f a) (serialize_text_map m)

  abbrev pub serialize_gen_map :
      {K V : Type 0} → (K → DamlValue x) → (V → DamlValue x) → List (K × V) → DamlGenMap x
  serialize_gen_map f g [] = no_gen_entry
  serialize_gen_map f g ((k, v) ∷ m) = gen_entry_then (f k) (g v) (serialize_gen_map f g m)

  unfoldable pub serialize_from : (s : Shape) → Typed s → DamlValue x
  unfolding collect_gen
  serialize_from of_unit a = unit
  serialize_from of_bool a = bool a
  serialize_from of_int64 a = int64 a
  serialize_from of_text a = text a
  serialize_from of_party a = party a
  serialize_from of_contract_id a = contract_id a
  serialize_from of_numeric a = numeric a
  serialize_from of_timestamp a = timestamp a
  serialize_from of_date a = date a
  serialize_from (of_optional s) a = optional (serialize_optional (serialize_from s) a)
  serialize_from (of_list s) a = list (serialize_list (serialize_from s) a)
  serialize_from (of_text_map s) a = text_map (serialize_text_map (serialize_from s) a)
  serialize_from (of_gen_map s t) a =
      gen_map (collect_gen (serialize_gen_map (serialize_from s) (serialize_from t) a))

  module _ {A : Type 0} (f : DamlValue x → DamlResult A) where
    abbrev pub deserialize_optional : DamlOptional x → DamlResult (Option A)
    deserialize_optional nothing = ok none
    deserialize_optional (just v) = f v >>= λ a. ok (some a)

    abbrev pub deserialize_list : DamlList x → DamlResult (List A)
    deserialize_list no_value = ok []
    deserialize_list (value_then v l) = f v >>= λ a. deserialize_list l >>= λ r. ok (a ∷ r)

    abbrev pub deserialize_text_map : DamlTextMap x → DamlResult (List (String × A))
    deserialize_text_map no_text_entry = ok []
    deserialize_text_map (text_entry_then k v m) =
        f v >>= λ a. deserialize_text_map m >>= λ r. ok ((k, a) ∷ r)

  abbrev pub deserialize_gen_map :
      {K V : Type 0}
      → (DamlValue x → DamlResult K)
      → (DamlValue x → DamlResult V)
      → DamlGenMap x
      → DamlResult (List (K × V))
  deserialize_gen_map f g no_gen_entry = ok []
  deserialize_gen_map f g (gen_entry_then k v m) =
      f k >>= λ a. g v >>= λ b. deserialize_gen_map f g m >>= λ r. ok ((a, b) ∷ r)

  -- `collect` into a `BTreeMap<K, V>`, where `f` gives the value of a key: the last entry with a key
  -- stays. (Values compare: see `partial_cmp-Flips`.)
  unfoldable pub add_typed :
      {K V : Type 0} → (K → DamlValue x) → K → V → List (K × V) → List (K × V)
  add_typed f k v [] = (k, v) ∷ []
  add_typed f k v ((l, w) ∷ m) =
      let rest = add_typed f k v m in
      elim (partial_cmp (f k) (f l)) [
        | some o ↦ elim o [ lt ↦ (k, v) ∷ (l, w) ∷ m | eq ↦ (l, w) ∷ m | gt ↦ (l, w) ∷ rest ]
        | none ↦ (l, w) ∷ m
      ]

  unfoldable pub collect_typed : {K V : Type 0} → (K → DamlValue x) → List (K × V) → List (K × V)
  unfolding add_typed
  collect_typed f [] = []
  collect_typed f ((k, v) ∷ m) = add_typed f k v (collect_typed f m)

  unfoldable pub deserialize_from : (s : Shape) → DamlValue x → DamlResult (Typed s)
  unfolding collect_typed serialize_from
  deserialize_from of_unit unit = ok tt
  deserialize_from of_unit v = err (make_unexpected_type_error v "Unit")
  deserialize_from of_bool (bool a) = ok a
  deserialize_from of_bool v = err (make_unexpected_type_error v "Bool")
  deserialize_from of_int64 (int64 a) = ok a
  deserialize_from of_int64 v = err (make_unexpected_type_error v "Int64")
  deserialize_from of_text (text a) = ok a
  deserialize_from of_text v = err (make_unexpected_type_error v "Text")
  deserialize_from of_party (party a) = ok a
  deserialize_from of_party v = err (make_unexpected_type_error v "Party")
  deserialize_from of_contract_id (contract_id a) = ok a
  deserialize_from of_contract_id v = err (make_unexpected_type_error v "ContractId")
  deserialize_from of_numeric (numeric a) = ok a
  deserialize_from of_numeric v = err (make_unexpected_type_error v "Numeric")
  deserialize_from of_timestamp (timestamp a) = ok a
  deserialize_from of_timestamp v = err (make_unexpected_type_error v "Timestamp")
  deserialize_from of_date (date a) = ok a
  deserialize_from of_date v = err (make_unexpected_type_error v "Date")
  deserialize_from (of_optional s) (optional o) = deserialize_optional (deserialize_from s) o
  deserialize_from (of_optional s) v = err (make_unexpected_type_error v "Option")
  deserialize_from (of_list s) (list l) = deserialize_list (deserialize_from s) l
  deserialize_from (of_list s) v = err (make_unexpected_type_error v "List")
  deserialize_from (of_text_map s) (text_map m) = deserialize_text_map (deserialize_from s) m
  deserialize_from (of_text_map s) v = err (make_unexpected_type_error v "TextMap")
  deserialize_from (of_gen_map s t) (gen_map m) =
      deserialize_gen_map (deserialize_from s) (deserialize_from t) m >>= λ r.
      ok (collect_typed (serialize_from s) r)
  deserialize_from (of_gen_map s t) v = err (make_unexpected_type_error v "GenMap")
