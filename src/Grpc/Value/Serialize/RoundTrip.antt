-- ===== src/Grpc/Value/Serialize/RoundTrip.antt =====
-- Typed data comes back from its value, `DamlSerializeFrom` and `DamlDeserializeFrom` of
-- daml-grpc/src/data/value/values.rs.
use rust_daml_bindings.Base.{String, Option, none, some, List, [], ◌∷◌}
use rust_daml_bindings.Grpc.External.{External}
use rust_daml_bindings.Grpc.Value.Convert.RoundTrip.{IsGenSorted}
use rust_daml_bindings.Grpc.Value.Serialize.{
  Shape, of_optional, of_list, of_text_map, of_gen_map, Typed, serialize_gen_map, serialize_from,
}

module _ {A : Type 0} (P : A → Type 0) where
  abbrev InOption : Option A → Type 0
  InOption none = Unit
  InOption (some a) = P a

  abbrev InList : List A → Type 0
  InList [] = Unit
  InList (a ∷ l) = P a × InList l

  abbrev InEntries : List (String × A) → Type 0
  InEntries [] = Unit
  InEntries ((k, a) ∷ m) = P a × InEntries m

abbrev InPairs : {K V : Type 0} → (K → Type 0) → (V → Type 0) → List (K × V) → Type 0
InPairs P Q [] = Unit
InPairs P Q ((k, v) ∷ m) = P k × Q v × InPairs P Q m

module _ (x : External) where
  -- The keys of each `DamlGenMap` go up, as those of a `BTreeMap` do.
  unfoldable pub IsAscending : (s : Shape) → Typed x s → Type 0
  IsAscending (of_optional s) a = InOption (IsAscending s) a
  IsAscending (of_list s) a = InList (IsAscending s) a
  IsAscending (of_text_map s) a = InEntries (IsAscending s) a
  IsAscending (of_gen_map s t) a =
      IsGenSorted (serialize_gen_map x (serialize_from x s) (serialize_from x t) a)
      × InPairs (IsAscending s) (IsAscending t) a
  IsAscending s a = Unit
