-- ===== src/Grpc/Value/Order/Laws.antt =====
-- The order of values is total and turns round with its arguments, daml-grpc/src/data/value.
use Prim.Native.Nat.{compare, Ordering, lt, eq, gt}
use Prim.Native.Char.{code}
use rust_daml_bindings.Base.{
  ℕ, String, Bool, true, false, Option, none, some, ◌≡◌, refl, arith, if◌then◌else◌,
}
use rust_daml_bindings.Base.Int.{ℤ, pos, negsuc, compare_ℤ}
use rust_daml_bindings.Grpc.External.{External}
use rust_daml_bindings.Grpc.Identifier.{DamlIdentifier}
use rust_daml_bindings.Grpc.Value.{
  DamlEnum, DamlValue, DamlOptional, DamlList, DamlRecord, DamlFields, DamlVariant, DamlTextMap,
  DamlGenMap, record_value, variant_value, enum_value, contract_id, list, int64, numeric, text,
  timestamp, party, bool, unit, date, optional, text_map, gen_map, nothing, just, no_value,
  value_then, record_of, no_field, field_then, variant_of, no_text_entry, text_entry_then,
  no_gen_entry, gen_entry_then, count_text_entries, count_gen_entries,
}
use rust_daml_bindings.Grpc.Value.Order.{
  or_then, or_then_partial, compare_text, compare_bool, compare_identifier, compare_option,
  compare_enum, ordinal, partial_cmp, partial_cmp_record, partial_cmp_fields, partial_cmp_variant,
  partial_cmp_list, partial_cmp_optional, partial_cmp_text_map, partial_cmp_gen_map,
}

-- `Ordering::reverse`.
abbrev pub reverse : Ordering → Ordering
reverse lt = gt
reverse eq = eq
reverse gt = lt

-- The orders of the libraries turn round with their arguments, as `Ord` asks of them.
pub record IsOrdered (x : External) : Type 0 where
  pub numeric_flip : (a b : x.Numeric) → x.compare_numeric b a ≡ reverse (x.compare_numeric a b)
  pub datetime_flip : (a b : x.DateTime) → x.compare_datetime b a ≡ reverse (x.compare_datetime a b)
  pub date_flip : (a b : x.NaiveDate) → x.compare_date b a ≡ reverse (x.compare_date a b)

compare-flip : (m n : ℕ) → compare n m ≡ reverse (compare m n)
compare-flip m n = ground arith

pub compare_ℤ-flip : (a b : ℤ) → compare_ℤ b a ≡ reverse (compare_ℤ a b)
unfolding compare_ℤ
compare_ℤ-flip (pos m) (pos n) = compare-flip m n
compare_ℤ-flip (pos m) (negsuc n) = refl
compare_ℤ-flip (negsuc m) (pos n) = refl
compare_ℤ-flip (negsuc m) (negsuc n) = compare-flip n m

or_then-flip : (o p : Ordering) → or_then (reverse o) (reverse p) ≡ reverse (or_then o p)
or_then-flip lt p = refl
or_then-flip eq p = refl
or_then-flip gt p = refl

pub compare_text-flip : (s t : String) → compare_text t s ≡ reverse (compare_text s t)
unfolding compare_text
compare_text-flip String.[] String.[] = refl
compare_text-flip String.[] (String.◌∷◌ d t) = refl
compare_text-flip (String.◌∷◌ c s) String.[] = refl
compare_text-flip (String.◌∷◌ c s) (String.◌∷◌ d t) =
    rw (compare-flip (code c) (code d), compare_text-flip s t)
      (or_then-flip (compare (code c) (code d)) (compare_text s t))

compare_bool-flip : (a b : Bool) → compare_bool b a ≡ reverse (compare_bool a b)
unfolding compare_bool
compare_bool-flip a b = ground arith

compare_identifier-flip :
    (a b : DamlIdentifier) → compare_identifier b a ≡ reverse (compare_identifier a b)
unfolding compare_identifier
compare_identifier-flip a b =
    rw
      (
        compare_text-flip a.package_ref b.package_ref,
        compare_text-flip a.module_name b.module_name,
        compare_text-flip a.entity_name b.entity_name,
        or_then-flip,
      )
      (or_then-flip (compare_text a.package_ref b.package_ref) _)

compare_option-flip {ℓ} :
    {A : Type ℓ} (f : A → A → Ordering)
    → ((a b : A) → f b a ≡ reverse (f a b))
    → (a b : Option A) → compare_option f b a ≡ reverse (compare_option f a b)
compare_option-flip f h none none = refl
compare_option-flip f h none (some b) = refl
compare_option-flip f h (some a) none = refl
compare_option-flip f h (some a) (some b) = h a b

compare_enum-flip : (a b : DamlEnum) → compare_enum b a ≡ reverse (compare_enum a b)
unfolding compare_enum
compare_enum-flip a b =
    rw
      (
        compare_option-flip compare_identifier compare_identifier-flip a.enum_id b.enum_id,
        compare_text-flip a.constructor_name b.constructor_name,
      )
      (or_then-flip (compare_option compare_identifier a.enum_id b.enum_id) _)

-- Two comparisons are there, and the one is the other turned round.
abbrev pub Flips : Option Ordering → Option Ordering → Type 0
Flips o p = (r : Ordering) × (o ≡ some r) × (p ≡ some (reverse r))

Flips-some : {f : Ordering} (g : Ordering) → f ≡ reverse g → Flips (some g) (some f)
Flips-some g e = (g, refl, rw e)

Flips-then :
    {o p o' p' : Option Ordering}
    → Flips o p
    → Flips o' p'
    → Flips (or_then_partial o o') (or_then_partial p p')
Flips-then (lt, e, f) h = (lt, rw e refl, rw f refl)
Flips-then (eq, e, f) (r, e', f') = (r, rw e (rw e' refl), rw f (rw f' refl))
Flips-then (gt, e, f) h = (gt, rw e refl, rw f refl)

abbrev is_equal : Ordering → Bool
is_equal lt = false
is_equal eq = true
is_equal gt = false

Flips-if :
    (r : Ordering) {o p : Option Ordering}
    → Flips o p
    → Flips
        (if is_equal r then o else some r)
        (if is_equal (reverse r) then p else some (reverse r))
Flips-if lt h = (lt, refl, refl)
Flips-if eq h = h
Flips-if gt h = (gt, refl, refl)

Flips-count :
    (m n : ℕ) {o p : Option Ordering}
    → Flips o p
    → Flips
        (if is_equal (compare m n) then o else some (compare m n))
        (if is_equal (compare n m) then p else some (compare n m))
Flips-count m n h = rw (compare-flip m n) (Flips-if (compare m n) h)

module _ {x : External} (ordered : IsOrdered x) where
  open ordered use {numeric_flip, datetime_flip, date_flip}

  mutual
    unfolding partial_cmp

    flips : (a b : DamlValue x) → Flips (partial_cmp a b) (partial_cmp b a)
    flips (record_value a) (record_value b) = Flips-record a b
    flips (variant_value a) (variant_value b) = Flips-variant a b
    flips (enum_value a) (enum_value b) = Flips-some (compare_enum a b) (compare_enum-flip a b)
    flips (list a) (list b) = Flips-list a b
    flips (int64 a) (int64 b) = Flips-some (compare_ℤ a b) (compare_ℤ-flip a b)
    flips (numeric a) (numeric b) = Flips-some (x.compare_numeric a b) (numeric_flip a b)
    flips (text a) (text b) = Flips-some (compare_text a b) (compare_text-flip a b)
    flips (party a) (party b) = Flips-some (compare_text a b) (compare_text-flip a b)
    flips (contract_id a) (contract_id b) = Flips-some (compare_text a b) (compare_text-flip a b)
    flips (timestamp a) (timestamp b) = Flips-some (x.compare_datetime a b) (datetime_flip a b)
    flips (bool a) (bool b) = Flips-some (compare_bool a b) (compare_bool-flip a b)
    flips unit unit = Flips-some eq refl
    flips (date a) (date b) = Flips-some (x.compare_date a b) (date_flip a b)
    flips (optional a) (optional b) = Flips-optional a b
    flips (text_map a) (text_map b) =
        Flips-count (count_text_entries a) (count_text_entries b) (Flips-text_map a b)
    flips (gen_map a) (gen_map b) =
        Flips-count (count_gen_entries a) (count_gen_entries b) (Flips-gen_map a b)
    flips a b = Flips-some (compare (ordinal a) (ordinal b)) (compare-flip (ordinal a) (ordinal b))

    Flips-record : (a b : DamlRecord x) → Flips (partial_cmp_record a b) (partial_cmp_record b a)
    Flips-record (record_of i a) (record_of j b) =
        Flips-then
          (Flips-some (compare_option compare_identifier i j)
            (compare_option-flip compare_identifier compare_identifier-flip i j))
          (Flips-fields a b)

    Flips-fields : (a b : DamlFields x) → Flips (partial_cmp_fields a b) (partial_cmp_fields b a)
    Flips-fields no_field no_field = Flips-some eq refl
    Flips-fields no_field (field_then _ _ _) = Flips-some lt refl
    Flips-fields (field_then _ _ _) no_field = Flips-some gt refl
    Flips-fields (field_then k v a) (field_then l w b) =
        Flips-then
          (Flips-then
            (Flips-some (compare_option compare_text k l)
              (compare_option-flip compare_text compare_text-flip k l))
            (flips v w))
          (Flips-fields a b)

    Flips-variant :
        (a b : DamlVariant x) → Flips (partial_cmp_variant a b) (partial_cmp_variant b a)
    Flips-variant (variant_of i c v) (variant_of j d w) =
        Flips-then
          (Flips-some (compare_option compare_identifier i j)
            (compare_option-flip compare_identifier compare_identifier-flip i j))
          (Flips-then (Flips-some (compare_text c d) (compare_text-flip c d)) (flips v w))

    Flips-list : (a b : DamlList x) → Flips (partial_cmp_list a b) (partial_cmp_list b a)
    Flips-list no_value no_value = Flips-some eq refl
    Flips-list no_value (value_then _ _) = Flips-some lt refl
    Flips-list (value_then _ _) no_value = Flips-some gt refl
    Flips-list (value_then v a) (value_then w b) = Flips-then (flips v w) (Flips-list a b)

    Flips-optional :
        (a b : DamlOptional x) → Flips (partial_cmp_optional a b) (partial_cmp_optional b a)
    Flips-optional nothing nothing = Flips-some eq refl
    Flips-optional nothing (just _) = Flips-some lt refl
    Flips-optional (just _) nothing = Flips-some gt refl
    Flips-optional (just v) (just w) = flips v w

    Flips-text_map :
        (a b : DamlTextMap x) → Flips (partial_cmp_text_map a b) (partial_cmp_text_map b a)
    Flips-text_map no_text_entry no_text_entry = Flips-some eq refl
    Flips-text_map no_text_entry (text_entry_then _ _ _) = Flips-some lt refl
    Flips-text_map (text_entry_then _ _ _) no_text_entry = Flips-some gt refl
    Flips-text_map (text_entry_then k v a) (text_entry_then l w b) =
        Flips-then (Flips-then (Flips-some (compare_text k l) (compare_text-flip k l)) (flips v w))
          (Flips-text_map a b)

    Flips-gen_map : (a b : DamlGenMap x) → Flips (partial_cmp_gen_map a b) (partial_cmp_gen_map b a)
    Flips-gen_map no_gen_entry no_gen_entry = Flips-some eq refl
    Flips-gen_map no_gen_entry (gen_entry_then _ _ _) = Flips-some lt refl
    Flips-gen_map (gen_entry_then _ _ _) no_gen_entry = Flips-some gt refl
    Flips-gen_map (gen_entry_then k v a) (gen_entry_then l w b) =
        Flips-then (Flips-then (flips k l) (flips v w)) (Flips-gen_map a b)

-- Any two values compare, of whatever kinds, and the comparison turns round with its arguments.
pub partial_cmp-Flips :
    {x : External} → IsOrdered x → (a b : DamlValue x) → Flips (partial_cmp a b) (partial_cmp b a)
partial_cmp-Flips ordered a b = flips ordered a b
