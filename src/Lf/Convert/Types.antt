-- ===== src/Lf/Convert/Types.antt =====
-- Types, `convert_type` of daml-lf/src/convert/type_payload.rs and `convert_field` of field_payload.rs.
-- As with kinds, references to the table of types are followed to a depth, and `none` is a conversion
-- that has run out of it. `kind_depth` is the depth for the kinds.
pub mod Bounds
pub mod Ends
use Prim.Native.String.{◌++◌}
use rust_daml_bindings.Base.{
  ℕ, zero, suc, String, Bool, Option, none, some, List, [], ◌∷◌, get_elem?, leb, ltb, ◌==◌,
  if◌then◌else◌, ok, err,
}
use rust_daml_bindings.Base.Int.{ℤ, pos, negsuc, to_unsigned, show_ℤ, show_ℕ}
use rust_daml_bindings.Lf.Error.{
  DamlLfConvertResult, missing_required_field, internal_error, nat_out_of_range,
  unsupported_feature_used, unexpected_contract_id_type_arguments,
}
use rust_daml_bindings.Lf.Version.{version_text}
use rust_daml_bindings.Lf.Proto.{
  Kind, LfType, LfTypes, MaybeType, FieldsWithType, TypeVarWithKind, TypeConId,
}
use rust_daml_bindings.Lf.Convert.{DamlPackagePayload, req, resolve_string}
use rust_daml_bindings.Lf.Convert.Names.{DamlAbsoluteTyCon, convert_tycon_id}
use rust_daml_bindings.Lf.Convert.Kinds.{DamlKind, Converted, and_then, convert_kind}

-- The builtin types without arguments.
pub data Simple : Type 0 where
  unit bool int64 date timestamp party text any any_exception type_rep arrow update : Simple
  bignumeric failure_category rounding_mode : Simple

mutual
  pub data DamlType : Type 0 where
    var : String → DamlTypes → DamlType
    tycon : DamlAbsoluteTyCon → DamlTypes → DamlType
    syn : DamlAbsoluteTyCon → DamlTypes → DamlType
    simple : Simple → DamlType
    numeric : DamlTypes → DamlType
    contract_id : DamlTypes → DamlType
    optional : DamlTypes → DamlType
    list : DamlTypes → DamlType
    text_map : DamlTypes → DamlType
    gen_map : DamlTypes → DamlType
    forall_type : List (String × DamlKind) → DamlType → DamlType
    struct_type : DamlStructFields → DamlType
    nat : ℕ → DamlType

  pub data DamlTypes : Type 0 where
    end : DamlTypes
    more : DamlType → DamlTypes → DamlTypes

  pub data DamlStructFields : Type 0 where
    no_field : DamlStructFields
    field : String → DamlType → DamlStructFields → DamlStructFields

abbrev contract_id_of : DamlTypes → DamlLfConvertResult DamlType
contract_id_of end = ok (contract_id end)
contract_id_of (more t end) = ok (contract_id (more t end))
contract_id_of (more t (more u ts)) = err unexpected_contract_id_type_arguments

-- The builtin types by the numbers of the protobuf enumeration, on their arguments.
abbrev pub Builtin : Type 0
Builtin = DamlTypes → DamlLfConvertResult DamlType

unfoldable pub builtin_of : ℕ → Option Builtin
builtin_of n =
    if n == 0
    then some (λ args. ok (simple unit))
    else if n == 1
    then some (λ args. ok (simple bool))
    else if n == 2
    then some (λ args. ok (simple int64))
    else if n == 3
    then some (λ args. ok (simple date))
    else if n == 4
    then some (λ args. ok (simple timestamp))
    else if n == 5
    then some (λ args. ok (numeric args))
    else if n == 6
    then some (λ args. ok (simple party))
    else if n == 7
    then some (λ args. ok (simple text))
    else if n == 8
    then some contract_id_of
    else if n == 9
    then some (λ args. ok (optional args))
    else if n == 10
    then some (λ args. ok (list args))
    else if n == 11
    then some (λ args. ok (gen_map args))
    else if n == 13
    then some (λ args. ok (simple any))
    else if n == 14
    then some (λ args. ok (simple any_exception))
    else if n == 15
    then some (λ args. ok (simple type_rep))
    else if n == 16
    then some (λ args. ok (simple arrow))
    else if n == 17
    then some (λ args. ok (simple update))
    else if n == 18
    then some (λ args. ok (simple failure_category))
    else if n == 19
    then some (λ args. ok (text_map args))
    else if n == 1002
    then some (λ args. ok (simple bignumeric))
    else if n == 1003
    then some (λ args. ok (simple rounding_mode))
    else none

-- `BuiltinType::try_from`.
abbrev pub builtin_type : ℤ → Option Builtin
builtin_type (pos n) = builtin_of n
builtin_type (negsuc n) = none

-- `u8::try_from`, and the bound that numerics have.
abbrev pub convert_nat : ℤ → DamlLfConvertResult DamlType
convert_nat (pos n) = if ltb 37 n then err (nat_out_of_range (pos n)) else ok (nat n)
convert_nat (negsuc n) = err (nat_out_of_range (negsuc n))

module _ (p : DamlPackagePayload) (kind_depth : ℕ) where
  -- `convert_typevar_with_kind`, on each variable.
  abbrev pub convert_typevars : List TypeVarWithKind → Converted (List (String × DamlKind))
  convert_typevars [] = some (ok [])
  convert_typevars (v ∷ vs) = and_then (some (resolve_string p v.var_interned_str)) (λ name.
      and_then (some (req v.kind)) (λ k.
        and_then (convert_kind p.interned_kinds kind_depth k)
          (λ kind. and_then (convert_typevars vs) (λ rest. some (ok ((name, kind) ∷ rest))))))

  module _ (interned : ℤ → Converted DamlType) where
    unfoldable mutual
      pub type_with : LfType → Converted DamlType
      type_with LfType.unset = some (err missing_required_field)
      type_with (LfType.var v args) =
          and_then (some (resolve_string p v))
            (λ name. and_then (types_with args) (λ ts. some (ok (var name ts))))
      type_with (LfType.con c args) = and_then (some (req c)) (λ id.
          and_then (some (convert_tycon_id id p))
            (λ name. and_then (types_with args) (λ ts. some (ok (tycon name ts)))))
      type_with (LfType.syn c args) = and_then (some (req c)) (λ id.
          and_then (some (convert_tycon_id id p))
            (λ name. and_then (types_with args) (λ ts. some (ok (syn name ts)))))
      type_with (LfType.builtin n args) =
          and_then (some (req (builtin_type n)))
            (λ b. and_then (types_with args) (λ ts. some (b ts)))
      type_with (LfType.forall_type vars body) =
          and_then (convert_typevars vars)
            (λ vs. and_then (body_with body) (λ t. some (ok (forall_type vs t))))
      type_with (LfType.struct_type fs) =
          and_then (fields_with fs) (λ gs. some (ok (struct_type gs)))
      type_with (LfType.nat n) = some (convert_nat n)
      type_with (LfType.interned_type i) = interned i
      type_with LfType.tapp =
          some (err (unsupported_feature_used (version_text p.language_version) "TApp" "2.dev"))

      pub types_with : LfTypes → Converted DamlTypes
      types_with LfTypes.end = some (ok end)
      types_with (LfTypes.more t ts) =
          and_then (type_with t) (λ u. and_then (types_with ts) (λ us. some (ok (more u us))))

      pub body_with : MaybeType → Converted DamlType
      body_with MaybeType.absent = some (err missing_required_field)
      body_with (MaybeType.present t) = type_with t

      pub fields_with : FieldsWithType → Converted DamlStructFields
      fields_with FieldsWithType.no_field = some (ok no_field)
      fields_with (FieldsWithType.field i t fs) = and_then (some (resolve_string p i)) (λ name.
          and_then (body_with t)
            (λ u. and_then (fields_with fs) (λ gs. some (ok (field name u gs)))))

  unfoldable pub type_at : ℕ → ℤ → Converted DamlType
  unfolding type_with
  type_at zero i = none
  type_at (suc depth) i = elim (to_unsigned i) [
    | none ↦ some (err (internal_error ("negative interned-type index " ++ show_ℤ i)))
    | some n ↦ elim (get_elem? p.interned_types n) [
      | none ↦ some (err (internal_error ("interned-type index " ++ (show_ℕ n ++ " out of range"))))
      | some t ↦ type_with (type_at depth) t
    ]
  ]

  unfoldable pub convert_type : ℕ → LfType → Converted DamlType
  unfolding type_at type_with
  convert_type depth t = type_with (type_at depth) t
