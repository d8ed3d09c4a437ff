-- ===== src/Lf/Convert/Types/Ends.antt =====
-- When the conversion of types ends, daml-lf/src/convert/type_payload.rs.
use rust_daml_bindings.Base.{
  ℕ, zero, suc, ◌≤◌, none, some, List, [], ◌∷◌, length, get_elem?, ◌≡◌, ◌≢◌, arith, Option-cases,
  inl, inr,
}
use rust_daml_bindings.Base.Int.{ℤ, pos, negsuc}
use rust_daml_bindings.Lf.Proto.{Kind, TypeVarWithKind, LfType, LfTypes, MaybeType, FieldsWithType}
use rust_daml_bindings.Lf.Convert.{DamlPackagePayload, req, resolve_string}
use rust_daml_bindings.Lf.Convert.Names.{convert_tycon_id}
use rust_daml_bindings.Lf.Convert.Kinds.{Converted, convert_kind}
use rust_daml_bindings.Lf.Convert.Kinds.Ends.{
  IsBelow, and_then_ends, get_elem?-bound, absurd_below, convert_kind_ends, IsInOrder,
}
use rust_daml_bindings.Lf.Convert.Types.{
  DamlType, builtin_type, convert_typevars, type_with, types_with, body_with, fields_with, type_at,
  convert_type,
}

-- All references of a type to the table of types are as `P` says.
module _ (P : ℤ → Type 0) where
  unfoldable mutual
    pub Refers : LfType → Type 0
    Refers LfType.unset = Unit
    Refers (LfType.var v args) = ArgsRefer args
    Refers (LfType.con c args) = ArgsRefer args
    Refers (LfType.syn c args) = ArgsRefer args
    Refers (LfType.builtin n args) = ArgsRefer args
    Refers (LfType.forall_type vars body) = BodyRefers body
    Refers (LfType.struct_type fs) = FieldsRefer fs
    Refers (LfType.nat n) = Unit
    Refers (LfType.interned_type i) = P i
    Refers LfType.tapp = Unit

    ArgsRefer : LfTypes → Type 0
    ArgsRefer LfTypes.end = Unit
    ArgsRefer (LfTypes.more t ts) = Refers t × ArgsRefer ts

    BodyRefers : MaybeType → Type 0
    BodyRefers MaybeType.absent = Unit
    BodyRefers (MaybeType.present t) = Refers t

    FieldsRefer : FieldsWithType → Type 0
    FieldsRefer FieldsWithType.no_field = Unit
    FieldsRefer (FieldsWithType.field i t fs) = BodyRefers t × FieldsRefer fs

abbrev Anything : ℤ → Type 0
Anything i = Unit

mutual
  unfolding Refers

  Refers-Anything : (t : LfType) → Refers Anything t
  Refers-Anything LfType.unset = tt
  Refers-Anything (LfType.var v args) = Args-Anything args
  Refers-Anything (LfType.con c args) = Args-Anything args
  Refers-Anything (LfType.syn c args) = Args-Anything args
  Refers-Anything (LfType.builtin n args) = Args-Anything args
  Refers-Anything (LfType.forall_type vars body) = Body-Anything body
  Refers-Anything (LfType.struct_type fs) = Fields-Anything fs
  Refers-Anything (LfType.nat n) = tt
  Refers-Anything (LfType.interned_type i) = tt
  Refers-Anything LfType.tapp = tt

  Args-Anything : (ts : LfTypes) → ArgsRefer Anything ts
  Args-Anything LfTypes.end = tt
  Args-Anything (LfTypes.more t ts) = (Refers-Anything t, Args-Anything ts)

  Body-Anything : (t : MaybeType) → BodyRefers Anything t
  Body-Anything MaybeType.absent = tt
  Body-Anything (MaybeType.present t) = Refers-Anything t

  Fields-Anything : (fs : FieldsWithType) → FieldsRefer Anything fs
  Fields-Anything FieldsWithType.no_field = tt
  Fields-Anything (FieldsWithType.field i t fs) = (Body-Anything t, Fields-Anything fs)

abbrev pub TypesInOrder : List LfType → Type 0
TypesInOrder table = (n : ℕ) (t : LfType) → get_elem? table n ≡ some t → Refers (IsBelow n) t

module _ (p : DamlPackagePayload) (kind_depth : ℕ)
    (kinds_end : (k : Kind) → convert_kind p.interned_kinds kind_depth k ≢ none) where
  typevars_end : (vs : List TypeVarWithKind) → convert_typevars p kind_depth vs ≢ none
  typevars_end [] = λ e. cc
  typevars_end (v ∷ vs) =
      and_then_ends (some (resolve_string p v.var_interned_str)) _ (λ e. cc)
        (λ name.
          and_then_ends (some (req v.kind)) _ (λ e. cc)
            (λ k.
              and_then_ends (convert_kind p.interned_kinds kind_depth k) _ (kinds_end k) (λ kind.
                and_then_ends (convert_typevars p kind_depth vs) _ (typevars_end vs)
                  (λ rest e. cc))))

  module _ (interned : ℤ → Converted DamlType) (P : ℤ → Type 0)
      (ends : (i : ℤ) → P i → interned i ≢ none) where
    mutual
      unfolding type_with Refers

      with_ends : (t : LfType) → Refers P t → type_with p kind_depth interned t ≢ none
      with_ends LfType.unset b = λ e. cc
      with_ends (LfType.var v args) b =
          and_then_ends (some (resolve_string p v)) _ (λ e. cc)
            (λ name.
              and_then_ends (types_with p kind_depth interned args) _ (args_end args b)
                (λ ts e. cc))
      with_ends (LfType.con c args) b =
          and_then_ends (some (req c)) _ (λ e. cc)
            (λ id.
              and_then_ends (some (convert_tycon_id id p)) _ (λ e. cc)
                (λ name.
                  and_then_ends (types_with p kind_depth interned args) _ (args_end args b)
                    (λ ts e. cc)))
      with_ends (LfType.syn c args) b =
          and_then_ends (some (req c)) _ (λ e. cc)
            (λ id.
              and_then_ends (some (convert_tycon_id id p)) _ (λ e. cc)
                (λ name.
                  and_then_ends (types_with p kind_depth interned args) _ (args_end args b)
                    (λ ts e. cc)))
      with_ends (LfType.builtin n args) b =
          and_then_ends (some (req (builtin_type n))) _ (λ e. cc)
            (λ f.
              and_then_ends (types_with p kind_depth interned args) _ (args_end args b)
                (λ ts e. cc))
      with_ends (LfType.forall_type vars body) b =
          and_then_ends (convert_typevars p kind_depth vars) _ (typevars_end vars) (λ vs.
            and_then_ends (body_with p kind_depth interned body) _ (body_ends body b) (λ t e. cc))
      with_ends (LfType.struct_type fs) b =
          and_then_ends (fields_with p kind_depth interned fs) _ (fields_end fs b) (λ gs e. cc)
      with_ends (LfType.nat n) b = λ e. cc
      with_ends (LfType.interned_type i) b = ends i b
      with_ends LfType.tapp b = λ e. cc

      args_end : (ts : LfTypes) → ArgsRefer P ts → types_with p kind_depth interned ts ≢ none
      args_end LfTypes.end b = λ e. cc
      args_end (LfTypes.more t ts) (b, c) =
          and_then_ends (type_with p kind_depth interned t) _ (with_ends t b) (λ u.
            and_then_ends (types_with p kind_depth interned ts) _ (args_end ts c) (λ us e. cc))

      body_ends : (t : MaybeType) → BodyRefers P t → body_with p kind_depth interned t ≢ none
      body_ends MaybeType.absent b = λ e. cc
      body_ends (MaybeType.present t) b = with_ends t b

      fields_end :
          (fs : FieldsWithType) → FieldsRefer P fs → fields_with p kind_depth interned fs ≢ none
      fields_end FieldsWithType.no_field b = λ e. cc
      fields_end (FieldsWithType.field i t fs) (b, c) =
          and_then_ends (some (resolve_string p i)) _ (λ e. cc)
            (λ name. and_then_ends (body_with p kind_depth interned t) _ (body_ends t b) (λ u.
              and_then_ends (fields_with p kind_depth interned fs) _ (fields_end fs c)
                (λ gs e. cc)))

  module _ (order : TypesInOrder p.interned_types) where
    at_ends :
        (depth n : ℕ)
        → n ≤ depth
        → (i : ℤ) → IsBelow n i
        → type_at p kind_depth (suc depth) i ≢ none
    unfolding type_at
    at_ends depth n h (negsuc m) b = λ e. cc
    at_ends zero n h (pos m) b = elim (absurd_below m n b h) [ ]
    at_ends (suc depth) n h (pos m) b = elim (Option-cases (get_elem? p.interned_types m)) [
      | inl e ↦ rw (type_at, e) (λ f. cc)
      | inr (t, e) ↦
          rw (type_at, e)
            (with_ends (type_at p kind_depth (suc depth)) (IsBelow m)
              (at_ends depth m (omega arith)) t (order m t e))
    ]

    any_ends :
        (i : ℤ) → Anything i → type_at p kind_depth (suc (suc (length p.interned_types))) i ≢ none
    unfolding type_at
    any_ends (negsuc m) b = λ e. cc
    any_ends (pos m) b = elim (Option-cases (get_elem? p.interned_types m)) [
      | inl e ↦ rw (type_at, e) (λ f. cc)
      | inr (t, e) ↦
          let bound = get_elem?-bound p.interned_types m e in
          rw (type_at, e)
            (with_ends (type_at p kind_depth (suc (length p.interned_types))) (IsBelow m)
              (at_ends (length p.interned_types) m (omega arith)) t (order m t e))
    ]

    type_ends :
        (t : LfType) → convert_type p kind_depth (suc (suc (length p.interned_types))) t ≢ none
    unfolding convert_type
    type_ends t =
        with_ends (type_at p kind_depth (suc (suc (length p.interned_types)))) Anything any_ends t
          (Refers-Anything t)

-- Where the entries of the tables of kinds and of types refer to entries before them, as a compiler
-- writes them, the conversion of every type ends, with references followed no deeper than the tables are
-- long and two more.
pub convert_type_ends :
    (p : DamlPackagePayload)
    → IsInOrder p.interned_kinds
    → TypesInOrder p.interned_types
    → (t : LfType)
    → convert_type p (suc (suc (length p.interned_kinds))) (suc (suc (length p.interned_types))) t
      ≢ none
convert_type_ends p kinds order t =
    type_ends p (suc (suc (length p.interned_kinds))) (convert_kind_ends p.interned_kinds kinds)
      order t
