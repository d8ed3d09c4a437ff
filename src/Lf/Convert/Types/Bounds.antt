-- ===== src/Lf/Convert/Types/Bounds.antt =====
-- The bounds that converted types keep, daml-lf/src/convert/type_payload.rs.
use rust_daml_bindings.Base.{
  ℕ, zero, suc, ◌≤◌, Bool, true, false, Option, none, some, ok, ◌≡◌, arith, subst, ok_inj,
  get_elem?, if◌then◌else◌, ◌==◌, ltb, Option-cases, inl, inr, Bool-cases, some_inj,
}
use rust_daml_bindings.Base.Int.{ℤ, pos, negsuc}
use rust_daml_bindings.Lf.Error.{DamlLfConvertResult}
use rust_daml_bindings.Lf.Proto.{LfType, LfTypes, MaybeType, FieldsWithType}
use rust_daml_bindings.Lf.Convert.{DamlPackagePayload, req, resolve_string}
use rust_daml_bindings.Lf.Convert.Names.{convert_tycon_id}
use rust_daml_bindings.Lf.Convert.Kinds.{Converted, and_then-eq-ok, done_inj}
use rust_daml_bindings.Lf.Convert.Types.{
  DamlType, DamlTypes, DamlStructFields, var, tycon, syn, simple, unit, bool, int64, date,
  timestamp, party, text, any, any_exception, type_rep, arrow, update, bignumeric, failure_category,
  rounding_mode, numeric, contract_id, optional, list, text_map, gen_map, forall_type, struct_type,
  nat, end, more, no_field, field, Builtin, builtin_of, builtin_type, convert_nat, contract_id_of,
  convert_typevars, type_with, types_with, body_with, fields_with, type_at, convert_type,
}

-- At most one type.
abbrev IsAtMostOne : DamlTypes → Type 0
IsAtMostOne end = Unit
IsAtMostOne (more t end) = Unit
IsAtMostOne (more t (more u ts)) = ⊥

-- Every type-level number is at most 37, and no contract id has more than one type.
unfoldable mutual
  pub IsBounded : DamlType → Type 0
  IsBounded (var v ts) = AreBounded ts
  IsBounded (tycon c ts) = AreBounded ts
  IsBounded (syn c ts) = AreBounded ts
  IsBounded (simple s) = Unit
  IsBounded (numeric ts) = AreBounded ts
  IsBounded (contract_id ts) = IsAtMostOne ts × AreBounded ts
  IsBounded (optional ts) = AreBounded ts
  IsBounded (list ts) = AreBounded ts
  IsBounded (text_map ts) = AreBounded ts
  IsBounded (gen_map ts) = AreBounded ts
  IsBounded (forall_type vs t) = IsBounded t
  IsBounded (struct_type fs) = FieldsBounded fs
  IsBounded (nat n) = n ≤ 37

  AreBounded : DamlTypes → Type 0
  AreBounded end = Unit
  AreBounded (more t ts) = IsBounded t × AreBounded ts

  FieldsBounded : DamlStructFields → Type 0
  FieldsBounded no_field = Unit
  FieldsBounded (field l t fs) = IsBounded t × FieldsBounded fs

-- What a builtin type makes of bounded arguments is bounded.
abbrev KeepsBounds : Option Builtin → Type 0
KeepsBounds none = Unit
KeepsBounds (some b) = (ts : DamlTypes) (u : DamlType) → AreBounded ts → b ts ≡ ok u → IsBounded u

if-KeepsBounds :
    (c : Bool) (x y : Option Builtin)
    → KeepsBounds x
    → KeepsBounds y
    → KeepsBounds (if c then x else y)
if-KeepsBounds true x y h k = h
if-KeepsBounds false x y h k = k

kept :
    (t u : DamlType)
    → IsBounded t
    → ◌≡◌ {A = DamlLfConvertResult DamlType} (ok t) (ok u)
    → IsBounded u
kept t u h e = subst IsBounded (ok_inj e) h

contract_id_of-KeepsBounds : KeepsBounds (some contract_id_of)
unfolding IsBounded
contract_id_of-KeepsBounds end u f e = kept (contract_id end) u (tt, tt) e
contract_id_of-KeepsBounds (more t end) u f e = kept (contract_id (more t end)) u (tt, f) e
contract_id_of-KeepsBounds (more t (more v ts)) u f e = cc

builtin_of-KeepsBounds : (n : ℕ) → KeepsBounds (builtin_of n)
unfolding builtin_of IsBounded
builtin_of-KeepsBounds n =
    (if-KeepsBounds (n == 0) _ _ (λ ts u f e. kept (simple unit) u tt e)
      (if-KeepsBounds (n == 1) _ _ (λ ts u f e. kept (simple bool) u tt e)
        (if-KeepsBounds (n == 2) _ _ (λ ts u f e. kept (simple int64) u tt e)
          (if-KeepsBounds (n == 3) _ _ (λ ts u f e. kept (simple date) u tt e)
            (if-KeepsBounds (n == 4) _ _ (λ ts u f e. kept (simple timestamp) u tt e)
              (if-KeepsBounds (n == 5) _ _ (λ ts u f e. kept (numeric ts) u f e)
                (if-KeepsBounds (n == 6) _ _ (λ ts u f e. kept (simple party) u tt e)
                  (if-KeepsBounds (n == 7) _ _ (λ ts u f e. kept (simple text) u tt e)
                    (if-KeepsBounds (n == 8) _ _ contract_id_of-KeepsBounds (
                      if-KeepsBounds (n == 9) _ _ (λ ts u f e. kept (optional ts) u f e)
                        (if-KeepsBounds (n == 10) _ _ (λ ts u f e. kept (list ts) u f e)
                          (if-KeepsBounds (n == 11) _ _ (λ ts u f e. kept (gen_map ts) u f e)
                            (if-KeepsBounds (n == 13) _ _ (λ ts u f e. kept (simple any) u tt e)
                              (if-KeepsBounds (n == 14) _ _
                                (λ ts u f e. kept (simple any_exception) u tt e)
                                (if-KeepsBounds (n == 15) _ _
                                  (λ ts u f e. kept (simple type_rep) u tt e)
                                  (if-KeepsBounds (n == 16) _ _
                                    (λ ts u f e. kept (simple arrow) u tt e)
                                    (if-KeepsBounds (n == 17) _ _
                                      (λ ts u f e. kept (simple update) u tt e)
                                      (if-KeepsBounds (n == 18) _ _
                                        (λ ts u f e. kept (simple failure_category) u tt e)
                                        (if-KeepsBounds (n == 19) _ _
                                          (λ ts u f e. kept (text_map ts) u f e)
                                          (if-KeepsBounds (n == 1002) _ _
                                            (λ ts u f e. kept (simple bignumeric) u tt e)
                                            (if-KeepsBounds (n == 1003) _ _
                                              (λ ts u f e. kept (simple rounding_mode) u tt e)
                                              tt)))))))))))))))))))))

builtin_type-KeepsBounds : (n : ℤ) → KeepsBounds (builtin_type n)
builtin_type-KeepsBounds (pos n) = builtin_of-KeepsBounds n
builtin_type-KeepsBounds (negsuc n) = tt

builtin_lem :
    (o : Option Builtin) (b : Builtin) (ts : DamlTypes) (u : DamlType)
    → KeepsBounds o
    → ◌≡◌ {A = Converted Builtin} (some (req o)) (some (ok b))
    → AreBounded ts
    → ◌≡◌ {A = Converted DamlType} (some (b ts)) (some (ok u))
    → IsBounded u
builtin_lem none b ts u h e f g = cc
builtin_lem (some c) b ts u h e f g =
    subst (λ d. d ts ≡ ok u → IsBounded u) (done_inj e) (h ts u f) (some_inj g)

convert_nat-IsBounded :
    (n : ℤ) (u : DamlType)
    → ◌≡◌ {A = Converted DamlType} (some (convert_nat n)) (some (ok u))
    → IsBounded u
unfolding IsBounded
convert_nat-IsBounded (pos n) u e = elim (Bool-cases (ltb 37 n)) [
  | inl f ↦ let g = rw f at e in cc
  | inr f ↦ let g = rw f at e in subst IsBounded (done_inj g) (ground arith)
]
convert_nat-IsBounded (negsuc n) u e = cc

module _ (p : DamlPackagePayload) (kind_depth : ℕ) where
  module _ (interned : ℤ → Converted DamlType)
      (bounded : (i : ℤ) (u : DamlType) → interned i ≡ some (ok u) → IsBounded u) where
    mutual
      unfolding type_with IsBounded

      with_bounded :
          (t : LfType) (u : DamlType)
          → type_with p kind_depth interned t ≡ some (ok u)
          → IsBounded u
      with_bounded LfType.unset u h = cc
      with_bounded (LfType.var v args) u h =
          let (name, a, h1) = and_then-eq-ok (some (resolve_string p v)) _ h in
          let (ts, b, h2) = and_then-eq-ok (types_with p kind_depth interned args) _ h1 in
          subst IsBounded (done_inj h2) (args_bounded args ts b)
      with_bounded (LfType.con c args) u h =
          let (id, a, h1) = and_then-eq-ok (some (req c)) _ h in
          let (name, b, h2) = and_then-eq-ok (some (convert_tycon_id id p)) _ h1 in
          let (ts, d, h3) = and_then-eq-ok (types_with p kind_depth interned args) _ h2 in
          subst IsBounded (done_inj h3) (args_bounded args ts d)
      with_bounded (LfType.syn c args) u h =
          let (id, a, h1) = and_then-eq-ok (some (req c)) _ h in
          let (name, b, h2) = and_then-eq-ok (some (convert_tycon_id id p)) _ h1 in
          let (ts, d, h3) = and_then-eq-ok (types_with p kind_depth interned args) _ h2 in
          subst IsBounded (done_inj h3) (args_bounded args ts d)
      with_bounded (LfType.builtin n args) u h =
          let (b, a, h1) = and_then-eq-ok (some (req (builtin_type n))) _ h in
          let (ts, d, h2) = and_then-eq-ok (types_with p kind_depth interned args) _ h1 in
          builtin_lem (builtin_type n) b ts u (builtin_type-KeepsBounds n) a
            (args_bounded args ts d) h2
      with_bounded (LfType.forall_type vars body) u h =
          let (vs, a, h1) = and_then-eq-ok (convert_typevars p kind_depth vars) _ h in
          let (t, b, h2) = and_then-eq-ok (body_with p kind_depth interned body) _ h1 in
          subst IsBounded (done_inj h2) (body_bounded body t b)
      with_bounded (LfType.struct_type fs) u h =
          let (gs, a, h1) = and_then-eq-ok (fields_with p kind_depth interned fs) _ h in
          subst IsBounded (done_inj h1) (fields_bounded fs gs a)
      with_bounded (LfType.nat n) u h = convert_nat-IsBounded n u h
      with_bounded (LfType.interned_type i) u h = bounded i u h
      with_bounded LfType.tapp u h = cc

      args_bounded :
          (ts : LfTypes) (us : DamlTypes)
          → types_with p kind_depth interned ts ≡ some (ok us)
          → AreBounded us
      args_bounded LfTypes.end us h = subst AreBounded (done_inj h) tt
      args_bounded (LfTypes.more t ts) us h =
          let (v, a, h1) = and_then-eq-ok (type_with p kind_depth interned t) _ h in
          let (vs, b, h2) = and_then-eq-ok (types_with p kind_depth interned ts) _ h1 in
          let both : AreBounded (more v vs) = (with_bounded t v a, args_bounded ts vs b) in
          subst AreBounded (done_inj h2) both

      body_bounded :
          (t : MaybeType) (u : DamlType)
          → body_with p kind_depth interned t ≡ some (ok u)
          → IsBounded u
      body_bounded MaybeType.absent u h = cc
      body_bounded (MaybeType.present t) u h = with_bounded t u h

      fields_bounded :
          (fs : FieldsWithType) (gs : DamlStructFields)
          → fields_with p kind_depth interned fs ≡ some (ok gs)
          → FieldsBounded gs
      fields_bounded FieldsWithType.no_field gs h = subst FieldsBounded (done_inj h) tt
      fields_bounded (FieldsWithType.field i t fs) gs h =
          let (name, a, h1) = and_then-eq-ok (some (resolve_string p i)) _ h in
          let (v, b, h2) = and_then-eq-ok (body_with p kind_depth interned t) _ h1 in
          let (vs, c, h3) = and_then-eq-ok (fields_with p kind_depth interned fs) _ h2 in
          let both : FieldsBounded (field name v vs) =
            (body_bounded t v b, fields_bounded fs vs c) in
          subst FieldsBounded (done_inj h3) both

  type_at-IsBounded :
      (depth : ℕ) (i : ℤ) (u : DamlType) → type_at p kind_depth depth i ≡ some (ok u) → IsBounded u
  unfolding type_at
  type_at-IsBounded zero i u h = cc
  type_at-IsBounded (suc depth) (negsuc n) u h = cc
  type_at-IsBounded (suc depth) (pos n) u h = elim (Option-cases (get_elem? p.interned_types n)) [
    | inl e ↦ let k = rw (type_at, e) at h in cc
    | inr (t, e) ↦
        with_bounded (type_at p kind_depth depth) (type_at-IsBounded depth) t u
          (rw (type_at, e) at h)
  ]

  -- In a type that is converted, at whatever depth, every type-level number is at most 37 and no
  -- contract id has more than one type.
  pub convert_type-IsBounded :
      (depth : ℕ) (t : LfType) (u : DamlType)
      → convert_type p kind_depth depth t ≡ some (ok u)
      → IsBounded u
  unfolding convert_type
  convert_type-IsBounded depth t u h =
      with_bounded (type_at p kind_depth depth) (type_at-IsBounded depth) t u h
