-- ===== src/Codegen/Types/Supported.antt =====
-- That the fields which are rendered can be rendered, daml-codegen/src/renderer.
use rust_daml_bindings.Base.{
  String, true, Option, none, some, List, [], ◌∷◌, bind_option, both-true, Bool-cases, inl, inr,
  ◌≡◌, refl,
}
use rust_daml_bindings.Lf.Convert.Types.{
  DamlType, DamlTypes, var, tycon, syn, simple, numeric, contract_id, optional, list, text_map,
  gen_map, forall_type, struct_type, nat, end, more,
}
use rust_daml_bindings.Lf.Element.Data.{DamlField}
use rust_daml_bindings.Codegen.Names.{escape_identifier}
use rust_daml_bindings.Codegen.Types.{
  RenderContext, Casing, check_target_data, check_type, check_types, quote_type, quote_one,
  quote_two, quote_generics, quote_rest, quote_field, quote_fields, supported_fields,
}

-- Source is rendered, without a panic.
abbrev pub Renders : Option (List String) → Type 0
Renders o = (tokens : List String) × (o ≡ some tokens)

Renders-bind :
    (o : Option (List String)) (f : List String → Option (List String))
    → Renders o
    → ((tokens : List String) → Renders (f tokens))
    → Renders (bind_option o f)
Renders-bind none f (tokens, h) g = cc
Renders-bind (some tokens) f h g = g tokens

module _ (ctx : RenderContext) (casing : Casing) where
  mutual
    unfolding check_type quote_type

    type-Renders : (t : DamlType) → check_type ctx t ≡ true → Renders (quote_type casing t)
    type-Renders (simple s) h = rw h (_, refl)
    type-Renders (nat n) h = (_, refl)
    type-Renders (list ts) h = one-Renders (escape_identifier "DamlList") ts h
    type-Renders (optional ts) h = one-Renders (escape_identifier "DamlOptional") ts h
    type-Renders (numeric ts) h = one-Renders (escape_identifier "DamlFixedNumeric") ts h
    type-Renders (text_map ts) h = two-Renders (escape_identifier "DamlTextMap") ts h
    type-Renders (gen_map ts) h = two-Renders (escape_identifier "DamlGenMap") ts h
    type-Renders (contract_id ts) h = (_, refl)
    type-Renders (tycon c ts) h =
        Renders-bind (quote_generics casing ts) _
          (generics-Renders ts (both-true (check_target_data ctx c) (check_types ctx ts) h).1)
          (λ args. (_, refl))
    type-Renders (var v ts) h = (_, refl)
    type-Renders (forall_type vs t) h = cc
    type-Renders (struct_type fs) h = cc
    type-Renders (syn c ts) h = cc

    one-Renders :
        (name : String) (ts : DamlTypes)
        → check_types ctx ts ≡ true
        → Renders (quote_one casing name ts)
    one-Renders name end h = (_, refl)
    one-Renders name (more t ts) h =
        Renders-bind (quote_type casing t) _
          (type-Renders t (both-true (check_type ctx t) (check_types ctx ts) h).0)
          (λ arg. (_, refl))

    two-Renders :
        (name : String) (ts : DamlTypes)
        → check_types ctx ts ≡ true
        → Renders (quote_two casing name ts)
    two-Renders name end h = (_, refl)
    two-Renders name (more k end) h = (_, refl)
    two-Renders name (more k (more v ts)) h =
        let (a, rest) = both-true (check_type ctx k) (check_types ctx (more v ts)) h in
        let (b, c) = both-true (check_type ctx v) (check_types ctx ts) rest in
        Renders-bind (quote_type casing k) _ (type-Renders k a)
          (λ key. Renders-bind (quote_type casing v) _ (type-Renders v b) (λ value. (_, refl)))

    generics-Renders :
        (ts : DamlTypes) → check_types ctx ts ≡ true → Renders (quote_generics casing ts)
    generics-Renders end h = (_, refl)
    generics-Renders (more t ts) h =
        let (a, b) = both-true (check_type ctx t) (check_types ctx ts) h in
        Renders-bind (quote_type casing t) _ (type-Renders t a)
          (λ arg. Renders-bind (quote_rest casing ts) _ (rest-Renders ts b) (λ rest. (_, refl)))

    rest-Renders : (ts : DamlTypes) → check_types ctx ts ≡ true → Renders (quote_rest casing ts)
    rest-Renders end h = (_, refl)
    rest-Renders (more t ts) h =
        let (a, b) = both-true (check_type ctx t) (check_types ctx ts) h in
        Renders-bind (quote_type casing t) _ (type-Renders t a)
          (λ arg. Renders-bind (quote_rest casing ts) _ (rest-Renders ts b) (λ rest. (_, refl)))

  -- The fields that pass the filter of the renderer are rendered without the panic on an unsupported type,
  -- whatever the fields of the data type are, in both modes of the filter.
  pub quote_fields-supported_fields :
      (fields : List DamlField) → Renders (quote_fields casing (supported_fields ctx fields))
  unfolding quote_fields quote_field
  quote_fields-supported_fields [] = ([], refl)
  quote_fields-supported_fields (f ∷ fields) = elim (Bool-cases (check_type ctx f.ty)) [
    | inl e ↦ rw e (
        Renders-bind (quote_field casing f) _
          (Renders-bind (quote_type casing f.ty) _ (type-Renders f.ty e) (λ ty. (_, refl)))
          (λ here.
            Renders-bind (quote_fields casing (supported_fields ctx fields)) _
              (quote_fields-supported_fields fields) (λ rest. (_, refl))))
    | inr e ↦ rw e (quote_fields-supported_fields fields)
  ]
