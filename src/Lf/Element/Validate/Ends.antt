-- ===== src/Lf/Element/Validate/Ends.antt =====
-- That `validate` ends, daml-lf/src/element/daml_archive.rs.
use rust_daml_bindings.Base.{
  String, List, [], ◌∷◌, Option, none, some, first, ◌≢◌, sym, subst, Bool-cases, Option-cases, inl,
  inr,
}
use rust_daml_bindings.Lf.Convert.Kinds.{Converted}
use rust_daml_bindings.Lf.Convert.Kinds.Ends.{and_then_ends}
use rust_daml_bindings.Lf.Convert.Types.{DamlType}
use rust_daml_bindings.Lf.Convert.Data.{lift}
use rust_daml_bindings.Lf.Element.Data.{
  DamlField, DamlChoice, DamlDefKey, DamlData, template_data, record_data, variant_data, enum_data,
}
use rust_daml_bindings.Lf.Element.Module.{DamlInterface, DamlInterfaceMethod, ModuleBody}
use rust_daml_bindings.Lf.Element.Archive.{DamlArchive}
use rust_daml_bindings.Lf.Element.Validate.{
  values_of, check_each, validate_tycon_name, validate_type, validate_fields, validate_key,
  validate_choice, validate_template, validate_interface, validate_data, validate_body, validate,
  resolves_to_record,
}
use rust_daml_bindings.Lf.Element.Validate.Order.{tycons, validate_type-tycons}
use rust_daml_bindings.Lf.Element.Validate.Modules.{all_bodies, validate-bodies}

-- Validation comes to an end: every loop is given rounds enough.
check_each_ends :
    {A : Type 0} (check : A → Converted (Unit {0}))
    → ((x : A) → check x ≢ none)
    → (xs : List A) → check_each check xs ≢ none
check_each_ends check h [] = λ e. cc
check_each_ends check h (x ∷ xs) =
    and_then_ends (check x) (λ u. check_each check xs) (h x) (λ u. check_each_ends check h xs)

module _ (a : DamlArchive) where
  type_ends : (t : DamlType) → validate_type a t ≢ none
  type_ends t =
      subst (λ c. c ≢ none) (sym (validate_type-tycons a t))
        (check_each_ends (λ d. lift (validate_tycon_name a d)) (λ d e. cc) (tycons t))

  choice_ends : (c : DamlChoice) → validate_choice a c ≢ none
  unfolding validate_choice
  choice_ends c = elim (Option-cases (first c.fields)) [
    | inl e ↦ rw (validate_choice, e) (λ h. cc)
    | inr (f, e) ↦ elim (Bool-cases (resolves_to_record a f.ty)) [
      | inl t ↦
          rw (validate_choice, e, t)
            (and_then_ends (validate_type a f.ty) _ (type_ends f.ty) (λ u. type_ends c.return_type))
      | inr t ↦ rw (validate_choice, e, t) (λ h. cc)
    ]
  ]

  fields_end : (fs : List DamlField) → validate_fields a fs ≢ none
  fields_end = check_each_ends (λ (f : DamlField). validate_type a f.ty) (λ f. type_ends f.ty)

  key_ends : (k : Option DamlDefKey) → validate_key a k ≢ none
  key_ends none = λ e. cc
  key_ends (some k) = type_ends k.ty

  data_ends : (d : DamlData) → validate_data a d ≢ none
  unfolding validate_data validate_template
  data_ends (record_data r) = fields_end r.fields
  data_ends (variant_data v) = fields_end v.fields
  data_ends (enum_data e) = λ h. cc
  data_ends (template_data t) =
      and_then_ends (validate_fields a t.fields) _ (fields_end t.fields) (λ u.
        and_then_ends (check_each (validate_choice a) t.choices) _
          (check_each_ends (validate_choice a) choice_ends t.choices) (λ v. key_ends t.key))

  module _ (show_type : DamlType → String) where
    interface_ends : (i : DamlInterface) → validate_interface a show_type i ≢ none
    unfolding validate_interface
    interface_ends i = elim (Bool-cases (resolves_to_record a i.view)) [
      | inl t ↦
          rw (validate_interface, t)
            (and_then_ends (validate_type a i.view) _ (type_ends i.view) (λ u.
              and_then_ends
                (check_each (λ (m : DamlInterfaceMethod). validate_type a m.ty) i.methods) _
                (check_each_ends _ (λ (m : DamlInterfaceMethod). type_ends m.ty) i.methods)
                (λ v.
                  and_then_ends (check_each (validate_choice a) i.choices) _
                    (check_each_ends _ choice_ends i.choices)
                    (λ w.
                      check_each_ends (λ r. lift (validate_tycon_name a r)) (λ r e. cc)
                        i.requires))))
      | inr t ↦ rw (validate_interface, t) (λ h. cc)
    ]

    body_ends : (b : ModuleBody) → validate_body a show_type b ≢ none
    body_ends b =
        and_then_ends (check_each (validate_data a) (values_of b.data_types)) _
          (check_each_ends (validate_data a) data_ends (values_of b.data_types))
          (λ u. check_each_ends _ interface_ends (values_of b.interfaces))

    -- The validation of an archive returns: the rounds that its loops take are bounded by the number of
    -- modules of the archive and by the size of each type.
    pub validate_ends : validate a show_type ≢ none
    validate_ends =
        subst (λ c. c ≢ none) (sym (validate-bodies a show_type))
          (check_each_ends (validate_body a show_type) body_ends
            (all_bodies (values_of a.packages)))
