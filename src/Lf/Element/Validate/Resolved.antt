-- ===== src/Lf/Element/Validate/Resolved.antt =====
-- What a validated archive guarantees, daml-lf/src/element/daml_archive.rs.
use rust_daml_bindings.Base.{
  String, true, ◌||◌, List, [], ◌∷◌, ◌++◌, some, some_inj, Assoc, lookup, str_eq, ◌≡◌, sym, ◌∙◌,
  subst, arith, Bool-cases, Option-cases, inl, inr,
}
use rust_daml_bindings.Lf.Convert.Names.{DamlAbsoluteTyCon}
use rust_daml_bindings.Lf.Convert.Kinds.{Converted, and_then-eq-ok}
use rust_daml_bindings.Lf.Convert.Types.{DamlType}
use rust_daml_bindings.Lf.Convert.Data.{lift, done}
use rust_daml_bindings.Lf.Element.Data.{
  DamlField, DamlData, template_data, record_data, variant_data, enum_data, data_fields,
}
use rust_daml_bindings.Lf.Element.Module.{
  ModuleBody, DamlModule, ChildModules, node, no_child, child, body_of, find_child,
  child_module_path,
}
use rust_daml_bindings.Lf.Element.Archive.{
  DamlPackage, DamlArchive, module_at, data_at, data_by_tycon_name,
}
use rust_daml_bindings.Lf.Element.Validate.{
  is_some, values_of, interface_by_tycon_name, check_each, validate_tycon_name, validate_type,
  validate_fields, validate_template, validate_data, validate_body, validate,
}
use rust_daml_bindings.Lf.Element.Validate.Order.{tycons, validate_type-tycons}
use rust_daml_bindings.Lf.Element.Validate.Modules.{
  bodies, child_bodies, all_bodies, validate-bodies,
}

abbrev pub AllOf : {A : Type 0} → (A → Type 0) → List A → Type 0
AllOf P [] = Unit
AllOf P (x ∷ xs) = P x × AllOf P xs

AllOf-right : {A : Type 0} (P : A → Type 0) (xs ys : List A) → AllOf P (xs ++ ys) → AllOf P ys
AllOf-right P [] ys h = h
AllOf-right P (x ∷ xs) ys (h, hs) = AllOf-right P xs ys hs

AllOf-left : {A : Type 0} (P : A → Type 0) (xs ys : List A) → AllOf P (xs ++ ys) → AllOf P xs
AllOf-left P [] ys h = tt
AllOf-left P (x ∷ xs) ys (h, hs) = (h, AllOf-left P xs ys hs)

AllOf-map :
    {A : Type 0} (P Q : A → Type 0)
    → ((x : A) → P x → Q x)
    → (xs : List A) → AllOf P xs
    → AllOf Q xs
AllOf-map P Q f [] h = tt
AllOf-map P Q f (x ∷ xs) (h, hs) = (f x h, AllOf-map P Q f xs hs)

abbrev Passes : {A : Type 0} → (A → Converted (Unit {0})) → A → Type 0
Passes check x = check x ≡ done tt

check_each-done :
    {A : Type 0} (check : A → Converted (Unit {0})) (xs : List A)
    → check_each check xs ≡ done tt
    → AllOf (Passes check) xs
check_each-done check [] h = tt
check_each-done check (x ∷ xs) h =
    let (u, e, rest) = and_then-eq-ok (check x) (λ u. check_each check xs) h in
    (e, check_each-done check xs rest)

AllOf-lookup :
    {V : Type 0} (P : V → Type 0) (k : String) (m : Assoc V) (v : V)
    → AllOf P (values_of m)
    → lookup k m ≡ some v
    → P v
AllOf-lookup P k [] v h e = cc
AllOf-lookup P k ((j, w) ∷ m) v (h, hs) e = elim (Bool-cases (str_eq j k)) [
  | inl t ↦ subst P (some_inj (rw t at e)) h
  | inr t ↦ AllOf-lookup P k m v hs (rw t at e)
]

module _ (P : ModuleBody → Type 0) where
  AllOf-child :
      (s : String) (cs : ChildModules) (m : DamlModule)
      → AllOf P (child_bodies cs)
      → find_child s cs ≡ some m
      → AllOf P (bodies m)
  unfolding bodies
  AllOf-child s no_child m h e = cc
  AllOf-child s (child k c cs) m h e = elim (Bool-cases (str_eq k s)) [
    | inl t ↦
        subst (λ n. AllOf P (bodies n)) (some_inj (rw t at e))
          (AllOf-right P (child_bodies cs) (bodies c) h)
    | inr t ↦ AllOf-child s cs m (AllOf-left P (child_bodies cs) (bodies c) h) (rw t at e)
  ]

  AllOf-path :
      (path : List String) (m n : DamlModule)
      → AllOf P (bodies m)
      → child_module_path path m ≡ some n
      → P (body_of n)
  unfolding bodies
  AllOf-path [] (node b cs) n (h, hs) e = subst (λ x. P (body_of x)) (some_inj e) h
  AllOf-path (s ∷ path) (node b cs) n (h, hs) e = elim (Option-cases (find_child s cs)) [
    | inl f ↦ let g = rw f at e in cc
    | inr (m, f) ↦ AllOf-path path m n (AllOf-child s cs m hs f) (rw f at e)
  ]

  AllOf-package :
      (id : String) (m : Assoc DamlPackage) (pkg : DamlPackage)
      → AllOf P (all_bodies (values_of m))
      → lookup id m ≡ some pkg
      → AllOf P (bodies pkg.root_module)
  AllOf-package id [] pkg h e = cc
  AllOf-package id ((j, w) ∷ m) pkg h e = elim (Bool-cases (str_eq j id)) [
    | inl t ↦
        subst (λ (x : DamlPackage). AllOf P (bodies x.root_module)) (some_inj (rw t at e))
          (AllOf-right P (all_bodies (values_of m)) (bodies w.root_module) h)
    | inr t ↦
        AllOf-package id m pkg (AllOf-left P (all_bodies (values_of m)) (bodies w.root_module) h)
          (rw t at e)
  ]

  -- What holds of every module holds of the one that a path leads to.
  AllOf-module_at :
      (a : DamlArchive) (id : String) (path : List String) (m : DamlModule)
      → AllOf P (all_bodies (values_of a.packages))
      → module_at a id path ≡ some m
      → P (body_of m)
  AllOf-module_at a id path m h e = elim (Option-cases (lookup id a.packages)) [
    | inl f ↦ let g = rw f at e in cc
    | inr (pkg, f) ↦
        AllOf-path path pkg.root_module m (AllOf-package id a.packages pkg h f) (rw f at e)
  ]

-- The archive has a data type or an interface of the name.
abbrev pub Resolves : DamlArchive → DamlAbsoluteTyCon → Type 0
Resolves a c = (is_some (data_by_tycon_name a c) || is_some (interface_by_tycon_name a c)) ≡ true

abbrev pub FieldResolves : DamlArchive → DamlField → Type 0
FieldResolves a f = AllOf (Resolves a) (tycons f.ty)

module _ (a : DamlArchive) where
  name-Resolves :
      (c : DamlAbsoluteTyCon) → Passes (λ d. lift (validate_tycon_name a d)) c → Resolves a c
  unfolding validate_tycon_name
  name-Resolves c h = ground arith

  field-FieldResolves :
      (f : DamlField) → Passes (λ (g : DamlField). validate_type a g.ty) f → FieldResolves a f
  field-FieldResolves f h =
      AllOf-map (Passes (λ d. lift (validate_tycon_name a d))) (Resolves a) name-Resolves
        (tycons f.ty)
        (check_each-done (λ d. lift (validate_tycon_name a d)) (tycons f.ty)
          (sym (validate_type-tycons a f.ty) ∙ h))

  fields_resolve :
      (fs : List DamlField) → validate_fields a fs ≡ done tt → AllOf (FieldResolves a) fs
  fields_resolve fs h =
      AllOf-map (Passes (λ (f : DamlField). validate_type a f.ty)) (FieldResolves a)
        field-FieldResolves fs (check_each-done (λ (f : DamlField). validate_type a f.ty) fs h)

  data_resolves :
      (d : DamlData) → validate_data a d ≡ done tt → AllOf (FieldResolves a) (data_fields d)
  unfolding validate_data validate_template
  data_resolves (record_data r) h = fields_resolve r.fields h
  data_resolves (variant_data v) h = fields_resolve v.fields h
  data_resolves (enum_data e) h = tt
  data_resolves (template_data t) h =
      let (u, e, rest) = and_then-eq-ok (validate_fields a t.fields) _ h in
      fields_resolve t.fields e

  module _ (show_type : DamlType → String) where
    module_resolves :
        (b : ModuleBody)
        → Passes (validate_body a show_type) b
        → AllOf (Passes (validate_data a)) (values_of b.data_types)
    module_resolves b h =
        let (u, e, rest) =
          and_then-eq-ok (check_each (validate_data a) (values_of b.data_types)) _ h in
        check_each-done (validate_data a) (values_of b.data_types) e

    -- In an archive that is validated without an error, every type constructor in the type of every field
    -- of every data type that the archive finds names a data type or an interface that it finds too.
    pub validate-Resolves :
        validate a show_type ≡ done tt
        → (id : String) (path : List String) (name : String) (d : DamlData)
        → data_at a id path name ≡ some d
        → AllOf (FieldResolves a) (data_fields d)
    unfolding data_at
    validate-Resolves h id path name d e = elim (Option-cases (module_at a id path)) [
      | inl f ↦ let g = rw f at e in cc
      | inr (m, f) ↦
          let all =
            check_each-done (validate_body a show_type) (all_bodies (values_of a.packages))
              (sym (validate-bodies a show_type) ∙ h) in
          let here = AllOf-module_at (Passes (validate_body a show_type)) a id path m all f in
          data_resolves d (
            AllOf-lookup (Passes (validate_data a)) name (body_of m).data_types d
              (module_resolves (body_of m) here) (rw f at e))
    ]
