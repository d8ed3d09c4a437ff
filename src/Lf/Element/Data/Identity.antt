-- ===== src/Lf/Element/Data/Identity.antt =====
-- Equality of data types by their identity, daml-lf/src/element/daml_data.rs.
use rust_daml_bindings.Base.{
  String, Bool, true, false, ◌&&◌, ◌⊎◌, inl, inr, ◌↔◌, ◌≡◌, refl, sym, ap, ◌∙◌, List, [], ◌∷◌, ◌++◌,
  str_eq, str_eq_iff, arith,
}
use rust_daml_bindings.Lf.Convert.Names.{DamlAbsoluteTyCon}
use rust_daml_bindings.Lf.Element.Data.{
  DamlTemplate, DamlRecord, DamlVariant, DamlEnum, DamlData, template_data, record_data,
  variant_data, enum_data, data_name, data_package_id, data_module_path,
}

-- `trait DataIdentity`.
pub record DataIdentity (A : Type 0) : Type 0 where
  pub package_id : A → String
  pub module_path : A → List String
  pub identity_name : A → String

instance abbrev pub data_identity : DataIdentity DamlData
data_identity = record {
  package_id = data_package_id;
  module_path = data_module_path;
  identity_name = data_name;
}

instance abbrev pub template_identity : DataIdentity DamlTemplate
template_identity = record {
  package_id = λ (t : DamlTemplate). t.package_id;
  module_path = λ (t : DamlTemplate). t.module_path;
  identity_name = λ (t : DamlTemplate). t.name;
}

instance abbrev pub record_identity : DataIdentity DamlRecord
record_identity = record {
  package_id = λ (r : DamlRecord). r.package_id;
  module_path = λ (r : DamlRecord). r.module_path;
  identity_name = λ (r : DamlRecord). r.name;
}

instance abbrev pub variant_identity : DataIdentity DamlVariant
variant_identity = record {
  package_id = λ (v : DamlVariant). v.package_id;
  module_path = λ (v : DamlVariant). v.module_path;
  identity_name = λ (v : DamlVariant). v.name;
}

instance abbrev pub enum_identity : DataIdentity DamlEnum
enum_identity = record {
  package_id = λ (e : DamlEnum). e.package_id;
  module_path = λ (e : DamlEnum). e.module_path;
  identity_name = λ (e : DamlEnum). e.name;
}

instance abbrev pub tycon_identity : DataIdentity DamlAbsoluteTyCon
tycon_identity = record {
  package_id = λ (c : DamlAbsoluteTyCon). c.package_id;
  module_path = λ (c : DamlAbsoluteTyCon). c.module_path;
  identity_name = λ (c : DamlAbsoluteTyCon). c.data_name;
}

-- `zip` ends with the shorter of the two.
abbrev pub cmp_all : List String → List String → Bool
cmp_all [] right = true
cmp_all (x ∷ left) [] = true
cmp_all (x ∷ left) (y ∷ right) = str_eq x y && cmp_all left right

unfoldable pub data_identity_eq :
    {A B : Type 0} ⦃i : DataIdentity A⦄ ⦃j : DataIdentity B⦄ → A → B → Bool
data_identity_eq ⦃i⦄ ⦃j⦄ a b =
    str_eq (i.package_id a) (j.package_id b)
    && (cmp_all (i.module_path a) (j.module_path b)
        && str_eq (i.identity_name a) (j.identity_name b))

-- `PartialEq<DamlData> for DamlData`.
unfoldable pub data_eq : DamlData → DamlData → Bool
unfolding data_identity_eq
data_eq (template_data a) (template_data b) = data_identity_eq a b
data_eq (record_data a) (record_data b) = data_identity_eq a b
data_eq (variant_data a) (variant_data b) = data_identity_eq a b
data_eq (enum_data a) (enum_data b) = data_identity_eq a b
data_eq a b = false

-- The second path begins with the first.
abbrev pub IsPrefix : List String → List String → Type 0
IsPrefix p q = (rest : List String) × (p ++ rest ≡ q)

IsPrefix-cons : (x y : String) (p q : List String) → x ≡ y → IsPrefix p q → IsPrefix (x ∷ p) (y ∷ q)
IsPrefix-cons x y p q e (rest, h) = (rest, cc)

cmp_all-true : (p q : List String) → cmp_all p q ≡ true → IsPrefix p q ⊎ IsPrefix q p
cmp_all-true [] q h = inl (q, refl)
cmp_all-true (x ∷ p) [] h = inr (x ∷ p, refl)
cmp_all-true (x ∷ p) (y ∷ q) h =
    let e : x ≡ y = ground (arith, str_eq_iff x y) in
    elim (cmp_all-true p q (ground (arith, str_eq_iff x y))) [
      | inl a ↦ inl (IsPrefix-cons x y p q e a)
      | inr a ↦ inr (IsPrefix-cons y x q p (sym e) a)
    ]

cmp_all-prefix : (p rest : List String) → cmp_all p (p ++ rest) ≡ true
cmp_all-prefix [] rest = refl
cmp_all-prefix (x ∷ p) rest = ground (arith, str_eq_iff x x, cmp_all-prefix p rest)

cmp_all_comm : (p q : List String) → cmp_all p q ≡ cmp_all q p
cmp_all_comm [] [] = refl
cmp_all_comm [] (x ∷ q) = refl
cmp_all_comm (x ∷ p) [] = refl
cmp_all_comm (x ∷ p) (y ∷ q) = ground (arith, str_eq_iff x y, str_eq_iff y x, cmp_all_comm p q)

cmp_all-related : (p q : List String) → IsPrefix p q ⊎ IsPrefix q p → cmp_all p q ≡ true
cmp_all-related p q (inl (rest, e)) = ap (cmp_all p) (sym e) ∙ cmp_all-prefix p rest
cmp_all-related p q (inr (rest, e)) =
    cmp_all_comm p q ∙ (ap (cmp_all q) (sym e) ∙ cmp_all-prefix q rest)

-- Two elements count as the same data type exactly where their package ids and their names agree and
-- the module path of one begins with that of the other: the paths need not be equal.
pub data_identity_eq_iff :
    {A B : Type 0} ⦃i : DataIdentity A⦄ ⦃j : DataIdentity B⦄ (a : A) (b : B)
    → (data_identity_eq a b ≡ true) ↔ (
        (i.package_id a ≡ j.package_id b)
        × (i.identity_name a ≡ j.identity_name b)
        × (IsPrefix (i.module_path a) (j.module_path b)
            ⊎ IsPrefix (j.module_path b) (i.module_path a)))
unfolding data_identity_eq
data_identity_eq_iff ⦃i⦄ ⦃j⦄ a b = (
  λ h. (
    ground (arith, str_eq_iff (i.package_id a) (j.package_id b)),
    ground (arith, str_eq_iff (i.identity_name a) (j.identity_name b)),
    cmp_all-true (i.module_path a) (j.module_path b) (ground arith),
  ),
  λ h.
      let same = cmp_all-related (i.module_path a) (j.module_path b) h.2 in
      let pkg : str_eq (i.package_id a) (j.package_id b) ≡ true = (str_eq_iff _ _).1 h.0 in
      let nam : str_eq (i.identity_name a) (j.identity_name b) ≡ true = (str_eq_iff _ _).1 h.1 in
      rw (pkg, same, nam) refl,
)
