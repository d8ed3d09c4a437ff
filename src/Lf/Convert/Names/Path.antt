-- ===== src/Lf/Convert/Names/Path.antt =====
-- What the name of a type constructor holds, `convert_tycon_id` of daml-lf/src/convert/type_payload.rs.
use rust_daml_bindings.Base.{
  String, Option, none, some, List, [], ◌∷◌, ◌++◌, ok, >>=-eq-ok, ok_inj, ◌≡◌, refl, ap, sym, ◌∙◌,
  subst,
}
use rust_daml_bindings.Lf.Proto.{TypeConId, ModuleId}
use rust_daml_bindings.Lf.Convert.{DamlPackagePayload, req, resolve_dotted}
use rust_daml_bindings.Lf.Convert.Names.{
  DamlAbsoluteTyCon, split_from, split_data_name, resolve_module_id, resolve_package_name,
  convert_tycon_id,
}

req-some : {A : Type 0} (o : Option A) (a : A) → req o ≡ ok a → o ≡ some a
req-some none a h = cc
req-some (some b) a h = cc

split_from-append :
    (s : String) (ss : List String) → (split_from s ss).1 ++ (split_from s ss).0 ∷ [] ≡ s ∷ ss
split_from-append s [] = refl
split_from-append s (t ∷ ss) = ap (λ l. s ∷ l) (split_from-append t ss)

split_data_name-append :
    (segments : List String) (parts : String × List String)
    → split_data_name segments ≡ ok parts
    → parts.1 ++ parts.0 ∷ [] ≡ segments
unfolding split_data_name
split_data_name-append [] parts h = cc
split_data_name-append (s ∷ ss) parts h =
    subst (λ (r : String × List String). r.1 ++ r.0 ∷ [] ≡ s ∷ ss) (ok_inj h)
      (split_from-append s ss)

append_assoc : (a b c : List String) → (a ++ b) ++ c ≡ a ++ (b ++ c)
append_assoc [] b c = refl
append_assoc (x ∷ a) b c = ap (λ l. x ∷ l) (append_assoc a b c)

-- A type constructor is named in full: its module path with the data name behind it is the path of
-- the module that the message refers to, then the segments of the dotted name; its package is the one
-- of that module, under the name that the payload knows it by.
pub convert_tycon_id-eq-ok :
    (proto : TypeConId) (p : DamlPackagePayload) (n : DamlAbsoluteTyCon)
    → convert_tycon_id proto p ≡ ok n
    → (m : ModuleId) × (path : List String) × (segments : List String) × (proto.module_id ≡ some m)
      × (resolve_module_id m p ≡ ok (n.package_id, path))
      × (resolve_dotted p proto.name_interned_dname ≡ ok segments)
      × (n.module_path ++ n.data_name ∷ [] ≡ path ++ segments)
      × (n.package_name ≡ resolve_package_name p n.package_id)
unfolding convert_tycon_id
convert_tycon_id-eq-ok proto p n h =
    let (m, a, h1) = >>=-eq-ok (req proto.module_id) _ h in
    let ((pkg, path), b, h2) = >>=-eq-ok (resolve_module_id m p) _ h1 in
    let (segments, c, h3) = >>=-eq-ok (resolve_dotted p proto.name_interned_dname) _ h2 in
    let (parts, d, h4) = >>=-eq-ok (split_data_name segments) _ h3 in
    let e = ok_inj h4 in
    (
      m,
      path,
      segments,
      req-some proto.module_id m a,
      b ∙ ap (λ (r : DamlAbsoluteTyCon). ok (r.package_id, path)) e,
      c,
      ap (λ (r : DamlAbsoluteTyCon). r.module_path ++ r.data_name ∷ []) (sym e)
          ∙ (append_assoc path parts.1 (parts.0 ∷ [])
              ∙ ap (λ l. path ++ l) (split_data_name-append segments parts d)),
      ap (λ (r : DamlAbsoluteTyCon). r.package_name) (sym e)
          ∙ ap (λ (r : DamlAbsoluteTyCon). resolve_package_name p r.package_id) e,
    )
