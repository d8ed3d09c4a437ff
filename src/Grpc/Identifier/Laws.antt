-- ===== src/Grpc/Identifier/Laws.antt =====
-- Package ids and package names of an identifier, daml-grpc/src/data/identifier.rs.
use Prim.Native.Char.{code}
use Prim.Native.String.{◌++◌}
use text.Mathlib.TextEquality.{Char-path}
use text.Mathlib.TextLemmas.{nil-append, cons-append}
use rust_daml_bindings.Base.{
  String, none, some, ◌≡◌, refl, arith, Bool-cases, inl, inr, ◌==◌, ◌⊎◌, ap, sym, ◌∙◌,
  if◌then◌else◌,
}
use rust_daml_bindings.Grpc.Identifier.{
  DamlIdentifier, from_package_name, is_package_name, package_name, package_id, strip_prefix,
  starts_with_prefix,
}

prefix_lem : (s : String) → "#" ++ s ≡ String.◌∷◌ "#" s
prefix_lem s = cons-append "#" "" s ∙ ap (λ t. String.◌∷◌ "#" t) (nil-append s)

strip_prefix_lem : (s : String) → strip_prefix ("#" ++ s) ≡ some s
unfolding strip_prefix
strip_prefix_lem s = rw (prefix_lem s) refl

-- A name that `from_package_name` wraps is what `package_name` gives back; such an identifier has no
-- package id.
pub from_package_name_lem :
    (p m e : String)
    → (package_name (from_package_name p m e) ≡ some p)
      × (package_id (from_package_name p m e) ≡ none)
unfolding package_name from_package_name package_id
from_package_name_lem p m e = (strip_prefix_lem p, rw (prefix_lem p) refl)

reference_cases :
    (s : String)
    → (((if starts_with_prefix s then none else some s) ≡ some s) × (strip_prefix s ≡ none))
      ⊎ ((name : String) × ((if starts_with_prefix s then none else some s) ≡ none)
          × (strip_prefix s ≡ some name)
          × (s ≡ "#" ++ name))
unfolding starts_with_prefix strip_prefix
reference_cases String.[] = inl (refl, refl)
reference_cases (String.◌∷◌ c s) = elim (Bool-cases (code c == b'#')) [
  | inl e ↦
      let same : c ≡ "#" = Char-path c "#" (ground arith) in
      inr (s, rw e refl, rw e refl, ap (λ d. String.◌∷◌ d s) same ∙ sym (prefix_lem s))
  | inr e ↦ inl (rw e refl, rw e refl)
]

-- An identifier has a package id or a package name, never both: the id is the reference as it
-- stands, the name is the reference behind its `#`.
pub package_ref_cases :
    (id : DamlIdentifier)
    → ((package_id id ≡ some id.package_ref) × (package_name id ≡ none))
      ⊎ ((name : String) × (package_id id ≡ none)
          × (package_name id ≡ some name)
          × (id.package_ref ≡ "#" ++ name))
unfolding package_id is_package_name package_name
package_ref_cases id = reference_cases id.package_ref
