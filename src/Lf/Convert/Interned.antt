-- ===== src/Lf/Convert/Interned.antt =====
-- The two readings of dotted names agree: `decode_dotted_name` of daml-lf/src/payload.rs and
-- `resolve_dotted` of daml-lf/src/convert/interned.rs.
use rust_daml_bindings.Base.{
  String, Option, none, some, List, [], ◌∷◌, Result, ok, err, ◌>>=◌, ok_part, ok_part-ok_or,
  map_results, map_option, get_elem?, ◌≡◌, refl, ap, sym, ◌∙◌, >>=-eq-ok, ok_inj, Result-cases, inl,
  inr,
}
use rust_daml_bindings.Base.Int.{ℤ, pos, negsuc}
use rust_daml_bindings.Lf.Archive.{DamlLfArchive}
use rust_daml_bindings.Lf.Proto.{Package}
use rust_daml_bindings.Lf.Payload.{all_some, get_signed, join_dots, segments_at, decode_dotted_name}
use rust_daml_bindings.Lf.Convert.{
  DamlPackagePayload, entry, resolve_string, resolve_strings, resolve_dotted_to_indices,
  resolve_dotted, req, metadata_string, module_payload, package_payload,
}

ok_part-entry {ℓ} :
    {A : Type ℓ} (n t : String) (xs : List A) (i : ℤ) → ok_part (entry n t xs i) ≡ get_signed xs i
ok_part-entry n t xs (pos i) = ok_part-ok_or _ (get_elem? xs i)
ok_part-entry n t xs (negsuc i) = refl

-- The tables of the package are those of the payload that is made of it.
abbrev HasTables : Package → DamlPackagePayload → Type 0
HasTables p q =
    (q.interned_strings ≡ p.interned_strings) × (q.interned_dotted_names ≡ p.interned_dotted_names)

string_lem :
    (p : Package) (q : DamlPackagePayload)
    → q.interned_strings ≡ p.interned_strings
    → (i : ℤ) → get_signed p.interned_strings i ≡ ok_part (resolve_string q i)
unfolding resolve_string
string_lem p q h i =
    ap (λ xs. get_signed xs i) (sym h) ∙ sym (ok_part-entry _ _ q.interned_strings i)

-- One more of the parts: `collect` of options and of results stop alike.
collect_cons {ℓ κ} :
    {E : Type ℓ} {A : Type κ} (o : Option A) (os : List (Option A)) (r : Result E A)
    (rs : Result E (List A))
    → o ≡ ok_part r
    → all_some os ≡ ok_part rs
    → all_some (o ∷ os) ≡ ok_part (r >>= λ a. rs >>= λ l. ok (a ∷ l))
collect_cons o os (err e) rs h k = rw h refl
collect_cons o os (ok a) (err e) h k = rw (h, k) refl
collect_cons o os (ok a) (ok l) h k = rw (h, k) refl

segments-resolve_strings :
    (p : Package) (q : DamlPackagePayload)
    → q.interned_strings ≡ p.interned_strings
    → (is : List ℤ) → all_some (segments_at p is) ≡ ok_part (resolve_strings q is)
unfolding segments_at resolve_strings
segments-resolve_strings p q h [] = refl
segments-resolve_strings p q h (i ∷ is) =
    collect_cons _ (segments_at p is) (resolve_string q i) (resolve_strings q is)
      (string_lem p q h i) (segments-resolve_strings p q h is)

indices_lem :
    (p : Package) (q : DamlPackagePayload)
    → q.interned_dotted_names ≡ p.interned_dotted_names
    → (i : ℤ) → get_signed p.interned_dotted_names i ≡ ok_part (resolve_dotted_to_indices q i)
unfolding resolve_dotted_to_indices
indices_lem p q h i =
    ap (λ xs. get_signed xs i) (sym h) ∙ sym (ok_part-entry _ _ q.interned_dotted_names i)

package_payload-HasTables :
    (dalf : DamlLfArchive) (q : DamlPackagePayload)
    → package_payload dalf ≡ ok q
    → HasTables dalf.payload.lf_package q
unfolding package_payload
package_payload-HasTables dalf q h =
    let p = dalf.payload.lf_package in
    let (m, a, h1) = >>=-eq-ok (req p.metadata) _ h in
    let (name, b, h2) =
      >>=-eq-ok (metadata_string "name_interned_str" p.interned_strings m.name_interned_str) _ h1 in
    let (version, c, h3) =
      >>=-eq-ok (metadata_string "version_interned_str" p.interned_strings m.version_interned_str) _
        h2 in
    let (modules, d, h4) = >>=-eq-ok (map_results module_payload p.modules) _ h3 in
    let e = ok_inj h4 in
    (
      ap (λ (r : DamlPackagePayload). r.interned_strings) (sym e),
      ap (λ (r : DamlPackagePayload). r.interned_dotted_names) (sym e),
    )

joined_lem :
    (o : Option (List String))
    → elim o as (λ _. Option String) [ none ↦ none | some parts ↦ some (join_dots parts) ]
      ≡ map_option join_dots o
joined_lem none = refl
joined_lem (some l) = refl

-- A payload made of an archive resolves a dotted name to the segments that the archive's own reading
-- joins with dots, and fails exactly where that reading gives nothing.
pub decode_dotted_name-eq-resolve_dotted :
    (dalf : DamlLfArchive) (q : DamlPackagePayload)
    → package_payload dalf ≡ ok q
    → (i : ℤ)
    → decode_dotted_name dalf.payload.lf_package i
      ≡ map_option join_dots (ok_part (resolve_dotted q i))
unfolding decode_dotted_name resolve_dotted
decode_dotted_name-eq-resolve_dotted dalf q h i =
    let p = dalf.payload.lf_package in
    let (strings, names) = package_payload-HasTables dalf q h in
    let found = indices_lem p q names i in
    elim (Result-cases (resolve_dotted_to_indices q i)) [
      | inl (e, f) ↦ let g = rw f at found in rw (decode_dotted_name, g, resolve_dotted, f) refl
      | inr (is, f) ↦
          let g = rw f at found in
          let parts = segments-resolve_strings p q strings is in
          rw (decode_dotted_name, g, resolve_dotted, f, parts)
            (joined_lem (ok_part (resolve_strings q is)))
    ]
