-- ===== src/Lf/Convert/Table.antt =====
-- The table of package names that all packages of an archive share, daml-lf/src/convert/archive_payload.rs.
use rust_daml_bindings.Base.{
  String, Option, none, some, [], ◌∷◌, ok, >>=-eq-ok, ok_inj, some_inj, map_option, Assoc, lookup,
  str_eq, ◌≡◌, refl, sym, ap, ◌∙◌, Bool-cases, inl, inr,
}
use rust_daml_bindings.Lf.DarFile.{DarFile}
use rust_daml_bindings.Lf.Convert.{
  DamlPackagePayload, DamlArchivePayload, cross_pkg_name, set_pkg_names, map_values,
  insert_packages, archive_payload,
}

lookup-map_values {ℓ κ} :
    {V : Type ℓ} {W : Type κ} (f : V → W) (k : String) (m : Assoc V)
    → lookup k (map_values f m) ≡ map_option f (lookup k m)
lookup-map_values f k [] = refl
lookup-map_values f k ((j, v) ∷ m) = elim (Bool-cases (str_eq j k)) [
  | inl e ↦ rw e refl
  | inr e ↦ rw e (lookup-map_values f k m)
]

abbrev name_of : DamlPackagePayload → String
name_of p = p.name

stamped :
    (names : Assoc String) (o : Option DamlPackagePayload) (p : DamlPackagePayload)
    → map_option (set_pkg_names names) o ≡ some p
    → p.pkg_names ≡ names
stamped names none p h = cc
stamped names (some q) p h = ap (λ (r : DamlPackagePayload). r.pkg_names) (sym (some_inj h))

names_kept :
    (names : Assoc String) (o : Option DamlPackagePayload)
    → map_option name_of (map_option (set_pkg_names names) o) ≡ map_option name_of o
names_kept names none = refl
names_kept names (some q) = refl

-- In an archive that is made from a dar file, each package finds under an id the name of the package
-- with that id in the archive, and none where the archive has no such package.
pub cross_pkg_name-archive_payload :
    (dar : DarFile) (a : DamlArchivePayload)
    → archive_payload dar ≡ ok a
    → (id : String) (p : DamlPackagePayload) → lookup id a.packages ≡ some p
    → (other : String)
    → cross_pkg_name p other
      ≡ map_option (λ (q : DamlPackagePayload). q.name) (lookup other a.packages)
unfolding archive_payload cross_pkg_name
cross_pkg_name-archive_payload dar a h id p found other =
    let (m, e, made) = >>=-eq-ok (insert_packages [] (dar.main ∷ dar.dependencies)) _ h in
    let names = map_values name_of m in
    let all = ap (λ (r : DamlArchivePayload). r.packages) (ok_inj made) in
    let mine =
      stamped names (lookup id m) p
        (sym (lookup-map_values (set_pkg_names names) id m) ∙ (ap (lookup id) all ∙ found)) in
    ap (lookup other) mine
    ∙ (lookup-map_values name_of other m
        ∙ (sym (names_kept names (lookup other m))
            ∙ (ap (map_option name_of) (sym (lookup-map_values (set_pkg_names names) other m))
                ∙ ap (λ t. map_option name_of (lookup other t)) all)))
