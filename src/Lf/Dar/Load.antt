-- ===== src/Lf/Dar/Load.antt =====
-- Loading dar files, `from_file` of daml-lf/src/dar.rs.
use Prim.Native.String.{◌++◌}
use rust_daml_bindings.Base.{
  String, Option, none, some, List, [], ◌∷◌, ok, err, ◌≡◌, ◌↔◌, refl, ◌⊎◌, inl, inr, some_inj,
  ok_inj, subst, Result-cases,
}
use rust_daml_bindings.Lf.Error.{DamlLfError, DamlLfResult, dar_parse_error, lf_error_text}
use rust_daml_bindings.Lf.Payload.{Prost}
use rust_daml_bindings.Lf.Archive.{DamlLfArchive}
use rust_daml_bindings.Lf.Manifest.{DarManifest, YamlRust}
use rust_daml_bindings.Lf.DarFile.{DarFile}
use rust_daml_bindings.Lf.Dar.{
  Zip, make_manifest_from_archive, parse_dalf_from_archive, parse_dalfs_from_archive,
  parse_dar_manifest_from_file, manifest_of, from_file,
}

module _ (y : YamlRust) (prost : Prost) (zip : Zip) where
  -- The archives are those at the paths, in order.
  abbrev pub AreAt : List String → List DamlLfArchive → Type 0
  AreAt [] [] = Unit
  AreAt (p ∷ ps) (a ∷ as_) = (parse_dalf_from_archive y prost zip p ≡ some (ok a)) × AreAt ps as_
  AreAt _ _ = ⊥

  -- The manifest is that of the file; if there is none to be read, that of the legacy form.
  abbrev pub IsManifest : DarManifest → Type 0
  IsManifest m =
      (parse_dar_manifest_from_file y prost zip ≡ ok m)
      ⊎ ((e : DamlLfError) × (parse_dar_manifest_from_file y prost zip ≡ err e)
          × (make_manifest_from_archive zip.names ≡ ok m))

  Panic-cases :
      {A : Type 0} (r : Option (DamlLfResult A))
      → (r ≡ none) ⊎ ((e : DamlLfError) × (r ≡ some (err e))) ⊎ ((a : A) × (r ≡ some (ok a)))
  Panic-cases none = inl refl
  Panic-cases (some (err e)) = inr (inl (e, refl))
  Panic-cases (some (ok a)) = inr (inr (a, refl))

  dalfs-AreAt :
      (ps : List String) (as_ : List DamlLfArchive)
      → parse_dalfs_from_archive y prost zip ps ≡ some (ok as_)
      → AreAt ps as_
  unfolding parse_dalfs_from_archive
  dalfs-AreAt [] [] h = tt
  dalfs-AreAt [] (a ∷ as_) h = cc
  dalfs-AreAt (p ∷ ps) as_ h = elim (Panic-cases (parse_dalf_from_archive y prost zip p)) [
    | inl e ↦ let k = rw (parse_dalfs_from_archive, e) at h in cc
    | inr (inl (x, e)) ↦ let k = rw (parse_dalfs_from_archive, e) at h in cc
    | inr (inr (a, e)) ↦ elim (Panic-cases (parse_dalfs_from_archive y prost zip ps)) [
      | inl f ↦ let k = rw (parse_dalfs_from_archive, e, f) at h in cc
      | inr (inl (x, f)) ↦ let k = rw (parse_dalfs_from_archive, e, f) at h in cc
      | inr (inr (rest, f)) ↦
          let k = rw (parse_dalfs_from_archive, e, f) at h in
          subst (AreAt (p ∷ ps)) (ok_inj (some_inj k)) (e, dalfs-AreAt ps rest f)
    ]
  ]

  manifest_of-IsManifest : (m : DarManifest) → manifest_of y prost zip ≡ ok m → IsManifest m
  unfolding manifest_of
  manifest_of-IsManifest m h = elim (Result-cases (parse_dar_manifest_from_file y prost zip)) [
    | inr (a, e) ↦ let k = rw (manifest_of, e) at h in inl (rw e k)
    | inl (x, e) ↦ elim (Result-cases (make_manifest_from_archive zip.names)) [
      | inr (a, f) ↦ let k = rw (manifest_of, e, f) at h in inr (x, e, rw f k)
      | inl (z, f) ↦ let k = rw (manifest_of, e, f) at h in cc
    ]
  ]

  abbrev IsLoaded : DarFile → Type 0
  IsLoaded d =
      IsManifest d.manifest
      × (parse_dalf_from_archive y prost zip d.manifest.dalf_main ≡ some (ok d.main))
      × AreAt d.manifest.dalf_dependencies d.dependencies

  from_file-IsLoaded : (d : DarFile) → from_file y prost zip ≡ some (ok d) → IsLoaded d
  unfolding from_file
  from_file-IsLoaded d h = elim (Result-cases (manifest_of y prost zip)) [
    | inl (x, e) ↦ let k = rw (from_file, e) at h in cc
    | inr (m, e) ↦ elim (Panic-cases (parse_dalf_from_archive y prost zip m.dalf_main)) [
      | inl f ↦ let k = rw (from_file, e, f) at h in cc
      | inr (inl (x, f)) ↦ let k = rw (from_file, e, f) at h in cc
      | inr (inr (a, f)) ↦
          elim (Panic-cases (parse_dalfs_from_archive y prost zip m.dalf_dependencies)) [
            | inl g ↦ let k = rw (from_file, e, f, g) at h in cc
            | inr (inl (x, g)) ↦ let k = rw (from_file, e, f, g) at h in cc
            | inr (inr (rest, g)) ↦
                let k = rw (from_file, e, f, g) at h in
                subst IsLoaded (ok_inj (some_inj k))
                  (manifest_of-IsManifest m e, f, dalfs-AreAt m.dalf_dependencies rest g)
          ]
    ]
  ]

  AreAt-dalfs :
      (ps : List String) (as_ : List DamlLfArchive)
      → AreAt ps as_
      → parse_dalfs_from_archive y prost zip ps ≡ some (ok as_)
  unfolding parse_dalfs_from_archive
  AreAt-dalfs [] [] h = refl
  AreAt-dalfs [] (a ∷ as_) h = elim h [ ]
  AreAt-dalfs (p ∷ ps) [] h = elim h [ ]
  AreAt-dalfs (p ∷ ps) (a ∷ as_) (e, h) =
      rw (parse_dalfs_from_archive, e, AreAt-dalfs ps as_ h) refl

  IsManifest-manifest_of : (m : DarManifest) → IsManifest m → manifest_of y prost zip ≡ ok m
  unfolding manifest_of
  IsManifest-manifest_of m (inl e) = rw (manifest_of, e) refl
  IsManifest-manifest_of m (inr (x, e, f)) = rw (manifest_of, e, f) refl

  -- A dar file is loaded as `d` where, and only where, the manifest of `d` is that of the file, or the
  -- legacy one if the file has none that can be read, and the main archive and the others of `d` are
  -- those at the paths that the manifest lists, in its order.
  pub from_file_iff :
      (d : DarFile)
      → (from_file y prost zip ≡ some (ok d)) ↔ (
          IsManifest d.manifest
          × (parse_dalf_from_archive y prost zip d.manifest.dalf_main ≡ some (ok d.main))
          × AreAt d.manifest.dalf_dependencies d.dependencies)
  unfolding from_file
  from_file_iff d = (
    from_file-IsLoaded d,
    (λ h.
        let (m, e, f) = h in
        rw
          (
            from_file,
            IsManifest-manifest_of d.manifest m,
            e,
            AreAt-dalfs d.manifest.dalf_dependencies d.dependencies f,
          )
          refl),
  )

  -- Where neither manifest can be had, the error names both failures, the file's first.
  pub from_file-fails :
      (fat legacy : DamlLfError)
      → parse_dar_manifest_from_file y prost zip ≡ err fat
      → make_manifest_from_archive zip.names ≡ err legacy
      → from_file y prost zip
        ≡ some (
            err (
              dar_parse_error (
                "failed to parse dar as either fat ("
                ++ (lf_error_text fat ++ (") or legacy (" ++ (lf_error_text legacy ++ ")"))))))
  unfolding from_file manifest_of
  from_file-fails fat legacy e f = rw (from_file, manifest_of, e, f) refl
