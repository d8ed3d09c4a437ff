-- ===== src/Util/Packages/IntoDar/Contents.antt =====
-- Which packages a dar file of `into_dar` holds, daml-util/src/package.rs.
use mathlib.Core.Logic.{∥∥₁_elim}
use mathlib.Core.List.{Perm, Permᴰ}
use mathlib.Core.List.Perm
use rust_daml_bindings.Base.{
  ℕ, ◌+◌, String, Bool, true, false, Option, List, [], ◌∷◌, ◌≡◌, refl, ap, sym, ◌∙◌, subst, ◌↔◌,
  arith, map, keep_if, contains, str_eq, str_eq_iff, ok, ok_inj, >>=-eq-ok, ◌&&◌, ◌||◌, ◌≢◌, Assoc,
}
use rust_daml_bindings.Lf.Payload.{DamlLfArchivePayload, Prost}
use rust_daml_bindings.Lf.Archive.{DamlLfArchive}
use rust_daml_bindings.Lf.DarFile.{DarFile}
use rust_daml_bindings.Util.Packages.{
  DamlPackage, ArchiveAutoNamingStyle, Walk, Search, done, failed, out_of_fuel, reachable_from,
}
use rust_daml_bindings.Util.Packages.Ends.{reachable_from_ends}
use rust_daml_bindings.Util.Packages.Reach.{Reaches, reachable_from_correct}
use rust_daml_bindings.Util.Packages.IntoDar.{
  resolve_main_id, package_into_payload, search_result, payloads_by_id, packages_to_archives,
  kept_packages, into_dar,
}
use rust_daml_bindings.Util.Packages.IntoDar.Laws.{IsDarOf, archives_to_dar-IsDarOf}

abbrev pub package_hashes : List DamlPackage → List String
package_hashes = map (λ (p : DamlPackage). p.hash)

abbrev pub archive_hashes : List DamlLfArchive → List String
archive_hashes = map (λ (x : DamlLfArchive). x.hash)

-- The hashes of all archives of a dar file.
abbrev pub dar_hashes : DarFile → List String
dar_hashes dar = archive_hashes (dar.main ∷ dar.dependencies)

or_swap : (a b c : Bool) → (a || (b || c)) ≡ (b || (a || c))
or_swap a b c = ground arith

Bool-paths : (a b : Bool) → IsProp (a ≡ b)
Bool-paths a b = hlevel

contains-Permᴰ : (k : String) {xs ys : List String} → Permᴰ xs ys → contains k xs ≡ contains k ys
contains-Permᴰ k Permᴰ.nil = refl
contains-Permᴰ k (Permᴰ.cons e p) = cc (e, contains-Permᴰ k p)
contains-Permᴰ k (Permᴰ.swap {a} {b} {l = l} e f) =
    rw (← e, ← f) (or_swap (str_eq a k) (str_eq b k) (contains k l))
contains-Permᴰ k (Permᴰ.trans p q) = contains-Permᴰ k p ∙ contains-Permᴰ k q

contains-perm : (k : String) {xs ys : List String} → Perm xs ys → contains k xs ≡ contains k ys
contains-perm k p = ∥∥₁_elim p (Bool-paths _ _) (contains-Permᴰ k)

search_result-ok :
    (s : Search) (n : s ≢ out_of_fuel) (t : List String) → search_result s n ≡ ok t → s ≡ done t
unfolding search_result
search_result-ok (done u) n t h = cc
search_result-ok (failed e) n t h = absurd (cc)
search_result-ok out_of_fuel n t h = absurd (n refl)

contains-keep :
    (k : String) (t : List String) (ps : List DamlPackage)
    → contains k (package_hashes (keep_if (λ (p : DamlPackage). contains p.hash t) ps))
      ≡ (contains k (package_hashes ps) && contains k t)
contains-keep k t [] = refl
contains-keep k t (p ∷ ps) = ground (arith, contains-keep k t ps, str_eq_iff p.hash k)

module _ (prost : Prost) where
  packages_to_archives-hashes :
      (uuids : ℕ → String) (style : ArchiveAutoNamingStyle) (k : ℕ) (ps : List DamlPackage)
      (l : List DamlLfArchive)
      → packages_to_archives prost uuids style k ps ≡ ok l
      → archive_hashes l ≡ package_hashes ps
  unfolding packages_to_archives
  packages_to_archives-hashes uuids style k [] l h = rw (← ok_inj h) refl
  packages_to_archives-hashes uuids style k (p ∷ ps) l h =
      let (payload, e, h') = >>=-eq-ok (package_into_payload prost p) _ h in
      let (rest, f, g) = >>=-eq-ok (packages_to_archives prost uuids style (k + 1) ps) _ h' in
      rw (← ok_inj g)
        (ap (λ t. p.hash ∷ t) (packages_to_archives-hashes uuids style (k + 1) ps rest f))

module _ (prost : Prost) (walk : Walk) (uuids : ℕ → String) (packages : List DamlPackage) where
  -- The parts of a successful run of `into_dar`.
  into_dar-parts :
      (hint : Option String) (filter : Bool) (style : ArchiveAutoNamingStyle) (dar : DarFile)
      → into_dar prost walk uuids packages hint filter style ≡ ok dar
      → (id : String) × (kept : List DamlPackage) × (l : List DamlLfArchive) × (resolve_main_id
            packages hint
          ≡ ok id)
        × (kept_packages prost walk filter id packages ≡ ok kept)
        × (archive_hashes l ≡ package_hashes kept)
        × IsDarOf dar id l
  unfolding into_dar
  into_dar-parts hint filter style dar h =
      let (id, e, h') = >>=-eq-ok (resolve_main_id packages hint) _ h in
      let (kept, f, h'') = >>=-eq-ok (kept_packages prost walk filter id packages) _ h' in
      let (l, g, last) = >>=-eq-ok (packages_to_archives prost uuids style 0 kept) _ h'' in
      (
        id,
        kept,
        l,
        e,
        f,
        packages_to_archives-hashes prost uuids style 0 kept l g,
        archives_to_dar-IsDarOf l id dar last,
      )

  contains-dar_hashes :
      (dar : DarFile) (id : String) (l : List DamlLfArchive) (kept : List DamlPackage) (k : String)
      → archive_hashes l ≡ package_hashes kept
      → IsDarOf dar id l
      → contains k (dar_hashes dar) ≡ contains k (package_hashes kept)
  contains-dar_hashes dar id l kept k e d =
      contains-perm k (Perm.map (λ (x : DamlLfArchive). x.hash) d.contents) ∙ ap (contains k) e

  -- Without the filter the dar file holds the packages of the collection, each as often, and its
  -- main archive is the package that was asked for.
  pub into_dar_all :
      (hint : Option String) (style : ArchiveAutoNamingStyle) (dar : DarFile)
      → into_dar prost walk uuids packages hint false style ≡ ok dar
      → (resolve_main_id packages hint ≡ ok dar.main.hash)
        × Perm (dar_hashes dar) (package_hashes packages)
        × (dar.manifest.dalf_main ≡ dar.main.name)
        × (dar.manifest.dalf_dependencies ≡ map (λ (x : DamlLfArchive). x.name) dar.dependencies)
  unfolding kept_packages
  into_dar_all hint style dar h =
      let (id, kept, l, e, f, g, d) = into_dar-parts hint false style dar h in
      (
        e ∙ ap ok (sym d.main_hash),
        subst (Perm (dar_hashes dar)) (g ∙ ap package_hashes (sym (ok_inj f)))
            (Perm.map (λ (x : DamlLfArchive). x.hash) d.contents),
        d.manifest_main,
        d.manifest_dependencies,
      )

  -- With the filter the dar file holds exactly those packages of the collection that the main
  -- package refers to, directly or not, and the main package itself.
  pub into_dar_filtered :
      (hint : Option String) (style : ArchiveAutoNamingStyle) (dar : DarFile)
      → into_dar prost walk uuids packages hint true style ≡ ok dar
      → (payloads : Assoc DamlLfArchivePayload) × (payloads_by_id prost packages ≡ ok payloads)
        × (resolve_main_id packages hint ≡ ok dar.main.hash)
        × ((k : String)
            → (contains k (dar_hashes dar) ≡ true) ↔ (
                (contains k (package_hashes packages) ≡ true)
                × Reaches walk payloads dar.main.hash k))
  unfolding kept_packages
  into_dar_filtered hint style dar h =
      let (id, kept, l, e, f, g, d) = into_dar-parts hint true style dar h in
      let (payloads, p, f') = >>=-eq-ok (payloads_by_id prost packages) _ f in
      let (t, r, last) =
        >>=-eq-ok
          (search_result (reachable_from walk payloads id) (reachable_from_ends walk payloads id)) _
          f' in
      let found = reachable_from_correct walk payloads id t (search_result-ok _ _ t r) in
      let kept_eq = sym (ok_inj last) in
      let all = λ (k : String).
        contains-dar_hashes dar id l kept k g d
        ∙ ap (λ ps. contains k (package_hashes ps)) kept_eq
        ∙ contains-keep k t packages in
      (
        payloads,
        p,
        e ∙ ap ok (sym d.main_hash),
        λ k. (
          λ c. (
            ground (arith, all k),
            subst (λ i. Reaches walk payloads i k) (sym d.main_hash)
                ((found k).0 (ground (arith, all k))),
          ),
          λ (c, reach). ground (
            arith,
            all k,
            (found k).1 (subst (λ i. Reaches walk payloads i k) d.main_hash reach),
          ),
        ),
      )
