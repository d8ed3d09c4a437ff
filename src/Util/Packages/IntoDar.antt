-- ===== src/Util/Packages/IntoDar.antt =====
-- The operations of `DamlPackages` that build archives and dar files, daml-util/src/package.rs.
pub mod Laws
pub mod Contents
use Prim.Native.String.{◌++◌}
use mathlib.Core.Option
use rust_daml_bindings.Base.{
  ℕ, zero, suc, ◌+◌, String, Bool, true, false, Option, none, some, List, [], ◌∷◌, map, keep_if,
  find_first, first, contains, str_eq, if◌then◌else◌, Assoc, insert, ok, err, ◌>>=◌, ok_or,
  map_results, ◌≢◌, refl,
}
use rust_daml_bindings.Lf.Payload.{DamlLfArchivePayload, Prost, payload_from_bytes, contains_module}
use rust_daml_bindings.Lf.Archive.{DamlLfArchive, DamlLfHashFunction, sha256}
use rust_daml_bindings.Lf.Manifest.{new_implied}
use rust_daml_bindings.Lf.DarFile.{DarFile}
use rust_daml_bindings.Grpc.Error.{DamlResult, other}
use rust_daml_bindings.Util.Packages.{
  DamlPackage, ArchiveAutoNamingStyle, empty, hash, uuid, contains_hash, as_daml_error, Walk,
  Search, done, failed, out_of_fuel, reachable_from,
}
use rust_daml_bindings.Util.Packages.Ends.{reachable_from_ends}

unfoldable pub resolve_main_id : List DamlPackage → Option String → DamlResult String
resolve_main_id packages (some id) =
    if contains_hash id packages
    then ok id
    else err (other ("main package " ++ (id ++ " not present in package set")))
resolve_main_id packages none = elim (first packages) [
  | some p ↦ ok p.hash
  | none ↦ err (other "expected at least one package")
]

-- `position`.
abbrev pub position {ℓ} : {A : Type ℓ} → (A → Bool) → List A → Option ℕ
position p [] = none
position p (x ∷ xs) = if p x then some 0 else Option.map suc (position p xs)

module _ {ℓ} {A : Type ℓ} where
  abbrev pub last_of : A → List A → A
  last_of x [] = x
  last_of x (y ∷ ys) = last_of y ys

  abbrev pub but_last : A → List A → List A
  but_last x [] = []
  but_last x (y ∷ ys) = x ∷ but_last y ys

  -- The last element comes first.
  abbrev pub last_first : List A → List A
  last_first [] = []
  last_first (x ∷ xs) = last_of x xs ∷ but_last x xs

  -- `swap_remove`: the last element takes the place of the one that is taken out. Out of range it
  -- panics.
  abbrev pub swap_remove : List A → ℕ → Option (A × List A)
  swap_remove [] i = none
  swap_remove (x ∷ xs) zero = some (x, last_first xs)
  swap_remove (x ∷ xs) (suc i) = elim (swap_remove xs i) [
    | none ↦ none
    | some (y, rest) ↦ some (y, x ∷ rest)
  ]

-- The dar file of its main archive and the others.
abbrev pub dar_of : DamlLfArchive × List DamlLfArchive → DarFile
dar_of (main, rest) = record {
  manifest = new_implied main.name (map (λ (x : DamlLfArchive). x.name) rest);
  main = main;
  dependencies = rest;
}

unfoldable pub archives_to_dar : List DamlLfArchive → String → DamlResult DarFile
archives_to_dar [] main_id = err (other "expected at least one archive")
archives_to_dar (a ∷ archives) main_id = do
  main_idx ←
      ok_or (other ("main package " ++ (main_id ++ " not present in archive set")))
        (position (λ (x : DamlLfArchive). str_eq x.hash main_id) (a ∷ archives))
  taken ← ok_or (other "swap_remove index out of bounds") (swap_remove (a ∷ archives) main_idx)
  ok (dar_of taken)

-- The set that a search gives back; it does not run out of fuel.
unfoldable pub search_result : (s : Search) → s ≢ out_of_fuel → DamlResult (List String)
search_result (done t) ends = ok t
search_result (failed e) ends = err e
search_result out_of_fuel ends = absurd (ends refl)

module _ (prost : Prost) where
  -- `package_into_payload`.
  unfoldable pub package_into_payload : DamlPackage → DamlResult DamlLfArchivePayload
  package_into_payload p = as_daml_error (payload_from_bytes prost p.payload)

  unfoldable pub into_payloads :
      List DamlPackage → DamlResult (List (String × DamlLfArchivePayload))
  unfolding package_into_payload
  into_payloads = map_results (λ (p : DamlPackage). package_into_payload p >>= λ x. ok (p.hash, x))

  -- `find_module`: the first package that holds the module.
  unfoldable pub find_module : List DamlPackage → String → DamlResult String
  find_module packages module_name = do
    payloads ← into_payloads packages
    elim (find_first (λ (e : String × DamlLfArchivePayload). contains_module e.1 module_name)
        payloads) [ none ↦ err (other "package could not be found") | some e ↦ ok e.0 ]

  -- The map that `collect` makes of the packages, from the first to the last.
  collect_payloads :
      Assoc DamlLfArchivePayload → List DamlPackage → DamlResult (Assoc DamlLfArchivePayload)
  collect_payloads acc [] = ok acc
  collect_payloads acc (p ∷ ps) = do
    payload ← package_into_payload p
    collect_payloads (insert p.hash payload acc) ps

  unfoldable pub payloads_by_id : List DamlPackage → DamlResult (Assoc DamlLfArchivePayload)
  unfolding collect_payloads
  payloads_by_id = collect_payloads []

  -- The name of the archive of a package; `k` counts the packages.
  unfoldable pub archive_name : (ℕ → String) → ArchiveAutoNamingStyle → ℕ → DamlPackage → String
  archive_name uuids empty k p = ""
  archive_name uuids hash k p = p.hash
  archive_name uuids uuid k p = uuids k

  unfoldable pub packages_to_archives :
      (ℕ → String) → ArchiveAutoNamingStyle → ℕ → List DamlPackage → DamlResult (List DamlLfArchive)
  packages_to_archives uuids style k [] = ok []
  packages_to_archives uuids style k (p ∷ ps) = do
    payload ← package_into_payload p
    rest ← packages_to_archives uuids style (k + 1) ps
    ok (
        record {
          name = archive_name uuids style k p;
          payload = payload;
          hash_function = sha256;
          hash = p.hash;
        }
        ∷ rest)

  module _ (walk : Walk) where
    -- The packages that `into_dar` keeps.
    unfoldable pub kept_packages : Bool → String → List DamlPackage → DamlResult (List DamlPackage)
    kept_packages false main_id packages = ok packages
    kept_packages true main_id packages = do
      payloads ← payloads_by_id packages
      reachable ←
          search_result (reachable_from walk payloads main_id)
            (reachable_from_ends walk payloads main_id)
      ok (keep_if (λ (p : DamlPackage). contains p.hash reachable) packages)

    unfoldable pub into_dar :
        (ℕ → String)
        → List DamlPackage
        → Option String
        → Bool
        → ArchiveAutoNamingStyle
        → DamlResult DarFile
    unfolding kept_packages
    into_dar uuids packages main_package_id filter_deps style = do
      main_id ← resolve_main_id packages main_package_id
      keep ← kept_packages filter_deps main_id packages
      all_archives ← packages_to_archives uuids style 0 keep
      archives_to_dar all_archives main_id
