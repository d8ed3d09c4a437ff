-- ===== src/Tests/Collections.antt =====
-- Runs of the claims about collections of packages.
use mathlib.Core.List.{Perm}
use rust_daml_bindings.Base.{
  ℕ, ◌≡◌, ◌≢◌, ◌↔◌, refl, String, true, false, some, List, [], ◌∷◌, map, contains, Assoc, ok, err,
}
use rust_daml_bindings.Lf.Error.{dar_parse_error, lf_error_text}
use rust_daml_bindings.Lf.Payload.{DamlLfArchivePayload, payload_from_bytes}
use rust_daml_bindings.Lf.Version.{minor_try_from}
use rust_daml_bindings.Lf.Archive.{DamlLfArchive, sha256}
use rust_daml_bindings.Lf.DarFile.{DarFile}
use rust_daml_bindings.Lf.Manifest.{new_implied}
use rust_daml_bindings.Grpc.Error.{DamlError, other}
use rust_daml_bindings.Util.Packages.{
  DamlPackage, hash, Walk, absolute_tycon, collect_referenced_package_ids, done, failed,
  out_of_fuel, refs_of, reachable_from,
}
use rust_daml_bindings.Util.Packages.Reach.{Reaches, reachable_from_correct}
use rust_daml_bindings.Util.Packages.Ends.{reachable_from_ends}
use rust_daml_bindings.Util.Packages.IntoDar.{
  archives_to_dar, into_dar, payloads_by_id, resolve_main_id, kept_packages, packages_to_archives,
  archive_name, package_into_payload, search_result,
}
use rust_daml_bindings.Util.Packages.IntoDar.Contents.{
  dar_hashes, package_hashes, into_dar_all, into_dar_filtered,
}
use rust_daml_bindings.Tests.Archives.{main_payload, one_package}

-- Every package refers to the package "d", and one walk fails.
abbrev to_d : Walk
to_d = λ p. ok (absolute_tycon "d" ∷ [])

abbrev no_walk : Walk
no_walk = λ p. err (dar_parse_error "no walk")

abbrev store : Assoc DamlLfArchivePayload
store = ("m", main_payload) ∷ ("d", main_payload) ∷ ("x", main_payload) ∷ []

reached_d : reachable_from to_d store "m" ≡ done ("d" ∷ "m" ∷ [])
unfolding reachable_from collect_referenced_package_ids refs_of
reached_d = refl

reachable_from_correct_example : (contains "d" ("d" ∷ "m" ∷ []) ≡ true) ↔ Reaches to_d store "m" "d"
reachable_from_correct_example =
    reachable_from_correct to_d store "m" ("d" ∷ "m" ∷ []) reached_d "d"

abbrev walk_error : DamlError
walk_error = other (lf_error_text (dar_parse_error "no walk"))

walk_failed : reachable_from no_walk store "m" ≡ failed walk_error
unfolding reachable_from collect_referenced_package_ids refs_of
walk_failed = refl

reachable_from_ends_example : reachable_from to_d store "m" ≢ out_of_fuel
reachable_from_ends_example = reachable_from_ends to_d store "m"

abbrev packages : List DamlPackage
packages =
    record { payload = []; hash = "x" }
    ∷ record { payload = []; hash = "m" }
    ∷ record { payload = []; hash = "d" }
    ∷ []

abbrev archive_of : String → DamlLfArchive
archive_of id = record { name = id; payload = main_payload; hash_function = sha256; hash = id }

abbrev archives : List DamlLfArchive
archives = archive_of "x" ∷ archive_of "m" ∷ []

abbrev numbered : ℕ → String
numbered = λ n. "id"

abbrev all_dar : DarFile
all_dar = record {
  manifest = new_implied "m" ("x" ∷ "d" ∷ []);
  main = archive_of "m";
  dependencies = archive_of "x" ∷ archive_of "d" ∷ [];
}

abbrev filtered_dar : DarFile
filtered_dar = record {
  manifest = new_implied "m" ("d" ∷ []);
  main = archive_of "m";
  dependencies = archive_of "d" ∷ [];
}

all_made : into_dar one_package to_d numbered packages (some "m") false hash ≡ ok all_dar
unfolding into_dar resolve_main_id packages_to_archives package_into_payload archive_name
    archives_to_dar payload_from_bytes minor_try_from kept_packages
all_made = refl

filtered_made : into_dar one_package to_d numbered packages (some "m") true hash ≡ ok filtered_dar
unfolding into_dar resolve_main_id packages_to_archives package_into_payload archive_name
    archives_to_dar payload_from_bytes minor_try_from kept_packages payloads_by_id search_result
    reachable_from collect_referenced_package_ids refs_of
filtered_made = refl

into_dar_all_example :
    (resolve_main_id packages (some "m") ≡ ok all_dar.main.hash)
    × Perm (dar_hashes all_dar) (package_hashes packages)
    × (all_dar.manifest.dalf_main ≡ all_dar.main.name)
    × (all_dar.manifest.dalf_dependencies
        ≡ map (λ (x : DamlLfArchive). x.name) all_dar.dependencies)
into_dar_all_example =
    into_dar_all one_package to_d numbered packages (some "m") hash all_dar all_made

into_dar_filtered_example :
    (payloads : Assoc DamlLfArchivePayload) × (payloads_by_id one_package packages ≡ ok payloads)
    × (resolve_main_id packages (some "m") ≡ ok filtered_dar.main.hash)
    × ((k : String)
        → (contains k (dar_hashes filtered_dar) ≡ true) ↔ (
            (contains k (package_hashes packages) ≡ true)
            × Reaches to_d payloads filtered_dar.main.hash k))
into_dar_filtered_example =
    into_dar_filtered one_package to_d numbered packages (some "m") hash filtered_dar filtered_made
