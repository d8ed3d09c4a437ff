-- ===== src/Util/Packages.antt =====
-- Collections of packages, daml-util/src/package.rs. The store of a participant is a list of
-- packages. Parameters are the protobuf decoder prost, the walk of the visitor over a decoded
-- package (the references that it meets), and the random names of the crate uuid.
pub mod Reach
pub mod Ends
pub mod IntoDar
use Prim.Native.String.{◌++◌}
use rust_daml_bindings.Base.{
  ℕ, zero, suc, ◌+◌, String, Bool, true, false, Option, none, some, List, [], ◌∷◌, ◌++◌ as ◌⋄◌, map,
  length, keep_if, find_first, any_of, first, contains, str_eq, not, if◌then◌else◌, Assoc, lookup,
  insert, Result, ok, err, ◌>>=◌, ok_or, map_results,
}
use rust_daml_bindings.Lf.Error.{DamlLfError, DamlLfResult, lf_error_text}
use rust_daml_bindings.Lf.Payload.{DamlLfArchivePayload, Prost, payload_from_bytes, contains_module}
use rust_daml_bindings.Lf.Archive.{DamlLfArchive, sha256}
use rust_daml_bindings.Lf.Manifest.{new_implied}
use rust_daml_bindings.Lf.DarFile.{DarFile}
use rust_daml_bindings.Grpc.Error.{DamlError, DamlResult, other}

-- The contents of a package, of daml-grpc/src/data/package.rs.
pub record DamlPackage : Type 0 where
  pub payload : List ℕ
  pub hash : String

pub data ArchiveAutoNamingStyle : Type 0 where
  empty hash uuid : ArchiveAutoNamingStyle

-- A name that the visitor meets, with the package id that it carries where it has one.
pub data Reference : Type 0 where
  absolute_tycon : String → Reference
  non_local_tycon : String → Reference
  non_local_value_name : String → Reference
  local_name : Reference

abbrev pub contains_hash : String → List DamlPackage → Bool
contains_hash id ps = any_of (λ (p : DamlPackage). str_eq p.hash id) ps

-- `ReferencedPackagesVisitor::record`, on the set of the ids recorded so far.
record_id : String → List String → String → List String
record_id self_id referenced pkg =
    if str_eq pkg ""
    then referenced
    else if str_eq pkg self_id
    then referenced
    else if contains pkg referenced
    then referenced
    else pkg ∷ referenced

-- The three `pre_visit` methods; other elements record nothing.
visit : String → List String → Reference → List String
unfolding record_id
visit self_id referenced (absolute_tycon pkg) = record_id self_id referenced pkg
visit self_id referenced (non_local_tycon pkg) = record_id self_id referenced pkg
visit self_id referenced (non_local_value_name pkg) = record_id self_id referenced pkg
visit self_id referenced local_name = referenced

visit_all : String → List String → List Reference → List String
unfolding visit
visit_all self_id referenced [] = referenced
visit_all self_id referenced (r ∷ rs) = visit_all self_id (visit self_id referenced r) rs

-- An error of daml-lf on its way into a `DamlError`.
abbrev pub as_daml_error : {A : Type 0} → DamlLfResult A → DamlResult A
as_daml_error (ok a) = ok a
as_daml_error (err e) = err (other (lf_error_text e))

-- `apply` gives the package that it decodes the empty id, and that is the visitor's own package.
abbrev pub Walk : Type 0
Walk = DamlLfArchivePayload → DamlLfResult (List Reference)

unfoldable pub collect_referenced_package_ids :
    Walk → DamlLfArchivePayload → DamlLfResult (List String)
unfolding visit_all
collect_referenced_package_ids walk payload = do rs ← walk payload; ok (visit_all "" [] rs)

-- The breadth-first search of `reachable_from`. A search that runs out of fuel is no result.
pub data Search : Type 0 where
  done : List String → Search
  failed : DamlError → Search
  out_of_fuel : Search

-- The references that are pushed: those that have not been visited.
abbrev pub unvisited : List String → List String → List String
unvisited visited rs = keep_if (λ r. not (contains r visited)) rs

module _ (walk : Walk) where
  -- One round for each package id that is queued: the root, and each reference of each package.
  unfoldable pub rounds : Assoc DamlLfArchivePayload → ℕ
  rounds [] = 1
  rounds ((id, p) ∷ rest) = elim (as_daml_error (collect_referenced_package_ids walk p)) [
    | err e ↦ rounds rest
    | ok rs ↦ length rs + rounds rest
  ]

module _ (walk : Walk) (payloads : Assoc DamlLfArchivePayload) where
  -- The ids that a package refers to, where it is in the map: what one round looks up.
  unfoldable pub refs_of : String → DamlResult (List String)
  refs_of id = elim (lookup id payloads) [
    | none ↦ ok []
    | some p ↦ as_daml_error (collect_referenced_package_ids walk p)
  ]

  -- The `while let` loop: the queue, and the set of visited ids. A package that is not in the map
  -- adds nothing to the queue.
  search_loop : ℕ → List String → List String → Search
  search_loop zero [] visited = done visited
  search_loop zero (id ∷ queue) visited = out_of_fuel
  search_loop (suc fuel) [] visited = done visited
  search_loop (suc fuel) (id ∷ queue) visited = elim (contains id visited) [
    | true ↦ search_loop fuel queue visited
    | false ↦ elim (refs_of id) [
      | err e ↦ failed e
      | ok rs ↦ search_loop fuel (queue ⋄ unvisited (id ∷ visited) rs) (id ∷ visited)
    ]
  ]

  unfoldable pub reachable_from : String → Search
  unfolding search_loop rounds
  reachable_from root = search_loop (rounds walk payloads) (root ∷ []) []
