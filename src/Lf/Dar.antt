-- ===== src/Lf/Dar.antt =====
-- Dar files, daml-lf/src/dar.rs. The zip library is a parameter. A path is read as `std::path` does on
-- a system whose separator is `/`.
pub mod Legacy
pub mod Load
use Prim.Native.Char.{code}
use Prim.Native.String.{◌++◌}
use rust_daml_bindings.Base.{
  ℕ, String, Bool, true, false, Option, none, some, List, [], ◌∷◌, not, ◌||◌, ◌==◌, keep_if, str_eq,
  if◌then◌else◌, Result, ok, err, ◌>>=◌, map_option,
}
use rust_daml_bindings.Base.Text.{lower_eq, split_at, codes, lower, codes_eq}
use rust_daml_bindings.Lf.Error.{DamlLfError, DamlLfResult, dar_parse_error, lf_error_text}
use rust_daml_bindings.Lf.Payload.{Prost}
use rust_daml_bindings.Lf.Archive.{DamlLfArchive, from_bytes_named}
use rust_daml_bindings.Lf.Manifest.{DarManifest, YamlRust, new_implied, parse}
use rust_daml_bindings.Lf.DarFile.{DarFile}

-- What the code uses of an opened zip archive: the names of the entries that can be read by index,
-- and the contents of a named entry, as text and as bytes, with the crate's error.
pub record Zip : Type 0 where
  pub names : List String
  pub read_to_string : String → DamlLfResult String
  pub read_to_end : String → DamlLfResult (List ℕ)

abbrev last : List String → Option String
last [] = none
last (s ∷ ss) = elim (last ss) [ none ↦ some s | some t ↦ some t ]

-- `file_name`: the last component, with empty ones and `.` left out; `..` has no name.
unfoldable pub file_name : String → Option String
file_name path =
    elim (last (keep_if (λ s. not (str_eq s "" || str_eq s ".")) (split_at b'/' path))) [
      | none ↦ none
      | some s ↦ if str_eq s ".." then none else some s
    ]

-- What stands before and after the last dot.
abbrev cut_last : String → Option (String × String)
cut_last String.[] = none
cut_last (String.◌∷◌ c s) =
    let rest = cut_last s in
    elim rest [
      | some p ↦ some (String.◌∷◌ c p.0, p.1)
      | none ↦ if code c == b'.' then some ("", s) else none
    ]

abbrev cut_before : Option (String × String) → Option (String × String)
cut_before none = none
cut_before (some p) = if str_eq p.0 "" then none else some p

-- A file name cut at its last dot, if a dot is there and something stands before it.
unfoldable pub cut_at_dot : String → Option (String × String)
cut_at_dot name = cut_before (cut_last name)

unfoldable pub file_stem : String → Option String
unfolding file_name cut_at_dot
file_stem path = elim (file_name path) [
  | none ↦ none
  | some name ↦ elim (cut_at_dot name) [ none ↦ some name | some p ↦ some p.0 ]
]

unfoldable pub extension : String → Option String
unfolding file_name cut_at_dot
extension path = elim (file_name path) [
  | none ↦ none
  | some name ↦ elim (cut_at_dot name) [ none ↦ none | some p ↦ some p.1 ]
]

unfoldable pub is_dalf : String → Bool
unfolding extension
is_dalf path = elim (extension path) [ none ↦ false | some q ↦ lower_eq q "dalf" ]

-- `to_lowercase().ends_with(…)`, for a lower-case suffix without the letter k.
abbrev ends_with : List ℕ → List ℕ → Bool
ends_with [] t = codes_eq [] t
ends_with (c ∷ s) t = codes_eq (c ∷ s) t || ends_with s t

unfoldable pub is_prim_dalf : String → Bool
unfolding file_stem
is_prim_dalf path = elim (file_stem path) [
  | none ↦ false
  | some p ↦ ends_with (lower (codes p)) (codes "-prim")
]

-- The `match` on the prim paths and the others.
unfoldable pub legacy_paths : List String → List String → DamlLfResult (String × List String)
legacy_paths (p ∷ []) (m ∷ []) = ok (p, m ∷ [])
legacy_paths (p ∷ []) [] = ok (p, [])
legacy_paths [] (m ∷ []) = ok (m, [])
legacy_paths _ _ = err (dar_parse_error "invalid legacy Dar")

unfoldable pub make_manifest_from_archive : List String → DamlLfResult DarManifest
unfolding is_dalf is_prim_dalf legacy_paths new_implied
make_manifest_from_archive paths =
    let dalfs = keep_if is_dalf paths in
    legacy_paths (keep_if is_prim_dalf dalfs) (keep_if (λ d. not (is_prim_dalf d)) dalfs) >>= λ p.
    ok (new_implied p.0 p.1)

module _ (y : YamlRust) (prost : Prost) (zip_archive : Zip) where
  -- `none` where the program panics: see `from_bytes_named`.
  unfoldable pub parse_dalf_from_archive : String → Option (DamlLfResult DamlLfArchive)
  unfolding file_stem
  parse_dalf_from_archive location = elim (zip_archive.read_to_end location) [
    | err e ↦ some (err e)
    | ok buf ↦
        from_bytes_named prost (elim (file_stem location) [ none ↦ "Unnamed" | some s ↦ s ]) buf
  ]

  unfoldable pub parse_dalfs_from_archive : List String → Option (DamlLfResult (List DamlLfArchive))
  unfolding parse_dalf_from_archive
  parse_dalfs_from_archive [] = some (ok [])
  parse_dalfs_from_archive (path ∷ paths) = elim (parse_dalf_from_archive path) [
    | none ↦ none
    | some (err e) ↦ some (err e)
    | some (ok a) ↦ map_option (λ r. r >>= λ rest. ok (a ∷ rest)) (parse_dalfs_from_archive paths)
  ]

  unfoldable pub parse_dar_manifest_from_file : DamlLfResult DarManifest
  unfolding parse
  parse_dar_manifest_from_file =
      zip_archive.read_to_string "META-INF/MANIFEST.MF" >>= λ contents. parse y contents

  -- The manifest, fat or legacy.
  unfoldable pub manifest_of : DamlLfResult DarManifest
  unfolding parse_dar_manifest_from_file make_manifest_from_archive
  manifest_of = elim parse_dar_manifest_from_file [
    | ok manifest ↦ ok manifest
    | err fat_err ↦ elim (make_manifest_from_archive zip_archive.names) [
      | ok manifest ↦ ok manifest
      | err legacy_err ↦ err (
          dar_parse_error (
            "failed to parse dar as either fat ("
            ++ (lf_error_text fat_err ++ (") or legacy (" ++ (lf_error_text legacy_err ++ ")")))))
    ]
  ]

  -- `from_file`, once the file is opened.
  unfoldable pub from_file : Option (DamlLfResult DarFile)
  unfolding manifest_of parse_dalf_from_archive parse_dalfs_from_archive
  from_file = elim manifest_of [
    | err e ↦ some (err e)
    | ok manifest ↦ elim (parse_dalf_from_archive manifest.dalf_main) [
      | none ↦ none
      | some (err e) ↦ some (err e)
      | some (ok main) ↦
          map_option
            (λ r.
              r >>= λ deps. ok (record { manifest = manifest; main = main; dependencies = deps }))
            (parse_dalfs_from_archive manifest.dalf_dependencies)
    ]
  ]
