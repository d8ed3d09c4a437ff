-- ===== src/Tests/Archives.antt =====
-- Runs of the claims about manifests, payloads, archives and dar files.
use Prim.Native.Char.{code}
use Prim.Native.String.{◌++◌}
use rust_daml_bindings.Base.{
  ℕ, zero, suc, ltb, if◌then◌else◌, ◌≡◌, ◌↔◌, ◌&&◌, refl, String, Bool, true, false, Option, none,
  some, List, [], ◌∷◌, ok, err, contains, keep_if, lookup,
}
use rust_daml_bindings.Base.Int.{pos}
use rust_daml_bindings.Base.Text.{codes, split_at, to_lower}
use rust_daml_bindings.Lf.Error.{dar_parse_error}
use rust_daml_bindings.Lf.Version.{minor_try_from, v1, lv2}
use rust_daml_bindings.Lf.Proto.{Package}
use rust_daml_bindings.Lf.Payload.{Prost, DamlLfArchivePayload, daml_lf2, payload_from_bytes}
use rust_daml_bindings.Lf.Archive.{
  DamlLfArchive, sha256, sanitized_name, from_bytes_named, decode_parts, hash_function_of, rfind,
  starts_with, slice_to, len_utf8,
}
use rust_daml_bindings.Lf.Archive.Name.{sanitized_name-append}
use rust_daml_bindings.Lf.Manifest.{
  DarManifest, DarManifestVersion, DarManifestFormat, DarEncryptionType, YamlRust, new_implied,
  entries,
}
use rust_daml_bindings.Lf.Manifest.RoundTrip.{as_text}
use rust_daml_bindings.Lf.Manifest.Wrap.{split_manifest_string, wrap, chunks}
use rust_daml_bindings.Lf.Manifest.Lossy.{from_utf8_lossy, lossy, next, first_byte}
use rust_daml_bindings.Lf.Manifest.Wrap.Lines.{
  LinesFit, unwrap, split_manifest_string-LinesFit, unwrap-split_manifest_string,
}
use rust_daml_bindings.Lf.DarFile.{DarFile}
use rust_daml_bindings.Lf.Dar.{
  Zip, is_dalf, is_prim_dalf, legacy_paths, extension, file_stem, file_name, cut_at_dot,
  manifest_of, parse_dalfs_from_archive, make_manifest_from_archive, parse_dalf_from_archive,
  parse_dar_manifest_from_file, from_file,
}
use rust_daml_bindings.Lf.Dar.Legacy.{make_manifest_from_archive-eq-ok}
use rust_daml_bindings.Lf.Dar.Load.{from_file_iff, IsManifest, AreAt}

-- A document is the list of its entries, a value is one entry; a blank value is null.
abbrev entry_at : String → Option String → List (String × String)
entry_at k none = []
entry_at k (some v) = (k, v) ∷ []

abbrev entry_text : List (String × String) → Option String
entry_text [] = none
entry_text ((k, v) ∷ rest) = as_text (some v)

abbrev is_empty : List (String × String) → Bool
is_empty [] = true
is_empty (e ∷ rest) = false

abbrev two_dalfs : DarManifest
two_dalfs = record {
  version = DarManifestVersion.v1;
  created_by = "daml";
  dalf_main = "a.dalf";
  dalf_dependencies = "b.dalf" ∷ "c.dalf" ∷ [];
  format = DarManifestFormat.daml_lf;
  encryption = DarEncryptionType.not_encrypted;
}

abbrev one_dalf : DarManifest
one_dalf = record two_dalfs { dalf_dependencies = [] }

abbrev entry_yaml : YamlRust
entry_yaml = record {
  Yaml = List (String × String);
  load_from_str = λ s. ok (entries two_dalfs ∷ []);
  at = λ doc k. entry_at k (lookup k doc);
  as_str = entry_text;
  as_one_decimal = λ doc. none;
  is_badvalue = is_empty;
}

-- A line of the usual length, which is wrapped.
abbrev long_line : List ℕ
long_line =
    codes
      "Main-Dalf: TestingTypes-1.0.0-6c314cb04bcb26cb62aa6ebf0f8ed4bdc3cbf709847be908c9920df/T.dalf"

split_manifest_string-LinesFit_example : LinesFit 72 (split_manifest_string long_line)
split_manifest_string-LinesFit_example = split_manifest_string-LinesFit long_line refl refl

unwrap-split_manifest_string_example : unwrap (split_manifest_string long_line) ≡ long_line
unwrap-split_manifest_string_example = unwrap-split_manifest_string long_line refl refl

-- Two bytes of one character on both sides of a break are lost.
abbrev as_many : ℕ → List ℕ → List ℕ
as_many zero s = s
as_many (suc n) s = 97 ∷ as_many n s

cut_character :
    split_manifest_string (as_many 70 (0xc3 ∷ 0xa9 ∷ []))
    ≡ as_many 70 (0xef ∷ 0xbf ∷ 0xbd ∷ 10 ∷ 32 ∷ 0xef ∷ 0xbf ∷ 0xbd ∷ [])
unfolding split_manifest_string wrap chunks from_utf8_lossy lossy next first_byte
cut_character = refl

abbrev main_package : Package
main_package = record {
  modules =
      record {
        name_interned_dname = pos 0;
        flags = none;
        synonyms = [];
        data_types = [];
        templates = [];
        exceptions = [];
        interfaces = [];
      }
      ∷ [];
  interned_strings = "Main" ∷ "Sub" ∷ [];
  interned_dotted_names = (pos 0 ∷ pos 1 ∷ []) ∷ [];
  metadata = none;
  interned_types = [];
  interned_kinds = [];
}

abbrev pub main_payload : DamlLfArchivePayload
main_payload = record { language_version = lv2 v1; lf_package = main_package }

sanitized_name-append_example :
    sanitized_name ("lib" ++ String.◌∷◌ "-" "abc") "abc"
    ≡ (if ltb (code "-") 128 then some "lib" else none)
sanitized_name-append_example = sanitized_name-append "lib" "abc" "-"

-- Every file decodes to the one package; a zip archive without a manifest.
abbrev pub one_package : Prost
one_package = record {
  decode_archive = λ b. ok (record { hash_function = pos 0; payload = []; hash = "abc" });
  decode_envelope = λ b. ok (record { minor = "1"; sum = some (daml_lf2 []) });
  decode_package = λ b. ok main_package;
}

abbrev legacy_zip : Zip
legacy_zip = record {
  names = "x/a-abc.dalf" ∷ "x/b-prim.dalf" ∷ [];
  read_to_string = λ s. err (dar_parse_error "no manifest");
  read_to_end = λ s. ok [];
}

abbrev legacy_manifest : DarManifest
legacy_manifest = new_implied "x/b-prim.dalf" ("x/a-abc.dalf" ∷ [])

legacy_manifest_made : make_manifest_from_archive legacy_zip.names ≡ ok legacy_manifest
unfolding split_at to_lower make_manifest_from_archive legacy_paths is_dalf is_prim_dalf extension
    file_stem file_name cut_at_dot new_implied
legacy_manifest_made = refl

make_manifest_from_archive-eq-ok_example :
    (contains "x/b-prim.dalf" (keep_if is_dalf legacy_zip.names)
      ≡ contains "x/b-prim.dalf" (legacy_manifest.dalf_main ∷ legacy_manifest.dalf_dependencies))
    × ((contains "x/b-prim.dalf" (keep_if is_dalf legacy_zip.names) && is_prim_dalf "x/b-prim.dalf")
          ≡ true
        → "x/b-prim.dalf" ≡ legacy_manifest.dalf_main)
make_manifest_from_archive-eq-ok_example =
    make_manifest_from_archive-eq-ok legacy_zip.names legacy_manifest legacy_manifest_made
      "x/b-prim.dalf"

abbrev archive_named : String → DamlLfArchive
archive_named name = record {
  name = name;
  payload = main_payload;
  hash_function = sha256;
  hash = "abc";
}

abbrev legacy_dar : DarFile
legacy_dar = record {
  manifest = legacy_manifest;
  main = archive_named "b-prim";
  dependencies = archive_named "a" ∷ [];
}

legacy_dar_loaded : from_file entry_yaml one_package legacy_zip ≡ some (ok legacy_dar)
unfolding split_at to_lower make_manifest_from_archive legacy_paths is_dalf is_prim_dalf extension
    file_stem file_name cut_at_dot new_implied from_file manifest_of parse_dar_manifest_from_file
    parse_dalf_from_archive parse_dalfs_from_archive from_bytes_named decode_parts hash_function_of
    sanitized_name rfind starts_with slice_to len_utf8 payload_from_bytes minor_try_from
legacy_dar_loaded = refl

from_file_iff_example : (from_file entry_yaml one_package legacy_zip ≡ some (ok legacy_dar)) ↔ (
    IsManifest entry_yaml one_package legacy_zip legacy_dar.manifest
    × (parse_dalf_from_archive entry_yaml one_package legacy_zip legacy_dar.manifest.dalf_main
        ≡ some (ok legacy_dar.main))
    × AreAt entry_yaml one_package legacy_zip legacy_dar.manifest.dalf_dependencies
        legacy_dar.dependencies)
from_file_iff_example = from_file_iff entry_yaml one_package legacy_zip legacy_dar

abbrev empty_zip : Zip
empty_zip = record legacy_zip { names = [] }

no_manifest :
    parse_dar_manifest_from_file entry_yaml one_package empty_zip
    ≡ err (dar_parse_error "no manifest")
unfolding parse_dar_manifest_from_file
no_manifest = refl

no_paths : make_manifest_from_archive empty_zip.names ≡ err (dar_parse_error "invalid legacy Dar")
unfolding make_manifest_from_archive legacy_paths
no_paths = refl
