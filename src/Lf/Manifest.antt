-- ===== src/Lf/Manifest.antt =====
-- Manifests of dar files, daml-lf/src/manifest.rs. The YAML library yaml-rust2 is a parameter.
pub mod Lossy
pub mod Wrap
pub mod Parse
pub mod Render
pub mod Folded
pub mod RoundTrip
pub mod Blanks
pub mod Rendered
use Prim.Native.String.{◌++◌}
use rust_daml_bindings.Base.{
  String, Bool, true, false, Option, none, some, List, [], ◌∷◌, first, str_eq, if◌then◌else◌,
  Result, ok, err, ◌>>=◌, ok_or,
}
use rust_daml_bindings.Base.Text.{lower_eq, strip_string, split_at, join}
use rust_daml_bindings.Lf.Error.{DamlLfResult, dar_parse_error}

pub data DarManifestVersion : Type 0 where
  unknown v1 : DarManifestVersion

pub data DarManifestFormat : Type 0 where
  unknown daml_lf : DarManifestFormat

pub data DarEncryptionType : Type 0 where
  unknown not_encrypted : DarEncryptionType

pub record DarManifest : Type 0 where
  pub version : DarManifestVersion
  pub created_by : String
  pub dalf_main : String
  pub dalf_dependencies : List String
  pub format : DarManifestFormat
  pub encryption : DarEncryptionType

unfoldable pub new_implied : String → List String → DarManifest
new_implied dalf_main dalf_dependencies = record {
  version = DarManifestVersion.unknown;
  created_by = "implied";
  dalf_main = dalf_main;
  dalf_dependencies = dalf_dependencies;
  format = DarManifestFormat.unknown;
  encryption = DarEncryptionType.unknown;
}

-- What the parser uses of yaml-rust2: loading, `doc[key]`, `as_str`, `as_f64` printed with one
-- decimal place, and `is_badvalue`.
pub record YamlRust : Type 1 where
  pub Yaml : Type 0
  pub load_from_str : String → Result String (List Yaml)
  pub at : Yaml → String → Yaml
  pub as_str : Yaml → Option String
  pub as_one_decimal : Yaml → Option String
  pub is_badvalue : Yaml → Bool

-- `a.or_else(|| b)`.
abbrev pub or_else : Option String → Option String → Option String
or_else (some s) b = some s
or_else none b = b

-- The manifest version, from the three readings of its value.
unfoldable pub parse_version :
    Option String → Option String → Bool → DamlLfResult DarManifestVersion
parse_version text float bad = elim (or_else text float) [
  | some s ↦
      if str_eq s "1.0"
      then ok DarManifestVersion.v1
      else err (dar_parse_error ("unexpected value for Manifest-Version, found " ++ s))
  | none ↦
      if bad
      then ok DarManifestVersion.unknown
      else err (dar_parse_error "unexpected value for Manifest-Version")
]

-- The pieces of the attribute `Dalfs` other than the main one.
unfoldable pub other_dalfs : String → List String → List String
other_dalfs main [] = []
other_dalfs main (dalf ∷ rest) =
    let stripped = strip_string dalf in
    let others = other_dalfs main rest in if str_eq stripped main then others else stripped ∷ others

unfoldable pub parse_dalfs : String → Option String → DamlLfResult (List String)
unfolding other_dalfs
parse_dalfs main (some s) = ok (other_dalfs main (split_at b',' s))
parse_dalfs main none = err (dar_parse_error "key Dalfs not found")

unfoldable pub parse_main : Option String → DamlLfResult String
parse_main (some s) = ok (strip_string s)
parse_main none = err (dar_parse_error "key Main-Dalf not found")

unfoldable pub parse_format : Option String → DamlLfResult DarManifestFormat
parse_format (some s) =
    if lower_eq s "daml-lf"
    then ok DarManifestFormat.daml_lf
    else err (dar_parse_error ("unexpected value for Format, found " ++ s))
parse_format none = err (dar_parse_error "key Format not found")

unfoldable pub parse_encryption : Option String → DamlLfResult DarEncryptionType
parse_encryption (some s) =
    if lower_eq s "non-encrypted"
    then ok DarEncryptionType.not_encrypted
    else err (dar_parse_error ("unexpected value for Encryption, found " ++ s))
parse_encryption none = err (dar_parse_error "key Encryption not found")

-- `map_or_else(|| "", |s| s)`.
unfoldable pub parse_created_by : Option String → String
parse_created_by none = ""
parse_created_by (some s) = s

module _ (y : YamlRust) where
  open y use {Yaml, load_from_str, at, as_str, as_one_decimal, is_badvalue}

  -- The fields of a document, in the order in which the code reads them.
  unfoldable pub parse_doc : Yaml → DamlLfResult DarManifest
  parse_doc doc = do
    version ←
        parse_version (as_str (at doc "Manifest-Version"))
          (as_one_decimal (at doc "Manifest-Version")) (is_badvalue (at doc "Manifest-Version"))
    main ← parse_main (as_str (at doc "Main-Dalf"))
    others ← parse_dalfs main (as_str (at doc "Dalfs"))
    format ← parse_format (as_str (at doc "Format"))
    encryption ← parse_encryption (as_str (at doc "Encryption"))
    ok (record {
      version = version;
      created_by = parse_created_by (as_str (at doc "Created-By"));
      dalf_main = main;
      dalf_dependencies = others;
      format = format;
      encryption = encryption;
    })

  unfoldable pub parse : String → DamlLfResult DarManifest
  unfolding parse_doc
  parse manifest = elim (load_from_str manifest) [
    | err m ↦ err (dar_parse_error m)
    | ok docs ↦ do
      doc ← ok_or (dar_parse_error "unexpected manifest format") (first docs)
      parse_doc doc
  ]

-- `Display` of the three enumerations.
unfoldable pub version_text : DarManifestVersion → String
version_text _ = "1.0"

unfoldable pub format_text : DarManifestFormat → String
format_text _ = "daml-lf"

unfoldable pub encryption_text : DarEncryptionType → String
encryption_text _ = "non-encrypted"

-- The keys and values that `render` writes, in its order.
unfoldable pub entries : DarManifest → List (String × String)
unfolding version_text format_text encryption_text
entries m =
    ("Manifest-Version", version_text m.version)
    ∷ ("Created-By", m.created_by)
    ∷ ("Main-Dalf", m.dalf_main)
    ∷ ("Dalfs", join ", " m.dalf_dependencies)
    ∷ ("Format", format_text m.format)
    ∷ ("Encryption", encryption_text m.encryption)
    ∷ []
