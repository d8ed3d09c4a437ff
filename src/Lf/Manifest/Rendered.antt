-- ===== src/Lf/Manifest/Rendered.antt =====
-- The text of a rendered manifest is read back, daml-lf/src/manifest.rs, although its long lines are
-- wrapped and YAML folds them with a blank.

use rust_daml_bindings.Base.{
  ℕ, ◌≤◌, String, true, false, List, [], ◌∷◌, ◌++◌, ◌≡◌, refl, ap, sym, subst, ◌∙◌, arith, contains,
  str_eq, both-true, ltb, ok, Option, some, none, lookup, length,
}
use rust_daml_bindings.Base.Text.{codes, is_whitespace, strip_string, join, to_lower}
use rust_daml_bindings.Lf.Manifest.{
  DarManifestVersion, DarManifestFormat, DarEncryptionType, DarManifest, YamlRust, or_else,
  parse_created_by, parse_doc, parse, parse_main, parse_dalfs, parse_format, parse_encryption,
  entries,
}
use rust_daml_bindings.Lf.Manifest.Parse.{HasNoSpace, AllSpaceless}
use rust_daml_bindings.Lf.Manifest.Lossy.{utf8, all_ascii}
use rust_daml_bindings.Lf.Manifest.Wrap.{split_manifest_string}
use rust_daml_bindings.Lf.Manifest.Render.{make_manifest_entry, render}
use rust_daml_bindings.Lf.Manifest.Folded.{
  fold, skip, scalar, value_of, squeeze, squeeze-scalar, squeeze-value_of,
  squeeze-split_manifest_string, split_manifest_string-short, utf8-ascii, codes-strip_string,
  codes_inj,
}
use rust_daml_bindings.Lf.Manifest.Blanks.{other_dalfs-same}
use rust_daml_bindings.Lf.Manifest.RoundTrip.{
  AllCommaFree, others_again, strip_string_self, parse_version-one,
}

-- The text of a scalar, which is null where it is blank.
abbrev pub IsScalar : Option String → List ℕ → Type 0
IsScalar none s = s ≡ []
IsScalar (some t) s = codes t ≡ s

-- The YAML library reads the text that `render` writes for `m` as one document, with each entry but the
-- version as the text of a folded plain scalar; the version may be read as a float. (So no value looks
-- like a number or another kind of YAML value.)
pub record Reads (y : YamlRust) (s : String) (m : DarManifest) : Type 0 where
  pub written : utf8 s ≡ render m
  pub doc : y.Yaml
  pub loaded : y.load_from_str s ≡ ok (doc ∷ [])
  pub version :
      or_else
        (y.as_str (y.at doc "Manifest-Version"))
        (y.as_one_decimal (y.at doc "Manifest-Version"))
      ≡ some "1.0"
  pub values :
      (k v : String)
      → str_eq k "Manifest-Version" ≡ false
      → lookup k (entries m) ≡ some v
      → IsScalar (y.as_str (y.at doc k)) (scalar (value_of (make_manifest_entry k v)))

-- A manifest as a dar file has it: an ASCII one, with a dependency. Its creator fits in one line and has
-- no blanks at its ends; the paths may be of any length, and the main one is not a dependency.
pub record IsPlain (m : DarManifest) : Type 0 where
  pub version : m.version ≡ DarManifestVersion.v1
  pub format : m.format ≡ DarManifestFormat.daml_lf
  pub encryption : m.encryption ≡ DarEncryptionType.not_encrypted
  pub by_ascii : all_ascii (codes m.created_by) ≡ true
  pub by_short : length (codes m.created_by) ≤ 59
  pub by_kept : scalar (32 ∷ codes m.created_by) ≡ codes m.created_by
  pub main_ascii : all_ascii (codes m.dalf_main) ≡ true
  pub main_written : str_eq m.dalf_main "" ≡ false
  pub main_spaceless : HasNoSpace m.dalf_main
  pub others_ascii : all_ascii (codes (join ", " m.dalf_dependencies)) ≡ true
  pub others_spaceless : AllSpaceless m.dalf_dependencies
  pub others_comma_free : AllCommaFree m.dalf_dependencies
  pub main_absent : contains m.dalf_main m.dalf_dependencies ≡ false
  pub others_written : str_eq (strip_string (join ", " m.dalf_dependencies)) "" ≡ false

-- A text is read back up to blanks.
read_stripped :
    (o : Option String) (f : List ℕ) (v : String)
    → IsScalar o f
    → squeeze f ≡ squeeze (codes v)
    → str_eq (strip_string v) "" ≡ false
    → (t : String) × (o ≡ some t) × (strip_string t ≡ strip_string v)
read_stripped none f v h e w =
    let g : codes (strip_string v) ≡ codes "" =
      codes-strip_string v ∙ sym e ∙ ap squeeze h ∙ (unfold squeeze in refl) in
    let k = rw (codes_inj (strip_string v) "" g) at w in cc
read_stripped (some t) f v h e w = (
  t,
  refl,
  codes_inj (strip_string t) (strip_string v)
      (codes-strip_string t ∙ ap squeeze h ∙ e ∙ sym (codes-strip_string v)),
)

all_ascii-append :
    (s t : List ℕ) → all_ascii s ≡ true → all_ascii t ≡ true → all_ascii (s ++ t) ≡ true
all_ascii-append [] t a b = b
all_ascii-append (c ∷ s) t a b =
    let (f, g) = both-true (ltb c 128) (all_ascii s) a in rw (f, all_ascii-append s t g b) refl

abbrev line : String → String → List ℕ
line k v = codes k ++ b':' ∷ b' ' ∷ codes v

module _ (k v : String) (a : all_ascii (codes k) ≡ true) (b : all_ascii (codes v) ≡ true) where
  line_ascii : all_ascii (line k v) ≡ true
  line_ascii = all_ascii-append (codes k) (b':' ∷ b' ' ∷ codes v) a b

  entry_line : make_manifest_entry k v ≡ split_manifest_string (line k v)
  unfolding make_manifest_entry
  entry_line = rw (utf8-ascii k a, utf8-ascii v b) refl

  entry_squeezed :
      squeeze (scalar (value_of (make_manifest_entry k v))) ≡ value_of (squeeze (line k v))
  entry_squeezed =
      squeeze-scalar (value_of (make_manifest_entry k v))
      ∙ squeeze-value_of (make_manifest_entry k v)
      ∙ ap (λ s. value_of (squeeze s)) entry_line
      ∙ ap value_of (squeeze-split_manifest_string (line k v) line_ascii)

-- The text of a creator comes back as it was.
read_created_by : (o : Option String) (v : String) → IsScalar o (codes v) → parse_created_by o ≡ v
unfolding parse_created_by
read_created_by none v h = codes_inj "" v (sym h)
read_created_by (some t) v h = codes_inj t v h

read_exactly :
    (o : Option String) (v : String) → IsScalar o (codes v) → str_eq v "" ≡ false → o ≡ some v
read_exactly none v h w = let e = rw (sym (codes_inj "" v (sym h))) at w in cc
read_exactly (some t) v h w = ap (λ s. some s) (codes_inj t v h)

short_scalar :
    (k v : String)
    → all_ascii (codes k) ≡ true
    → all_ascii (codes v) ≡ true
    → length (line k v) ≤ 71
    → scalar (value_of (make_manifest_entry k v)) ≡ scalar (value_of (line k v))
short_scalar k v a b l =
    ap (λ s. scalar (value_of s))
      (entry_line k v a b ∙ split_manifest_string-short (line k v) (line_ascii k v a b) l)

created_by_scalar :
    (v : String)
    → all_ascii (codes v) ≡ true
    → length (codes v) ≤ 59
    → scalar (32 ∷ codes v) ≡ codes v
    → scalar (value_of (make_manifest_entry "Created-By" v)) ≡ codes v
unfolding value_of
created_by_scalar v a l k = short_scalar "Created-By" v refl a (omega arith) ∙ k

format_scalar : scalar (value_of (make_manifest_entry "Format" "daml-lf")) ≡ codes "daml-lf"
unfolding scalar value_of fold skip
format_scalar = short_scalar "Format" "daml-lf" refl refl (omega arith)

encryption_scalar :
    scalar (value_of (make_manifest_entry "Encryption" "non-encrypted")) ≡ codes "non-encrypted"
unfolding scalar value_of fold skip
encryption_scalar = short_scalar "Encryption" "non-encrypted" refl refl (omega arith)

main_squeezed : (v : String) → value_of (squeeze (line "Main-Dalf" v)) ≡ squeeze (codes v)
unfolding value_of squeeze is_whitespace
main_squeezed v = refl

dalfs_squeezed : (v : String) → value_of (squeeze (line "Dalfs" v)) ≡ squeeze (codes v)
unfolding value_of squeeze is_whitespace
dalfs_squeezed v = refl

module _ (y : YamlRust) (s : String) (m : DarManifest) (h : Reads y s m) (p : IsPlain m) where
  abbrev text_at : String → Option String
  text_at k = y.as_str (y.at h.doc k)

  main_read : parse_main (text_at "Main-Dalf") ≡ ok m.dalf_main
  unfolding parse_main entries
  main_read =
      let self = strip_string_self m.dalf_main p.main_spaceless in
      let (t, o, e) =
        read_stripped (text_at "Main-Dalf") _ m.dalf_main
          (h.values "Main-Dalf" m.dalf_main refl refl)
          (entry_squeezed "Main-Dalf" m.dalf_main refl p.main_ascii ∙ main_squeezed m.dalf_main)
          (rw self p.main_written) in
      rw (o, e, self) refl

  others_read : parse_dalfs m.dalf_main (text_at "Dalfs") ≡ ok m.dalf_dependencies
  unfolding parse_dalfs entries
  others_read =
      let v = join ", " m.dalf_dependencies in
      let (t, o, e) =
        read_stripped (text_at "Dalfs") _ v (h.values "Dalfs" v refl refl)
          (entry_squeezed "Dalfs" v refl p.others_ascii ∙ dalfs_squeezed v) p.others_written in
      let others =
        others_again m.dalf_main m.dalf_dependencies p.others_spaceless p.others_comma_free
          p.main_absent p.others_written in
      rw (o, other_dalfs-same m.dalf_main t v e, others) refl

  created_by_read : parse_created_by (text_at "Created-By") ≡ m.created_by
  unfolding entries
  created_by_read =
      let v = m.created_by in
      read_created_by (text_at "Created-By") v (
        subst (IsScalar (text_at "Created-By"))
          (created_by_scalar v p.by_ascii p.by_short p.by_kept) (h.values "Created-By" v refl refl))

  format_read : text_at "Format" ≡ some "daml-lf"
  unfolding entries
  format_read =
      read_exactly (text_at "Format") "daml-lf"
        (subst (IsScalar (text_at "Format")) format_scalar (h.values "Format" "daml-lf" refl refl))
        refl

  encryption_read : text_at "Encryption" ≡ some "non-encrypted"
  unfolding entries
  encryption_read =
      read_exactly (text_at "Encryption") "non-encrypted"
        (subst (IsScalar (text_at "Encryption")) encryption_scalar
          (h.values "Encryption" "non-encrypted" refl refl))
        refl

pub parse-render :
    (y : YamlRust) (s : String) (m : DarManifest) → Reads y s m → IsPlain m → parse y s ≡ ok m
unfolding parse parse_doc parse_format parse_encryption to_lower
parse-render y s m h p =
    let version =
      parse_version-one (y.as_str (y.at h.doc "Manifest-Version"))
        (y.as_one_decimal (y.at h.doc "Manifest-Version"))
        (y.is_badvalue (y.at h.doc "Manifest-Version")) h.version in
    rw
      (
        parse,
        h.loaded,
        version,
        main_read y s m h p,
        others_read y s m h p,
        format_read y s m h p,
        encryption_read y s m h p,
        created_by_read y s m h p,
      )
      (cc (p.version, p.format, p.encryption))
