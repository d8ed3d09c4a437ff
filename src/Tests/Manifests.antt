-- ===== src/Tests/Manifests.antt =====
-- Runs of the claims about manifests that are rendered, with a line that is wrapped.

use rust_daml_bindings.Base.{
  if◌then◌else◌, sym, ◌≡◌, refl, arith, String, Bool, true, false, Option, none, some, List, [],
  ◌∷◌, ok, lookup, str_eq, str_eq_iff, Bool-cases, inl, inr, some_inj, subst,
}
use rust_daml_bindings.Base.Text.{join, strip_string, is_whitespace}
use rust_daml_bindings.Lf.Manifest.{
  DarManifest, DarManifestVersion, DarManifestFormat, DarEncryptionType, YamlRust, entries, parse,
}
use rust_daml_bindings.Lf.Manifest.Lossy.{utf8, utf8_of, from_utf8_lossy, lossy, next, first_byte}
use rust_daml_bindings.Lf.Manifest.Wrap.{split_manifest_string, wrap, chunks, fill, push, continued}
use rust_daml_bindings.Lf.Manifest.Render.{make_manifest_entry, render}
use rust_daml_bindings.Lf.Manifest.Folded.{scalar, value_of, fold, skip}
use rust_daml_bindings.Lf.Manifest.Rendered.{IsScalar, Reads, IsPlain, parse-render}
use rust_daml_bindings.Lf.Manifest.Parse.{IsStripped, parse-IsStripped}

abbrev long_main : DarManifest
long_main = record {
  version = DarManifestVersion.v1;
  created_by = "damlc 2.0";
  dalf_main =
      "TestingTypes-1.0.0-6c314cb04bcb26cb62aa6ebf0f8ed4bdc3cbf709847be908c9920df5574daacc/TestingTypes-1.0.0.dalf";
  dalf_dependencies = "a.dalf" ∷ "b.dalf" ∷ [];
  format = DarManifestFormat.daml_lf;
  encryption = DarEncryptionType.not_encrypted;
}

abbrev rendered : String
rendered =
    "Manifest-Version: 1.0\nCreated-By: damlc 2.0\nMain-Dalf: TestingTypes-1.0.0-6c314cb04bcb26cb62aa6ebf0f8ed4bdc3cbf7098\n 47be908c9920df5574daacc/TestingTypes-1.0.0.dalf\nDalfs: a.dalf, b.dalf\nFormat: daml-lf\nEncryption: non-encrypted"

-- What YAML reads: the second line of the main path is folded with a blank.
abbrev folded : List (String × String)
folded =
    ("Manifest-Version", "1.0")
    ∷ ("Created-By", "damlc 2.0")
    ∷ (
      "Main-Dalf",
      "TestingTypes-1.0.0-6c314cb04bcb26cb62aa6ebf0f8ed4bdc3cbf7098 47be908c9920df5574daacc/TestingTypes-1.0.0.dalf",
    )
    ∷ ("Dalfs", "a.dalf, b.dalf")
    ∷ ("Format", "daml-lf")
    ∷ ("Encryption", "non-encrypted")
    ∷ []

abbrev value_at : String → List (String × String) → List String
value_at k [] = []
value_at k ((j, t) ∷ ts) = if str_eq j k then t ∷ [] else value_at k ts

-- A document is the list of its entries, a value is one text or none.
abbrev Node : Type 0
Node = List (String × String) × List String

abbrev first_text : List String → Option String
first_text [] = none
first_text (v ∷ vs) = some v

abbrev no_text : List String → Bool
no_text [] = true
no_text (v ∷ vs) = false

abbrev folded_yaml : YamlRust
folded_yaml = record {
  Yaml = Node;
  load_from_str = λ s. ok ((folded, []) ∷ []);
  at = λ n k. ([], value_at k n.0);
  as_str = λ n. first_text n.1;
  as_one_decimal = λ n. none;
  is_badvalue = λ n. no_text n.1;
}

-- Entry by entry, the texts are those of the folded scalars.
abbrev AreFolded : List (String × String) → List (String × String) → Type 0
AreFolded [] [] = Unit
AreFolded ((k, v) ∷ es) ((j, t) ∷ ts) =
    (k ≡ j) × IsScalar (some t) (scalar (value_of (make_manifest_entry k v))) × AreFolded es ts
AreFolded es ts = ⊥

folded_at :
    (es ts : List (String × String))
    → AreFolded es ts
    → (k v : String) → lookup k es ≡ some v
    → IsScalar (first_text (value_at k ts)) (scalar (value_of (make_manifest_entry k v)))
folded_at [] [] h k v e = cc
folded_at [] (t ∷ ts) h k v e = elim h [ ]
folded_at (a ∷ es) [] h k v e = elim h [ ]
folded_at ((i, w) ∷ es) ((j, t) ∷ ts) (q, r, h) k v e = elim (Bool-cases (str_eq i k)) [
  | inl f ↦
      let g = subst (λ n. str_eq n k ≡ true) q f in
      let w_eq : w ≡ v = some_inj (rw f at e) in
      let renamed =
        subst (λ n. IsScalar (some t) (scalar (value_of (make_manifest_entry n w))))
          ((str_eq_iff i k).0 f) r in
      let here : value_at k ((j, t) ∷ ts) ≡ t ∷ [] = rw g refl in
      subst (λ vs. IsScalar (first_text vs) (scalar (value_of (make_manifest_entry k v))))
        (sym here)
        (subst (λ n. IsScalar (some t) (scalar (value_of (make_manifest_entry k n)))) w_eq renamed)
  | inr f ↦
      let g = subst (λ n. str_eq n k ≡ false) q f in
      let later : value_at k ((j, t) ∷ ts) ≡ value_at k ts = rw g refl in
      subst (λ vs. IsScalar (first_text vs) (scalar (value_of (make_manifest_entry k v))))
        (sym later) (folded_at es ts h k v (rw f at e))
]

folded-AreFolded : AreFolded (entries long_main) folded
unfolding entries join make_manifest_entry split_manifest_string utf8 utf8_of wrap chunks fill push
    continued from_utf8_lossy lossy next first_byte scalar value_of fold skip
folded-AreFolded =
    (refl, refl, (refl, refl, (refl, refl, (refl, refl, (refl, refl, (refl, refl, tt))))))

rendered_lem : utf8 rendered ≡ render long_main
unfolding render entries join make_manifest_entry split_manifest_string utf8 utf8_of wrap chunks
    fill push continued from_utf8_lossy lossy next first_byte
rendered_lem = refl

rendered-Reads : Reads folded_yaml rendered long_main
rendered-Reads = record {
  written = rendered_lem;
  doc = (folded, []);
  loaded = refl;
  version = refl;
  values = λ k v n h. folded_at (entries long_main) folded folded-AreFolded k v h;
}

long_main-IsPlain : IsPlain long_main
unfolding strip_string is_whitespace join scalar fold skip
long_main-IsPlain = record {
  version = refl;
  format = refl;
  encryption = refl;
  by_ascii = refl;
  by_short = omega arith;
  by_kept = refl;
  main_ascii = refl;
  main_written = refl;
  main_spaceless = refl;
  others_ascii = refl;
  others_spaceless = (refl, (refl, tt));
  others_comma_free = (refl, (refl, tt));
  main_absent = refl;
  others_written = refl;
}

long_main_parsed : parse folded_yaml rendered ≡ ok long_main
long_main_parsed = parse-render folded_yaml rendered long_main rendered-Reads long_main-IsPlain

parse-IsStripped_example : IsStripped long_main
parse-IsStripped_example = parse-IsStripped folded_yaml rendered long_main long_main_parsed
