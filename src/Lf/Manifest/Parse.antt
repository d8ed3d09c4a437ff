-- ===== src/Lf/Manifest/Parse.antt =====
-- What `DarManifest::parse` accepts, daml-lf/src/manifest.rs.
use Prim.Native.Char.{code}
use mathlib.Core.Path.{subst₂, sym}
use rust_daml_bindings.Base.{
  String, false, List, [], ◌∷◌, ◌≡◌, refl, arith, any_of, contains, ok, err, Bool-cases,
  Option-cases, inl, inr, some, Result,
}
use rust_daml_bindings.Base.Text.{codes, is_whitespace, strip_string, split_at}
use rust_daml_bindings.Lf.Manifest.{
  DarManifest, YamlRust, other_dalfs, parse_main, parse_dalfs, parse_doc, parse,
}

abbrev pub HasNoSpace : String → Type 0
HasNoSpace s = any_of is_whitespace (codes s) ≡ false

abbrev pub AllSpaceless : List String → Type 0
AllSpaceless [] = Unit
AllSpaceless (s ∷ rest) = HasNoSpace s × AllSpaceless rest

pub strip_string-HasNoSpace : (s : String) → HasNoSpace (strip_string s)
unfolding strip_string
strip_string-HasNoSpace String.[] = refl
strip_string-HasNoSpace (String.◌∷◌ c s) = elim (Bool-cases (is_whitespace (code c))) [
  | inl e ↦ rw e (strip_string-HasNoSpace s)
  | inr e ↦ rw e (rw e (strip_string-HasNoSpace s))
]

-- A manifest as the parser leaves it.
pub record IsStripped (m : DarManifest) : Type 0 where
  pub main_spaceless : HasNoSpace m.dalf_main
  pub others_spaceless : AllSpaceless m.dalf_dependencies
  pub main_absent : contains m.dalf_main m.dalf_dependencies ≡ false

other_dalfs-AllSpaceless :
    (main : String) (pieces : List String) → AllSpaceless (other_dalfs main pieces)
unfolding other_dalfs
other_dalfs-AllSpaceless main [] = tt
other_dalfs-AllSpaceless main (p ∷ ps) =
    ground (arith, other_dalfs-AllSpaceless main ps, strip_string-HasNoSpace p)

other_dalfs-main_absent :
    (main : String) (pieces : List String) → contains main (other_dalfs main pieces) ≡ false
unfolding other_dalfs
other_dalfs-main_absent main [] = refl
other_dalfs-main_absent main (p ∷ ps) = ground (arith, other_dalfs-main_absent main ps)

module _ (y : YamlRust) where
  open y use {Yaml, at, as_str}

  -- Where the names of an accepted manifest come from.
  pub parse_doc-fields :
      (doc : Yaml) (m : DarManifest)
      → parse_doc y doc ≡ ok m
      → (t d : String) × (as_str (at doc "Main-Dalf") ≡ some t)
        × (as_str (at doc "Dalfs") ≡ some d)
        × (m.dalf_main ≡ strip_string t)
        × (m.dalf_dependencies ≡ other_dalfs (strip_string t) (split_at b',' d))
  unfolding parse_doc parse_main parse_dalfs
  parse_doc-fields doc m h = elim (Option-cases (as_str (at doc "Main-Dalf"))) [
    | inl e ↦ absurd (ground arith)
    | inr (t, e) ↦ elim (Option-cases (as_str (at doc "Dalfs"))) [
      | inl e' ↦ absurd (ground arith)
      | inr (d, e') ↦ (t, d, e, e', ground arith, ground arith)
    ]
  ]

  parse_doc-IsStripped : (doc : Yaml) (m : DarManifest) → parse_doc y doc ≡ ok m → IsStripped m
  parse_doc-IsStripped doc m h =
      let (t, d, _, _, e, e') = parse_doc-fields doc m h in
      record {
        main_spaceless = rw e (strip_string-HasNoSpace t);
        others_spaceless = rw e' (other_dalfs-AllSpaceless (strip_string t) (split_at b',' d));
        main_absent =
            subst₂ (λ x xs. contains x xs ≡ false) (sym e) (sym e')
              (other_dalfs-main_absent (strip_string t) (split_at b',' d));
      }

-- Whatever the YAML library gives back, an accepted manifest has names without whitespace, and its
-- dependencies do not name the main archive.
pub parse-IsStripped :
    (y : YamlRust) (text : String) (m : DarManifest) → parse y text ≡ ok m → IsStripped m
unfolding parse
parse-IsStripped y text m h = go (y.load_from_str text) refl
  where
    go : (r : Result String (List y.Yaml)) → y.load_from_str text ≡ r → IsStripped m
    go (err e) p = absurd (cc (rw (p, parse) at h))
    go (ok []) p = absurd (cc (rw (p, parse) at h))
    go (ok (doc ∷ docs)) p = parse_doc-IsStripped y doc m (rw (p, parse) at h)
