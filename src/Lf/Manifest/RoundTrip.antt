-- ===== src/Lf/Manifest/RoundTrip.antt =====
-- The dependencies of a manifest that is rendered and read again, daml-lf/src/manifest.rs.
use Prim.Native.Char.{Char, code}
use Prim.Native.String.{◌++◌ as ◌^^◌}
use text.Mathlib.TextLemmas.{append-nil, nil-append, cons-append}
use rust_daml_bindings.Base.{
  ℕ, String, Bool, false, List, [], ◌∷◌, ◌≡◌, refl, ap, sym, ◌∙◌, arith, any_of, contains, str_eq,
  ok, Bool-cases, inl, inr, ◌==◌, Option, some, none, lookup, if◌then◌else◌,
}
use rust_daml_bindings.Base.Text.{codes, is_whitespace, strip_string, split_at, prepend, join}
use rust_daml_bindings.Lf.Manifest.{
  DarManifestVersion, DarManifest, YamlRust, or_else, other_dalfs, parse_version, entries,
}
use rust_daml_bindings.Lf.Manifest.Parse.{HasNoSpace, AllSpaceless}

abbrev pub IsCommaFree : String → Type 0
IsCommaFree s = any_of (λ c. c == b',') (codes s) ≡ false

-- `split_at` of a text behind a piece without commas.
abbrev onto : String → List String → List String
onto x [] = x ∷ []
onto x (p ∷ ps) = (x ^^ p) ∷ ps

pub split_at-cons :
    (d : ℕ) (s : String) → (p : String) × (ps : List String) × (split_at d s ≡ p ∷ ps)
unfolding split_at
split_at-cons d String.[] = ("", [], refl)
split_at-cons d (String.◌∷◌ c s) =
    let (p, ps, e) = split_at-cons d s in
    elim (Bool-cases (code c == d)) [
      | inl sep ↦ ("", split_at d s, rw sep)
      | inr other ↦ (String.◌∷◌ c p, ps, rw other (rw e))
    ]

split_at-other :
    (c : Char) (s : String)
    → (code c == b',') ≡ false
    → split_at b',' (String.◌∷◌ c s) ≡ prepend c (split_at b',' s)
unfolding split_at
split_at-other c s h = rw h

split_at-append : (x s : String) → IsCommaFree x → split_at b',' (x ^^ s) ≡ onto x (split_at b',' s)
split_at-append String.[] s h =
    let (p, ps, e) = split_at-cons b',' s in rw (nil-append, e, nil-append) refl
split_at-append (String.◌∷◌ c x) s h =
    let (p, ps, e) = split_at-cons b',' s in
    let ih = split_at-append x s (ground arith) in
    let other : (code c == b',') ≡ false = ground arith in
    rw (cons-append, split_at-other c (x ^^ s) other, ih, e, cons-append) refl

pub strip_string_self : (s : String) → HasNoSpace s → strip_string s ≡ s
unfolding strip_string
strip_string_self String.[] h = refl
strip_string_self (String.◌∷◌ c s) h =
    let ih = strip_string_self s (ground arith) in
    let other : is_whitespace (code c) ≡ false = ground arith in rw (other, ih) refl

-- A blank before a piece is stripped with it.
other_dalfs-prepend :
    (main p : String) (ps : List String)
    → other_dalfs main (prepend " " (p ∷ ps)) ≡ other_dalfs main (p ∷ ps)
unfolding other_dalfs strip_string is_whitespace
other_dalfs-prepend main p ps = refl

break_lem : (s : String) → ", " ^^ s ≡ String.◌∷◌ "," (String.◌∷◌ " " s)
break_lem s =
    cons-append "," " " s
    ∙ ap (λ t. String.◌∷◌ "," t) (cons-append " " "" s ∙ ap (λ t. String.◌∷◌ " " t) (nil-append s))

split_at-break :
    (s : String)
    → split_at b',' (String.◌∷◌ "," (String.◌∷◌ " " s)) ≡ "" ∷ prepend " " (split_at b',' s)
unfolding split_at
split_at-break s = refl

other_dalfs-cons :
    (main x : String) (ps : List String)
    → HasNoSpace x
    → str_eq x main ≡ false
    → other_dalfs main (x ∷ ps) ≡ x ∷ other_dalfs main ps
unfolding other_dalfs
other_dalfs-cons main x ps h ne = let e = strip_string_self x h in rw e (rw ne)

abbrev pub AllCommaFree : List String → Type 0
AllCommaFree [] = Unit
AllCommaFree (s ∷ rest) = IsCommaFree s × AllCommaFree rest

split_at-single : (x : String) → IsCommaFree x → split_at b',' x ≡ x ∷ []
unfolding split_at
split_at-single x h =
    ap (split_at b',') (sym (append-nil x))
    ∙ split_at-append x "" h
    ∙ ap (λ t. t ∷ []) (append-nil x)

-- The first piece of a joined list, and the rest behind a blank.
split_at-step :
    (x s : String)
    → IsCommaFree x
    → split_at b',' (x ^^ (", " ^^ s)) ≡ x ∷ prepend " " (split_at b',' s)
split_at-step x s h =
    rw (break_lem s, split_at-append x (String.◌∷◌ "," (String.◌∷◌ " " s)) h, split_at-break s)
      (rw append-nil refl)

other_dalfs-join :
    (main x : String) (rest : List String)
    → AllSpaceless (x ∷ rest)
    → AllCommaFree (x ∷ rest)
    → contains main (x ∷ rest) ≡ false
    → other_dalfs main (split_at b',' (join ", " (x ∷ rest))) ≡ x ∷ rest
unfolding join
other_dalfs-join main x [] h k c =
    rw (split_at-single x k.0)
      (other_dalfs-cons main x [] h.0 (ground arith) ∙ (unfold other_dalfs in refl))
other_dalfs-join main x (y ∷ rest) h k c =
    let j = join ", " (y ∷ rest) in
    let (p, ps, e) = split_at-cons b',' j in
    let ih = other_dalfs-join main y rest h.1 k.1 (ground arith) in
    rw (split_at-step x j k.0) (
      other_dalfs-cons main x (prepend " " (split_at b',' j)) h.0 (ground arith)
      ∙ ap (λ t. x ∷ t) (rw e (other_dalfs-prepend main p ps) ∙ (rw e at ih)))

-- How YAML reads a plain value: one that is blank is null, and no text.
abbrev pub as_text : Option String → Option String
as_text none = none
as_text (some s) = if str_eq s "" then none else some s

-- The document holds the entries that `render` writes for `m`. The version may be read as a float.
pub record Holds (y : YamlRust) (doc : y.Yaml) (m : DarManifest) : Type 0 where
  pub version :
      or_else
        (y.as_str (y.at doc "Manifest-Version"))
        (y.as_one_decimal (y.at doc "Manifest-Version"))
      ≡ lookup "Manifest-Version" (entries m)
  pub values :
      (k : String)
      → str_eq k "Manifest-Version" ≡ false
      → y.as_str (y.at doc k) ≡ as_text (lookup k (entries m))

pub others_again :
    (main : String) (ds : List String)
    → AllSpaceless ds
    → AllCommaFree ds
    → contains main ds ≡ false
    → str_eq (strip_string (join ", " ds)) "" ≡ false
    → other_dalfs main (split_at b',' (join ", " ds)) ≡ ds
unfolding strip_string join
others_again main [] h k c w = cc
others_again main (x ∷ rest) h k c w = other_dalfs-join main x rest h k c

pub parse_version-one :
    (t f : Option String) (bad : Bool)
    → or_else t f ≡ some "1.0"
    → parse_version t f bad ≡ ok DarManifestVersion.v1
unfolding parse_version
parse_version-one t f bad h = rw (h, parse_version)
