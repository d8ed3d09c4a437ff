-- ===== src/Lf/Manifest/Blanks.antt =====
-- Blanks in the list of the dependencies of a manifest do not matter, `parse` of daml-lf/src/manifest.rs.
use Prim.Native.Char.{code}
use rust_daml_bindings.Base.{
  ℕ, String, List, [], ◌∷◌, ◌≡◌, refl, ap, sym, ◌∙◌, arith, ◌==◌, true, false, Bool-cases, inl, inr,
}
use rust_daml_bindings.Base.Text.{is_whitespace, strip_string, split_at}
use rust_daml_bindings.Lf.Manifest.{other_dalfs}
use rust_daml_bindings.Lf.Manifest.Parse.{strip_string-HasNoSpace}
use rust_daml_bindings.Lf.Manifest.RoundTrip.{split_at-cons, strip_string_self}

-- The pieces of a text are stripped, so that its blanks do not matter.
stripped : List String → List String
stripped [] = []
stripped (p ∷ ps) = strip_string p ∷ stripped ps

strip_string_again : (s : String) → strip_string (strip_string s) ≡ strip_string s
strip_string_again s = strip_string_self (strip_string s) (strip_string-HasNoSpace s)

other_dalfs-stripped :
    (main : String) (ps : List String) → other_dalfs main (stripped ps) ≡ other_dalfs main ps
unfolding stripped other_dalfs
other_dalfs-stripped main [] = refl
other_dalfs-stripped main (p ∷ ps) = rw (other_dalfs-stripped main ps, strip_string_again p) refl

comma_black : (c : ℕ) → (c == b',') ≡ true → is_whitespace c ≡ false
unfolding is_whitespace
comma_black c e = ground arith

split_at-strip_string : (s : String) → split_at b',' (strip_string s) ≡ stripped (split_at b',' s)
unfolding stripped split_at strip_string
split_at-strip_string String.[] = refl
split_at-strip_string (String.◌∷◌ c s) =
    let (p, ps, e) = split_at-cons b',' s in
    let ih = split_at-strip_string s in
    elim (Bool-cases (code c == b',')) [
      | inl f ↦ rw (strip_string, split_at, f, comma_black (code c) f) (rw f (ap (λ t. "" ∷ t) ih))
      | inr f ↦ elim (Bool-cases (is_whitespace (code c))) [
        | inl g ↦ rw (f, g) (ih ∙ rw e (rw g refl))
        | inr g ↦ rw (f, g) (rw (f, ih, e) (rw g refl))
      ]
    ]

-- Two texts that differ in blanks only list the same dependencies.
pub other_dalfs-same :
    (main s t : String)
    → strip_string s ≡ strip_string t
    → other_dalfs main (split_at b',' s) ≡ other_dalfs main (split_at b',' t)
other_dalfs-same main s t e =
    sym (other_dalfs-stripped main (split_at b',' s))
    ∙ ap (other_dalfs main)
        (sym (split_at-strip_string s) ∙ ap (split_at b',') e ∙ split_at-strip_string t)
    ∙ other_dalfs-stripped main (split_at b',' t)
