-- ===== src/Lf/Manifest/Folded.antt =====
-- How YAML reads the wrapped entries of a manifest that daml-lf/src/manifest.rs renders: the lines of a
-- plain scalar are folded. Folding changes blanks and line breaks only.
use Prim.Native.Char.{code}
use text.Mathlib.TextEquality.{Char-path}
use rust_daml_bindings.Base.{
  ℕ, zero, suc, ◌≤◌, String, Bool, true, false, List, [], ◌∷◌, ◌++◌, ◌==◌, ◌≡◌, refl, ap, sym, ◌∙◌,
  arith, Bool-cases, inl, inr, both-true, ltb, length, if◌then◌else◌,
}
use rust_daml_bindings.Base.Text.{codes, is_whitespace, strip_string}
use rust_daml_bindings.Lf.Manifest.Lossy.{utf8, utf8_of, all_ascii}
use rust_daml_bindings.Lf.Manifest.Wrap.{push, fill, chunks, wrap, continued, split_manifest_string}
use rust_daml_bindings.Lf.Manifest.Wrap.Lines.{joined, joined-chunks, split_manifest_string-ascii}

-- The rest of a scalar behind blanks, with a line break among them or without.
unfoldable pub fold : List ℕ → Bool → List ℕ → List ℕ
fold blanks broken [] = []
fold blanks broken (c ∷ s) =
    let at_break = fold blanks true s in
    let at_blank = fold (32 ∷ blanks) broken s in
    let rest = fold [] false s in
    if c == 10
    then at_break
    else if c == 32
    then at_blank
    else (if broken then 32 ∷ [] else blanks) ++ c ∷ rest

-- Without the blanks and breaks before the first character.
unfoldable pub skip : List ℕ → List ℕ
skip [] = []
skip (c ∷ s) = let rest = skip s in if c == 10 then rest else if c == 32 then rest else c ∷ s

-- The text of a plain scalar: each line break, with the blanks around it, is one blank, and the blanks
-- at both ends are left out.
unfoldable pub scalar : List ℕ → List ℕ
unfolding fold skip
scalar s = fold [] false (skip s)

-- What stands behind the first colon.
unfoldable pub value_of : List ℕ → List ℕ
value_of [] = []
value_of (c ∷ s) = let rest = value_of s in if c == 58 then s else rest

unfoldable pub squeeze : List ℕ → List ℕ
squeeze [] = []
squeeze (c ∷ s) = let rest = squeeze s in if is_whitespace c then rest else c ∷ rest

squeeze-append : (s t : List ℕ) → squeeze (s ++ t) ≡ squeeze s ++ squeeze t
unfolding squeeze
squeeze-append [] t = refl
squeeze-append (c ∷ s) t = elim (Bool-cases (is_whitespace c)) [
  | inl e ↦ rw (e, squeeze-append s t) refl
  | inr e ↦ rw (e, squeeze-append s t) refl
]

squeeze_blank : (c : ℕ) (s : List ℕ) → is_whitespace c ≡ true → squeeze (c ∷ s) ≡ squeeze s
unfolding squeeze
squeeze_blank c s e = rw e refl

break_blank : (c : ℕ) → (c == 10) ≡ true → is_whitespace c ≡ true
unfolding is_whitespace
break_blank c e = ground arith

space_blank : (c : ℕ) → (c == 32) ≡ true → is_whitespace c ≡ true
unfolding is_whitespace
space_blank c e = ground arith

squeeze-cons : (c : ℕ) (s t : List ℕ) → squeeze s ≡ squeeze t → squeeze (c ∷ s) ≡ squeeze (c ∷ t)
unfolding squeeze
squeeze-cons c s t e = rw e refl

blank_first : (b : Bool) (p : List ℕ) → squeeze p ≡ [] → squeeze (if b then 32 ∷ [] else p) ≡ []
unfolding squeeze is_whitespace
blank_first true p e = refl
blank_first false p e = e

squeeze-fold :
    (p : List ℕ) (b : Bool) (s : List ℕ) → squeeze p ≡ [] → squeeze (fold p b s) ≡ squeeze s
unfolding fold
squeeze-fold p b [] e = refl
squeeze-fold p b (c ∷ s) e = elim (Bool-cases (c == 10)) [
  | inl f ↦ rw (fold, f) (squeeze-fold p true s e ∙ sym (squeeze_blank c s (break_blank c f)))
  | inr f ↦ elim (Bool-cases (c == 32)) [
    | inl g ↦
        rw (fold, f, g)
          (squeeze-fold (32 ∷ p) b s (squeeze_blank 32 p (space_blank 32 refl) ∙ e)
            ∙ sym (squeeze_blank c s (space_blank c g)))
    | inr g ↦
        rw
          (
            fold,
            f,
            g,
            squeeze-append (if b then 32 ∷ [] else p) (c ∷ fold [] false s),
            blank_first b p e,
          )
          (squeeze-cons c (fold [] false s) s (squeeze-fold [] false s (unfold squeeze in refl)))
  ]
]

squeeze-skip : (s : List ℕ) → squeeze (skip s) ≡ squeeze s
unfolding skip
squeeze-skip [] = refl
squeeze-skip (c ∷ s) = elim (Bool-cases (c == 10)) [
  | inl f ↦ rw (skip, f) (squeeze-skip s ∙ sym (squeeze_blank c s (break_blank c f)))
  | inr f ↦ elim (Bool-cases (c == 32)) [
    | inl g ↦ rw (skip, f, g) (squeeze-skip s ∙ sym (squeeze_blank c s (space_blank c g)))
    | inr g ↦ rw (skip, f, g) refl
  ]
]

pub squeeze-scalar : (s : List ℕ) → squeeze (scalar s) ≡ squeeze s
unfolding scalar
squeeze-scalar s = squeeze-fold [] false (skip s) (unfold squeeze in refl) ∙ squeeze-skip s

colon_black : (c : ℕ) → (c == 58) ≡ true → is_whitespace c ≡ false
unfolding is_whitespace
colon_black c e = ground arith

pub squeeze-value_of : (s : List ℕ) → squeeze (value_of s) ≡ value_of (squeeze s)
unfolding value_of squeeze
squeeze-value_of [] = refl
squeeze-value_of (c ∷ s) = elim (Bool-cases (c == 58)) [
  | inl e ↦ rw (value_of, squeeze, e, colon_black c e) (rw (value_of, e) refl)
  | inr e ↦ elim (Bool-cases (is_whitespace c)) [
    | inl f ↦ rw (value_of, e, f) (squeeze-value_of s)
    | inr f ↦ rw (value_of, e, f, e) (squeeze-value_of s)
  ]
]

squeeze-continued : (cs : List (List ℕ)) → squeeze (continued cs) ≡ squeeze (joined cs)
unfolding continued
squeeze-continued [] = refl
squeeze-continued (c ∷ cs) =
    squeeze_blank 10 (32 ∷ c ++ continued cs) (break_blank 10 refl)
    ∙ squeeze_blank 32 (c ++ continued cs) (space_blank 32 refl)
    ∙ squeeze-append c (continued cs)
    ∙ ap (λ t. squeeze c ++ t) (squeeze-continued cs)
    ∙ sym (squeeze-append c (joined cs))

squeeze-wrap : (cs : List (List ℕ)) → squeeze (wrap cs) ≡ squeeze (joined cs)
unfolding wrap
squeeze-wrap [] = refl
squeeze-wrap (c ∷ cs) =
    squeeze-append c (continued cs)
    ∙ ap (λ t. squeeze c ++ t) (squeeze-continued cs)
    ∙ sym (squeeze-append c (joined cs))

-- Wrapping adds blanks and breaks only.
pub squeeze-split_manifest_string :
    (s : List ℕ) → all_ascii s ≡ true → squeeze (split_manifest_string s) ≡ squeeze s
squeeze-split_manifest_string s a =
    ap squeeze (split_manifest_string-ascii s a)
    ∙ squeeze-wrap (chunks s)
    ∙ ap squeeze (joined-chunks s)

fill-short : (room : ℕ) (s : List ℕ) → length s ≤ room → fill room s ≡ s ∷ []
unfolding fill push
fill-short room [] h = refl
fill-short zero (x ∷ s) h = absurd (omega arith)
fill-short (suc room) (x ∷ s) h = rw (fill-short room s (omega arith)) refl

wrap_single : (s : List ℕ) → wrap (s ∷ []) ≡ s
unfolding wrap continued
wrap_single [] = refl
wrap_single (c ∷ s) = ap (λ t. c ∷ t) (wrap_single s)

chunks-short : (s : List ℕ) → length s ≤ 71 → wrap (chunks s) ≡ s
unfolding chunks push
chunks-short [] h = unfold wrap in refl
chunks-short (x ∷ s) h = rw (chunks, fill-short 70 s (omega arith)) (wrap_single (x ∷ s))

-- A short line is not wrapped.
pub split_manifest_string-short :
    (s : List ℕ) → all_ascii s ≡ true → length s ≤ 71 → split_manifest_string s ≡ s
split_manifest_string-short s a h = split_manifest_string-ascii s a ∙ chunks-short s h

pub utf8-ascii : (s : String) → all_ascii (codes s) ≡ true → utf8 s ≡ codes s
unfolding utf8 utf8_of
utf8-ascii String.[] h = refl
utf8-ascii (String.◌∷◌ c s) h =
    let (a, b) = both-true (ltb (code c) 128) (all_ascii (codes s)) h in rw (a, utf8-ascii s b) refl

pub codes-strip_string : (s : String) → codes (strip_string s) ≡ squeeze (codes s)
unfolding strip_string squeeze
codes-strip_string String.[] = refl
codes-strip_string (String.◌∷◌ c s) = elim (Bool-cases (is_whitespace (code c))) [
  | inl e ↦ rw e (codes-strip_string s)
  | inr e ↦ rw e (ap (λ t. code c ∷ t) (codes-strip_string s))
]

pub codes_inj : (s t : String) → codes s ≡ codes t → s ≡ t
codes_inj String.[] String.[] h = refl
codes_inj String.[] (String.◌∷◌ d t) h = cc
codes_inj (String.◌∷◌ c s) String.[] h = cc
codes_inj (String.◌∷◌ c s) (String.◌∷◌ d t) h =
    let f : code c ≡ code d = cc in
    let g : codes s ≡ codes t = cc in
    let e = Char-path c d f in let r = codes_inj s t g in λ i. String.◌∷◌ (e i) (r i)
