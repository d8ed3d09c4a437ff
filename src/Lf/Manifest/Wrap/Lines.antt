-- ===== src/Lf/Manifest/Wrap/Lines.antt =====
-- Wrapped manifest text: the length of its lines, and reading it back.
use rust_daml_bindings.Base.{
  ℕ, zero, suc, ◌-◌, ◌<◌, ◌≤◌, true, false, List, [], ◌∷◌, ◌++◌, ◌≡◌, refl, arith, ◌==◌, ◌&&◌, ap,
  sym, subst, map, Bool, ltb, not, both-true, not-true, ◌∙◌, if◌then◌else◌, length,
}
use rust_daml_bindings.Lf.Manifest.Lossy.{from_utf8_lossy, all_ascii, from_utf8_lossy-ascii}
use rust_daml_bindings.Lf.Manifest.Wrap.{push, fill, chunks, continued, wrap, split_manifest_string}

abbrev pub no_newline : List ℕ → Bool
no_newline [] = true
no_newline (c ∷ s) = not (c == 10) && no_newline s

abbrev NoNewline : List ℕ → Type 0
NoNewline [] = Unit
NoNewline (c ∷ s) = ((c == 10) ≡ false) × NoNewline s

-- Every line of the text has at most 72 bytes, the first at most `room`.
abbrev pub LinesFit : ℕ → List ℕ → Type 0
LinesFit room [] = Unit
LinesFit room (c ∷ s) = elim (c == 10) [
  | true ↦ LinesFit 72 s
  | false ↦ (0 < room) × LinesFit (room - 1) s
]

-- A reader of JAR manifests drops each newline that a space follows, with the space.
pub unwrap : List ℕ → List ℕ
unwrap [] = []
unwrap (c ∷ []) = c ∷ []
unwrap (c ∷ d ∷ s) =
    let joined = unwrap s in
    let rest = unwrap (d ∷ s) in if (c == 10) && (d == 32) then joined else c ∷ rest

abbrev AllFit : List (List ℕ) → Type 0
AllFit [] = Unit
AllFit (c ∷ cs) = NoNewline c × (length c ≤ 71) × AllFit cs

-- What `fill` gives back: a first chunk that fits the room, and chunks that fit a line.
abbrev Filled : ℕ → List (List ℕ) → Type 0
Filled room [] = ⊥
Filled room (c ∷ cs) = NoNewline c × (length c ≤ room) × AllFit cs

push-Filled :
    (x room : ℕ) (cs : List (List ℕ))
    → (x == 10) ≡ false
    → Filled room cs
    → Filled (suc room) (push x cs)
unfolding push
push-Filled x room [] h f = elim f [ ]
push-Filled x room (c ∷ cs) h f = ((h, f.0), omega arith, f.2)

Filled-AllFit : (cs : List (List ℕ)) → Filled 71 cs → AllFit cs
Filled-AllFit [] f = elim f [ ]
Filled-AllFit (c ∷ cs) f = f

fill-Filled : (room : ℕ) (s : List ℕ) → NoNewline s → Filled room (fill room s)
unfolding fill
fill-Filled room [] h = (tt, omega arith, tt)
fill-Filled zero (x ∷ xs) h =
    (tt, omega arith, Filled-AllFit _ (push-Filled x 70 (fill 70 xs) h.0 (fill-Filled 70 xs h.1)))
fill-Filled (suc room) (x ∷ xs) h = push-Filled x room (fill room xs) h.0 (fill-Filled room xs h.1)

chunks-AllFit : (s : List ℕ) → NoNewline s → AllFit (chunks s)
unfolding chunks
chunks-AllFit [] h = tt
chunks-AllFit (x ∷ xs) h =
    Filled-AllFit _ (push-Filled x 70 (fill 70 xs) h.0 (fill-Filled 70 xs h.1))

chunk-LinesFit :
    (room : ℕ) (c s : List ℕ)
    → NoNewline c
    → length c ≤ room
    → LinesFit (room - length c) s
    → LinesFit room (c ++ s)
chunk-LinesFit room [] s h l f = let e : room - 0 ≡ room = omega arith in rw e at f
chunk-LinesFit room (x ∷ c) s h l f =
    let e : room - suc (length c) ≡ room - 1 - length c = omega arith in
    rw (h.0, LinesFit) (omega arith, chunk-LinesFit (room - 1) c s h.1 (omega arith) (rw e at f))

continued-LinesFit : (room : ℕ) (cs : List (List ℕ)) → AllFit cs → LinesFit room (continued cs)
unfolding continued
continued-LinesFit room [] f = tt
continued-LinesFit room (c ∷ cs) f = (
  omega arith,
  chunk-LinesFit 71 c (continued cs) f.0 f.1 (continued-LinesFit (71 - length c) cs f.2),
)

wrap-LinesFit : (cs : List (List ℕ)) → AllFit cs → LinesFit 72 (wrap cs)
unfolding wrap
wrap-LinesFit [] f = tt
wrap-LinesFit (c ∷ cs) f =
    chunk-LinesFit 72 c (continued cs) f.0 (omega arith) (continued-LinesFit (72 - length c) cs f.2)

no_newline-NoNewline : (s : List ℕ) → no_newline s ≡ true → NoNewline s
no_newline-NoNewline [] h = tt
no_newline-NoNewline (c ∷ s) h =
    let (a, b) = both-true (not (c == 10)) (no_newline s) h in
    (not-true (c == 10) a, no_newline-NoNewline s b)

abbrev AllAscii : List (List ℕ) → Type 0
AllAscii [] = Unit
AllAscii (c ∷ cs) = (all_ascii c ≡ true) × AllAscii cs

push-AllAscii : (x : ℕ) (cs : List (List ℕ)) → ltb x 128 ≡ true → AllAscii cs → AllAscii (push x cs)
unfolding push
push-AllAscii x [] h f = (rw h refl, tt)
push-AllAscii x (c ∷ cs) h (a, f) = (rw (h, a) refl, f)

fill-AllAscii : (room : ℕ) (s : List ℕ) → all_ascii s ≡ true → AllAscii (fill room s)
unfolding fill
fill-AllAscii room [] h = (refl, tt)
fill-AllAscii zero (x ∷ xs) h =
    let (a, b) = both-true (ltb x 128) (all_ascii xs) h in
    (refl, push-AllAscii x (fill 70 xs) a (fill-AllAscii 70 xs b))
fill-AllAscii (suc room) (x ∷ xs) h =
    let (a, b) = both-true (ltb x 128) (all_ascii xs) h in
    push-AllAscii x (fill room xs) a (fill-AllAscii room xs b)

chunks-AllAscii : (s : List ℕ) → all_ascii s ≡ true → AllAscii (chunks s)
unfolding chunks
chunks-AllAscii [] h = tt
chunks-AllAscii (x ∷ xs) h =
    let (a, b) = both-true (ltb x 128) (all_ascii xs) h in
    push-AllAscii x (fill 70 xs) a (fill-AllAscii 70 xs b)

lossy_chunks : (cs : List (List ℕ)) → AllAscii cs → map from_utf8_lossy cs ≡ cs
lossy_chunks [] f = refl
lossy_chunks (c ∷ cs) (a, f) = rw (from_utf8_lossy-ascii c a, lossy_chunks cs f) refl

-- The chunks of an ASCII text are written as they are.
pub split_manifest_string-ascii :
    (s : List ℕ) → all_ascii s ≡ true → split_manifest_string s ≡ wrap (chunks s)
unfolding split_manifest_string
split_manifest_string-ascii s a = ap wrap (lossy_chunks (chunks s) (chunks-AllAscii s a))

-- For an ASCII text without newlines, every line that `split_manifest_string` makes of it has at most
-- the 72 bytes that a JAR manifest allows.
pub split_manifest_string-LinesFit :
    (s : List ℕ) → all_ascii s ≡ true → no_newline s ≡ true → LinesFit 72 (split_manifest_string s)
split_manifest_string-LinesFit s a h =
    subst (LinesFit 72) (sym (split_manifest_string-ascii s a))
      (wrap-LinesFit (chunks s) (chunks-AllFit s (no_newline-NoNewline s h)))

unwrap-cons : (c : ℕ) (s : List ℕ) → (c == 10) ≡ false → unwrap (c ∷ s) ≡ c ∷ unwrap s
unfolding unwrap
unwrap-cons c [] h = refl
unwrap-cons c (d ∷ s) h = rw h

unwrap-break : (s : List ℕ) → unwrap (10 ∷ 32 ∷ s) ≡ unwrap s
unfolding unwrap
unwrap-break s = refl

unwrap-append : (c s : List ℕ) → NoNewline c → unwrap (c ++ s) ≡ c ++ unwrap s
unwrap-append [] s h = refl
unwrap-append (x ∷ c) s h = unwrap-cons x (c ++ s) h.0 ∙ ap (λ t. x ∷ t) (unwrap-append c s h.1)

abbrev pub joined : List (List ℕ) → List ℕ
joined [] = []
joined (c ∷ cs) = c ++ joined cs

unwrap-continued : (cs : List (List ℕ)) → AllFit cs → unwrap (continued cs) ≡ joined cs
unfolding continued
unwrap-continued [] f = unfold unwrap in refl
unwrap-continued (c ∷ cs) f =
    unwrap-break (c ++ continued cs)
    ∙ unwrap-append c (continued cs) f.0
    ∙ ap (λ t. c ++ t) (unwrap-continued cs f.2)

unwrap-wrap : (cs : List (List ℕ)) → AllFit cs → unwrap (wrap cs) ≡ joined cs
unfolding wrap
unwrap-wrap [] f = unfold unwrap in refl
unwrap-wrap (c ∷ cs) f =
    unwrap-append c (continued cs) f.0 ∙ ap (λ t. c ++ t) (unwrap-continued cs f.2)

joined-push : (x : ℕ) (cs : List (List ℕ)) → joined (push x cs) ≡ x ∷ joined cs
unfolding push
joined-push x [] = refl
joined-push x (c ∷ cs) = refl

joined-fill : (room : ℕ) (s : List ℕ) → joined (fill room s) ≡ s
unfolding fill
joined-fill room [] = refl
joined-fill zero (x ∷ xs) = joined-push x (fill 70 xs) ∙ ap (λ t. x ∷ t) (joined-fill 70 xs)
joined-fill (suc room) (x ∷ xs) =
    joined-push x (fill room xs) ∙ ap (λ t. x ∷ t) (joined-fill room xs)

pub joined-chunks : (s : List ℕ) → joined (chunks s) ≡ s
unfolding chunks
joined-chunks [] = refl
joined-chunks (x ∷ xs) = joined-push x (fill 70 xs) ∙ ap (λ t. x ∷ t) (joined-fill 70 xs)

-- Reading a wrapped ASCII text back, by dropping each newline with the space behind it, gives the text,
-- if it holds no newline itself.
pub unwrap-split_manifest_string :
    (s : List ℕ) → all_ascii s ≡ true → no_newline s ≡ true → unwrap (split_manifest_string s) ≡ s
unwrap-split_manifest_string s a h =
    ap unwrap (split_manifest_string-ascii s a)
    ∙ unwrap-wrap (chunks s) (chunks-AllFit s (no_newline-NoNewline s h))
    ∙ joined-chunks s
