-- ===== src/Lf/Manifest/Wrap.antt =====
-- The line wrapping of manifests, `split_manifest_string` of daml-lf/src/manifest.rs, on the bytes of a
-- text.
pub mod Lines
use rust_daml_bindings.Base.{ℕ, zero, suc, List, [], ◌∷◌, ◌++◌, map}
use rust_daml_bindings.Lf.Manifest.Lossy.{from_utf8_lossy}

unfoldable pub push : ℕ → List (List ℕ) → List (List ℕ)
push x [] = (x ∷ []) ∷ []
push x (c ∷ cs) = (x ∷ c) ∷ cs

-- The chunk that has room for `room` more bytes, and the chunks behind it.
unfoldable pub fill : ℕ → List ℕ → List (List ℕ)
unfolding push
fill room [] = [] ∷ []
fill zero (x ∷ xs) = [] ∷ push x (fill 70 xs)
fill (suc room) (x ∷ xs) = push x (fill room xs)

-- `as_bytes().chunks(71)`.
unfoldable pub chunks : List ℕ → List (List ℕ)
unfolding fill
chunks [] = []
chunks (x ∷ xs) = push x (fill 70 xs)

-- Each line of the tail, behind a newline and a space.
unfoldable pub continued : List (List ℕ) → List ℕ
continued [] = []
continued (c ∷ cs) = 10 ∷ 32 ∷ c ++ continued cs

unfoldable pub wrap : List (List ℕ) → List ℕ
unfolding continued
wrap [] = []
wrap (head ∷ tail) = head ++ continued tail

unfoldable pub split_manifest_string : List ℕ → List ℕ
unfolding wrap chunks from_utf8_lossy
split_manifest_string s = wrap (map from_utf8_lossy (chunks s))
