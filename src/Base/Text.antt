-- ===== src/Base/Text.antt =====
-- What the crates use of Rust's `str`: code points, whitespace, ASCII case, split, strip and join.
use Prim.Native.Nat.{ℕ, ◌+◌}
use Prim.Native.Char.{Char, code}
use Prim.Native.String.{String, ◌++◌}
use mathlib.Core.Path.{◌≡◌, refl}
use mathlib.Core.Bool.{Bool, true, false, ◌&&◌, ◌||◌}
use mathlib.Core.List.{List, [], ◌∷◌}
use rust_daml_bindings.Base.Tests.{leb, ◌==◌, if◌then◌else◌}

-- The code points of a text: its bytes, if it is ASCII.
abbrev pub codes : String → List ℕ
codes String.[] = []
codes (String.◌∷◌ c s) = code c ∷ codes s

abbrev pub codes_eq : List ℕ → List ℕ → Bool
codes_eq [] [] = true
codes_eq (a ∷ s) (b ∷ t) = (a == b) && codes_eq s t
codes_eq _ _ = false

-- `char::is_whitespace`.
unfoldable pub is_whitespace : ℕ → Bool
is_whitespace c =
    (leb 9 c && leb c 13)
    || c == 32
    || c == 0x85
    || c == 0xa0
    || c == 0x1680
    || (leb 0x2000 c && leb c 0x200a)
    || c == 0x2028
    || c == 0x2029
    || c == 0x202f
    || c == 0x205f
    || c == 0x3000

-- `to_lowercase` on a code point of ASCII; the others are left.
unfoldable pub to_lower : ℕ → ℕ
to_lower c = if leb b'A' c && leb c b'Z' then c + 32 else c

abbrev pub lower : List ℕ → List ℕ
lower [] = []
lower (c ∷ s) = to_lower c ∷ lower s

-- `s.to_lowercase() == t` for a lower-case ASCII text `t` without the letter k (the Kelvin sign is
-- the one other code point whose lower case is an ASCII letter).
abbrev pub lower_eq : String → String → Bool
lower_eq s t = codes_eq (lower (codes s)) (codes t)

-- `chars().filter(|&c| !char::is_whitespace(c)).collect()`.
unfoldable pub strip_string : String → String
strip_string String.[] = ""
strip_string (String.◌∷◌ c s) =
    let rest = strip_string s in if is_whitespace (code c) then rest else String.◌∷◌ c rest

abbrev pub prepend : Char → List String → List String
prepend c [] = String.◌∷◌ c "" ∷ []
prepend c (x ∷ xs) = String.◌∷◌ c x ∷ xs

-- `split(c)` at each code point `d`.
unfoldable pub split_at : ℕ → String → List String
split_at d String.[] = "" ∷ []
split_at d (String.◌∷◌ c s) =
    let rest = split_at d s in if code c == d then "" ∷ rest else prepend c rest

-- `join(sep)`.
unfoldable pub join : String → List String → String
join sep [] = ""
join sep (x ∷ []) = x
join sep (x ∷ y ∷ rest) = x ++ (sep ++ join sep (y ∷ rest))

split_at_runs : split_at b',' "a,b,,c" ≡ "a" ∷ "b" ∷ "" ∷ "c" ∷ []
unfolding split_at
split_at_runs = refl

strip_string_runs : strip_string " A .dalf\n" ≡ "A.dalf"
unfolding strip_string is_whitespace
strip_string_runs = refl
