-- ===== src/Lf/Manifest/Lossy.antt =====
-- `String::from_utf8_lossy` of Rust's standard library on bytes, and the bytes of a text, for the
-- wrapping of lines in daml-lf/src/manifest.rs.
use Prim.Native.Char.{code}
use rust_daml_bindings.Base.{
  ℕ, ◌+◌, ◌/◌, ◌%◌, String, Bool, true, ◌&&◌, List, [], ◌∷◌, ◌++◌, ltb, leb, ◌==◌, ◌≡◌, refl, ap,
  both-true, if◌then◌else◌,
}

-- U+FFFD.
abbrev replacement : List ℕ
replacement = 0xef ∷ 0xbf ∷ 0xbd ∷ []

-- The ranges of the bytes that must follow a first byte; nothing follows a byte that is no first one.
abbrev tail_ranges : ℕ → List (ℕ × ℕ)
tail_ranges x =
    if leb 0xc2 x && leb x 0xdf
    then (0x80, 0xbf) ∷ []
    else if x == 0xe0
    then (0xa0, 0xbf) ∷ (0x80, 0xbf) ∷ []
    else if x == 0xed
    then (0x80, 0x9f) ∷ (0x80, 0xbf) ∷ []
    else if leb 0xe1 x && leb x 0xef
    then (0x80, 0xbf) ∷ (0x80, 0xbf) ∷ []
    else if x == 0xf0
    then (0x90, 0xbf) ∷ (0x80, 0xbf) ∷ (0x80, 0xbf) ∷ []
    else if leb 0xf1 x && leb x 0xf3
    then (0x80, 0xbf) ∷ (0x80, 0xbf) ∷ (0x80, 0xbf) ∷ []
    else if x == 0xf4
    then (0x80, 0x8f) ∷ (0x80, 0xbf) ∷ (0x80, 0xbf) ∷ []
    else []

-- What is written at once, and the character that is begun: its bytes, and the ranges that are left.
abbrev State : Type 0
State = List ℕ × List ℕ × List (ℕ × ℕ)

abbrev begin_with : ℕ → List (ℕ × ℕ) → State
begin_with x [] = (replacement, [], [])
begin_with x (r ∷ rs) = ([], x ∷ [], r ∷ rs)

unfoldable pub first_byte : ℕ → State
first_byte x = if ltb x 128 then (x ∷ [], [], []) else begin_with x (tail_ranges x)

abbrev before : List ℕ → State → State
before out s = (out ++ s.0, s.1, s.2)

abbrev grown : List ℕ → List (ℕ × ℕ) → State
grown begun [] = (begun, [], [])
grown begun (r ∷ rs) = ([], begun, r ∷ rs)

-- The next byte: a character that it does not continue is replaced, and the byte begins anew.
unfoldable pub next : List ℕ → List (ℕ × ℕ) → ℕ → State
unfolding first_byte
next begun [] x = first_byte x
next begun ((low, high) ∷ rs) x =
    if leb low x && leb x high
    then grown (begun ++ x ∷ []) rs
    else before replacement (first_byte x)

unfoldable pub lossy : List ℕ → List (ℕ × ℕ) → List ℕ → List ℕ
unfolding next
lossy begun [] [] = []
lossy begun (r ∷ rs) [] = replacement
lossy begun rs (x ∷ xs) = let s = next begun rs x in s.0 ++ lossy s.1 s.2 xs

-- `String::from_utf8_lossy`.
unfoldable pub from_utf8_lossy : List ℕ → List ℕ
unfolding lossy
from_utf8_lossy s = lossy [] [] s

-- A character cut after its first byte is replaced, a whole one stays.
lossy_runs : from_utf8_lossy (0x61 ∷ 0xc3 ∷ []) ≡ 0x61 ∷ 0xef ∷ 0xbf ∷ 0xbd ∷ []
unfolding from_utf8_lossy lossy next first_byte
lossy_runs = refl

lossy_runs_whole :
    from_utf8_lossy (0xe2 ∷ 0x82 ∷ 0xac ∷ 0xa9 ∷ 0x62 ∷ [])
    ≡ 0xe2 ∷ 0x82 ∷ 0xac ∷ 0xef ∷ 0xbf ∷ 0xbd ∷ 0x62 ∷ []
unfolding from_utf8_lossy lossy next first_byte
lossy_runs_whole = refl

-- The bytes of a code point, and of a text.
unfoldable pub utf8_of : ℕ → List ℕ
utf8_of c =
    if ltb c 0x80
    then c ∷ []
    else if ltb c 0x800
    then (0xc0 + c / 64) ∷ (0x80 + c % 64) ∷ []
    else if ltb c 0x10000
    then (0xe0 + c / 4096) ∷ (0x80 + c / 64 % 64) ∷ (0x80 + c % 64) ∷ []
    else (0xf0 + c / 262144) ∷ (0x80 + c / 4096 % 64) ∷ (0x80 + c / 64 % 64) ∷ (0x80 + c % 64) ∷ []

unfoldable pub utf8 : String → List ℕ
unfolding utf8_of
utf8 String.[] = []
utf8 (String.◌∷◌ c s) = utf8_of (code c) ++ utf8 s

abbrev pub all_ascii : List ℕ → Bool
all_ascii [] = true
all_ascii (c ∷ s) = ltb c 128 && all_ascii s

pub from_utf8_lossy-ascii : (s : List ℕ) → all_ascii s ≡ true → from_utf8_lossy s ≡ s
unfolding from_utf8_lossy lossy next first_byte
from_utf8_lossy-ascii [] h = refl
from_utf8_lossy-ascii (x ∷ s) h =
    let (a, b) = both-true (ltb x 128) (all_ascii s) h in
    rw a (ap (λ t. x ∷ t) (from_utf8_lossy-ascii s b))
