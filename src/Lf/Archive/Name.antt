-- ===== src/Lf/Archive/Name.antt =====
-- The names of archives, `from_bytes_named` of daml-lf/src/archive.rs.
use Prim.Native.Char.{Char, code}
use Prim.Native.String.{◌++◌}
use text.Mathlib.TextLemmas.{append-nil, nil-append, cons-append}
use rust_daml_bindings.Base.{
  ℕ, suc, ◌<◌, ◌+◌, ◌-◌, map_option, ltb, if◌then◌else◌, Option, String, Bool, true, false, none,
  some, ◌≡◌, refl, arith, ◌==◌, ◌&&◌,
}
use rust_daml_bindings.Lf.Archive.{starts_with, rfind, slice_to, sanitized_name, len_utf8}

and_false : (b : Bool) → (b && false) ≡ false
and_false true = refl
and_false false = refl

abbrev text_length : String → ℕ
text_length String.[] = 0
text_length (String.◌∷◌ c s) = suc (text_length s)

starts_with_refl : (p : String) → starts_with p p ≡ true
unfolding starts_with
starts_with_refl String.[] = refl
starts_with_refl (String.◌∷◌ c p) =
    let e : (code c == code c) ≡ true = ground arith in rw (e, starts_with_refl p) refl

-- A pattern does not start a shorter text.
starts_with-shorter : (p s : String) → text_length s < text_length p → starts_with p s ≡ false
unfolding starts_with
starts_with-shorter String.[] s h = ground arith
starts_with-shorter (String.◌∷◌ c p) String.[] h = refl
starts_with-shorter (String.◌∷◌ c p) (String.◌∷◌ d s) h =
    let g : text_length s < text_length p = omega arith in
    rw (starts_with-shorter p s g) (and_false (code c == code d))

rfind-shorter : (p s : String) → text_length s < text_length p → rfind p s ≡ none
unfolding rfind
rfind-shorter p String.[] h = rw (starts_with-shorter p "" h) refl
rfind-shorter p (String.◌∷◌ c s) h =
    let g : text_length s < text_length p = omega arith in
    rw (rfind-shorter p s g, starts_with-shorter p (String.◌∷◌ c s) h) refl

rfind_self : (p : String) → rfind p p ≡ some 0
unfolding rfind
rfind_self String.[] = refl
rfind_self (String.◌∷◌ c p) =
    let g : text_length p < text_length (String.◌∷◌ c p) = omega arith in
    rw (rfind-shorter (String.◌∷◌ c p) p g, starts_with_refl (String.◌∷◌ c p)) refl

-- The length in bytes.
abbrev byte_length : String → ℕ
byte_length String.[] = 0
byte_length (String.◌∷◌ c s) = len_utf8 c + byte_length s

len_utf8_pos : (c : Char) → 0 < len_utf8 c
unfolding len_utf8
len_utf8_pos c = ground arith

rfind-append :
    (s p : String) (c : Char) → rfind p (s ++ String.◌∷◌ c p) ≡ some (byte_length s + len_utf8 c)
unfolding rfind
rfind-append String.[] p c =
    let e : len_utf8 c + 0 ≡ len_utf8 c = omega arith in
    let z : 0 + len_utf8 c ≡ len_utf8 c = omega arith in
    rw (nil-append (String.◌∷◌ c p), rfind, rfind_self p, e, z) refl
rfind-append (String.◌∷◌ d s) p c =
    let e : len_utf8 d + (byte_length s + len_utf8 c) ≡ len_utf8 d + byte_length s + len_utf8 c =
      omega arith in
    rw (cons-append d s (String.◌∷◌ c p), rfind, rfind-append s p c, e) refl

slice_to_zero : (s : String) → slice_to 0 s ≡ some ""
unfolding slice_to
slice_to_zero String.[] = refl
slice_to_zero (String.◌∷◌ c s) = refl

map_option_nil : (o : Option String) → o ≡ map_option (λ r. "" ++ r) o
map_option_nil none = refl
map_option_nil (some r) = rw nil-append refl

map_option_cons :
    (c : Char) (s : String) (o : Option String)
    → map_option (λ t. String.◌∷◌ c t) (map_option (λ r. s ++ r) o)
      ≡ map_option (λ r. String.◌∷◌ c s ++ r) o
map_option_cons c s none = refl
map_option_cons c s (some r) = rw cons-append refl

map_option_if :
    (name : String) (b : Bool)
    → map_option (λ r. name ++ r) (if b then some "" else none) ≡ (if b then some name else none)
map_option_if name true = rw append-nil refl
map_option_if name false = refl

-- A place behind the name.
slice_to-append :
    (s t : String) (k : ℕ)
    → slice_to (byte_length s + k) (s ++ t) ≡ map_option (λ r. s ++ r) (slice_to k t)
unfolding slice_to
slice_to-append String.[] t k =
    let z : 0 + k ≡ k = omega arith in rw (nil-append, z) (map_option_nil (slice_to k t))
slice_to-append (String.◌∷◌ c s) t k =
    let pos = len_utf8_pos c in
    let n = len_utf8 c + byte_length s + k in
    let first : (n == 0) ≡ false = ground arith in
    let inside : ltb n (len_utf8 c) ≡ false = ground arith in
    let rest : n - len_utf8 c ≡ byte_length s + k = omega arith in
    rw (cons-append c s t, slice_to, first, inside, rest, slice_to-append s t k)
      (map_option_cons c s (slice_to k t))

-- A place inside the first character.
slice_to-inside :
    (c : Char) (s : String)
    → slice_to (len_utf8 c - 1) (String.◌∷◌ c s) ≡ (if ltb (code c) 128 then some "" else none)
unfolding slice_to len_utf8
slice_to-inside c s = ground arith

-- A name that ends in a separator and the hash is cut to what stands before these where the separator
-- is ASCII, whatever the name and the hash are; where it is not, the program panics.
pub sanitized_name-append :
    (name hash : String) (separator : Char)
    → sanitized_name (name ++ String.◌∷◌ separator hash) hash
      ≡ (if ltb (code separator) 128 then some name else none)
unfolding sanitized_name
sanitized_name-append name hash separator =
    let pos = len_utf8_pos separator in
    let place : byte_length name + len_utf8 separator
        ≡ suc (byte_length name + (len_utf8 separator - 1)) =
      omega arith in
    rw
      (
        sanitized_name,
        rfind-append name hash separator,
        place,
        slice_to-append name (String.◌∷◌ separator hash) (len_utf8 separator - 1),
        slice_to-inside separator hash,
      )
      (map_option_if name (ltb (code separator) 128))
