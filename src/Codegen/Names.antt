-- ===== src/Codegen/Names.antt =====
-- Identifiers, daml-codegen/src/renderer/renderer_utils.rs.
use Prim.Native.Char.{Char, code}
use Prim.Native.String.{String, ◌++◌}
use rust_daml_bindings.Base.{
  Bool, true, false, ◌&&◌, ◌||◌, List, [], ◌∷◌, leb, ◌==◌, str_eq, str_eq_iff, not, both-true,
  not-true, subst, contains, if◌then◌else◌, ◌≡◌, refl, Bool-cases, inl, inr,
}

abbrev pub keywords : List String
keywords =
    "as" ∷ "break" ∷ "const" ∷ "continue" ∷ "else" ∷ "enum" ∷ "false" ∷ "fn" ∷ "for" ∷ "if" ∷ "impl"
    ∷ "in" ∷ "let" ∷ "loop" ∷ "match" ∷ "mod" ∷ "move" ∷ "mut" ∷ "pub" ∷ "ref" ∷ "return" ∷ "static"
    ∷ "struct" ∷ "trait" ∷ "true" ∷ "type" ∷ "unsafe" ∷ "use" ∷ "where" ∷ "while" ∷ "dyn"
    ∷ "abstract" ∷ "become" ∷ "box" ∷ "do" ∷ "final" ∷ "macro" ∷ "override" ∷ "priv" ∷ "typeof"
    ∷ "unsized" ∷ "virtual" ∷ "yield" ∷ "async" ∷ "await" ∷ "try" ∷ "self" ∷ "super" ∷ "extern"
    ∷ "crate" ∷ "gen" ∷ []

-- `escape_keyword`.
unfoldable pub escape_keyword : String → String
escape_keyword ident = if contains ident keywords then ident ++ "_" else ident

-- `matches!(c, '-' | '$' | '.')`.
abbrev is_separator : Char → Bool
is_separator c = code c == b'-' || (code c == b'$' || code c == b'.')

abbrev sanitize_char : Char → Char
sanitize_char c = if is_separator c then "_" else c

unfoldable pub sanitize : String → String
sanitize String.[] = ""
sanitize (String.◌∷◌ c s) = String.◌∷◌ (sanitize_char c) (sanitize s)

abbrev pub starts_with_digit : String → Bool
starts_with_digit String.[] = false
starts_with_digit (String.◌∷◌ c s) = leb b'0' (code c) && leb (code c) b'9'

abbrev pub guard_digit : String → String
guard_digit s = if starts_with_digit s then String.◌∷◌ "_" s else s

unfoldable pub escape_identifier : String → String
unfolding sanitize escape_keyword
escape_identifier value = escape_keyword (guard_digit (sanitize value))

-- `normalize_generic_param`: the part before the first underscore.
unfoldable pub normalize_generic_param : String → String
normalize_generic_param String.[] = ""
normalize_generic_param (String.◌∷◌ c s) =
    let rest = normalize_generic_param s in if code c == b'_' then "" else String.◌∷◌ c rest

escape_runs : escape_identifier "3d-type" ≡ "_3d_type"
unfolding escape_identifier sanitize escape_keyword
escape_runs = refl

sanitize_char_again : (c : Char) → sanitize_char (sanitize_char c) ≡ sanitize_char c
sanitize_char_again c = elim (Bool-cases (is_separator c)) [
  | inl e ↦ rw e refl
  | inr e ↦ rw (e, e) refl
]

sanitize_again : (s : String) → sanitize (sanitize s) ≡ sanitize s
unfolding sanitize
sanitize_again String.[] = refl
sanitize_again (String.◌∷◌ c s) = rw (sanitize_char_again c, sanitize_again s) refl

sanitize-guard_digit : (s : String) → sanitize (guard_digit (sanitize s)) ≡ guard_digit (sanitize s)
unfolding sanitize
sanitize-guard_digit s = elim (Bool-cases (starts_with_digit (sanitize s))) [
  | inl e ↦ rw (e, sanitize_again s) refl
  | inr e ↦ rw (e, sanitize_again s) refl
]

starts_with_digit-guard_digit : (s : String) → starts_with_digit (guard_digit s) ≡ false
starts_with_digit-guard_digit s = elim (Bool-cases (starts_with_digit s)) [
  | inl e ↦ rw e refl
  | inr e ↦ rw (e, e) refl
]

-- A keyword with an underscore behind it needs no further change.
abbrev IsSettled : String → Type 0
IsSettled s =
    (escape_identifier s ≡ s) × (contains s keywords ≡ false) × (starts_with_digit s ≡ false)

abbrev is_settled : String → Bool
is_settled s =
    str_eq (escape_identifier s) s && (not (contains s keywords) && not (starts_with_digit s))

is_settled-IsSettled : (s : String) → is_settled s ≡ true → IsSettled s
is_settled-IsSettled s h =
    let (a, rest) = both-true (str_eq (escape_identifier s) s) _ h in
    let (b, c) = both-true (not (contains s keywords)) _ rest in
    (
      (str_eq_iff (escape_identifier s) s).0 a,
      not-true (contains s keywords) b,
      not-true (starts_with_digit s) c,
    )

abbrev all_settled : List String → Bool
all_settled [] = true
all_settled (k ∷ ks) = is_settled (k ++ "_") && all_settled ks

keywords_settled : all_settled keywords ≡ true
unfolding escape_identifier sanitize escape_keyword
keywords_settled = refl

settled_in :
    (s : String) (ks : List String)
    → all_settled ks ≡ true
    → contains s ks ≡ true
    → is_settled (s ++ "_") ≡ true
settled_in s [] h e = cc
settled_in s (k ∷ ks) h e = elim (Bool-cases (str_eq k s)) [
  | inl t ↦
      subst (λ x. is_settled (x ++ "_") ≡ true) ((str_eq_iff k s).0 t)
        (both-true (is_settled (k ++ "_")) (all_settled ks) h).0
  | inr t ↦ settled_in s ks (both-true (is_settled (k ++ "_")) (all_settled ks) h).1 (rw t at e)
]

escape_identifier-IsSettled :
    (s : String)
    → (escape_identifier (escape_identifier s) ≡ escape_identifier s)
      × (contains (escape_identifier s) keywords ≡ false)
      × (starts_with_digit (escape_identifier s) ≡ false)
unfolding escape_identifier escape_keyword
escape_identifier-IsSettled s =
    let t = guard_digit (sanitize s) in
    elim (Bool-cases (contains t keywords)) [
      | inl e ↦
          let settled =
            is_settled-IsSettled (t ++ "_") (settled_in t keywords keywords_settled e) in
          rw e settled
      | inr e ↦
          let first = starts_with_digit-guard_digit (sanitize s) in
          rw e (rw (sanitize-guard_digit s, first, e) refl, e, first)
    ]

-- The strict keywords of the Rust reference and the ones reserved, edition 2024. The weak ones, which
-- may be identifiers, are not among them.
abbrev pub reserved : List String
reserved =
    "as" ∷ "async" ∷ "await" ∷ "break" ∷ "const" ∷ "continue" ∷ "crate" ∷ "dyn" ∷ "else" ∷ "enum"
    ∷ "extern" ∷ "false" ∷ "fn" ∷ "for" ∷ "if" ∷ "impl" ∷ "in" ∷ "let" ∷ "loop" ∷ "match" ∷ "mod"
    ∷ "move" ∷ "mut" ∷ "pub" ∷ "ref" ∷ "return" ∷ "self" ∷ "Self" ∷ "static" ∷ "struct" ∷ "super"
    ∷ "trait" ∷ "true" ∷ "type" ∷ "unsafe" ∷ "use" ∷ "where" ∷ "while" ∷ "abstract" ∷ "become"
    ∷ "box" ∷ "do" ∷ "final" ∷ "gen" ∷ "macro" ∷ "override" ∷ "priv" ∷ "try" ∷ "typeof" ∷ "unsized"
    ∷ "virtual" ∷ "yield" ∷ []

abbrev all_escaped : List String → Bool
all_escaped [] = true
all_escaped (k ∷ ks) = (contains k keywords || str_eq k "Self") && all_escaped ks

reserved_escaped : all_escaped reserved ≡ true
reserved_escaped = refl

-- A text that is not escaped is among the listed ones only as `Self`.
kept_in :
    (s : String) (ks : List String)
    → all_escaped ks ≡ true
    → contains s keywords ≡ false
    → contains s ks ≡ true
    → s ≡ "Self"
kept_in s [] h n e = cc
kept_in s (k ∷ ks) h n e =
    let (a, rest) = both-true (contains k keywords || str_eq k "Self") (all_escaped ks) h in
    elim (Bool-cases (str_eq k s)) [
      | inr t ↦ kept_in s ks rest n (rw t at e)
      | inl t ↦
          let same = (str_eq_iff k s).0 t in
          let b = subst (λ (y : String). (contains y keywords || str_eq y "Self") ≡ true) same a in
          (str_eq_iff s "Self").0 (rw n at b)
    ]

-- An escaped identifier is left as it is when it is escaped once more, does not begin with a digit,
-- and is not a keyword of Rust, strict or reserved, other than `Self`.
pub escape_identifier_lem :
    (s : String)
    → (escape_identifier (escape_identifier s) ≡ escape_identifier s)
      × (starts_with_digit (escape_identifier s) ≡ false)
      × (contains (escape_identifier s) reserved ≡ true → escape_identifier s ≡ "Self")
escape_identifier_lem s =
    let (again, kept, first) = escape_identifier-IsSettled s in
    (again, first, kept_in (escape_identifier s) reserved reserved_escaped kept)
