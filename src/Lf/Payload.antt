-- ===== src/Lf/Payload.antt =====
-- Archive payloads, daml-lf/src/payload.rs. The protobuf decoder prost is a parameter.
pub mod Names
use rust_daml_bindings.Base.{
  ℕ, String, Bool, Option, none, some, List, [], ◌∷◌, get_elem?, keep_if, any_of, str_eq, Result,
  ok, err, ◌>>=◌,
}
use Prim.Native.String.{◌++◌}
use rust_daml_bindings.Base.Int.{ℤ, to_unsigned}
use rust_daml_bindings.Lf.Error.{DamlLfResult, daml_lf_parse_error, unknown_version}
use rust_daml_bindings.Lf.Version.{LanguageVersion, lv2, minor_try_from}
use rust_daml_bindings.Lf.Proto.{Package, Module}

pub data EnvelopeSum : Type 0 where
  daml_lf1 : List ℕ → EnvelopeSum
  daml_lf2 : List ℕ → EnvelopeSum

-- The message `ArchivePayload`.
pub record ArchivePayload : Type 0 where
  pub minor : String
  pub sum : Option EnvelopeSum

-- The message `Archive`.
pub record Archive : Type 0 where
  pub hash_function : ℤ
  pub payload : List ℕ
  pub hash : String

-- The decoders that prost generates: a message, or the text of the decoding error.
pub record Prost : Type 0 where
  pub decode_archive : List ℕ → Result String Archive
  pub decode_envelope : List ℕ → Result String ArchivePayload
  pub decode_package : List ℕ → Result String Package

-- `?` on prost's error.
abbrev pub decoded : {A : Type 0} → Result String A → DamlLfResult A
decoded (ok a) = ok a
decoded (err m) = err (daml_lf_parse_error m)

-- `DamlLfPackage` has the one variant `V2`.
pub record DamlLfArchivePayload : Type 0 where
  pub language_version : LanguageVersion
  pub lf_package : Package

unfoldable pub payload_from_bytes : Prost → List ℕ → DamlLfResult DamlLfArchivePayload
payload_from_bytes prost payload_buffer = do
  envelope ← decoded (prost.decode_envelope payload_buffer)
  minor ← minor_try_from envelope.minor
  elim envelope.sum [
    | some s ↦ elim s [
      | daml_lf2 bytes ↦ do
        p ← decoded (prost.decode_package bytes)
        ok (record { language_version = lv2 minor; lf_package = p })
      | daml_lf1 _ ↦ err (unknown_version "v1 (LF1 is no longer supported)")
    ]
    | none ↦ err (unknown_version "none")
  ]

-- `collect` of an iterator of options.
abbrev pub all_some {ℓ} : {A : Type ℓ} → List (Option A) → Option (List A)
all_some [] = some []
all_some (none ∷ xs) = none
all_some (some a ∷ xs) = elim (all_some xs) [ none ↦ none | some ys ↦ some (a ∷ ys) ]

-- A lookup by a signed index.
abbrev pub get_signed {ℓ} : {A : Type ℓ} → List A → ℤ → Option A
get_signed xs i = elim (to_unsigned i) [ none ↦ none | some n ↦ get_elem? xs n ]

-- `join(".")`.
unfoldable pub join_dots : List String → String
join_dots [] = ""
join_dots (x ∷ []) = x
join_dots (x ∷ y ∷ rest) = x ++ ("." ++ join_dots (y ∷ rest))

unfoldable pub segments_at : Package → List ℤ → List (Option String)
segments_at p [] = []
segments_at p (i ∷ is) = get_signed p.interned_strings i ∷ segments_at p is

unfoldable pub decode_dotted_name : Package → ℤ → Option String
unfolding segments_at
decode_dotted_name p idx = elim (get_signed p.interned_dotted_names idx) [
  | none ↦ none
  | some dotted ↦ elim (all_some (segments_at p dotted)) [
    | none ↦ none
    | some parts ↦ some (join_dots parts)
  ]
]

-- `decode_dotted_name(…).as_deref() == Some(name)`.
abbrev pub is_named : String → Option String → Bool
is_named name none = Bool.false
is_named name (some n) = str_eq n name

unfoldable pub contains_module : DamlLfArchivePayload → String → Bool
contains_module p name =
    any_of (λ (m : Module). is_named name (decode_dotted_name p.lf_package m.name_interned_dname))
      p.lf_package.modules

-- The names that decode, in the order of the modules.
names_of : Package → List Module → List String
names_of p [] = []
names_of p (m ∷ ms) =
    let rest = names_of p ms in
    elim (decode_dotted_name p m.name_interned_dname) [ none ↦ rest | some n ↦ n ∷ rest ]

unfoldable pub list_modules : DamlLfArchivePayload → List String
unfolding names_of
list_modules p = names_of p.lf_package p.lf_package.modules
