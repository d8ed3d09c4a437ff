-- ===== src/Lf/Archive.antt =====
-- Archives, daml-lf/src/archive.rs. A place in a name is counted in the bytes of its UTF-8 form.
pub mod Name
use Prim.Native.String.{◌++◌}
use rust_daml_bindings.Base.{
  ℕ, zero, suc, ◌+◌, ◌-◌, ltb, String, Bool, true, false, Option, none, some, List, ◌&&◌, ◌==◌,
  if◌then◌else◌, Result, ok, err, ◌>>=◌, map_option,
}
use Prim.Native.Char.{Char, code}
use rust_daml_bindings.Base.Int.{ℤ, pos, negsuc, show_ℤ}
use rust_daml_bindings.Lf.Error.{DamlLfResult, dar_parse_error}
use rust_daml_bindings.Lf.Payload.{
  DamlLfArchivePayload, Prost, Archive, decoded, payload_from_bytes,
}

pub data DamlLfHashFunction : Type 0 where
  sha256 : DamlLfHashFunction

pub record DamlLfArchive : Type 0 where
  pub name : String
  pub payload : DamlLfArchivePayload
  pub hash_function : DamlLfHashFunction
  pub hash : String

-- `ProtoHashFunction::try_from`, and the error for a number that it does not know.
unfoldable pub hash_function_of : ℤ → DamlLfResult DamlLfHashFunction
hash_function_of (pos zero) = ok sha256
hash_function_of n =
    err (dar_parse_error ("unknown hash function id " ++ (show_ℤ n ++ " in archive envelope")))

unfoldable pub starts_with : String → String → Bool
starts_with String.[] s = true
starts_with (String.◌∷◌ c p) String.[] = false
starts_with (String.◌∷◌ c p) (String.◌∷◌ d s) = (code c == code d) && starts_with p s

-- `char::len_utf8`.
unfoldable pub len_utf8 : Char → ℕ
len_utf8 c =
    if ltb (code c) 0x80
    then 1
    else if ltb (code c) 0x800
    then 2
    else if ltb (code c) 0x10000
    then 3
    else 4

-- `str::rfind`: the last place where the pattern stands.
unfoldable pub rfind : String → String → Option ℕ
unfolding starts_with len_utf8
rfind p String.[] = if starts_with p "" then some 0 else none
rfind p (String.◌∷◌ c s) =
    let rest = rfind p s in
    elim rest [
      | some i ↦ some (len_utf8 c + i)
      | none ↦ if starts_with p (String.◌∷◌ c s) then some 0 else none
    ]

-- `&s[..n]`; `none` where the program panics, which is where `n` is inside a character or behind the
-- end.
unfoldable pub slice_to : ℕ → String → Option String
unfolding len_utf8
slice_to n String.[] = if n == 0 then some "" else none
slice_to n (String.◌∷◌ c s) =
    let rest = slice_to (n - len_utf8 c) s in
    if n == 0
    then some ""
    else if ltb n (len_utf8 c)
    then none
    else map_option (λ t. String.◌∷◌ c t) rest

-- The name without the separator and the hash; `none` where the program panics. (At place 0 the index
-- `i - 1` is out of range.)
unfoldable pub sanitized_name : String → String → Option String
unfolding rfind slice_to
sanitized_name archive_name hash = elim (rfind hash archive_name) [
  | none ↦ some archive_name
  | some i ↦ elim i [ zero ↦ none | suc j ↦ slice_to j archive_name ]
]

-- The parts of an archive, decoded.
unfoldable pub decode_parts :
    Prost → List ℕ → DamlLfResult (Archive × DamlLfHashFunction × DamlLfArchivePayload)
unfolding hash_function_of payload_from_bytes
decode_parts prost bytes = do
  archive ← decoded (prost.decode_archive bytes)
  hash_function ← hash_function_of archive.hash_function
  payload ← payload_from_bytes prost archive.payload
  ok (archive, hash_function, payload)

-- The archive or the error; `none` where the program panics.
unfoldable pub from_bytes_named : Prost → String → List ℕ → Option (DamlLfResult DamlLfArchive)
unfolding decode_parts sanitized_name
from_bytes_named prost name bytes = elim (decode_parts prost bytes) [
  | err e ↦ some (err e)
  | ok parts ↦
      map_option
        (λ sanitized. ok (record {
          name = sanitized;
          payload = parts.2;
          hash_function = parts.1;
          hash = parts.0.hash;
        }))
        (sanitized_name name parts.0.hash)
]
