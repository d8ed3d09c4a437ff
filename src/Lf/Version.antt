-- ===== src/Lf/Version.antt =====
-- Language versions, daml-lf/src/version.rs.
use Prim.Native.String.{◌++◌}
use rust_daml_bindings.Base.{String, ◌≡◌, ◌↔◌, arith, str_eq, str_eq_iff, if◌then◌else◌, ok, err}
use rust_daml_bindings.Lf.Error.{DamlLfResult, unknown_version}

pub data LanguageV2MinorVersion : Type 0 where
  v1 dev : LanguageV2MinorVersion

pub data LanguageVersion : Type 0 where
  lv2 : LanguageV2MinorVersion → LanguageVersion

-- `Display` of a minor version.
unfoldable pub minor_text : LanguageV2MinorVersion → String
minor_text v1 = "1"
minor_text dev = "dev"

-- `Display` of a version.
unfoldable pub version_text : LanguageVersion → String
unfolding minor_text
version_text (lv2 minor) = "v2." ++ minor_text minor

-- `TryFrom<&str>`.
unfoldable pub minor_try_from : String → DamlLfResult LanguageV2MinorVersion
minor_try_from s =
    if str_eq s "1" then ok v1 else if str_eq s "dev" then ok dev else err (unknown_version s)

-- A text is accepted as a minor version exactly if it is what that version prints.
pub minor_try_from-eq-ok :
    (s : String) (v : LanguageV2MinorVersion) → (minor_try_from s ≡ ok v) ↔ (s ≡ minor_text v)
unfolding minor_try_from minor_text
minor_try_from-eq-ok s v1 = ground (arith, str_eq_iff s "1", str_eq_iff s "dev", str_eq_iff "1" "1")
minor_try_from-eq-ok s dev =
    ground
      (arith, str_eq_iff s "1", str_eq_iff s "dev", str_eq_iff "dev" "1", str_eq_iff "dev" "dev")
