-- ===== src/Lf/Error.antt =====
-- The errors of daml-lf/src/error.rs. What another crate's error prints is its text.
use Prim.Native.String.{◌++◌}
use rust_daml_bindings.Base.{String, Result}
use rust_daml_bindings.Base.Int.{ℤ, show_ℤ}

pub data DamlLfConvertError : Type 0 where
  unexpected_contract_id_type_arguments : DamlLfConvertError
  missing_required_field : DamlLfConvertError
  unexpected_choice_data : DamlLfConvertError
  unsupported_feature_used : String → String → String → DamlLfConvertError
  unexpected_type : String → String → DamlLfConvertError
  unknown_package : String → DamlLfConvertError
  unknown_module : String → DamlLfConvertError
  unknown_data : String → DamlLfConvertError
  unknown_prim_con : ℤ → DamlLfConvertError
  unknown_builtin_function : ℤ → DamlLfConvertError
  unknown_rounding_mode : ℤ → DamlLfConvertError
  nat_out_of_range : ℤ → DamlLfConvertError
  internal_error : String → DamlLfConvertError

pub data DamlLfError : Type 0 where
  daml_lf_parse_error : String → DamlLfError
  dar_parse_error : String → DamlLfError
  daml_lf_convert_error : DamlLfConvertError → DamlLfError
  io_error : String → DamlLfError
  unknown_version : String → DamlLfError
  unsupported_version : String → DamlLfError

abbrev pub DamlLfResult : Type 0 → Type 0
DamlLfResult A = Result DamlLfError A

abbrev pub DamlLfConvertResult : Type 0 → Type 0
DamlLfConvertResult A = Result DamlLfConvertError A

-- `to_string` of an error, by the `#[error(…)]` attributes.
unfoldable pub convert_error_text : DamlLfConvertError → String
convert_error_text unexpected_contract_id_type_arguments = "unexpected contract id type arguments"
convert_error_text missing_required_field = "required field was not supplied"
convert_error_text unexpected_choice_data = "choice argument was not a record"
convert_error_text (unsupported_feature_used v f r) =
    "Daml LF version "
    ++ (v ++ (" does not support feature " ++ (f ++ (" (requires version " ++ (r ++ ")")))))
convert_error_text (unexpected_type e f) = "expected type " ++ (e ++ (" but found type " ++ f))
convert_error_text (unknown_package p) = "failed to lookup a DamlPackagePayload with id " ++ p
convert_error_text (unknown_module m) = "failed to lookup a DamlModulePayload with id " ++ m
convert_error_text (unknown_data d) = "failed to lookup a DamlDataPayload with id " ++ d
convert_error_text (unknown_prim_con n) = "unknown PrimCon enum variant " ++ show_ℤ n
convert_error_text (unknown_builtin_function n) =
    "unknown BuiltinFunction enum variant " ++ show_ℤ n
convert_error_text (unknown_rounding_mode n) = "unknown RoundingMode enum variant " ++ show_ℤ n
convert_error_text (nat_out_of_range n) = "Nat " ++ (show_ℤ n ++ " out of range (0..37 inclusive)")
convert_error_text (internal_error m) = "Internal error: " ++ m

unfoldable pub lf_error_text : DamlLfError → String
unfolding convert_error_text
lf_error_text (daml_lf_parse_error m) = "failed to parse Daml LF: " ++ m
lf_error_text (dar_parse_error m) = "failed to parse dar file: " ++ m
lf_error_text (daml_lf_convert_error e) = "failed to convert Daml LF: " ++ convert_error_text e
lf_error_text (io_error m) = "io error: " ++ m
lf_error_text (unknown_version v) = "unknown Daml LF version: " ++ v
lf_error_text (unsupported_version v) = "unsupported Daml LF version: " ++ v
