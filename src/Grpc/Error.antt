-- ===== src/Grpc/Error.antt =====
-- The errors of daml-grpc/src/data/error.rs. The errors of tonic, http and io stand as their texts.
use rust_daml_bindings.Base.{ℕ, String, Result, Option, some, none, ok, err}

pub data DamlError : Type 0 where
  timeout_error : DamlError → DamlError
  grpc_transport_error : String → DamlError
  grpc_status_error : String → DamlError
  grpc_permission_error : String → DamlError
  invalid_uri_error : String → DamlError
  std_error : String → DamlError
  unexpected_type : String → String → DamlError
  unknown_field : String → DamlError
  list_index_out_of_range : ℕ → DamlError
  missing_required_field : DamlError
  unexpected_variant : String → String → DamlError
  other : String → DamlError
  failed_conversion : String → DamlError
  insufficient_parties : DamlError

abbrev pub DamlResult {ℓ} : Type ℓ → Type ℓ
DamlResult A = Result DamlError A

-- `req` of daml-grpc/src/util.rs.
abbrev pub req {ℓ} : {A : Type ℓ} → Option A → DamlResult A
req (some a) = ok a
req none = err missing_required_field
