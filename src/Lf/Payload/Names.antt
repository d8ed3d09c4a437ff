-- ===== src/Lf/Payload/Names.antt =====
-- The module names of a payload, daml-lf/src/payload.rs.
use rust_daml_bindings.Base.{String, List, [], ◌∷◌, ◌≡◌, refl, arith, any_of, contains}
use rust_daml_bindings.Lf.Proto.{Package, Module}
use rust_daml_bindings.Lf.Payload.{
  DamlLfArchivePayload, decode_dotted_name, is_named, contains_module, names_of, list_modules,
}

any_named :
    (p : Package) (name : String) (ms : List Module)
    → any_of (λ (m : Module). is_named name (decode_dotted_name p m.name_interned_dname)) ms
      ≡ contains name (names_of p ms)
unfolding names_of
any_named p name [] = refl
any_named p name (m ∷ ms) = ground (arith, any_named p name ms)

-- `contains_module` answers for a name exactly what membership in `list_modules` says.
pub contains_module-eq-contains :
    (p : DamlLfArchivePayload) (name : String)
    → contains_module p name ≡ contains name (list_modules p)
unfolding contains_module list_modules
contains_module-eq-contains p name = any_named p.lf_package name p.lf_package.modules
