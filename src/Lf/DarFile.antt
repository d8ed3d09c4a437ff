-- ===== src/Lf/DarFile.antt =====
-- The record `DarFile` of daml-lf/src/dar.rs.
use rust_daml_bindings.Base.{List}
use rust_daml_bindings.Lf.Archive.{DamlLfArchive}
use rust_daml_bindings.Lf.Manifest.{DarManifest}

pub record DarFile : Type 0 where
  pub manifest : DarManifest
  pub main : DamlLfArchive
  pub dependencies : List DamlLfArchive
