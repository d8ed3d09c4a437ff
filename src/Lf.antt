-- ===== src/Lf.antt =====
-- The crate daml-lf: reading Daml-LF archives.
pub mod Error
pub mod Version
pub mod Proto
pub mod Payload
pub mod Archive
pub mod Manifest
pub mod DarFile
pub mod Dar
pub mod Convert
pub mod Element
