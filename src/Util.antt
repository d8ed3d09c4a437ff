-- ===== src/Util.antt =====
-- The crate daml-util.
pub mod Packages
