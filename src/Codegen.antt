-- ===== src/Codegen.antt =====
-- The crate daml-codegen: which declarations are rendered as Rust source, and under which names.
pub mod Names
pub mod Types
pub mod Modules
