-- ===== src/Tests.antt =====
-- Runs of the development at concrete inputs.
pub mod Sample
mod Values
mod Archives
mod Manifests
mod Collections
mod Modules
mod Trees
mod Validated
mod Rendering
mod Updates
