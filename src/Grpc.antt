-- ===== src/Grpc.antt =====
-- The crate daml-grpc: the data of the Ledger API.
pub mod Error
pub mod External
pub mod Time
pub mod Identifier
pub mod Proto
pub mod Value
pub mod Command
pub mod Offset
pub mod Event
pub mod Update
pub mod User
pub mod State
