-- ===== src/Ctap2.antt =====
-- ctap2: the CTAP2 commands.
pub mod Storage
pub mod Status
pub mod Command
pub mod AuthData
pub mod Types
pub mod Handler
pub mod MakeCredential
pub mod GetAssertion
pub mod Commands
pub mod Policy
pub mod Resident
pub mod Paging
