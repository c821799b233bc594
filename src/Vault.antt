-- ===== src/Vault.antt =====
-- The password vault, src-tauri/src/vault.rs.
pub mod State
pub mod Commands
pub mod Methods
pub mod Readable
pub mod Kept
pub mod Unlock
pub mod Runs
pub mod Setup
pub mod Listing
mod Tests
