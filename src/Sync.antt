-- ===== src/Sync.antt =====
-- The local-network sync of src-tauri/src/sync: length-prefixed frames on a TCP stream, the Noise
-- transport over them, and the messages over both.
pub mod Frame
pub mod Noise
pub mod Protocol
pub mod Talk
pub mod Pairing
pub mod Document
pub mod Engine
pub mod Incoming
pub mod Admission
pub mod Handshake
pub mod Stamps
pub mod Contents
pub mod Bookmarks
