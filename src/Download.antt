-- ===== src/Download.antt =====
-- The download manager, src-tauri/src/downloads.rs: the byte ranges of a chunked download, how
-- they are planned and split, and the transfer that runs over them.
pub mod Segment
pub mod Plan
pub mod Split
pub mod Transfer
pub mod Limiter
pub mod FileName
pub mod Item
pub mod Stream
pub mod Commands
