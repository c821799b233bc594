-- ===== src/Shell.antt =====
-- What the shell of src-tauri/src/lib.rs keeps of the windows.
pub mod Sessions
