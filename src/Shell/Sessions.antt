-- ===== src/Shell/Sessions.antt =====
-- The session file of src-tauri/src/lib.rs and its backups, session.backup.1.json to
-- session.backup.5.json: save_session, load_session and restore_backup.
pub mod Kept
mod Tests
use bushido.Prelude.{
  ℕ, zero, suc, ◌+◌, Bool, true, false, Bytes, codes, ltb, ◌==◌, ◌||◌, if◌then◌else◌, Option, none,
  some, Result, ok, err,
}
use bushido.Prelude.Io.{Io}

-- The text of session.json and of the backup of each number.
pub record Sessions : Type 0 where
  pub session : Option Bytes
  pub backup : ℕ → Option Bytes

-- What the file system does in one command: a copy to the backup of a number and a write of
-- session.json, each of which may fail and then leaves the file.
pub record FileSystem : Type 0 where
  pub copies : ℕ → Bool
  pub writes : Bool

abbrev pub max_session_backups : ℕ
max_session_backups = 5

-- `fs::copy` of a file, if it exists, over another.
abbrev pub copied_over : Bool → Option Bytes → Option Bytes → Option Bytes
copied_over success none old = old
copied_over true (some text) old = some text
copied_over false (some text) old = old

abbrev pub copy_to : FileSystem → ℕ → Option Bytes → (ℕ → Option Bytes) → ℕ → Option Bytes
copy_to disk n src backup i =
    if i == n then copied_over (disk.copies n) src (backup i) else backup i

-- The loop, from the backup of a number down to that of 1.
abbrev pub shift_up : FileSystem → ℕ → (ℕ → Option Bytes) → ℕ → Option Bytes
shift_up disk zero backup = backup
shift_up disk (suc n) backup = shift_up disk n (copy_to disk (suc (suc n)) (backup (suc n)) backup)

abbrev pub rotate : FileSystem → Option Bytes → (ℕ → Option Bytes) → ℕ → Option Bytes
rotate disk none backup = backup
rotate disk (some text) backup = copy_to disk 1 (some text) (shift_up disk 4 backup)

abbrev pub rotate_session_backups : FileSystem → Sessions → Sessions
rotate_session_backups disk s = record s { backup = rotate disk s.session s.backup }

abbrev pub write_session : FileSystem → Bytes → Io Sessions (Unit {0})
write_session disk text s =
    if disk.writes then (ok tt, record s { session = some text }) else (err "write", s)

unfoldable pub save_session : FileSystem → Bytes → Io Sessions (Unit {0})
save_session disk tabs s = write_session disk tabs (rotate_session_backups disk s)

abbrev pub text_or_none : Option Bytes → Bytes
text_or_none none = codes "[]"
text_or_none (some text) = text

unfoldable pub load_session : Io Sessions Bytes
load_session s = (ok (text_or_none s.session), s)

-- The text of the backup, where it could be written.
abbrev pub with_text : Bytes → Result (Unit {0}) × Sessions → Result Bytes × Sessions
with_text text (ok u, s) = (ok text, s)
with_text text (err e, s) = (err e, s)

abbrev pub restore_found : FileSystem → Option Bytes → Io Sessions Bytes
restore_found disk none s = (err "Backup not found", s)
restore_found disk (some text) s = with_text text (write_session disk text s)

unfoldable pub restore_backup : FileSystem → ℕ → Io Sessions Bytes
restore_backup disk n s =
    if ltb n 1 || ltb max_session_backups n
    then (err "Invalid backup number", s)
    else restore_found disk (s.backup n) s
