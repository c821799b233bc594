-- ===== src/Shell/Sessions/Tests.antt =====
-- The backups of a session at work.
use bushido.Prelude.{◌≡◌, List, [], ◌∷◌, Bytes, codes, ok}
use bushido.Shell.Sessions.{restore_backup}
use bushido.Shell.Sessions.Kept.{sound, saves, saves-restore_backup}

abbrev three : List Bytes
three = codes "[3]" ∷ codes "[2]" ∷ codes "[1]" ∷ []

saves-restore_backup_example : (restore_backup sound 2 (saves three)).0 ≡ ok (codes "[1]")
saves-restore_backup_example = saves-restore_backup three 2
