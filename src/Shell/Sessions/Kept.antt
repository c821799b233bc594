-- ===== src/Shell/Sessions/Kept.antt =====
-- The sessions that the backups of src-tauri/src/lib.rs keep.
use bushido.Prelude.{
  ℕ, zero, suc, ◌≤◌, ◌≡◌, refl, ◌∙◌, ap, true, List, [], ◌∷◌, Bytes, ltb, ◌||◌, if◌then◌else◌,
  Option, none, some, ok, err, ok_or, get_elem?, inl, inr, Bool-cases, arith,
}
use bushido.Shell.Sessions.{
  Sessions, FileSystem, copied_over, save_session, restore_backup, restore_found,
}

-- Every copy and every write succeeds.
abbrev pub sound : FileSystem
sound = record { copies = λ n. true; writes = true }

-- The sessions that were saved, the latest first, are the file and the backups 1 to 5.
abbrev pub Keeps : List Bytes → Sessions → Type 0
Keeps saved s =
    (s.session ≡ get_elem? saved 0)
    × (s.backup 1 ≡ get_elem? saved 1)
    × (s.backup 2 ≡ get_elem? saved 2)
    × (s.backup 3 ≡ get_elem? saved 3)
    × (s.backup 4 ≡ get_elem? saved 4)
    × (s.backup 5 ≡ get_elem? saved 5)

-- A place behind the end of a list, after a place in front of it.
copied_over-elem :
    (saved : List Bytes) (i : ℕ)
    → copied_over true (get_elem? saved i) (get_elem? saved (suc i)) ≡ get_elem? saved i
copied_over-elem [] i = refl
copied_over-elem (x ∷ saved) zero = refl
copied_over-elem (x ∷ []) (suc i) = refl
copied_over-elem (x ∷ (y ∷ saved)) (suc i) = copied_over-elem (y ∷ saved) i

pub save_session-Keeps :
    (saved : List Bytes) (tabs : Bytes) (s : Sessions)
    → Keeps saved s
    → ((save_session sound tabs s).0 ≡ ok tt) × Keeps (tabs ∷ saved) (save_session sound tabs s).1
unfolding save_session
save_session-Keeps [] tabs s (a, b, c, d, e, f) =
    (refl, (refl, rw a b, rw a c, rw a d, rw a e, rw a f))
save_session-Keeps (x ∷ saved) tabs s (a, b, c, d, e, f) = (
  refl,
  (
    refl,
    rw a refl,
    rw a (rw b (rw c (copied_over-elem (x ∷ saved) 1))),
    rw a (rw c (rw d (copied_over-elem (x ∷ saved) 2))),
    rw a (rw d (rw e (copied_over-elem (x ∷ saved) 3))),
    rw a (rw e (rw f (copied_over-elem (x ∷ saved) 4))),
  ),
)

-- Sessions saved one after the other, the latest first, where there was none.
abbrev pub none_yet : Sessions
none_yet = record { session = none; backup = λ n. none }

abbrev pub saves : List Bytes → Sessions
saves [] = none_yet
saves (tabs ∷ saved) = (save_session sound tabs (saves saved)).1

pub saves-Keeps : (saved : List Bytes) → Keeps saved (saves saved)
saves-Keeps [] = (refl, refl, refl, refl, refl, refl)
saves-Keeps (tabs ∷ saved) = (save_session-Keeps saved tabs (saves saved) (saves-Keeps saved)).1

Keeps-backup :
    (saved : List Bytes) (s : Sessions) (n : ℕ)
    → Keeps saved s
    → 1 ≤ n
    → n ≤ 5
    → s.backup n ≡ get_elem? saved n
Keeps-backup saved s zero h low high = absurd (omega arith)
Keeps-backup saved s (suc zero) h low high = h.1
Keeps-backup saved s (suc (suc zero)) h low high = h.2
Keeps-backup saved s (suc (suc (suc zero))) h low high = h.3
Keeps-backup saved s (suc (suc (suc (suc zero)))) h low high = h.4
Keeps-backup saved s (suc (suc (suc (suc (suc zero))))) h low high = h.5
Keeps-backup saved s (suc (suc (suc (suc (suc (suc n)))))) h low high = absurd (omega arith)

restore_found-result :
    (found : Option Bytes) (s : Sessions)
    → (restore_found sound found s).0 ≡ ok_or found "Backup not found"
restore_found-result none s = refl
restore_found-result (some text) s = refl

-- After sessions have been saved where there was none, and no copy or write failed, `restore_backup`
-- of a number from 1 to 5 gives the session that was saved so many saves before the last, or says that
-- there is none, and of another number it says that the number is not valid.
pub saves-restore_backup :
    (saved : List Bytes) (n : ℕ)
    → (restore_backup sound n (saves saved)).0 ≡ (
        if ltb n 1 || ltb 5 n
        then err "Invalid backup number"
        else ok_or (get_elem? saved n) "Backup not found")
unfolding restore_backup
saves-restore_backup saved n = elim (Bool-cases (ltb n 1 || ltb 5 n)) [
  | inl invalid ↦ rw invalid refl
  | inr valid ↦ rw valid (
      restore_found-result ((saves saved).backup n) (saves saved)
      ∙ ap (λ found. ok_or found "Backup not found")
          (Keeps-backup saved (saves saved) n (saves-Keeps saved) (ground (arith, valid))
            (ground (arith, valid))))
]
