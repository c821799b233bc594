-- ===== src/Sync/Engine/Recovery.antt =====
-- The files of a document while changes are imported, in src-tauri/src/sync/sync_engine.rs.
use bushido.Prelude.{
  ◌≡◌, refl, ◌⊎◌, inl, inr, Bool, true, false, Bytes, Option, none, some, sym, ◌∙◌, Result, ok,
}
use bushido.Prelude.Io.{after-state}
use bushido.Sync.Document.{
  Copying, copy_done, copy_failed, Loro, SyncDoc, import_delta, save, backup, log_bookmarks, copied,
  imported, save_bytes,
}

module _ (loro : Loro) where
  -- The file is as it was, or holds the document as it is now.
  abbrev pub IsKept : SyncDoc loro → SyncDoc loro → Type 0
  IsKept s s' =
      (s'.file ≡ s.file) ⊎ ((b : Bytes) × (loro.snapshot s'.doc ≡ ok b) × (s'.file ≡ some b))

  -- The copy is that of the file as it was, or what a failed copy left; it is untouched where there
  -- was no file.
  abbrev pub IsCopied : SyncDoc loro → SyncDoc loro → Type 0
  IsCopied s s' =
      ((s.disk.copies ≡ copy_done) × (s'.bak ≡ s.file))
      ⊎ (((left : Option Bytes) × (s.disk.copies ≡ copy_failed left) × (s'.bak ≡ left))
          ⊎ ((s.file ≡ none) × (s'.bak ≡ s.bak)))

  copied-cases :
      (s s' : SyncDoc loro) → s'.bak ≡ copied loro s.disk.copies s.file s.bak → IsCopied s s'
  copied-cases s s' = go s.disk.copies s.file refl refl
    where
      go :
          (copies : Copying) (file : Option Bytes)
          → s.disk.copies ≡ copies
          → s.file ≡ file
          → s'.bak ≡ copied loro copies file s.bak
          → IsCopied s s'
      go copies none c f e = inr (inr (f, e))
      go copy_done (some bytes) c f e = inl (c, e ∙ sym f)
      go (copy_failed left) (some bytes) c f e = inr (inl (left, c, e))

  -- Nothing has changed, or the copy has been made or has failed.
  abbrev pub IsBackedUp : SyncDoc loro → SyncDoc loro → Type 0
  IsBackedUp s s' = (s' ≡ s) ⊎ IsCopied s s'

  abbrev IsRecoverable : SyncDoc loro → SyncDoc loro → Type 0
  IsRecoverable s s' = IsKept s s' × IsBackedUp s s'

  save_bytes-IsRecoverable :
      (b : Bytes) (s t : SyncDoc loro)
      → loro.snapshot t.doc ≡ ok b
      → t.file ≡ s.file
      → t.bak ≡ copied loro s.disk.copies s.file s.bak
      → IsRecoverable s (save_bytes loro b t).1
  save_bytes-IsRecoverable b s t snap same backed = go t.disk.writes t.disk.renames refl refl
    where
      go :
          (writes renames : Bool)
          → t.disk.writes ≡ writes
          → t.disk.renames ≡ renames
          → IsRecoverable s (save_bytes loro b t).1
      go false renames e e' = rw e (inl same, inr (copied-cases s t backed))
      go true false e e' = rw (e, e') (inl same, inr (copied-cases s t backed))
      go true true e e' = rw (e, e') (inr (b, snap, refl), inr (copied-cases s t backed))

  save-IsRecoverable :
      (s t : SyncDoc loro)
      → t.file ≡ s.file
      → t.bak ≡ copied loro s.disk.copies s.file s.bak
      → IsRecoverable s (save loro t).1
  save-IsRecoverable s t same backed =
      after-state (IsRecoverable s) (save_bytes loro) (loro.snapshot t.doc, t)
        (inl same, inr (copied-cases s t backed))
        λ b e. save_bytes-IsRecoverable b s t e same backed

  -- Whatever data comes, and wherever its import fails: the file is as it was or holds the document as
  -- it is then. And nothing has changed, or where there was a file the copy beside it is that of the
  -- file as it was if the copying succeeded, and what the copying left if it failed, which the import
  -- does not notice; where there was no file, the copy is as it was.
  pub import_delta-recoverable :
      (decompress : Bytes → Result Bytes) (bytes : Bytes) (s : SyncDoc loro)
      → IsKept s (import_delta loro decompress bytes s).1
        × IsBackedUp s (import_delta loro decompress bytes s).1
  unfolding import_delta
  import_delta-recoverable decompress bytes s =
      let P = IsRecoverable s in
      after-state P _ (decompress bytes, s) (inl refl, inl refl)
        λ b e.
          after-state P _ (log_bookmarks loro 200 s) (inl refl, inl refl)
            λ u e.
              after-state P _ (imported loro (backup loro s).1 (loro.import b s.doc))
                (inl refl, inr (copied-cases s (backup loro s).1 refl))
                λ u e.
                  let t = record s {
                    doc = (loro.import b s.doc).1;
                    bak = copied loro s.disk.copies s.file s.bak;
                  } in
                  let saved = save-IsRecoverable s t refl refl in
                  after-state P _ (save loro t) saved λ u e. saved
