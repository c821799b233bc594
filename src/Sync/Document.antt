-- ===== src/Sync/Document.antt =====
-- The document of src-tauri/src/sync/sync_doc.rs as a sync uses it: its versions, its exports, the
-- import of what a peer sends, and its file. Loro is a parameter.
use bushido.Prelude.{
  ℕ, min, Bool, true, not, [], ◌∷◌, Bytes, length, drop, ltb, ◌&&◌, if◌then◌else◌, Option, none,
  some, Result, ok, err, ensure,
}
use bushido.Prelude.Io.{Io, ◌>>=◌, ◌>>◌}
use bushido.Sync.Protocol.{lift}

-- `LoroDoc` and `VersionVector`. `import` says what it returns and what becomes of the document;
-- `bookmarks_json` is the text that `read_bookmarks_as_json` reads of it, or the empty text.
pub record Loro : Type 1 where
  pub Doc : Type 0
  pub VersionVector : Type 0
  pub oplog_vv : Doc → VersionVector
  pub default_vv : VersionVector
  pub encode_vv : VersionVector → Bytes
  pub decode_vv : Bytes → Result VersionVector
  pub export_updates : VersionVector → Doc → Result Bytes
  pub snapshot : Doc → Result Bytes
  pub import : Bytes → Doc → Result (Unit {0}) × Doc
  pub bookmarks_json : Doc → Bytes

-- What a copy does: all of it, or it fails and leaves something, which may be a part of the file.
pub data Copying : Type 0 where
  copy_done : Copying
  copy_failed : Option Bytes → Copying

-- What the operations of the file system do in one sync: a write of the temporary file, its renaming,
-- and a copy of the file, each of which may fail.
pub record Disk : Type 0 where
  pub writes : Bool
  pub renames : Bool
  pub copies : Copying

module _ (loro : Loro) where
  open loro use {
    Doc, VersionVector, oplog_vv, default_vv, encode_vv, decode_vv, export_updates, snapshot,
    import, bookmarks_json,
  }

  -- `SyncDoc`, with the files at `save_path` and beside it, with the extension `loro.bak`.
  pub record SyncDoc : Type 0 where
    pub doc : Doc
    pub file : Option Bytes
    pub bak : Option Bytes
    pub disk : Disk

  abbrev pub version_vector : SyncDoc → Bytes
  version_vector s = encode_vv (oplog_vv s.doc)

  abbrev pub export_with : Doc → Result VersionVector → Result Bytes
  export_with d (ok vv) = export_updates vv d
  export_with d (err e) = err "decode vv"

  abbrev pub export_delta : SyncDoc → Bytes → Result Bytes
  export_delta s from_vv = export_with s.doc (decode_vv from_vv)

  abbrev pub export_all_updates : SyncDoc → Result Bytes
  export_all_updates s = export_updates default_vv s.doc

  abbrev pub export_snapshot : SyncDoc → Result Bytes
  export_snapshot s = snapshot s.doc

  abbrev pub imported : SyncDoc → Result (Unit {0}) × Doc → Result (Unit {0}) × SyncDoc
  imported s (r, d) = (r, record s { doc = d })

  abbrev pub import_remote : Bytes → Io SyncDoc (Unit {0})
  import_remote bytes s = imported s (import bytes s.doc)

  abbrev pub save_bytes : Bytes → Io SyncDoc (Unit {0})
  save_bytes bytes s =
      if s.disk.writes
      then (if s.disk.renames then (ok tt, record s { file = some bytes }) else (err "rename", s))
      else (err "write tmp", s)

  abbrev pub save : Io SyncDoc (Unit {0})
  save s = (lift (export_snapshot s) >>= save_bytes) s

  -- The copy beside the file after `std::fs::copy`, where there is a file.
  abbrev pub copied : Copying → Option Bytes → Option Bytes → Option Bytes
  copied copies none bak = bak
  copied copy_done (some bytes) bak = some bytes
  copied (copy_failed left) (some bytes) bak = left

  abbrev pub backup : Io SyncDoc (Unit {0})
  backup s = (ok tt, record s { bak = copied s.disk.copies s.file s.bak })

  -- Whether a text can be cut before its first byte: `is_char_boundary` of UTF-8.
  abbrev pub is_boundary : Bytes → Bool
  is_boundary [] = true
  is_boundary (b ∷ rest) = not (ltb 127 b && ltb b 192)

  -- Whether `&json[..json.len().min(n)]` does not panic.
  abbrev pub cuts : ℕ → Bytes → Bool
  cuts n json = is_boundary (drop (min (length json) n) json)

  -- The log of the first `n` bytes of the bookmarks. A panic ends the sync as an error does.
  abbrev pub log_bookmarks : ℕ → Io SyncDoc (Unit {0})
  log_bookmarks n s =
      (ensure (cuts n (bookmarks_json s.doc)) "byte index is not a char boundary", s)

  -- What is done with the data of a message, decompressed by LZ4.
  module _ (decompress : Bytes → Result Bytes) where
    unfoldable pub import_delta : Bytes → Io SyncDoc (Unit {0})
    import_delta bytes = do
      decompressed ← lift (decompress bytes)
      log_bookmarks 200
      backup
      import_remote decompressed
      save
      log_bookmarks 300

    unfoldable pub import_snapshot : Bytes → Io SyncDoc (Unit {0})
    import_snapshot bytes = do
      decompressed ← lift (decompress bytes)
      backup
      import_remote decompressed
      save
      log_bookmarks 300
