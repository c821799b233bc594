-- ===== src/Sync/Engine/Changes.antt =====
-- What a device does with the changes of its peer, in src-tauri/src/sync/sync_engine.rs.
use bushido.Prelude.{
  ◌≡◌, refl, sym, ap, ◌∙◌, ◌⊎◌, inl, inr, Bool, true, false, [], ◌∷◌, Bytes, Option, none, some, ok,
}
use bushido.Sync.Protocol.{SyncMessage, sync_delta, sync_up_to_date}
use bushido.Sync.Talk.{done, tell}
use bushido.Sync.Document.{Loro, SyncDoc, version_vector, import_delta, cuts, copied}
use bushido.Sync.Engine.{Lz4, updates_for, send_updates, on_changes, non_empty, or_else}

-- What the libraries document: LZ4 gives back what it was given, and a document of Loro stands for
-- a set of changes. An export holds the changes after a version, an import joins them, and a document
-- with no updates has no changes.
pub record SyncLaws (loro : Loro) (lz4 : Lz4) : Type 1 where
  pub decompress-compress : (b : Bytes) → lz4.decompress (lz4.compress b) ≡ ok b
  pub decode-encode : (v : loro.VersionVector) → loro.decode_vv (loro.encode_vv v) ≡ ok v
  pub Changes : Type 0
  pub changes : loro.Doc → Changes
  pub join : Changes → Changes → Changes
  pub join_comm : (x y : Changes) → join x y ≡ join y x
  pub join_assoc : (x y z : Changes) → join (join x y) z ≡ join x (join y z)
  pub join_idem : (x : Changes) → join x x ≡ x
  pub exports :
      (v : loro.VersionVector) (d : loro.Doc) → (b : Bytes) × (loro.export_updates v d ≡ ok b)
  pub snapshots : (d : loro.Doc) → (b : Bytes) × (loro.snapshot d ≡ ok b)
  pub import-delta :
      (d e : loro.Doc) (b : Bytes)
      → loro.export_updates (loro.oplog_vv e) d ≡ ok b
      → (e' : loro.Doc) × (loro.import b e ≡ (ok tt, e'))
        × (changes e' ≡ join (changes e) (changes d))
  pub import-all :
      (d e : loro.Doc) (b : Bytes)
      → loro.export_updates loro.default_vv d ≡ ok b
      → (e' : loro.Doc) × (loro.import b e ≡ (ok tt, e'))
        × (changes e' ≡ join (changes e) (changes d))
  pub no_updates :
      (d : loro.Doc) (x : Changes)
      → loro.export_updates loro.default_vv d ≡ ok []
      → join x (changes d) ≡ x

module _ (loro : Loro) (lz4 : Lz4) where
  abbrev pub packet : Option Bytes → SyncMessage
  packet (some updates) = sync_delta (lz4.compress updates)
  packet none = sync_up_to_date

  abbrev pub is_some : Option Bytes → Bool
  is_some (some b) = true
  is_some none = false

  pub send_updates-packet :
      (o : Option Bytes) → send_updates loro lz4 o ≡ tell (packet o) (done (is_some o))
  unfolding send_updates
  send_updates-packet (some b) = refl
  send_updates-packet none = refl

  -- The disk takes what is written.
  abbrev pub IsWritable : SyncDoc loro → Type 0
  IsWritable s = (s.disk.writes ≡ true) × (s.disk.renames ≡ true)

  module _ (laws : SyncLaws loro lz4) where
    open laws use {changes, join}

    -- The file holds the document.
    abbrev pub IsSaved : SyncDoc loro → Type 0
    IsSaved s = (b : Bytes) × (loro.snapshot s.doc ≡ ok b) × (s.file ≡ some b)

    -- An import that Loro accepts, on a disk that takes the file.
    import_delta-accepted :
        (s : SyncDoc loro) (b : Bytes) (d : loro.Doc)
        → IsWritable s
        → cuts loro 200 (loro.bookmarks_json s.doc) ≡ true
        → cuts loro 300 (loro.bookmarks_json d) ≡ true
        → loro.import b s.doc ≡ (ok tt, d)
        → (s' : SyncDoc loro) × (import_delta loro lz4.decompress (lz4.compress b) s ≡ (ok tt, s'))
          × (s'.doc ≡ d)
          × IsSaved s'
    unfolding import_delta
    import_delta-accepted s b d (writes, renames) log_200 log_300 imports =
        let (bytes, snap) = laws.snapshots d in
        let s' = record s {
          doc = d;
          file = some bytes;
          bak = copied loro s.disk.copies s.file s.bak;
        } in
        (
          s',
          rw (laws.decompress-compress b)
              (rw log_200 (rw imports (rw snap (rw (writes, renames) (rw log_300 refl))))),
          refl,
          (bytes, snap, refl),
        )

    -- What a device does with the changes that its peer sends it.
    abbrev pub IsReceived : SyncDoc loro → SyncDoc loro → Option Bytes → Type 0
    IsReceived s t o =
        (t' : SyncDoc loro) × (on_changes loro lz4 t (packet o) ≡ done (is_some o, t'))
        × (changes t'.doc ≡ join (changes t.doc) (changes s.doc))
        × ((is_some o ≡ false) ⊎ IsSaved t')

    module _ (s t : SyncDoc loro) (writable : IsWritable t)
        (log_200 : cuts loro 200 (loro.bookmarks_json t.doc) ≡ true)
        (log_300 : (d : loro.Doc)
          → changes d ≡ join (changes t.doc) (changes s.doc)
          → cuts loro 300 (loro.bookmarks_json d) ≡ true) where
      some-IsReceived :
          (b : Bytes) (d : loro.Doc)
          → loro.import b t.doc ≡ (ok tt, d)
          → changes d ≡ join (changes t.doc) (changes s.doc)
          → IsReceived s t (some b)
      unfolding on_changes
      some-IsReceived b d imports joined =
          let (t', accepts, same, saved) =
            import_delta-accepted t b d writable log_200 (log_300 d joined) imports in
          (t', rw accepts refl, ap changes same ∙ joined, inr saved)

      all-IsReceived :
          (b : Bytes)
          → loro.export_updates loro.default_vv s.doc ≡ ok b
          → IsReceived s t (non_empty (ok b))
      unfolding on_changes
      all-IsReceived [] e = (t, refl, sym (laws.no_updates s.doc (changes t.doc) e), inl refl)
      all-IsReceived (x ∷ b) e =
          let (d, imports, joined) = laws.import-all s.doc t.doc (x ∷ b) e in
          some-IsReceived (x ∷ b) d imports joined

      delta-IsReceived :
          (b all : Bytes)
          → loro.export_updates (loro.oplog_vv t.doc) s.doc ≡ ok b
          → loro.export_updates loro.default_vv s.doc ≡ ok all
          → IsReceived s t (or_else (non_empty (ok b)) (non_empty (ok all)))
      delta-IsReceived [] all e e' = all-IsReceived all e'
      delta-IsReceived (x ∷ b) all e e' =
          let (d, imports, joined) = laws.import-delta s.doc t.doc (x ∷ b) e in
          some-IsReceived (x ∷ b) d imports joined

      pub updates-bring : IsReceived s t (updates_for loro lz4 s (version_vector loro t))
      unfolding updates_for
      updates-bring =
          let (b, e) = laws.exports (loro.oplog_vv t.doc) s.doc in
          let (all, e') = laws.exports loro.default_vv s.doc in
          rw (laws.decode-encode (loro.oplog_vv t.doc)) (rw (e, e') (delta-IsReceived b all e e'))
