-- ===== src/Download/Commands.antt =====
-- The commands of the download manager in src-tauri/src/downloads.rs that concern the table of items
-- and the manifests: `start`, `pause`, `cancel` and `load_pending`. Paths, headers and
-- the parsing of numbers are of libraries (`Texts`).
pub mod Laws
mod Tests
use bushido.Prelude.{
  ℕ, ◌+◌, Bool, true, false, not, ◌&&◌, ◌||◌, List, [], ◌∷◌, ◌++◌, Bytes, codes, Option, none, some,
  Result, ok, err, if◌then◌else◌,
}
use bushido.Prelude.Io.{Io}
use bushido.Prelude.Table.{Eq, list_eq, list_beq, starts_with, lookup, insert, erase}
use bushido.Download.Segment.{Segment}
use bushido.Download.Plan.{use_chunked}
use bushido.Download.FileName.{dedup_filename}
use bushido.Download.Item.{DlItem, downloading, paused, Manifest, manifest_of, paused_item}

-- `Path::file_name`, `Path::extension`, `Path::file_stem`, `Path::join`, and on texts
-- `to_lowercase`, `trim` and the parsing of a u64.
pub record Texts : Type 0 where
  pub file_name : Bytes → Option Bytes
  pub extension : Bytes → Option Bytes
  pub stem : Bytes → Bytes
  pub join : Bytes → Bytes → Bytes
  pub to_lowercase : Bytes → Bytes
  pub trim : Bytes → Bytes
  pub parse : Bytes → Option ℕ

pub record MimeRoute : Type 0 where
  pub mime_prefix : Bytes
  pub folder : Bytes

-- The headers of the answer to the HEAD request; all are missing where it fails.
pub record Head : Type 0 where
  pub content_type : Option Bytes
  pub content_length : Option Bytes
  pub accept_ranges : Option Bytes

-- The table of items, the ids that have a channel to cancel, the manifests by their id, and the paths
-- that have a file; `writes` where a manifest can be written. A file is removed without fail.
pub record Manager : Type 0 where
  pub downloads : List (Bytes × DlItem)
  pub cancel_tx : List (Bytes × Unit {0})
  pub manifests : List (Bytes × Manifest)
  pub files : List Bytes
  pub writes : Bool

abbrev pub exists : Bytes → List Bytes → Bool
exists path [] = false
exists path (p ∷ files) = list_beq p path || exists path files

abbrev pub removed : Bytes → List Bytes → List Bytes
removed path [] = []
removed path (p ∷ files) =
    let rest = removed path files in if list_beq p path then rest else p ∷ rest

-- `split(';').next()`
abbrev pub before_semicolon : Bytes → Bytes
before_semicolon [] = []
before_semicolon (b ∷ text) =
    if list_beq (b ∷ []) (codes ";") then [] else b ∷ before_semicolon text

abbrev pub or_empty : Option Bytes → Bytes
or_empty none = []
or_empty (some text) = text

abbrev pub inferred : Bytes → Bytes
inferred ext = or_empty (
    lookup ext (
      (codes "jpg", codes "image/jpeg")
      ∷ (codes "jpeg", codes "image/jpeg")
      ∷ (codes "png", codes "image/png")
      ∷ (codes "gif", codes "image/gif")
      ∷ (codes "webp", codes "image/webp")
      ∷ (codes "svg", codes "image/svg+xml")
      ∷ (codes "mp4", codes "video/mp4")
      ∷ (codes "webm", codes "video/webm")
      ∷ (codes "mp3", codes "audio/mpeg")
      ∷ (codes "wav", codes "audio/wav")
      ∷ (codes "ogg", codes "audio/ogg")
      ∷ (codes "pdf", codes "application/pdf")
      ∷ (codes "zip", codes "application/zip")
      ∷ []))

abbrev pub is_empty : Bytes → Bool
is_empty [] = true
is_empty (b ∷ text) = false

-- The folder of the first route that the type matches.
abbrev pub target_dir : Bytes → List MimeRoute → Bytes → Bytes
target_dir mime_type [] dir = dir
target_dir mime_type (route ∷ routes) dir =
    let rest = target_dir mime_type routes dir in
    if not (is_empty mime_type)
      && (not (is_empty route.folder) && starts_with mime_type route.mime_prefix)
    then route.folder
    else rest

module _ (texts : Texts) where
  open texts use {file_name, extension, stem, join, to_lowercase, trim, parse}

  -- The type that the HEAD request or the name's extension gives.
  abbrev pub head_type : Option Bytes → Bytes
  head_type none = []
  head_type (some content_type) = to_lowercase (trim (before_semicolon content_type))

  abbrev pub type_or_inferred : Bytes → Bytes → Bytes
  type_or_inferred safe_name [] = inferred (or_empty (extension safe_name))
  type_or_inferred safe_name (b ∷ mime_type) = b ∷ mime_type

  abbrev pub or_download : Option Bytes → Bytes
  or_download none = codes "download"
  or_download (some name) = name

  abbrev pub parsed : Option Bytes → Option ℕ
  parsed none = none
  parsed (some text) = parse text

  abbrev pub says_bytes : Option Bytes → Bool
  says_bytes none = false
  says_bytes (some text) = list_beq text (codes "bytes")

  -- The name under which a file is made in a folder.
  unfoldable pub free_name : List Bytes → Bytes → Bytes → Bytes
  free_name files dir name =
      dedup_filename (λ n. exists (join dir n) files) (stem name) (extension name) name

  unfoldable pub new_item :
      Bytes → Bytes → Bytes → Bytes → List MimeRoute → Head → ℕ → List Bytes → DlItem
  new_item id url name download_dir mime_routing head now files =
      let safe_name = or_download (file_name name) in
      let mime_type = type_or_inferred safe_name (head_type head.content_type) in
      let dir = target_dir mime_type mime_routing download_dir in
      let final_name = free_name files dir safe_name in
      record {
        id = id;
        url = url;
        file_path = join dir final_name;
        file_name = final_name;
        mime_type = mime_type;
        total_bytes = parsed head.content_length;
        received_bytes = 0;
        state = downloading;
        speed = 0;
        error = none;
        created_at = now;
        supports_range = says_bytes head.accept_ranges;
        segments = 0;
        priority = 0;
      }

  -- `start` with the id that it draws: the item, and whether its task is the chunked one.
  unfoldable pub start :
      Bytes
      → Bytes
      → Bytes
      → Bytes
      → List MimeRoute
      → Head
      → ℕ
      → Manager
      → (DlItem × Bool) × Manager
  start id url name download_dir mime_routing head now m =
      let item = new_item id url name download_dir mime_routing head now m.files in
      (
        (item, use_chunked item.supports_range item.total_bytes),
        record m { downloads = insert id item m.downloads; cancel_tx = insert id tt m.cancel_tx },
      )

-- The end of the channel of a task, which tells it to stop.
abbrev pub signal : Bytes → Manager → Manager
signal id m = record m { cancel_tx = erase id m.cancel_tx }

abbrev pub save_manifest : Manifest → Manager → Manager
save_manifest manifest m =
    if m.writes then record m { manifests = insert manifest.id manifest m.manifests } else m

abbrev pub save_first : Option Manifest → Manifest → Manager → Manager
save_first none manifest m = save_manifest manifest m
save_first (some other) manifest m = m

abbrev pub pause_found : Bytes → Option DlItem → Io Manager (Unit {0})
pause_found id none m = (err "not found", m)
pause_found id (some i) m = (
  ok tt,
  save_first (lookup id m.manifests) (record (manifest_of i i.received_bytes none) { id = id })
      (record m { downloads = insert id (paused_item i) m.downloads }),
)

unfoldable pub pause : Bytes → Io Manager (Unit {0})
pause id m = let m' = signal id m in pause_found id (lookup id m'.downloads) m'

abbrev pub cancel_found : Bytes → Option DlItem → Io Manager (Unit {0})
cancel_found id none m = (err "not found", m)
cancel_found id (some i) m = (
  ok tt,
  record m {
    downloads = erase id m.downloads;
    files = removed i.file_path m.files;
    manifests = erase id m.manifests;
  },
)

unfoldable pub cancel : Bytes → Io Manager (Unit {0})
cancel id m = let m' = signal id m in cancel_found id (lookup id m'.downloads) m'

abbrev pub count_undone : List Segment → ℕ
count_undone [] = 0
count_undone (s ∷ segs) = (if s.done then 0 else 1) + count_undone segs

-- The item of a manifest.
abbrev pub pending_item : Manifest → DlItem
pending_item m = record {
  id = m.id;
  url = m.url;
  file_path = m.file_path;
  file_name = m.file_name;
  mime_type = [];
  total_bytes = m.total_bytes;
  received_bytes = m.received_bytes;
  state = paused;
  speed = 0;
  error = none;
  created_at = m.created_at;
  supports_range = m.supports_range;
  segments = count_undone m.segments;
  priority = m.priority;
}

abbrev pub pending : List Bytes → List (Bytes × Manifest) → List DlItem
pending files [] = []
pending files ((id, m) ∷ manifests) =
    let rest = pending files manifests in
    if exists m.file_path files then pending_item m ∷ rest else rest

-- What is there after the browser was closed.
unfoldable pub load_pending : Manager → List DlItem
load_pending m = pending m.files m.manifests
