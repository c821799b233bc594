-- ===== src/Download/Item.antt =====
-- `DlItem` and `Manifest` of src-tauri/src/downloads.rs, and what the code does with one item.
use bushido.Prelude.{ℕ, Bool, true, false, List, [], Bytes, Option, none, some, ◌≡◌}
use bushido.Download.Segment.{Segment}

pub data DlState : Type 0 where
  downloading paused completed failed : DlState

pub record DlItem : Type 0 where
  pub id : Bytes
  pub url : Bytes
  pub file_path : Bytes
  pub file_name : Bytes
  pub mime_type : Bytes
  pub total_bytes : Option ℕ
  pub received_bytes : ℕ
  pub state : DlState
  pub speed : ℕ
  pub error : Option Bytes
  pub created_at : ℕ
  pub supports_range : Bool
  pub segments : ℕ
  pub priority : ℕ

pub record Manifest : Type 0 where
  pub id : Bytes
  pub url : Bytes
  pub file_path : Bytes
  pub file_name : Bytes
  pub total_bytes : Option ℕ
  pub received_bytes : ℕ
  pub supports_range : Bool
  pub etag : Option Bytes
  pub created_at : ℕ
  pub segments : List Segment
  pub cookies : Option Bytes
  pub priority : ℕ

-- The manifest that `pause` and `dl_task` write for an item.
abbrev pub manifest_of : DlItem → ℕ → Option Bytes → Manifest
manifest_of i received cookies = record {
  id = i.id;
  url = i.url;
  file_path = i.file_path;
  file_name = i.file_name;
  total_bytes = i.total_bytes;
  received_bytes = received;
  supports_range = i.supports_range;
  etag = none;
  created_at = i.created_at;
  segments = [];
  cookies = cookies;
  priority = i.priority;
}

abbrev pub is_paused : DlState → Bool
is_paused paused = true
is_paused downloading = false
is_paused completed = false
is_paused failed = false

-- The item in `pause`, `resume`, `fail` and at the end of `dl_task`.
abbrev pub paused_item : DlItem → DlItem
paused_item i = record i { state = paused; speed = 0 }

abbrev pub resumed_item : DlItem → DlItem
resumed_item i = record i { state = downloading; speed = 0 }

abbrev pub failed_item : Bytes → DlItem → DlItem
failed_item e i = record i { state = failed; error = some e; speed = 0 }

abbrev pub completed_item : ℕ → DlItem → DlItem
completed_item received i = record i {
  received_bytes = received;
  state = completed;
  speed = 0;
  segments = 0;
}

-- A fresh item of `start`.
abbrev pub IsFresh : DlItem → Type 0
IsFresh i = (i.received_bytes ≡ 0) × (i.state ≡ downloading)
