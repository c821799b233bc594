-- ===== src/Download/Transfer.antt =====
-- The chunked transfer, `dl_task_chunked` and `spawn_segment_worker` of src-tauri/src/downloads.rs.
-- The tasks run interleaved: an event is one turn of one of the `select!` loops, and a schedule is
-- any list of events. What the server sends and when a request or a write fails is in the events.
-- A turn is atomic, as far as the shared segments go; progress events and the bandwidth limiter do
-- not touch the segments, and are left out.
pub mod Slots
pub mod Invariant
pub mod Steps
pub mod Launch
pub mod Whole
pub mod Resume
mod Tests
use bushido.Prelude.{
  ℕ, suc, ◌+◌, ◌-◌, Bool, true, false, not, ◌&&◌, ◌||◌, Option, none, some, List, [], ◌∷◌, ◌++◌,
  ltb, leb, ◌==◌, get_elem?, length, Bytes, if◌then◌else◌,
}
use bushido.Download.Segment.{Segment}
use bushido.Download.Split.{try_split}

-- A task of `spawn_segment_worker`: the segment it serves, where it writes next, and the last byte
-- of the range that it asked for. `finished` after its `done_tx.send`, `stopped` after it has seen
-- the cancel signal.
pub record Worker : Type 0 where
  pub seg_idx : ℕ
  pub offset : ℕ
  pub range_end : ℕ
  pub finished : Bool
  pub stopped : Bool

pub data Phase : Type 0 where
  transferring completed cancelled : Phase

-- The shared segments, the tasks, the channel `done_rx`, the orchestrator's counter, the bytes of the
-- open file, whether the table has the item (`downloads.get(&id)`), its `received_bytes`, and the
-- segments of the manifest on disk.
pub record Transfer : Type 0 where
  pub segs : List Segment
  pub workers : List Worker
  pub done_queue : List ℕ
  pub active_workers : ℕ
  pub file : ℕ → Option ℕ
  pub listed : Bool
  pub received : ℕ
  pub saved : Option (List Segment)
  pub phase : Phase

-- `segs.iter_mut().find(|s| s.idx == seg_idx)`
pub find_seg : ℕ → List Segment → Option Segment
find_seg k [] = none
find_seg k (s ∷ segs) = if s.idx == k then some s else find_seg k segs

pub update_seg : ℕ → (Segment → Segment) → List Segment → List Segment
update_seg k f [] = []
update_seg k f (s ∷ segs) = if s.idx == k then f s ∷ segs else s ∷ update_seg k f segs

-- The task that serves a segment.
pub find_worker : ℕ → List Worker → Option Worker
find_worker k [] = none
find_worker k (w ∷ ws) = if w.seg_idx == k then some w else find_worker k ws

pub update_worker : ℕ → (Worker → Worker) → List Worker → List Worker
update_worker k f [] = []
update_worker k f (w ∷ ws) = if w.seg_idx == k then f w ∷ ws else w ∷ update_worker k f ws

-- `segs.iter().map(|s| s.downloaded).sum()`
pub total_downloaded : List Segment → ℕ
total_downloaded [] = 0
total_downloaded (s ∷ segs) = s.downloaded + total_downloaded segs

-- `file.seek_write(&bytes, offset)`, where all of the bytes are written.
unfoldable pub seek_write : (ℕ → Option ℕ) → ℕ → Bytes → ℕ → Option ℕ
seek_write file offset bytes o =
    if leb offset o
    then elim (get_elem? bytes (o - offset)) [ none ↦ file o | some b ↦ some b ]
    else file o

pub spawn_segment_worker : ℕ → ℕ → ℕ → List Worker → List Worker
spawn_segment_worker seg_idx start_from end workers =
    workers
    ++ (record {
      seg_idx = seg_idx;
      offset = start_from;
      range_end = end;
      finished = false;
      stopped = false;
    }
        ∷ [])

-- The loop that spawns a worker for each segment that is not done.
pub spawn_all : List Segment → List Worker → List Worker
spawn_all [] workers = workers
spawn_all (s ∷ segs) workers =
    spawn_all segs (
      if s.done then workers else spawn_segment_worker s.idx (s.start + s.downloaded) s.end workers)

-- `segs.iter().filter(|s| !s.done).count()`
pub count_open : List Segment → ℕ
count_open [] = 0
count_open (s ∷ segs) = (if s.done then 0 else 1) + count_open segs

-- The start of `dl_task_chunked`, on a fresh plan or on the segments of a manifest. A manifest of
-- before, which is on disk until this task saves or deletes it, is not kept account of.
pub launch : List Segment → (ℕ → Option ℕ) → Transfer
launch segs file = record {
  segs = segs;
  workers = spawn_all segs [];
  done_queue = [];
  active_workers = count_open segs;
  file = file;
  listed = true;
  received = total_downloaded segs;
  saved = none;
  phase = transferring;
}

-- The worker's loop has ended: the segment is marked done, and its index is sent.
pub finish : ℕ → Transfer → Transfer
finish k t = record t {
  segs = update_seg k (λ s. record s { done = true }) t.segs;
  workers = update_worker k (λ w. record w { finished = true }) t.workers;
  done_queue = t.done_queue ++ (k ∷ []);
}

-- A chunk of bytes arrives, and is written.
pub receive : ℕ → Worker → Bytes → Transfer → Transfer
receive k w bytes t =
    let len = length bytes in
    let t' = record t {
      segs = update_seg k (λ s. record s { downloaded = s.downloaded + len }) t.segs;
      workers = update_worker k (λ v. record v { offset = v.offset + len }) t.workers;
      file = seek_write t.file w.offset bytes;
    } in
    elim (find_seg k t.segs) [
      | none ↦ finish k t'
      | some s ↦ if ltb (s.end + 1) (w.offset + len) then finish k t' else t'
    ]

-- One turn of a loop. `chunk` and `ended` are turns of the worker of segment k (`ended`: the end of
-- its stream, or an error of its request, its stream or its file), `stop` is its turn on the cancel
-- signal; `drain`, `tick` and `cancel` are the orchestrator's, on `done_rx`, on the clock when a
-- manifest is due, and on the cancel signal. `forget` is the end of the command `cancel`, which takes
-- the item from the table and deletes its manifest; its file is removed too, but the workers go on
-- with the one that they have open.
pub data Event : Type 0 where
  chunk : ℕ → Bytes → Event
  ended stop : ℕ → Event
  drain tick cancel forget : Event

abbrev pub is_live : Worker → Bool
is_live w = not (w.finished || w.stopped)

pub on_worker : ℕ → (Worker → Transfer → Transfer) → Transfer → Transfer
on_worker k f t = elim (find_worker k t.workers) [
  | none ↦ t
  | some w ↦ if is_live w then f w t else t
]

-- The orchestrator has received a worker's index.
pub respawn : Option (ℕ × ℕ × ℕ) × List Segment → Transfer → Transfer
respawn (none, segs) t = record t { segs = segs; active_workers = t.active_workers - 1 }
respawn (some (new_idx, new_start, new_end), segs) t = record t {
  segs = segs;
  workers = spawn_segment_worker new_idx new_start new_end t.workers;
  active_workers = t.active_workers - 1 + 1;
}

-- The item's `received_bytes`, where it is in the table.
abbrev pub counted_bytes : Transfer → ℕ
counted_bytes t = if t.listed then total_downloaded t.segs else t.received

pub conclude : Transfer → Transfer
conclude t =
    if t.active_workers == 0
    then record t { phase = completed; received = counted_bytes t; saved = none }
    else t

pub drain_one : List ℕ → Transfer → Transfer
drain_one [] t = t
drain_one (k ∷ queue) t = conclude (respawn (try_split t.segs) (record t { done_queue = queue }))

-- `if let Some(item) = downloads.get(&id)`
pub save_manifest : Transfer → Transfer
save_manifest t = record t {
  received = counted_bytes t;
  saved = if t.listed then some t.segs else t.saved;
}

pub while_transferring : Phase → (Transfer → Transfer) → Transfer → Transfer
while_transferring transferring f t = f t
while_transferring completed f t = t
while_transferring cancelled f t = t

pub step : Event → Transfer → Transfer
step (chunk k bytes) t = on_worker k (λ w. receive k w bytes) t
step (ended k) t = on_worker k (λ w. finish k) t
step (stop k) t =
    on_worker k
      (λ w u. record u { workers = update_worker k (λ v. record v { stopped = true }) u.workers }) t
step drain t = while_transferring t.phase (drain_one t.done_queue) t
step tick t = while_transferring t.phase save_manifest t
step cancel t =
    while_transferring t.phase (λ u. let v = save_manifest u in record v { phase = cancelled }) t
step forget t = record t { listed = false; saved = none }

pub run : List Event → Transfer → Transfer
run [] t = t
run (e ∷ es) t = run es (step e t)
