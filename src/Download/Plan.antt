-- ===== src/Download/Plan.antt =====
-- The segments of a fresh download: the choice that `start` makes between a chunked and a single
-- stream, and the first part of `dl_task_chunked`, in src-tauri/src/downloads.rs.
pub mod Tiling
mod Tests
use bushido.Prelude.{
  ℕ, zero, suc, ◌+◌, ◌-◌, ◌*◌, ◌/◌, ◌%◌, ◌^◌, min, max, Bool, true, false, ◌&&◌, Option, none, some,
  List, [], ◌∷◌, leb, ◌==◌, if◌then◌else◌,
}
use bushido.Download.Segment.{Segment}

abbrev pub min_chunk_size : ℕ
min_chunk_size = 512 * 1024

abbrev pub default_segments : ℕ
default_segments = 6

unfoldable pub use_chunked : Bool → Option ℕ → Bool
use_chunked supports_range none = false
use_chunked supports_range (some total) = supports_range && leb (min_chunk_size * 2) total

-- `(total / MIN_CHUNK_SIZE).max(1) as u32`: the cast keeps the low 32 bits.
pub seg_count : ℕ → ℕ
seg_count total = min default_segments (max (total / min_chunk_size) 1 % 2 ^ 32)

pub segment_at : ℕ → ℕ → ℕ → ℕ → Segment
segment_at total count chunk_size i = record {
  idx = i;
  start = i * chunk_size;
  end = if i == count - 1 then total - 1 else (i + 1) * chunk_size - 1;
  downloaded = 0;
  done = false;
}

-- `for i in 0..seg_count`, with the number of rounds left.
pub segments_from : ℕ → ℕ → ℕ → ℕ → ℕ → List Segment
segments_from total count chunk_size i zero = []
segments_from total count chunk_size i (suc rounds) =
    segment_at total count chunk_size i ∷ segments_from total count chunk_size (suc i) rounds

-- `none` is the panic of a division by zero.
unfoldable pub initial_segments : ℕ → Option (List Segment)
unfolding seg_count segments_from segment_at
initial_segments total =
    let count = seg_count total in
    if count == 0 then none else some (segments_from total count (total / count) 0 count)
