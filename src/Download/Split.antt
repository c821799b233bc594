-- ===== src/Download/Split.antt =====
-- `try_split` of src-tauri/src/downloads.rs: when a worker ends, the open segment with most bytes
-- left is halved, and its second half becomes a new segment.
pub mod Laws
mod Tests
use bushido.Prelude.{
  ℕ, suc, ◌+◌, ◌-◌, ◌*◌, ◌/◌, Bool, false, Option, none, some, List, [], ◌∷◌, ◌++◌, ltb, length,
  get_elem?, set, if◌then◌else◌,
}
use bushido.Download.Segment.{Segment}

-- What is left of a segment. `end - start` does not underflow where the segment is ordered.
pub remaining : Segment → ℕ
remaining s = (s.end - s.start + 1) - s.downloaded

-- One round of the loop that looks for the best segment.
abbrev pub better : ℕ → Segment → Option ℕ × ℕ → Option ℕ × ℕ
better i s best =
    if s.done then best else if ltb best.1 (remaining s) then (some i, remaining s) else best

-- The loop that looks for the best segment: the position so far and what is left there.
pub best_from : ℕ → List Segment → Option ℕ × ℕ → Option ℕ × ℕ
best_from i [] best = best
best_from i (s ∷ segs) best = best_from (suc i) segs (better i s best)

abbrev pub midpoint : Segment → ℕ
midpoint seg =
    let current_pos = seg.start + seg.downloaded in current_pos + (seg.end - current_pos) / 2

abbrev pub first_half : Segment → Segment
first_half seg = record seg { end = midpoint seg }

abbrev pub second_half : ℕ → Segment → Segment
second_half new_idx seg = record {
  idx = new_idx;
  start = midpoint seg + 1;
  end = seg.end;
  downloaded = 0;
  done = false;
}

-- The index into `segs` is in range, since it comes from the loop: `none` does not occur.
pub split_at : ℕ → List Segment → Option (ℕ × ℕ × ℕ) × List Segment
split_at i segs = elim (get_elem? segs i) [
  | none ↦ (none, segs)
  | some seg ↦ (
    some (length segs, midpoint seg + 1, seg.end),
    set segs i (first_half seg) ++ (second_half (length segs) seg ∷ []),
  )
]

abbrev pub split_floor : ℕ
split_floor = 1024 * 1024

-- What follows the search, on its result.
pub split_best : List Segment → Option ℕ × ℕ → Option (ℕ × ℕ × ℕ) × List Segment
split_best segs (none, best_remaining) = (none, segs)
split_best segs (some i, best_remaining) =
    if ltb best_remaining split_floor then (none, segs) else split_at i segs

-- The index and the range of the new segment, if any, and the segments afterwards.
unfoldable pub try_split : List Segment → Option (ℕ × ℕ × ℕ) × List Segment
unfolding split_best best_from split_at remaining
try_split segs = split_best segs (best_from 0 segs (none, 0))
