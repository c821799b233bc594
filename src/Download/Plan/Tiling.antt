-- ===== src/Download/Plan/Tiling.antt =====
-- How the planned segments lie in the file.
use bushido.Prelude.{
  refl, ap, false, Bool, ◌∙◌, ℕ, zero, suc, ◌+◌, ◌*◌, ◌/◌, ◌%◌, ◌^◌, ◌≤◌, ◌<◌, ◌≡◌, some, none,
  true, List, All, length, arith,
}
use native.Mathlib.Decide.{dec_lt}
use bushido.Download.Segment.{Segment, IsPartition, IsIndexed, Tiles, cover-Tiles}
use bushido.Download.Plan.{
  min_chunk_size, default_segments, use_chunked, seg_count, segment_at, segments_from,
  initial_segments,
}

last_index : (i count : ℕ) → i < count → ¬ (suc i < count) → i + 1 ≡ count
last_index i count h last = omega arith

module _ (total count chunk : ℕ) (pos : 0 < chunk) (fits : count * chunk ≤ total) where
  segment_end_inner :
      (i : ℕ) → suc i < count → suc (segment_at total count chunk i).end ≡ suc i * chunk
  unfolding segment_at
  segment_end_inner i h = ground arith

  segment_end_last : (i : ℕ) → suc i ≡ count → suc (segment_at total count chunk i).end ≡ total
  unfolding segment_at
  segment_end_last i h = grind arith

  segment_start : (i : ℕ) → (segment_at total count chunk i).start ≡ i * chunk
  unfolding segment_at
  segment_start i = refl

  -- A segment holds a whole chunk at least.
  segment_size :
      (i : ℕ)
      → i < count
      → (segment_at total count chunk i).start + chunk ≤ suc (segment_at total count chunk i).end
  segment_size i h = elim (dec_lt (suc i) count) [
    | yes inner ↦ rw (segment_start i, segment_end_inner i inner) (omega arith)
    | no last ↦
        rw (segment_start i, segment_end_last i (omega arith))
          (omega (arith, ap (λ (t : ℕ). t * chunk) (last_index i count h last)))
  ]

  -- The rounds from `i` on tile the rest of the file.
  segments_from-Tiles :
      (i rounds : ℕ)
      → i + rounds ≡ count
      → 0 < rounds
      → Tiles (i * chunk) total (segments_from total count chunk i rounds)
  unfolding segments_from
  segments_from-Tiles i zero e p = absurd (omega arith)
  segments_from-Tiles i (suc zero) e p = (
    segment_start i,
    omega (arith, segment_size i (omega arith)),
    segment_end_last i (omega arith),
  )
  segments_from-Tiles i (suc (suc r)) e p = (
    segment_start i,
    omega (arith, segment_size i (omega arith)),
    rw (segment_end_inner i (omega arith))
        (segments_from-Tiles (suc i) (suc r) (omega arith) (omega arith)),
  )

-- Segments that the transfer has not touched, each with `chunk` bytes at least.
abbrev pub IsFresh : ℕ → Segment → Type 0
IsFresh chunk s = (s.start + chunk ≤ suc s.end) × (s.downloaded ≡ 0) × (s.done ≡ false)

module _ (total count chunk : ℕ) where
  segments_from-IsIndexed : (i rounds : ℕ) → IsIndexed i (segments_from total count chunk i rounds)
  unfolding segments_from segment_at
  segments_from-IsIndexed i zero = tt
  segments_from-IsIndexed i (suc r) = (refl, segments_from-IsIndexed (suc i) r)

  length-segments_from : (i rounds : ℕ) → length (segments_from total count chunk i rounds) ≡ rounds
  unfolding segments_from
  length-segments_from i zero = refl
  length-segments_from i (suc r) = ap suc (length-segments_from (suc i) r)

  segment_untouched :
      (i : ℕ)
      → ((segment_at total count chunk i).downloaded ≡ 0)
        × ((segment_at total count chunk i).done ≡ false)
  unfolding segment_at
  segment_untouched i = (refl, refl)

module _ (total count chunk : ℕ) (pos : 0 < chunk) (fits : count * chunk ≤ total) where
  segments_from-IsFresh :
      (least : ℕ)
      → least ≤ chunk
      → (i rounds : ℕ) → i + rounds ≤ count
      → All (IsFresh least) (segments_from total count chunk i rounds)
  unfolding segments_from
  segments_from-IsFresh least le i zero h = tt
  segments_from-IsFresh least le i (suc r) h =
      let (downloaded, done) = segment_untouched total count chunk i in
      (
        (omega (arith, segment_size total count chunk pos fits i (omega arith)), downloaded, done),
        segments_from-IsFresh least le (suc i) r (omega arith),
      )

seg_count_pos : (total : ℕ) → total < 2 ^ 51 → (0 < seg_count total) × (seg_count total ≤ 6)
unfolding seg_count
seg_count_pos total h = omega arith

-- What the count leaves to a segment.
seg_count_fits :
    (total : ℕ) → min_chunk_size ≤ total → total < 2 ^ 51 → seg_count total * min_chunk_size ≤ total
unfolding seg_count
seg_count_fits total m h = omega arith

chunk_size : (total n k : ℕ) → 0 < n → n * k ≤ total → (k ≤ total / n) × (n * (total / n) ≤ total)
chunk_size total n k p h = grind arith

-- What a plan for `total` bytes is: a partition into at most six segments, numbered in order, of
-- 512 KiB or more each, none of them begun.
pub record IsPlan (total : ℕ) (segs : List Segment) : Type 0 where
  pub partition : IsPartition total segs
  pub indexed : IsIndexed 0 segs
  pub few : length segs ≤ default_segments
  pub fresh : All (IsFresh min_chunk_size) segs

-- A download that `start` runs as a chunked one, of less than 2^51 bytes, gets a plan: the segments
-- hold every byte of the file exactly once, are numbered from 0, are at most six, hold 512 KiB or
-- more each, and none of them is begun.
pub initial_segments-IsPlan :
    (supports_range : Bool) (total : ℕ)
    → use_chunked supports_range (some total) ≡ true
    → total < 2 ^ 51
    → (segs : List Segment) × (initial_segments total ≡ some segs) × IsPlan total segs
unfolding initial_segments use_chunked
initial_segments-IsPlan supports_range total h small =
    let large : min_chunk_size ≤ total = ground arith in
    let n = seg_count total in
    let (pos, few) = seg_count_pos total small in
    let (size, fits) = chunk_size total n min_chunk_size pos (seg_count_fits total large small) in
    (
      segments_from total n (total / n) 0 n,
      ground arith,
      record {
        partition = λ o.
            cover-Tiles o (0 * (total / n)) total _
              (segments_from-Tiles total n (total / n) (omega arith) fits 0 n (omega arith) pos)
            ∙ ground arith;
        indexed = segments_from-IsIndexed total n (total / n) 0 n;
        few = omega (arith, length-segments_from total n (total / n) 0 n);
        fresh =
            segments_from-IsFresh total n (total / n) (omega arith) fits min_chunk_size size 0 n
              (omega arith);
      },
    )

-- From 2^51 bytes on the cast can leave no segment at all, and the planning divides by zero: so at
-- every total whose number of 512 KiB chunks is a multiple of 2^32, and not 0.
pub initial_segments_panics :
    (total : ℕ)
    → 0 < total / min_chunk_size
    → total / min_chunk_size % 2 ^ 32 ≡ 0
    → initial_segments total ≡ none
unfolding initial_segments seg_count
initial_segments_panics total h e = ground arith
