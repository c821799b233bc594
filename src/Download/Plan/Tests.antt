-- ===== src/Download/Plan/Tests.antt =====
-- The plan of a download of 3 MiB and a few bytes, and the plan's theorem at it.
use bushido.Prelude.{ℕ, ◌+◌, ◌*◌, ◌^◌, ◌≡◌, refl, true, some, List, [], ◌∷◌, map, arith}
use mathlib.Core.Option
use bushido.Download.Segment.{Segment}
use bushido.Download.Plan.{use_chunked, seg_count, segment_at, segments_from, initial_segments}
use bushido.Download.Plan.Tiling.{IsPlan, initial_segments-IsPlan}

abbrev three_mib : ℕ
three_mib = 3 * 2 ^ 20 + 5

planned_ends :
    Option.map (map (λ s. s.end)) (initial_segments three_mib)
    ≡ some (524287 ∷ 1048575 ∷ 1572863 ∷ 2097151 ∷ 2621439 ∷ 3145732 ∷ [])
unfolding initial_segments seg_count segments_from segment_at
planned_ends = refl

initial_segments-IsPlan_example :
    (segs : List Segment) × (initial_segments three_mib ≡ some segs) × IsPlan three_mib segs
unfolding use_chunked
initial_segments-IsPlan_example = initial_segments-IsPlan true three_mib refl (omega arith)
