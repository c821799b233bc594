-- ===== src/Download/Split/Tests.antt =====
-- A split of two segments, of which the second has more left.
use bushido.Prelude.{◌≡◌, refl, ◌∙◌, false, some, List, [], ◌∷◌, arith}
use bushido.Download.Segment.{Segment, cover-Tiles}
use bushido.Download.Split.{try_split}
use bushido.Download.Split.Laws.{IsSound, try_split-IsSound}

abbrev two_segments : List Segment
two_segments =
    record { idx = 0; start = 0; end = 1999999; downloaded = 1500000; done = false }
    ∷ record { idx = 1; start = 2000000; end = 3999999; downloaded = 0; done = false }
    ∷ []

two_segments-IsSound : IsSound 4000000 two_segments
two_segments-IsSound = record {
  partition = λ o. cover-Tiles o 0 4000000 two_segments (omega arith) ∙ ground arith;
  indexed = omega arith;
  ordered = omega arith;
}

second_split : (try_split two_segments).0 ≡ some (2, 3000000, 3999999)
unfolding try_split
second_split = refl

try_split-IsSound_example : IsSound 4000000 (try_split two_segments).1
try_split-IsSound_example = try_split-IsSound 4000000 two_segments two_segments-IsSound
