-- ===== src/Download/Transfer/Tests.antt =====
-- A run over a file of six bytes in two segments, and the theorems of the transfer at it.
use bushido.Prelude.{
  ℕ, zero, suc, ◌+◌, ◌≡◌, refl, sym, ◌∙◌, subst, true, false, none, some, Option, List, [], ◌∷◌,
  of_some, arith, Bytes,
}
use bushido.Download.Segment.{Segment, cover-Tiles}
use bushido.Download.Split.{try_split}
use bushido.Download.Transfer.{
  Transfer, Worker, Event, transferring, chunk, ended, drain, cancel, completed, find_worker,
  update_worker, find_seg, update_seg, spawn_segment_worker, spawn_all, count_open, launch, finish,
  receive, on_worker, respawn, conclude, drain_one, save_manifest, while_transferring, step, run,
}
use bushido.Download.Transfer.Invariant.{Written, IsValid, IsSlice, IsHonestRun}
use bushido.Download.Transfer.Launch.{launch-IsValid}
use bushido.Download.Transfer.Whole.{completed_run-Written}
use bushido.Download.Transfer.Resume.{cancel-IsValid, failed_worker-completes}

abbrev content : ℕ → ℕ
content o = o + 10

abbrev segs : List Segment
segs =
    record { idx = 0; start = 0; end = 2; downloaded = 0; done = false }
    ∷ record { idx = 1; start = 3; end = 5; downloaded = 0; done = false }
    ∷ []

abbrev empty_file : ℕ → Option ℕ
empty_file o = none

abbrev fresh : Transfer
fresh = launch segs empty_file

fresh-IsValid : IsValid content 6 fresh
fresh-IsValid =
    launch-IsValid content 6 segs empty_file
      (λ o. cover-Tiles o 0 6 segs (omega arith) ∙ ground arith) (omega arith)
      (
        record {
          ordered = omega arith;
          written = λ o lo hi. absurd (omega arith);
          whole = λ done. cc;
        },
        (
          record {
            ordered = omega arith;
            written = λ o lo hi. absurd (omega arith);
            whole = λ done. cc;
          },
          tt,
        ),
      )

-- The bytes of the content from an offset on.
abbrev Counts : ℕ → Bytes → Type 0
Counts n [] = Unit {0}
Counts n (b ∷ bytes) = (b ≡ n + 10) × Counts (suc n) bytes

Counts-IsSlice : (n : ℕ) (bytes : Bytes) → Counts n bytes → IsSlice content n bytes
Counts-IsSlice n [] h i b e = cc
Counts-IsSlice n (x ∷ bytes) h zero b e = omega (arith, of_some e)
Counts-IsSlice n (x ∷ bytes) h (suc i) b e = omega (arith, Counts-IsSlice (suc n) bytes h.1 i b e)

module _ (n : ℕ) (bytes : Bytes) (h : Counts n bytes) (v : Worker) (at_n : v.offset ≡ n) where
  sent : (w : Worker) → some v ≡ some w → IsSlice content w.offset bytes
  sent w e =
      subst (λ u. IsSlice content u.offset bytes) (of_some e)
        (subst (λ m. IsSlice content m bytes) (sym at_n) (Counts-IsSlice n bytes h))

at_end :
    (v : Worker)
    → v.offset ≡ v.range_end + 1
    → (w : Worker) → some v ≡ some w
    → w.offset ≡ w.range_end + 1
at_end v last w e = subst (λ u. u.offset ≡ u.range_end + 1) (of_some e) last

abbrev at_work : ℕ → ℕ → ℕ → Worker
at_work k offset last = record {
  seg_idx = k;
  offset = offset;
  range_end = last;
  finished = false;
  stopped = false;
}

abbrev schedule : List Event
schedule =
    chunk 0 (10 ∷ 11 ∷ [])
    ∷ chunk 1 (13 ∷ 14 ∷ 15 ∷ [])
    ∷ ended 1
    ∷ chunk 0 (12 ∷ [])
    ∷ drain
    ∷ ended 0
    ∷ drain
    ∷ []

schedule-IsHonest : IsHonestRun content schedule fresh
unfolding launch spawn_all spawn_segment_worker step on_worker receive finish find_worker
    update_worker find_seg update_seg drain_one respawn conclude while_transferring try_split
    count_open
schedule-IsHonest = (
  sent 0 (10 ∷ 11 ∷ []) (refl, (refl, tt)) _ refl,
  (
    sent 3 (13 ∷ 14 ∷ 15 ∷ []) (refl, (refl, (refl, tt))) _ refl,
    (
      at_end (at_work 1 6 5) refl,
      (sent 2 (12 ∷ []) (refl, tt) _ refl, (tt, (at_end (at_work 0 3 2) refl, (tt, tt)))),
    ),
  ),
)

schedule-completed : (run schedule fresh).phase ≡ completed
unfolding launch spawn_all spawn_segment_worker step on_worker receive finish find_worker
    update_worker find_seg update_seg drain_one respawn conclude while_transferring try_split
    count_open run
schedule-completed = refl

completed_run-Written_example : Written content (run schedule fresh).file 0 6
completed_run-Written_example =
    completed_run-Written content 6 fresh schedule fresh-IsValid schedule-IsHonest
      schedule-completed

late_chunk-IsHonest : IsHonestRun content (chunk 0 (10 ∷ 11 ∷ []) ∷ []) (step cancel fresh)
unfolding launch spawn_all spawn_segment_worker step find_worker save_manifest while_transferring
late_chunk-IsHonest = (sent 0 (10 ∷ 11 ∷ []) (refl, (refl, tt)) _ refl, tt)

fresh-going : fresh.phase ≡ transferring
unfolding launch
fresh-going = refl

late_chunk-listed : (run (chunk 0 (10 ∷ 11 ∷ []) ∷ []) (step cancel fresh)).listed ≡ true
unfolding launch spawn_all spawn_segment_worker step on_worker receive finish find_worker
    update_worker find_seg update_seg save_manifest while_transferring count_open run
late_chunk-listed = refl

cancel-IsValid_example :
    (saved_segs : List Segment) × ((run (chunk 0 (10 ∷ 11 ∷ []) ∷ []) (step cancel fresh)).saved
      ≡ some saved_segs)
    × IsValid content 6
        (launch saved_segs (run (chunk 0 (10 ∷ 11 ∷ []) ∷ []) (step cancel fresh)).file)
cancel-IsValid_example =
    cancel-IsValid content 6 fresh (chunk 0 (10 ∷ 11 ∷ []) ∷ []) fresh-IsValid fresh-going
      late_chunk-IsHonest late_chunk-listed

-- One segment, whose only worker fails.
abbrev lone : Transfer
lone = launch (record { idx = 0; start = 0; end = 5; downloaded = 0; done = false } ∷ []) empty_file

failed_worker-completes_example :
    let u = step drain (step (ended 0) lone) in (u.phase ≡ completed) × (u.file ≡ empty_file)
unfolding launch spawn_all spawn_segment_worker find_worker count_open
failed_worker-completes_example =
    failed_worker-completes 0 _ lone refl refl refl refl refl (omega arith)
      ((λ ne. absurd (ne refl)), tt)

abbrev mib_plan : List Segment
mib_plan =
    record { idx = 0; start = 0; end = 524287; downloaded = 0; done = false }
    ∷ record { idx = 1; start = 524288; end = 1048575; downloaded = 0; done = false }
    ∷ []
