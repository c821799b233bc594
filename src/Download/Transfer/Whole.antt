-- ===== src/Download/Transfer/Whole.antt =====
-- What a chunked download has on disk when it is reported as completed, and how it resumes.
use bushido.Prelude.{
  ℕ, ◌<◌, ◌^◌, ◌≡◌, subst, inl, inr, Bool, true, Option, some, List, All, All-map, arith,
  Bool-cases,
}
use bushido.Download.Segment.{Segment, cover-any}
use bushido.Download.Plan.{initial_segments, use_chunked}
use bushido.Download.Plan.Tiling.{IsPlan, initial_segments-IsPlan}
use bushido.Download.Transfer.{Transfer, Event, completed, launch, run}
use bushido.Download.Transfer.Slots.{unfinished_pos}
use bushido.Download.Transfer.Invariant.{Written, IsValid, IsHonestRun}
use bushido.Download.Transfer.Steps.Turns.{run-IsValid}
use bushido.Download.Transfer.Launch.{IsResumable, launch-IsValid}

module _ (content : ℕ → ℕ) (total : ℕ) where
  -- In a valid transfer that is completed every byte of the file is on disk.
  completed-Written :
      (t : Transfer)
      → IsValid content total t
      → t.phase ≡ completed
      → Written content t.file 0 total
  completed-Written t v over o lo hi =
      cover-any (t.file o ≡ some (content o)) o t.segs (ground (arith, v.partition o)) (
        All-map t.segs
          (λ s ok held_here. elim (Bool-cases s.done) [
            | inl done ↦ let last = ok.whole done in ok.written o (ground arith) (ground arith)
            | inr more ↦
                let (w, at, open_, _, _) = ok.served more in
                absurd (
                  omega
                    (arith, v.at_end over, v.counted, unfinished_pos s.idx w t.workers at open_))
          ])
          v.slots)

  -- The segments of a plan can be launched on any file.
  plan-IsResumable :
      (segs : List Segment) (file : ℕ → Option ℕ)
      → IsPlan total segs
      → All (IsResumable content file) segs
  plan-IsResumable segs file plan =
      All-map segs
        (λ s (size, downloaded, open_). record {
          ordered = omega arith;
          written = λ o lo hi. absurd (omega arith);
          whole = λ done. cc;
        })
        plan.fresh

  -- The plan of a chunked download starts the transfer in its invariant.
  pub planned-IsValid :
      (supports_range : Bool) (segs : List Segment) (file : ℕ → Option ℕ)
      → use_chunked supports_range (some total) ≡ true
      → total < 2 ^ 51
      → initial_segments total ≡ some segs
      → IsValid content total (launch segs file)
  planned-IsValid supports_range segs file large small e =
      let (segs', e', plan') = initial_segments-IsPlan supports_range total large small in
      let same : segs' ≡ segs = cc in
      let plan = subst (λ l. IsPlan total l) same plan' in
      launch-IsValid content total segs file plan.partition plan.indexed
        (plan-IsResumable segs file plan)

  -- In any schedule of turns in which the server sends the bytes of the file and no stream ends
  -- early, a transfer that starts in its invariant and is reported as completed has every byte of
  -- the file on disk.
  pub completed_run-Written :
      (t : Transfer) (es : List Event)
      → IsValid content total t
      → IsHonestRun content es t
      → (run es t).phase ≡ completed
      → Written content (run es t).file 0 total
  completed_run-Written t es v honest over =
      completed-Written (run es t) (run-IsValid content total es t honest v) over
