-- ===== src/Download/Transfer/Launch.antt =====
-- The start of a chunked download, fresh or from a manifest.
use bushido.Prelude.{
  none-ne-some, ℕ, suc, ◌+◌, ◌≤◌, ◌<◌, ◌≡◌, ◌≢◌, ◌⊎◌, refl, sym, ◌∙◌, subst, inl, inr, true, false,
  Option, none, some, List, [], ◌∷◌, All, All-map, All-zip, length, arith, Bool-cases,
  if◌then◌else◌,
}
use bushido.Download.Segment.{Segment, IsIndexed, IsPartition}
use bushido.Download.Transfer.{
  Worker, find_worker, spawn_segment_worker, spawn_all, count_open, launch,
}
use bushido.Download.Transfer.Slots.{
  unfinished, no_unfinished, unfinished-spawn, find_worker-spawn_other, find_worker-spawn_self,
}
use bushido.Download.Transfer.Invariant.{Written, SegOk, IsValid}

module _ (content : ℕ → ℕ) where
  -- A segment from which a worker can go on: its counted bytes are on disk, and all of them if done.
  pub record IsResumable (file : ℕ → Option ℕ) (s : Segment) : Type 0 where
    pub ordered : s.start ≤ s.end
    pub written : Written content file s.start (s.start + s.downloaded)
    pub whole : s.done ≡ true → s.end < s.start + s.downloaded

abbrev worker_of : Segment → Worker
worker_of s = record {
  seg_idx = s.idx;
  offset = s.start + s.downloaded;
  range_end = s.end;
  finished = false;
  stopped = false;
}

abbrev spawned : Segment → Option Worker
spawned s = if s.done then none else some (worker_of s)

-- One round of `spawn_all`.
abbrev spawn_one : Segment → List Worker → List Worker
spawn_one s ws = if s.done then ws else spawn_segment_worker s.idx (s.start + s.downloaded) s.end ws

spawn_one-other :
    (j : ℕ) (s : Segment) (ws : List Worker)
    → s.idx ≢ j
    → find_worker j (spawn_one s ws) ≡ find_worker j ws
spawn_one-other j s ws ne = elim (Bool-cases s.done) [
  | inl e ↦ rw e
  | inr e ↦ rw e (find_worker-spawn_other s.idx (s.start + s.downloaded) s.end j ws ne)
]

spawn_one_self :
    (s : Segment) (ws : List Worker)
    → find_worker s.idx ws ≡ none
    → find_worker s.idx (spawn_one s ws) ≡ spawned s
spawn_one_self s ws free = elim (Bool-cases s.done) [
  | inl e ↦ rw e free
  | inr e ↦ rw e (find_worker-spawn_self s.idx (s.start + s.downloaded) s.end ws free)
]

spawn_all-other :
    (n j : ℕ) (segs : List Segment) (ws : List Worker)
    → IsIndexed n segs
    → (j < n) ⊎ (n + length segs ≤ j)
    → find_worker j (spawn_all segs ws) ≡ find_worker j ws
unfolding spawn_all
spawn_all-other n j [] ws i h = refl
spawn_all-other n j (s ∷ segs) ws i h =
    spawn_all-other (suc n) j segs (spawn_one s ws) i.1 (omega arith)
    ∙ spawn_one-other j s ws (omega arith)

spawn_all-each :
    (n : ℕ) (segs : List Segment) (ws : List Worker)
    → IsIndexed n segs
    → ((j : ℕ) → n ≤ j → find_worker j ws ≡ none)
    → All (λ s. find_worker s.idx (spawn_all segs ws) ≡ spawned s) segs
unfolding spawn_all
spawn_all-each n [] ws i free = tt
spawn_all-each n (s ∷ segs) ws i free = (
  spawn_all-other (suc n) s.idx segs (spawn_one s ws) i.1 (omega arith)
      ∙ spawn_one_self s ws (free s.idx (omega arith)),
  spawn_all-each (suc n) segs (spawn_one s ws) i.1
      (λ j h. spawn_one-other j s ws (omega arith) ∙ free j (omega arith)),
)

unfinished-spawn_all :
    (segs : List Segment) (ws : List Worker)
    → unfinished (spawn_all segs ws) ≡ unfinished ws + count_open segs
unfolding spawn_all count_open
unfinished-spawn_all [] ws = omega arith
unfinished-spawn_all (s ∷ segs) ws = elim (Bool-cases s.done) [
  | inl e ↦ rw e (omega (arith, unfinished-spawn_all segs ws))
  | inr e ↦
      let ws' = spawn_segment_worker s.idx (s.start + s.downloaded) s.end ws in
      rw e (
        omega (
          arith,
          unfinished-spawn_all segs ws',
          unfinished-spawn s.idx (s.start + s.downloaded) s.end ws,
        ))
]

no_worker : (j : ℕ) → find_worker j [] ≡ none
unfolding find_worker
no_worker j = refl

module _ (content : ℕ → ℕ) (total : ℕ) where
  SegOk-spawned :
      (file : ℕ → Option ℕ) (s : Segment)
      → IsResumable content file s
      → SegOk content file (spawned s) s
  SegOk-spawned file s h = record {
    ordered = h.ordered;
    written = h.written;
    served = λ more. (worker_of s, rw more, refl, refl, omega arith);
    whole = h.whole;
    released = λ done w e. absurd (none-ne-some (rw done at e));
  }

  -- A start from resumable segments that partition the file.
  pub launch-IsValid :
      (segs : List Segment) (file : ℕ → Option ℕ)
      → IsPartition total segs
      → IsIndexed 0 segs
      → All (IsResumable content file) segs
      → IsValid content total (launch segs file)
  unfolding launch
  launch-IsValid segs file partition indexed ready = record {
    partition = partition;
    indexed = indexed;
    slots =
        All-map segs
          (λ s (at, h). subst (λ o. SegOk content file o s) (sym at) (SegOk-spawned file s h))
          (All-zip _ (IsResumable content file) segs
            (spawn_all-each 0 segs [] indexed (λ j _. no_worker j)) ready);
    unused = λ j h. spawn_all-other 0 j segs [] indexed (inr (omega arith)) ∙ no_worker j;
    counted = omega (arith, unfinished-spawn_all segs [], no_unfinished);
    at_end = λ e. cc;
  }
