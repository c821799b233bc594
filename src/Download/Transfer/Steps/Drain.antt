-- ===== src/Download/Transfer/Steps/Drain.antt =====
-- The cancel signal at a worker, and the orchestrator's turn on `done_rx`.
use bushido.Prelude.{
  ℕ, suc, ◌+◌, ◌≤◌, ◌<◌, ◌≡◌, refl, ap, ◌∙◌, subst, inl, inr, true, false, Option, none, some, List,
  [], ◌∷◌, ◌++◌, All, All-map, All-zip, All-get, All-set, All-append, length, length-append,
  length-set, set, arith, ◌==◌, ==_iff, get_elem?, Bool-cases,
}
use native.Mathlib.Nat.{zero-add}
use bushido.Download.Segment.{Segment, IsIndexed, cover}
use bushido.Download.Split.{remaining, split_floor, midpoint, first_half, second_half, try_split}
use bushido.Download.Split.Laws.{
  try_split-cases, split_at_lem, midpoint_bounds, split_at-cover, split_at-IsIndexed,
}
use bushido.Download.Transfer.{
  Worker, Transfer, transferring, find_worker, update_worker, spawn_segment_worker, respawn,
  conclude,
}
use bushido.Download.Transfer.Slots.{
  unfinished, unfinished-update, unfinished-spawn, find_worker-spawn_other, find_worker-spawn_self,
  IsIndexed-lt, update_seg_id,
}
use bushido.Download.Transfer.Invariant.{SegOk, SlotOk, IsValid, live_slot}
use bushido.Download.Transfer.Steps.{IsValid-update}

module _ (content : ℕ → ℕ) (total : ℕ) where
  abbrev stopped_worker : Worker → Worker
  stopped_worker w = record w { stopped = true }

  pub IsValid-stop :
      (k : ℕ) (t : Transfer) (w : Worker)
      → find_worker k t.workers ≡ some w
      → w.finished ≡ false
      → IsValid content total t
      → IsValid content total (record t { workers = update_worker k stopped_worker t.workers })
  IsValid-stop k t w at open_ v =
      subst
        (λ segs.
          IsValid content total
            (record t { segs = segs; workers = update_worker k stopped_worker t.workers }))
        (update_seg_id k t.segs)
        (IsValid-update content total k stopped_worker (λ s. s) t.file t t.done_queue w (λ _. refl)
          (λ _. refl) (λ _ _. refl) (λ _ e. e) at
          (λ s e _ h.
            let (more, offset, range) = live_slot content t.file w s open_ h in
            record {
              ordered = h.ordered;
              written = h.written;
              served = λ _. (_, refl, open_, offset, range);
              whole = h.whole;
              released = λ done. cc;
            })
          (omega (arith, v.counted, unfinished-update k stopped_worker t.workers (λ _. refl)))
          v.slots v)

  -- A segment keeps its part when a worker with another index is spawned.
  SlotOk-spawn :
      (file : ℕ → Option ℕ) (ws : List Worker) (n from end : ℕ) (segs : List Segment)
      → All (λ s. s.idx < n) segs
      → All (SlotOk content file ws) segs
      → All (SlotOk content file (spawn_segment_worker n from end ws)) segs
  SlotOk-spawn file ws n from end segs below slots =
      All-map segs (λ s (lt, h). rw (find_worker-spawn_other n from end s.idx ws (omega arith)) h)
        (All-zip (λ s. s.idx < n) (SlotOk content file ws) segs below slots)

  -- The first half of a split keeps its worker, and the second half gets a new one.
  SegOk-first_half :
      (file : ℕ → Option ℕ) (worker : Option Worker) (s : Segment)
      → s.done ≡ false
      → split_floor ≤ remaining s
      → SegOk content file worker s
      → SegOk content file worker (first_half s)
  SegOk-first_half file worker s more large h =
      let bounds = midpoint_bounds 0 [] s large in
      let (w, is_w, open_, offset, range) = h.served more in
      record {
        ordered = omega arith;
        written = h.written;
        served = λ _. (w, is_w, open_, offset, omega arith);
        whole = λ done. cc;
        released = λ done. cc;
      }

  SegOk-second_half :
      (file : ℕ → Option ℕ) (n : ℕ) (s : Segment)
      → split_floor ≤ remaining s
      → SegOk content file
          (some (record {
            seg_idx = n;
            offset = midpoint s + 1;
            range_end = s.end;
            finished = false;
            stopped = false;
          }))
          (second_half n s)
  SegOk-second_half file n s large =
      let bounds = midpoint_bounds 0 [] s large in
      record {
        ordered = omega arith;
        written = λ o lo hi. absurd (omega arith);
        served = λ _. (_, refl, refl, omega arith, omega arith);
        whole = λ done. cc;
        released = λ done. cc;
      }

  -- The segments and workers after a split.
  split-slots :
      (file : ℕ → Option ℕ) (ws : List Worker) (segs : List Segment) (i : ℕ) (s : Segment)
      → get_elem? segs i ≡ some s
      → s.done ≡ false
      → split_floor ≤ remaining s
      → IsIndexed 0 segs
      → find_worker (length segs) ws ≡ none
      → All (SlotOk content file ws) segs
      → All
          (SlotOk content file (spawn_segment_worker (length segs) (midpoint s + 1) s.end ws))
          (set segs i (first_half s) ++ (second_half (length segs) s ∷ []))
  split-slots file ws segs i s at_i more large indexed free slots =
      let n = length segs in
      let P = SlotOk content file (spawn_segment_worker n (midpoint s + 1) s.end ws) in
      let spawned : All P segs =
        SlotOk-spawn file ws n (midpoint s + 1) s.end segs
          (subst (λ (m : ℕ). All (λ x. x.idx < m) segs) (zero-add n) (IsIndexed-lt 0 segs indexed))
          slots in
      All-append P (set segs i (first_half s)) (second_half n s ∷ [])
        (All-set P segs i (first_half s) spawned (
          SegOk-first_half file
            (find_worker s.idx (spawn_segment_worker n (midpoint s + 1) s.end ws)) s more large
            (All-get P segs i s spawned at_i)))
        (
          rw (find_worker-spawn_self n (midpoint s + 1) s.end ws free)
              (SegOk-second_half file n s large),
          tt,
        )

  split-unused :
      (ws : List Worker) (segs : List Segment) (i : ℕ) (s : Segment)
      → ((j : ℕ) → length segs ≤ j → find_worker j ws ≡ none)
      → (j : ℕ) → length (set segs i (first_half s) ++ (second_half (length segs) s ∷ [])) ≤ j
      → find_worker j (spawn_segment_worker (length segs) (midpoint s + 1) s.end ws) ≡ none
  split-unused ws segs i s free j h =
      let longer = length-append (set segs i (first_half s)) (second_half (length segs) s ∷ []) in
      let same = length-set segs i (first_half s) in
      find_worker-spawn_other (length segs) (midpoint s + 1) s.end j ws (omega arith)
      ∙ free j (omega arith)

  pub IsValid-respawn :
      (t : Transfer) (k : ℕ) (queue : List ℕ)
      → t.done_queue ≡ k ∷ queue
      → t.phase ≡ transferring
      → IsValid content total t
      → IsValid content total (respawn (try_split t.segs) (record t { done_queue = queue }))
  unfolding respawn
  IsValid-respawn t k queue q going v =
      let counted : t.active_workers ≡ unfinished t.workers + suc (length queue) =
        v.counted ∙ ap (λ (l : List ℕ). unfinished t.workers + length l) q in
      elim (try_split-cases t.segs) [
        | inl (e, _) ↦
            rw (e, respawn)
              (record {
                partition = v.partition;
                indexed = v.indexed;
                slots = v.slots;
                unused = v.unused;
                counted = omega arith;
                at_end = λ ended. cc;
              })
        | inr (i, s, e, at_i, more, large, _) ↦
            rw (e ∙ split_at_lem i t.segs s at_i, respawn)
              (record {
                partition = λ o.
                    subst (λ r. cover o r.1 ≡ cover o t.segs) (split_at_lem i t.segs s at_i)
                      (split_at-cover i t.segs s o at_i large)
                    ∙ v.partition o;
                indexed =
                    subst (λ r. IsIndexed 0 r.1) (split_at_lem i t.segs s at_i)
                      (split_at-IsIndexed i t.segs s at_i v.indexed);
                slots =
                    split-slots t.file t.workers t.segs i s at_i more large v.indexed
                      (v.unused (length t.segs) (omega arith)) v.slots;
                unused = split-unused t.workers t.segs i s v.unused;
                counted =
                    omega
                      (arith, unfinished-spawn (length t.segs) (midpoint s + 1) s.end t.workers);
                at_end = λ ended. cc;
              })
      ]

  pub IsValid-conclude :
      (t : Transfer) → IsValid content total t → IsValid content total (conclude t)
  unfolding conclude
  IsValid-conclude t v = elim (Bool-cases (t.active_workers == 0)) [
    | inr more ↦ rw (more, conclude) v
    | inl over ↦
        rw (over, conclude)
          (record {
            partition = v.partition;
            indexed = v.indexed;
            slots = v.slots;
            unused = v.unused;
            counted = v.counted;
            at_end = λ _. (==_iff t.active_workers 0).0 over;
          })
  ]
