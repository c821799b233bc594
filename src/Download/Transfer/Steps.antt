-- ===== src/Download/Transfer/Steps.antt =====
-- The turns of a worker, against the invariant of the transfer.
pub mod Drain
pub mod Turns
use bushido.Prelude.{
  none-ne-some, ℕ, zero, suc, ◌+◌, ◌-◌, ◌≤◌, ◌<◌, ◌≡◌, ◌≢◌, refl, sym, ap, ◌∙◌, subst, inl, inr,
  Bool, true, false, Option, none, some, List, [], ◌∷◌, ◌++◌, All, All-map, All-get, All-set,
  All-append, length, length-append, arith, ltb, leb, ◌==◌, ==_iff, get_elem?, get_elem?-lt, Bytes,
  Bool-cases, Option-cases, if◌then◌else◌,
}
use mathlib.Core.Option
use native.Mathlib.Decide.{ℕ_discrete, dec_lt}
use bushido.Download.Segment.{Segment, IsIndexed, IsPartition, cover, held}
use bushido.Download.Split.{
  remaining, split_floor, midpoint, first_half, second_half, split_at, try_split,
}
use bushido.Download.Split.Laws.{
  try_split-cases, split_at_lem, midpoint_bounds, split_at-cover, split_at-IsIndexed,
}
use bushido.Download.Transfer.{
  Worker, Transfer, Phase, transferring, completed, cancelled, Event, chunk, ended, stop, drain,
  tick, cancel, find_seg, update_seg, find_worker, update_worker, spawn_segment_worker, seek_write,
  finish, receive, is_live, on_worker, respawn, conclude, drain_one, save_manifest,
  while_transferring, step, run,
}
use bushido.Download.Transfer.Slots.{
  unfinished, find_worker-update_other, find_worker-update_self, unfinished-finish,
  unfinished-update, unfinished_pos, unfinished-spawn, find_worker-spawn_other,
  find_worker-spawn_self, All-update_seg, IsIndexed-update_seg, IsIndexed-lt, cover-update_seg,
  length-update_seg, find_seg_unique, find_seg-none,
}
use bushido.Download.Transfer.Invariant.{
  Written, SegOk, SlotOk, IsValid, IsSlice, IsHonest, seek_write_keeps, SegOk-file, live_slot,
  SegOk-receive, SegOk-finish, slots-update,
}

module _ (content : ℕ → ℕ) (total : ℕ) where
  -- The update of one worker and its segment, when the partition and the numbering stay.
  pub IsValid-update :
      {E : Segment → Type 0} (k : ℕ) (f : Worker → Worker) (g : Segment → Segment)
      (file' : ℕ → Option ℕ) (t : Transfer) (queue : List ℕ) (w : Worker)
      → ((v : Worker) → (f v).seg_idx ≡ v.seg_idx)
      → ((s : Segment) → (g s).idx ≡ s.idx)
      → ((o : ℕ) (s : Segment) → held o (g s) ≡ held o s)
      → ((o : ℕ) → t.file o ≡ some (content o) → file' o ≡ some (content o))
      → find_worker k t.workers ≡ some w
      → ((s : Segment)
          → s.idx ≡ k
          → E s
          → SegOk content t.file (some w) s
          → SegOk content file' (some (f w)) (g s))
      → t.active_workers ≡ unfinished (update_worker k f t.workers) + length queue
      → All E t.segs
      → IsValid content total t
      → IsValid content total (record t {
        segs = update_seg k g t.segs;
        workers = update_worker k f t.workers;
        done_queue = queue;
        file = file';
      })
  IsValid-update k f g file' t queue w keeps keeps_idx keeps_range grows at changes counted extra
        v =
      record {
        partition = λ o. cover-update_seg o k g t.segs (keeps_range o) ∙ v.partition o;
        indexed = IsIndexed-update_seg k g 0 t.segs keeps_idx v.indexed;
        slots =
            slots-update content k f g t.file file' t.workers t.segs w keeps keeps_idx grows at
              changes v.indexed extra v.slots;
        unused = λ j h.
            let free = v.unused j (subst (λ n. n ≤ j) (length-update_seg k g t.segs) h) in
            find_worker-update_other k f keeps j t.workers
              (λ e. none-ne-some (sym free ∙ ap (λ i. find_worker i t.workers) e ∙ at))
            ∙ free;
        counted = counted;
        at_end = v.at_end;
      }

  -- A worker that ends behind its segment.
  pub IsValid-finish :
      (k : ℕ) (t : Transfer) (w : Worker)
      → find_worker k t.workers ≡ some w
      → w.finished ≡ false
      → All (λ s. s.idx ≡ k → s.end < w.offset) t.segs
      → IsValid content total t
      → IsValid content total (finish k t)
  unfolding finish
  IsValid-finish k t w at open_ behind v =
      IsValid-update k (λ u. record u { finished = true }) (λ s. record s { done = true }) t.file t
        (t.done_queue ++ (k ∷ [])) w (λ _. refl) (λ _. refl) (λ _ _. refl) (λ _ e. e) at
        (λ s e lt h. SegOk-finish content t.file w s open_ (lt e) h)
        (omega (
          arith,
          v.counted,
          unfinished-finish k w t.workers at open_,
          length-append t.done_queue (k ∷ []),
        ))
        behind v

  -- The bytes of a chunk and the counters, before the test that may end the worker.
  abbrev after_chunk : ℕ → Worker → Bytes → Transfer → Transfer
  after_chunk k w bytes t = record t {
    segs = update_seg k (λ s. record s { downloaded = s.downloaded + length bytes }) t.segs;
    workers = update_worker k (λ v. record v { offset = v.offset + length bytes }) t.workers;
    file = seek_write t.file w.offset bytes;
  }

  after_chunk-IsValid :
      (k : ℕ) (t : Transfer) (w : Worker) (bytes : Bytes)
      → find_worker k t.workers ≡ some w
      → w.finished ≡ false
      → IsSlice content w.offset bytes
      → IsValid content total t
      → IsValid content total (after_chunk k w bytes t)
  after_chunk-IsValid k t w bytes at open_ slice v =
      IsValid-update k (λ u. record u { offset = u.offset + length bytes })
        (λ s. record s { downloaded = s.downloaded + length bytes })
        (seek_write t.file w.offset bytes) t t.done_queue w (λ _. refl) (λ _. refl) (λ _ _. refl)
        (seek_write_keeps content t.file w.offset bytes slice) at
        (λ s e _ h. SegOk-receive content t.file w bytes s open_ slice h)
        (omega (
          arith,
          v.counted,
          unfinished-update k (λ u. record u { offset = u.offset + length bytes }) t.workers
              (λ _. refl),
        ))
        v.slots v

  -- A chunk arrives at a live worker.
  pub IsValid-receive :
      (k : ℕ) (t : Transfer) (w : Worker) (bytes : Bytes)
      → find_worker k t.workers ≡ some w
      → w.finished ≡ false
      → IsSlice content w.offset bytes
      → IsValid content total t
      → IsValid content total (receive k w bytes t)
  unfolding receive
  IsValid-receive k t w bytes at open_ slice v =
      let t' = after_chunk k w bytes t in
      let v' : IsValid content total t' = after_chunk-IsValid k t w bytes at open_ slice v in
      let g = λ (s : Segment). record s { downloaded = s.downloaded + length bytes } in
      let w' = record w { offset = w.offset + length bytes } in
      let at' : find_worker k t'.workers ≡ some w' =
        find_worker-update_self k (λ u. record u { offset = u.offset + length bytes }) (λ _. refl)
          t.workers w at in
      elim (Option-cases (find_seg k t.segs)) [
        | inl gone ↦
            rw (gone, receive)
              (IsValid-finish k t' w' at' open_
                (All-update_seg (λ s. s.idx ≡ k → s.end < w'.offset) k g 0 t.segs
                  (λ s ne _ e. absurd (ne e)) (λ s e ne _. absurd (ne e)) v.indexed
                  (find_seg-none k t.segs gone))
                v')
        | inr (s, found) ↦ elim (Bool-cases (ltb (s.end + 1) (w.offset + length bytes))) [
          | inr within ↦ rw (found, receive) (rw within v')
          | inl past ↦
              rw (found, receive)
                (rw past (
                  IsValid-finish k t' w' at' open_
                    (All-update_seg (λ x. x.idx ≡ k → x.end < w'.offset) k g 0 t.segs
                      (λ x ne _ e. absurd (ne e)) (λ x e only _. rw (only e) (ground arith))
                      v.indexed (find_seg_unique k s 0 t.segs found v.indexed))
                    v'))
        ]
      ]
