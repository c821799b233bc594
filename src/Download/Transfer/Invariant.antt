-- ===== src/Download/Transfer/Invariant.antt =====
-- The invariant of the chunked transfer, and what one segment and its worker keep of it.
use bushido.Prelude.{
  ℕ, ◌+◌, ◌-◌, ◌≤◌, ◌<◌, ◌≡◌, refl, sym, ap, ◌∙◌, subst, inl, inr, true, false, Option, none, some,
  List, [], ◌∷◌, All, All-zip, length, arith, leb, get_elem?, get_elem?-lt, Bytes, Bool-cases,
  Option-cases,
}
use native.Mathlib.Decide.{dec_lt}
use bushido.Download.Segment.{Segment, IsIndexed, IsPartition}
use bushido.Download.Transfer.{
  Worker, Transfer, completed, Event, chunk, ended, stop, drain, tick, cancel, forget, update_seg,
  find_worker, update_worker, seek_write, step,
}
use bushido.Download.Transfer.Slots.{
  unfinished, find_worker-update_other, find_worker-update_self, All-update_seg,
}

-- `content` is the file on the server.
module _ (content : ℕ → ℕ) where
  abbrev pub Written : (ℕ → Option ℕ) → ℕ → ℕ → Type 0
  Written file lo hi = (o : ℕ) → lo ≤ o → o < hi → file o ≡ some (content o)

  -- What holds of a segment and the worker under its index: the bytes counted as downloaded are on
  -- disk; an open segment has a worker that will write next behind them and asked for the rest; a
  -- segment that is done has all its bytes.
  pub record SegOk (file : ℕ → Option ℕ) (worker : Option Worker) (s : Segment) : Type 0 where
    pub ordered : s.start ≤ s.end
    pub written : Written file s.start (s.start + s.downloaded)
    pub served :
        s.done ≡ false
        → (w : Worker) × (worker ≡ some w)
          × (w.finished ≡ false)
          × (w.offset ≡ s.start + s.downloaded)
          × (s.end ≤ w.range_end)
    pub whole : s.done ≡ true → s.end < s.start + s.downloaded
    pub released : s.done ≡ true → (w : Worker) → worker ≡ some w → w.finished ≡ true

  abbrev pub SlotOk : (ℕ → Option ℕ) → List Worker → Segment → Type 0
  SlotOk file ws s = SegOk file (find_worker s.idx ws) s

  pub record IsValid (total : ℕ) (t : Transfer) : Type 0 where
    pub partition : IsPartition total t.segs
    pub indexed : IsIndexed 0 t.segs
    pub slots : All (SlotOk t.file t.workers) t.segs
    pub unused : (j : ℕ) → length t.segs ≤ j → find_worker j t.workers ≡ none
    pub counted : t.active_workers ≡ unfinished t.workers + length t.done_queue
    pub at_end : t.phase ≡ completed → t.active_workers ≡ 0

  abbrev pub IsSlice : ℕ → Bytes → Type 0
  IsSlice offset bytes = (i b : ℕ) → get_elem? bytes i ≡ some b → b ≡ content (offset + i)

  -- What is assumed of the server and the disk in one turn.
  abbrev pub IsHonest : Transfer → Event → Type 0
  IsHonest t (chunk k bytes) =
      (w : Worker) → find_worker k t.workers ≡ some w → IsSlice w.offset bytes
  IsHonest t (ended k) =
      (w : Worker) → find_worker k t.workers ≡ some w → w.offset ≡ w.range_end + 1
  IsHonest t (stop k) = Unit {0}
  IsHonest t drain = Unit {0}
  IsHonest t tick = Unit {0}
  IsHonest t cancel = Unit {0}
  IsHonest t forget = Unit {0}

  -- A schedule in which every turn is honest.
  abbrev pub IsHonestRun : List Event → Transfer → Type 0
  IsHonestRun [] t = Unit {0}
  IsHonestRun (e ∷ es) t = IsHonest t e × IsHonestRun es (step e t)

  module _ (file : ℕ → Option ℕ) (offset : ℕ) (bytes : Bytes) (slice : IsSlice offset bytes) where
    -- The byte of a slice that lands on `o`.
    slice_at :
        (o b : ℕ) → offset ≤ o → get_elem? bytes (o - offset) ≡ some b → some b ≡ some (content o)
    slice_at o b le e = ap (λ x. some x) (slice (o - offset) b e ∙ ap content (omega arith))

    pub seek_write_keeps :
        (o : ℕ) → file o ≡ some (content o) → seek_write file offset bytes o ≡ some (content o)
    unfolding seek_write
    seek_write_keeps o e = elim (Bool-cases (leb offset o)) [
      | inr before ↦ rw before e
      | inl behind ↦ elim (Option-cases (get_elem? bytes (o - offset))) [
        | inl gone ↦ ground arith
        | inr (b, at) ↦ ground (arith, slice_at o b)
      ]
    ]

    seek_write_covers :
        (o : ℕ)
        → offset ≤ o
        → o < offset + length bytes
        → seek_write file offset bytes o ≡ some (content o)
    unfolding seek_write
    seek_write_covers o lo hi =
        let (b, at) = get_elem?-lt bytes (o - offset) (omega arith) in
        ground (arith, slice_at o b lo at)

  -- A segment's part of the invariant, when the file only gains bytes of the content.
  pub SegOk-file :
      (file file' : ℕ → Option ℕ) (worker : Option Worker) (s : Segment)
      → ((o : ℕ) → file o ≡ some (content o) → file' o ≡ some (content o))
      → SegOk file worker s
      → SegOk file' worker s
  SegOk-file file file' worker s grows h = record {
    ordered = h.ordered;
    written = λ o lo hi. grows o (h.written o lo hi);
    served = h.served;
    whole = h.whole;
    released = h.released;
  }

  -- A worker that is not finished serves an open segment, and writes next behind its bytes.
  pub live_slot :
      (file : ℕ → Option ℕ) (w : Worker) (s : Segment)
      → w.finished ≡ false
      → SegOk file (some w) s
      → (s.done ≡ false) × (w.offset ≡ s.start + s.downloaded) × (s.end ≤ w.range_end)
  live_slot file w s open_ h = elim (Bool-cases s.done) [
    | inl done ↦ cc (h.released done w refl)
    | inr more ↦
        let (v, is_w, _, offset, range) = h.served more in
        let same : v ≡ w = cc in (more, rw (← same) offset, rw (← same) range)
  ]

  -- The segment of the worker that has received a chunk.
  pub SegOk-receive :
      (file : ℕ → Option ℕ) (w : Worker) (bytes : Bytes) (s : Segment)
      → w.finished ≡ false
      → IsSlice w.offset bytes
      → SegOk file (some w) s
      → SegOk
          (seek_write file w.offset bytes)
          (some (record w { offset = w.offset + length bytes }))
          (record s { downloaded = s.downloaded + length bytes })
  SegOk-receive file w bytes s open_ slice h =
      let (more, offset, range) = live_slot file w s open_ h in
      record {
        ordered = h.ordered;
        written = λ o lo hi. elim (dec_lt o (s.start + s.downloaded)) [
          | yes old ↦ seek_write_keeps file w.offset bytes slice o (h.written o lo old)
          | no new ↦ seek_write_covers file w.offset bytes slice o (omega arith) (omega arith)
        ];
        served = λ _. (_, refl, open_, omega arith, range);
        whole = λ done. cc;
        released = λ done. cc;
      }

  -- The segment of a worker that ends behind it.
  pub SegOk-finish :
      (file : ℕ → Option ℕ) (w : Worker) (s : Segment)
      → w.finished ≡ false
      → s.end < w.offset
      → SegOk file (some w) s
      → SegOk file (some (record w { finished = true })) (record s { done = true })
  SegOk-finish file w s open_ behind h =
      let (more, offset, range) = live_slot file w s open_ h in
      record {
        ordered = h.ordered;
        written = h.written;
        served = λ e. cc;
        whole = λ _. omega arith;
        released = λ _ v e. cc;
      }

  -- One worker and its segment change, under the index `k`.
  module _ (k : ℕ) (f : Worker → Worker) (g : Segment → Segment) where
    pub slots-update :
        {E : Segment → Type 0} (file file' : ℕ → Option ℕ) (ws : List Worker) (segs : List Segment)
        (w : Worker)
        → ((v : Worker) → (f v).seg_idx ≡ v.seg_idx)
        → ((s : Segment) → (g s).idx ≡ s.idx)
        → ((o : ℕ) → file o ≡ some (content o) → file' o ≡ some (content o))
        → find_worker k ws ≡ some w
        → ((s : Segment) → s.idx ≡ k → E s → SegOk file (some w) s → SegOk file' (some (f w)) (g s))
        → IsIndexed 0 segs
        → All E segs
        → All (SlotOk file ws) segs
        → All (SlotOk file' (update_worker k f ws)) (update_seg k g segs)
    slots-update {E} file file' ws segs w keeps keeps_idx grows at changes indexed extra slots =
        All-update_seg (SlotOk file' (update_worker k f ws)) k g 0 segs
          (λ s ne (_, h).
            rw (find_worker-update_other k f keeps s.idx ws ne)
              (SegOk-file file file' (find_worker s.idx ws) s grows h))
          (λ s e (x, h).
            subst (λ j. SegOk file' (find_worker j (update_worker k f ws)) (g s))
              (sym (keeps_idx s ∙ e))
              (rw (find_worker-update_self k f keeps ws w at) (
                changes s e x (subst (λ o. SegOk file o s) (ap (λ j. find_worker j ws) e ∙ at) h))))
          indexed (All-zip E (SlotOk file ws) segs extra slots)
