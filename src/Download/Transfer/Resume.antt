-- ===== src/Download/Transfer/Resume.antt =====
-- A cancelled transfer and its manifest, and what a failed worker leaves.
use bushido.Prelude.{
  ℕ, ◌+◌, ◌≡◌, ◌≢◌, refl, sym, ◌∙◌, ◌⊎◌, inl, inr, true, false, true-ne-false, Option, none, some,
  List, [], ◌∷◌, All, All-map, All-get, length, arith, ltb, Bool-cases, Option-cases, Bytes,
}
use bushido.Download.Segment.{Segment, IsIndexed}
use bushido.Download.Transfer.{
  Worker, Transfer, Event, transferring, completed, find_worker, launch, step, run, cancelled,
  find_seg, seek_write, receive, finish, chunk, ended, stop, drain, tick, cancel, forget, on_worker,
  is_live, while_transferring, save_manifest, update_seg, drain_one, respawn, conclude,
}
use bushido.Download.Split.{try_split}
use bushido.Download.Split.Laws.{try_split-cases}
use bushido.Download.Transfer.Slots.{All-update_seg}
use bushido.Download.Transfer.Invariant.{IsValid, IsSlice, IsHonest, IsHonestRun, seek_write_keeps}
use bushido.Download.Transfer.Launch.{launch-IsValid}

module _ (content : ℕ → ℕ) where
  -- `file'` has what `file` has of the content.
  abbrev Grows : (ℕ → Option ℕ) → (ℕ → Option ℕ) → Type 0
  Grows file file' = (o : ℕ) → file o ≡ some (content o) → file' o ≡ some (content o)

  -- The item is gone, or the manifest and whether there is an item are as they were.
  abbrev SameManifest : Transfer → Transfer → Type 0
  SameManifest t u = (u.listed ≡ false) ⊎ ((u.listed ≡ t.listed) × (u.saved ≡ t.saved))

  -- After the cancel signal the manifest stays as long as the item is in the table, and the workers
  -- that still run only add bytes.
  abbrev KeepsManifest : Transfer → Transfer → Type 0
  KeepsManifest t u = (u.phase ≡ cancelled) × SameManifest t u × Grows t.file u.file

  SameManifest-trans : (t u v : Transfer) → SameManifest t u → SameManifest u v → SameManifest t v
  SameManifest-trans t u v h (inl gone) = inl gone
  SameManifest-trans t u v (inl gone) (inr (same, saved)) = inl (same ∙ gone)
  SameManifest-trans t u v (inr (same, saved)) (inr (same', saved')) =
      inr (same' ∙ same, saved' ∙ saved)

  receive-KeepsManifest :
      (k : ℕ) (w : Worker) (bytes : Bytes) (t : Transfer)
      → t.phase ≡ cancelled
      → IsSlice content w.offset bytes
      → KeepsManifest t (receive k w bytes t)
  unfolding receive finish
  receive-KeepsManifest k w bytes t over slice =
      let grows : Grows t.file (seek_write t.file w.offset bytes) =
        seek_write_keeps content t.file w.offset bytes slice in
      elim (Option-cases (find_seg k t.segs)) [
        | inl gone ↦ rw (gone, receive) (over, inr (refl, refl), grows)
        | inr (s, found) ↦ elim (Bool-cases (ltb (s.end + 1) (w.offset + length bytes))) [
          | inl past ↦ rw (found, receive) (rw past (over, inr (refl, refl), grows))
          | inr within ↦ rw (found, receive) (rw within (over, inr (refl, refl), grows))
        ]
      ]

  on_worker-KeepsManifest :
      (k : ℕ) (f : Worker → Transfer → Transfer) (t : Transfer)
      → t.phase ≡ cancelled
      → ((w : Worker) → find_worker k t.workers ≡ some w → KeepsManifest t (f w t))
      → KeepsManifest t (on_worker k f t)
  unfolding on_worker
  on_worker-KeepsManifest k f t over next = elim (Option-cases (find_worker k t.workers)) [
    | inl gone ↦ rw (gone, on_worker) (over, inr (refl, refl), λ o e. e)
    | inr (w, at) ↦ elim (Bool-cases (is_live w)) [
      | inl live ↦ rw (at, on_worker) (rw live (next w at))
      | inr dead ↦ rw (at, on_worker) (rw dead (over, inr (refl, refl), λ o e. e))
    ]
  ]

  not_transferring-KeepsManifest :
      (f : Transfer → Transfer) (t : Transfer)
      → t.phase ≡ cancelled
      → KeepsManifest t (while_transferring t.phase f t)
  unfolding while_transferring
  not_transferring-KeepsManifest f t over =
      rw (over, while_transferring) (refl, inr (refl, refl), λ o e. e)

  step-KeepsManifest :
      (e : Event) (t : Transfer)
      → t.phase ≡ cancelled
      → IsHonest content t e
      → KeepsManifest t (step e t)
  unfolding step finish
  step-KeepsManifest (chunk k bytes) t over honest =
      on_worker-KeepsManifest k (λ w. receive k w bytes) t over
        (λ w at. receive-KeepsManifest k w bytes t over (honest w at))
  step-KeepsManifest (ended k) t over honest =
      on_worker-KeepsManifest k (λ w. finish k) t over (λ w at. (over, inr (refl, refl), λ o e. e))
  step-KeepsManifest (stop k) t over honest =
      on_worker-KeepsManifest k _ t over (λ w at. (over, inr (refl, refl), λ o e. e))
  step-KeepsManifest drain t over honest = not_transferring-KeepsManifest _ t over
  step-KeepsManifest tick t over honest = not_transferring-KeepsManifest _ t over
  step-KeepsManifest cancel t over honest = not_transferring-KeepsManifest _ t over
  step-KeepsManifest forget t over honest = (over, inl refl, λ o e. e)

  run-KeepsManifest :
      (es : List Event) (t : Transfer)
      → t.phase ≡ cancelled
      → IsHonestRun content es t
      → KeepsManifest t (run es t)
  unfolding run
  run-KeepsManifest [] t over honest = (over, inr (refl, refl), λ o e. e)
  run-KeepsManifest (e ∷ es) t over (now, later) =
      let (over', saved, grows) = step-KeepsManifest e t over now in
      let (over'', saved', grows') = run-KeepsManifest es (step e t) over' later in
      (
        over'',
        SameManifest-trans t (step e t) (run es (step e t)) saved saved',
        λ o at. grows' o (grows o at),
      )

module _ (content : ℕ → ℕ) (total : ℕ) where
  still_listed :
      (t u : Transfer)
      → u.listed ≡ true
      → SameManifest content t u
      → (t.listed ≡ true) × (u.saved ≡ t.saved)
  still_listed t u here (inl gone) = absurd (true-ne-false (sym here ∙ gone))
  still_listed t u here (inr (same, saved)) = (sym same ∙ here, saved)

  -- A valid transfer at work is cancelled, and any further turns follow, in which the workers get
  -- the bytes of the content and their streams end behind their ranges. Where the item is then still
  -- in the table, the manifest that is on disk can be launched again: on the file as it then is, the
  -- transfer has its invariant.
  pub cancel-IsValid :
      (t : Transfer) (es : List Event)
      → IsValid content total t
      → t.phase ≡ transferring
      → IsHonestRun content es (step cancel t)
      → (run es (step cancel t)).listed ≡ true
      → (segs : List Segment) × ((run es (step cancel t)).saved ≡ some segs)
        × IsValid content total (launch segs (run es (step cancel t)).file)
  unfolding step while_transferring save_manifest
  cancel-IsValid t es v going honest here =
      let start : (step cancel t).phase ≡ cancelled = ground arith in
      let (_, same, grows) = run-KeepsManifest content es (step cancel t) start honest in
      let (listed, saved) = still_listed (step cancel t) (run es (step cancel t)) here same in
      (
        t.segs,
        saved ∙ ground (arith, listed),
        launch-IsValid content total t.segs (run es (step cancel t)).file v.partition v.indexed (
            All-map t.segs
              (λ s ok. record {
                ordered = ok.ordered;
                written = λ o lo hi. grows o (file_kept t going o ∙ ok.written o lo hi);
                whole = ok.whole;
              })
              v.slots),
      )
    where
      file_kept :
          (t : Transfer) → t.phase ≡ transferring → (o : ℕ) → (step cancel t).file o ≡ t.file o
      file_kept t going o = ground arith

-- With every other segment done there is nothing to split.
all_done :
    (k : ℕ) (segs : List Segment)
    → IsIndexed 0 segs
    → All (λ s. s.idx ≢ k → s.done ≡ true) segs
    → let marked = update_seg k (λ s. record s { done = true }) segs in
      try_split marked ≡ (none, marked)
all_done k segs indexed others =
    let marked = update_seg k (λ s. record s { done = true }) segs in
    let done : All (λ s. s.done ≡ true) marked =
      All-update_seg (λ s. s.done ≡ true) k (λ s. record s { done = true }) 0 segs (λ s ne h. h ne)
        (λ s e h. refl) indexed others in
    elim (try_split-cases marked) [
      | inl (e, _) ↦ e
      | inr (i, s, _, at_i, more, _, _) ↦ cc (All-get (λ s. s.done ≡ true) marked i s done at_i)
    ]

-- A worker that fails (its request, its stream or its file) ends like one that has finished: where
-- it was the last one at work, the transfer is then reported as completed, whatever of its segment
-- is missing, and the file is as it was.
pub failed_worker-completes :
    (k : ℕ) (w : Worker) (t : Transfer)
    → t.phase ≡ transferring
    → t.active_workers ≡ 1
    → t.done_queue ≡ []
    → find_worker k t.workers ≡ some w
    → is_live w ≡ true
    → IsIndexed 0 t.segs
    → All (λ s. s.idx ≢ k → s.done ≡ true) t.segs
    → let u = step drain (step (ended k) t) in (u.phase ≡ completed) × (u.file ≡ t.file)
unfolding step on_worker finish drain_one respawn conclude while_transferring
failed_worker-completes k w t going one empty at live indexed others =
    ground (arith, all_done k t.segs indexed others)
