-- ===== src/Download/Transfer/Steps/Turns.antt =====
-- Every turn of every task, and schedules in which the server sends the bytes of the file.
use bushido.Prelude.{
  ℕ, ◌+◌, ◌<◌, ◌≡◌, refl, ap, ◌∙◌, subst, inl, inr, false, some, List, [], ◌∷◌, All, All-map, arith,
  Bool-cases, Option-cases,
}
use bushido.Download.Transfer.{
  Worker, Transfer, Phase, transferring, completed, cancelled, Event, chunk, ended, stop, drain,
  tick, cancel, forget, find_worker, finish, receive, is_live, on_worker, drain_one, save_manifest,
  while_transferring, step, run,
}
use bushido.Download.Transfer.Invariant.{SegOk, IsValid, IsHonest, IsHonestRun, live_slot}
use bushido.Download.Transfer.Steps.{IsValid-finish, IsValid-receive}
use bushido.Download.Transfer.Steps.Drain.{IsValid-stop, IsValid-respawn, IsValid-conclude}

module _ (content : ℕ → ℕ) (total : ℕ) where
  drain_one-IsValid :
      (t : Transfer) (queue : List ℕ)
      → t.done_queue ≡ queue
      → t.phase ≡ transferring
      → IsValid content total t
      → IsValid content total (drain_one queue t)
  unfolding drain_one
  drain_one-IsValid t [] q going v = v
  drain_one-IsValid t (k ∷ queue) q going v =
      IsValid-conclude content total _ (IsValid-respawn content total t k queue q going v)

  save_manifest-IsValid :
      (t : Transfer) → IsValid content total t → IsValid content total (save_manifest t)
  unfolding save_manifest
  save_manifest-IsValid t v = record {
    partition = v.partition;
    indexed = v.indexed;
    slots = v.slots;
    unused = v.unused;
    counted = v.counted;
    at_end = v.at_end;
  }

  -- A turn of the orchestrator.
  while_transferring-IsValid :
      (phase : Phase) (f : Transfer → Transfer) (t : Transfer)
      → (phase ≡ transferring → IsValid content total (f t))
      → IsValid content total t
      → IsValid content total (while_transferring phase f t)
  unfolding while_transferring
  while_transferring-IsValid transferring f t next v = next refl
  while_transferring-IsValid completed f t next v = v
  while_transferring-IsValid cancelled f t next v = v

  -- A turn of a worker.
  on_worker-IsValid :
      (k : ℕ) (f : Worker → Transfer → Transfer) (t : Transfer)
      → ((w : Worker)
          → find_worker k t.workers ≡ some w
          → w.finished ≡ false
          → IsValid content total (f w t))
      → IsValid content total t
      → IsValid content total (on_worker k f t)
  unfolding on_worker
  on_worker-IsValid k f t next v = elim (Option-cases (find_worker k t.workers)) [
    | inl gone ↦ rw (gone, on_worker) v
    | inr (w, at) ↦ elim (Bool-cases (is_live w)) [
      | inl live ↦ rw (at, on_worker) (rw live (next w at (ground arith)))
      | inr ended_ ↦ rw (at, on_worker) (rw ended_ v)
    ]
  ]

  -- The segments of a worker whose stream has ended lie behind it.
  ended_behind :
      (k : ℕ) (t : Transfer) (w : Worker)
      → find_worker k t.workers ≡ some w
      → w.finished ≡ false
      → w.offset ≡ w.range_end + 1
      → IsValid content total t
      → All (λ s. s.idx ≡ k → s.end < w.offset) t.segs
  ended_behind k t w at open_ last v =
      All-map t.segs
        (λ s h e.
          let (_, _, range) =
            live_slot content t.file w s open_ (
              subst (λ o. SegOk content t.file o s) (ap (λ j. find_worker j t.workers) e ∙ at) h) in
          omega arith)
        v.slots

  -- Every turn keeps the invariant.
  pub step-IsValid :
      (e : Event) (t : Transfer)
      → IsHonest content t e
      → IsValid content total t
      → IsValid content total (step e t)
  unfolding step
  step-IsValid (chunk k bytes) t honest v =
      on_worker-IsValid k (λ w. receive k w bytes) t
        (λ w at open_. IsValid-receive content total k t w bytes at open_ (honest w at) v) v
  step-IsValid (ended k) t honest v =
      on_worker-IsValid k (λ w. finish k) t
        (λ w at open_.
          IsValid-finish content total k t w at open_ (ended_behind k t w at open_ (honest w at) v)
            v)
        v
  step-IsValid (stop k) t honest v =
      on_worker-IsValid k _ t (λ w at open_. IsValid-stop content total k t w at open_ v) v
  step-IsValid drain t honest v =
      while_transferring-IsValid t.phase (drain_one t.done_queue) t
        (λ going. drain_one-IsValid t t.done_queue refl going v) v
  step-IsValid tick t honest v =
      while_transferring-IsValid t.phase save_manifest t (λ _. save_manifest-IsValid t v) v
  step-IsValid cancel t honest v =
      while_transferring-IsValid t.phase _ t
        (λ _.
          let w = save_manifest-IsValid t v in
          record {
            partition = w.partition;
            indexed = w.indexed;
            slots = w.slots;
            unused = w.unused;
            counted = w.counted;
            at_end = λ ended_. cc;
          })
        v
  step-IsValid forget t honest v = record {
    partition = v.partition;
    indexed = v.indexed;
    slots = v.slots;
    unused = v.unused;
    counted = v.counted;
    at_end = v.at_end;
  }

  pub run-IsValid :
      (es : List Event) (t : Transfer)
      → IsHonestRun content es t
      → IsValid content total t
      → IsValid content total (run es t)
  unfolding run
  run-IsValid [] t honest v = v
  run-IsValid (e ∷ es) t honest v = run-IsValid es (step e t) honest.1 (step-IsValid e t honest.0 v)
