-- ===== src/Sync/Contents/Kept.antt =====
-- What `compact_history` of src-tauri/src/sync/sync_doc.rs does not delete.
use bushido.Prelude.{
  ℕ, ◌-◌, ◌≡◌, refl, sym, true, false, Bytes, Option, none, some, ◌⊎◌, inl, inr, Bool-cases, length,
  All, All-map, All-zip, List, ◌∙◌, subst,
}
use bushido.Sync.Contents.{
  history, LoroMaps, OpenDoc, has, Dated, is_stale, before, cutoff, too_old, sort_by_time, excess,
  newest, key_time,
}
use bushido.Sync.Contents.Maps.{IsDistinct, is_set, MapLaws}
use bushido.Sync.Contents.Sorting.{
  names, and-right, has-too_old, IsRecent, recent-IsRecent, All-sort_by_time, All-drop, NotBefore,
  excess-eq-take, excess-NotBefore, excess-full,
}
use bushido.Sync.Contents.Distinct.{
  recent-IsDistinct, sort_by_time-IsDistinct, drop-IsDistinct, drop-not_taken, IsRecent-not_old,
  recent-visited,
}
use bushido.Sync.Contents.Prune.{dated_entries, after_pruning, after_pruning-get}

module _ (loro : LoroMaps) where
  -- The entry of a key is there before and as it was after.
  abbrev pub IsUntouched : OpenDoc loro → OpenDoc loro → Dated → Type 0
  IsUntouched s t e =
      (is_set (loro.get history e.0 s.doc) ≡ true)
      × (loro.get history e.0 t.doc ≡ loro.get history e.0 s.doc)

  -- There are as many keys, all different, of entries that are kept and no older than a time.
  abbrev pub IsFull : ℕ → ℕ → OpenDoc loro → OpenDoc loro → List Dated → Type 0
  IsFull max_entries ts s t kept =
      (length kept ≡ max_entries)
      × IsDistinct (names kept)
      × All (λ e. NotBefore ts e × IsUntouched s t e) kept

module _ (loro : LoroMaps) (laws : MapLaws loro) (now cutoff_days max_entries : ℕ)
    (s : OpenDoc loro) where
  abbrev limit : ℕ
  limit = cutoff now cutoff_days

  abbrev entries : List Dated
  entries = dated_entries loro now cutoff_days s

  abbrev kept : List Dated
  kept = newest max_entries entries

  abbrev pruned : OpenDoc loro
  pruned = after_pruning loro now cutoff_days s max_entries

  sorted-IsDistinct : IsDistinct (names (sort_by_time entries))
  sorted-IsDistinct =
      sort_by_time-IsDistinct entries
        (recent-IsDistinct limit (loro.keys history s.doc) (laws.keys-IsDistinct history s.doc))

  kept-not_over : All (λ e. has e.0 (names (excess max_entries entries)) ≡ false) kept
  kept-not_over =
      subst (λ xs. All (λ e. has e.0 (names xs) ≡ false) kept)
        (sym (excess-eq-take limit max_entries entries))
        (drop-not_taken (length entries - max_entries) (sort_by_time entries) sorted-IsDistinct)

  kept-all : (P : Dated → Type 0) → All P entries → All P kept
  kept-all P h =
      All-drop P (length entries - max_entries) (sort_by_time entries)
        (All-sort_by_time P entries h)

  kept-IsUntouched : All (IsUntouched loro s pruned) kept
  kept-IsUntouched =
      All-map kept
        (λ e p. (
          sym (laws.has-keys history e.0 s.doc) ∙ p.1.1,
          after_pruning-get loro laws now cutoff_days max_entries s e.0
              ∙ rw (p.0) (rw (IsRecent-not_old limit (loro.keys history s.doc) e p.1.0) refl),
        ))
        (All-zip _ _ kept kept-not_over (
          All-zip _ _ kept
            (kept-all (IsRecent limit) (recent-IsRecent limit (loro.keys history s.doc)))
            (kept-all (λ e. has e.0 (loro.keys history s.doc) ≡ true)
              (recent-visited limit (loro.keys history s.doc)))))

  stale-time :
      (t : Option ℕ) → is_stale limit t ≡ true → (ts : ℕ) × (t ≡ some ts) × (before ts limit ≡ true)
  stale-time none h = cc
  stale-time (some ts) h = (ts, refl, h)

  abbrev IsFair : ℕ → Type 0
  IsFair ts = (before ts limit ≡ true) ⊎ IsFull loro max_entries ts s pruned kept

  over-IsFair :
      (k : Bytes)
      → has k (names (excess max_entries entries)) ≡ true
      → (ts : ℕ) × (key_time k ≡ some ts) × IsFair ts
  over-IsFair k h =
      let r = recent-IsRecent limit (loro.keys history s.doc) in
      let (ts, e, newer) = excess-NotBefore limit max_entries entries k r h in
      (
        ts,
        e,
        inr (
          excess-full limit max_entries entries k h,
          drop-IsDistinct (length entries - max_entries) (sort_by_time entries) sorted-IsDistinct,
          All-zip _ _ kept newer kept-IsUntouched,
        ),
      )

  old-IsFair :
      (k : Bytes)
      → has k (too_old limit (loro.keys history s.doc)) ≡ true
      → (ts : ℕ) × (key_time k ≡ some ts) × IsFair ts
  old-IsFair k h =
      let (ts, e, older) = stale-time (key_time k) (
        and-right (has k (loro.keys history s.doc)) (is_stale limit (key_time k))
          (sym (has-too_old limit k (loro.keys history s.doc)) ∙ h)) in
      (ts, e, inl older)

  -- An entry of the history goes in `compact_history` only if its time is before the cutoff, or if
  -- `max_entries` other entries, each at least as new, were there and are as they were; else it is as
  -- it was.
  pub compact_history-keeps :
      (k : Bytes)
      → (loro.get history k (after_pruning loro now cutoff_days s max_entries).doc
          ≡ loro.get history k s.doc)
        ⊎ ((loro.get history k (after_pruning loro now cutoff_days s max_entries).doc ≡ none)
            × ((ts : ℕ) × (key_time k ≡ some ts)
                × ((before ts (cutoff now cutoff_days) ≡ true)
                    ⊎ IsFull loro max_entries ts s
                        (after_pruning loro now cutoff_days s max_entries)
                        (newest max_entries (dated_entries loro now cutoff_days s)))))
  compact_history-keeps k = elim (Bool-cases (has k (names (excess max_entries entries)))) [
    | inl h ↦
        inr
          (after_pruning-get loro laws now cutoff_days max_entries s k ∙ rw h refl, over-IsFair k h)
    | inr h ↦ elim (Bool-cases (has k (too_old limit (loro.keys history s.doc)))) [
      | inl h' ↦ inr (
        after_pruning-get loro laws now cutoff_days max_entries s k ∙ rw h (rw h' refl),
        old-IsFair k h',
      )
      | inr h' ↦
          inl (after_pruning-get loro laws now cutoff_days max_entries s k ∙ rw h (rw h' refl))
    ]
  ]
