-- ===== src/Sync/Contents/Prune.antt =====
-- What `compact_history` of src-tauri/src/sync/sync_doc.rs leaves in the history.
use bushido.Prelude.{
  ℕ, ◌-◌, ◌≤◌, ◌+◌, ◌≡◌, refl, sym, ap, Bool, true, false, List, Bytes, ◌&&◌, if◌then◌else◌, Option,
  none, some, ◌⊎◌, inl, inr, Bool-cases, Option-cases, arith, length, take, All, ◌∙◌,
}
use bushido.Sync.Contents.{
  MapName, history, LoroValue, LoroMaps, OpenDoc, compact_history, delete_all, has, Dated, is_stale,
  before, cutoff, too_old, recent, sort_by_time, excess, newest, key_time,
}
use bushido.Sync.Contents.Maps.{same_map, is_set, MapLaws, settled-get, get-delete_all}
use bushido.Sync.Contents.Sorting.{
  names, still-kept, is_recent, has-too_old, has-recent, IsRecent, recent-IsRecent,
  All-sort_by_time, All-drop, length-newest, has-newest, excess-eq-take,
}

-- What is nothing, or what it was, after a test.
pub none-or :
    {A : Type 0} {x y z : Option A} (b : Bool)
    → x ≡ (if b then none else y)
    → (y ≡ none) ⊎ (y ≡ z)
    → (x ≡ none) ⊎ (x ≡ z)
none-or true e h = inl e
none-or false e (inl h) = inl (e ∙ h)
none-or false e (inr h) = inr (e ∙ h)

module _ (loro : LoroMaps) (now cutoff_days : ℕ) (s : OpenDoc loro) where
  -- The entries that have a time and are not too old.
  abbrev pub dated_entries : List Dated
  dated_entries = recent (cutoff now cutoff_days) (loro.keys history s.doc)

  abbrev pub after_pruning : ℕ → OpenDoc loro
  after_pruning max_entries = (compact_history loro now cutoff_days max_entries s).1

module _ (loro : LoroMaps) (laws : MapLaws loro) (now cutoff_days max_entries : ℕ)
    (s : OpenDoc loro) (k : Bytes) where
  -- Every key is asked for whether it is over the limit, and then whether it is too old.
  pub after_pruning-get :
      loro.get history k (after_pruning loro now cutoff_days s max_entries).doc ≡ (
        if has k (names (excess max_entries (dated_entries loro now cutoff_days s)))
        then none
        else (if has k (too_old (cutoff now cutoff_days) (loro.keys history s.doc))
            then none
            else loro.get history k s.doc))
  unfolding compact_history
  after_pruning-get =
      settled-get loro laws history k (length old + length gone)
        (record s { doc = delete_all loro history gone (delete_all loro history old s.doc) })
      ∙ get-delete_all loro laws history history gone k (delete_all loro history old s.doc)
      ∙ ap (λ v. if has k gone then none else v)
          (get-delete_all loro laws history history old k s.doc)
    where
      old : List Bytes
      old = too_old (cutoff now cutoff_days) (loro.keys history s.doc)

      gone : List Bytes
      gone = names (excess max_entries (dated_entries loro now cutoff_days s))

  -- Of every map: an entry goes or is untouched.
  pub compact_history-keeps_or_deletes :
      (m : MapName)
      → (loro.get m k (after_pruning loro now cutoff_days s max_entries).doc ≡ none)
        ⊎ (loro.get m k (after_pruning loro now cutoff_days s max_entries).doc ≡ loro.get m k s.doc)
  unfolding compact_history
  compact_history-keeps_or_deletes m =
      none-or (same_map history m && has k gone)
        (settled-get loro laws m k (length old + length gone)
            (record s { doc = delete_all loro history gone (delete_all loro history old s.doc) })
          ∙ get-delete_all loro laws history m gone k (delete_all loro history old s.doc))
        (none-or (same_map history m && has k old) (get-delete_all loro laws history m old k s.doc)
          (inr refl))
    where
      old : List Bytes
      old = too_old (cutoff now cutoff_days) (loro.keys history s.doc)

      gone : List Bytes
      gone = names (excess max_entries (dated_entries loro now cutoff_days s))

  abbrev is_over : Bool
  is_over = has k (names (excess max_entries (dated_entries loro now cutoff_days s)))

  abbrev is_old : Bool
  is_old = has k (too_old (cutoff now cutoff_days) (loro.keys history s.doc))

  abbrev kept : List Dated
  kept = newest max_entries (dated_entries loro now cutoff_days s)

  abbrev left : Option LoroValue
  left = loro.get history k (after_pruning loro now cutoff_days s max_entries).doc

  over-none : is_over ≡ true → left ≡ none
  over-none h = after_pruning-get ∙ rw h refl

  old-none : is_over ≡ false → is_old ≡ true → left ≡ none
  old-none h h' = after_pruning-get ∙ rw h (rw h' refl)

  other-same : is_over ≡ false → is_old ≡ false → left ≡ loro.get history k s.doc
  other-same h h' = after_pruning-get ∙ rw h (rw h' refl)

  abbrev Bounded : Type 0
  Bounded =
      (left ≡ none)
      ⊎ ((has k (names kept) ≡ true) ⊎ ((key_time k ≡ none) × (left ≡ loro.get history k s.doc)))

  -- A key that is neither over the limit nor too old.
  other-Bounded :
      is_over ≡ false
      → is_old ≡ false
      → (t : Option ℕ) → key_time k ≡ t
      → is_set (loro.get history k s.doc) ≡ true
      → Bounded
  other-Bounded h h' none e v = inr (inr (e, other-same h h'))
  other-Bounded h h' (some ts) e v = inr (
      inl (
        still-kept is_old (has k (loro.keys history s.doc)) (before ts (cutoff now cutoff_days))
          (has k (names (dated_entries loro now cutoff_days s)))
          (has k (
            names (
              take (length (dated_entries loro now cutoff_days s) - max_entries)
                (sort_by_time (dated_entries loro now cutoff_days s)))))
          (has k (names kept))
          (has-too_old (cutoff now cutoff_days) k (loro.keys history s.doc)
            ∙ ap (λ t. has k (loro.keys history s.doc) && is_stale (cutoff now cutoff_days) t) e)
          (has-recent (cutoff now cutoff_days) k (loro.keys history s.doc)
            ∙ ap (λ t. has k (loro.keys history s.doc) && is_recent (cutoff now cutoff_days) t) e)
          (has-newest (cutoff now cutoff_days) max_entries (dated_entries loro now cutoff_days s) k)
          h' (laws.has-keys history k s.doc ∙ v)
          (ap (λ xs. has k (names xs))
              (sym (
                excess-eq-take (cutoff now cutoff_days) max_entries
                  (dated_entries loro now cutoff_days s)))
            ∙ h)))

  bounded : Bounded
  bounded = elim (Bool-cases is_over) [
    | inl h ↦ inl (over-none h)
    | inr h ↦ elim (Bool-cases is_old) [
      | inl h' ↦ inl (old-none h h')
      | inr h' ↦ elim (Option-cases (loro.get history k s.doc)) [
        | inl nothing ↦ inl (other-same h h' ∙ nothing)
        | inr (v, found_v) ↦ other-Bounded h h' (key_time k) refl (ap is_set found_v)
      ]
    ]
  ]

  -- After `compact_history`, whether or not its compaction succeeds, no more than `max_entries` keys
  -- are kept, each with a time that is not before the cutoff, and every key of the history is gone,
  -- is one of these, or has no time that can be read and its entry is untouched.
  pub compact_history-bounds :
      (length (newest max_entries (dated_entries loro now cutoff_days s)) ≤ max_entries)
      × (All
            (IsRecent (cutoff now cutoff_days))
            (newest max_entries (dated_entries loro now cutoff_days s))
          × ((loro.get history k (after_pruning loro now cutoff_days s max_entries).doc ≡ none)
              ⊎ ((has k (names (newest max_entries (dated_entries loro now cutoff_days s))) ≡ true)
                  ⊎ ((key_time k ≡ none)
                      × (loro.get history k (after_pruning loro now cutoff_days s max_entries).doc
                          ≡ loro.get history k s.doc)))))
  compact_history-bounds = (
    omega (
      arith,
      length-newest (cutoff now cutoff_days) max_entries (dated_entries loro now cutoff_days s),
    ),
    (
      All-drop (IsRecent (cutoff now cutoff_days))
          (length (dated_entries loro now cutoff_days s) - max_entries)
          (sort_by_time (dated_entries loro now cutoff_days s))
          (All-sort_by_time (IsRecent (cutoff now cutoff_days))
            (dated_entries loro now cutoff_days s)
            (recent-IsRecent (cutoff now cutoff_days) (loro.keys history s.doc))),
      bounded,
    ),
  )
