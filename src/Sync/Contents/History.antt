-- ===== src/Sync/Contents/History.antt =====
-- What the changes of src-tauri/src/sync/sync_doc.rs let into the history and the settings, and what
-- becomes of a URL with a bar in it.
use bushido.Prelude.{
  ℕ, ◌≡◌, refl, sym, subst, Bool, true, false, List, [], ◌∷◌, Bytes, ◌&&◌, if◌then◌else◌, Option,
  none, some, ◌⊎◌, inl, inr, Bool-cases, All,
}
use bushido.Prelude.Table.{list_beq, list_beq_iff}
use bushido.Sync.Incoming.{is_safe_url, escape_title}
use bushido.Sync.Incoming.Guards.{IsPlain, escape_title-IsPlain}
use bushido.Sync.Contents.{
  MapName, history, settings, open_tabs, LoroValue, string, LoroMaps, Json, OpenDoc,
  compact_history, add_history, write_setting, write_tabs, clean_stale_tabs, validate_setting, has,
  device_local, history_key, delete_all, cutoff, stale,
}
use bushido.Sync.Contents.Maps.{MapLaws, same_map, insert_compact-get, get-delete_all}
use bushido.Sync.Contents.Steps.{Change, visit, set, show_tabs, prune, forget_tabs, change, changes}
use bushido.Sync.Contents.Prune.{compact_history-keeps_or_deletes, none-or}

module _ (loro : LoroMaps) (json : Json) (to_lowercase : Bytes → Bytes) where
  -- An entry of the history: its key is made of its address and time, the address has no blocked
  -- scheme, and the title no angle brackets.
  abbrev pub IsVisit : Bytes → Option LoroValue → Type 0
  IsVisit k none = Unit {0}
  IsVisit k (some v) =
      (url : Bytes) × (title : Bytes) × (favicon : Option Bytes) × (ts : ℕ) × (k
        ≡ history_key url ts)
      × (v ≡ string (json.history_entry url title favicon ts))
      × (is_safe_url to_lowercase url ≡ true)
      × All IsPlain title

  -- A setting that is synced: JSON, under a key that is not one of the device's own.
  abbrev pub IsShared : Bytes → Option LoroValue → Type 0
  IsShared k none = Unit {0}
  IsShared k (some v) =
      (has k device_local ≡ false)
      × ((text : Bytes) × (v ≡ string text) × (validate_setting json text ≡ true))

  abbrev pub IsGood : MapName → Bytes → Option LoroValue → Type 0
  IsGood history k v = IsVisit k v
  IsGood settings k v = IsShared k v
  IsGood open_tabs k v = Unit {0}

  abbrev pub IsValid : loro.Doc → Type 0
  IsValid d = (m : MapName) (k : Bytes) → IsGood m k (loro.get m k d)

  nothing-IsGood : (m : MapName) (k : Bytes) → IsGood m k none
  nothing-IsGood history k = tt
  nothing-IsGood settings k = tt
  nothing-IsGood open_tabs k = tt

  if-IsGood :
      (m : MapName) (k : Bytes) (b : Bool) (x y : Option LoroValue)
      → (b ≡ true → IsGood m k x)
      → IsGood m k y
      → IsGood m k (if b then x else y)
  if-IsGood m k true x y p q = p refl
  if-IsGood m k false x y p q = q

  -- Deletions leave an entry or nothing.
  left-IsGood :
      (m : MapName) (k : Bytes) (x y : Option LoroValue)
      → (x ≡ none) ⊎ (x ≡ y)
      → IsGood m k y
      → IsGood m k x
  left-IsGood m k x y (inl e) p = subst (IsGood m k) (sym e) (nothing-IsGood m k)
  left-IsGood m k x y (inr e) p = subst (IsGood m k) (sym e) p

  -- What is inserted, where it is asked for.
  visit-IsGood :
      (m : MapName) (url title : Bytes) (favicon : Option Bytes) (ts : ℕ) (k : Bytes)
      → is_safe_url to_lowercase url ≡ true
      → (same_map history m && list_beq (history_key url ts) k) ≡ true
      → IsGood m k (some (string (json.history_entry url (escape_title title) favicon ts)))
  visit-IsGood history url title favicon ts k safe e = (
    url,
    escape_title title,
    favicon,
    ts,
    sym ((list_beq_iff (history_key url ts) k).0 e),
    refl,
    safe,
    escape_title-IsPlain title,
  )
  visit-IsGood settings url title favicon ts k safe e = cc
  visit-IsGood open_tabs url title favicon ts k safe e = tt

  set-IsGood :
      (m : MapName) (key value k : Bytes)
      → has key device_local ≡ false
      → validate_setting json value ≡ true
      → (same_map settings m && list_beq key k) ≡ true
      → IsGood m k (some (string value))
  set-IsGood history key value k shared valid e = cc
  set-IsGood settings key value k shared valid e = (
    subst (λ x. has x device_local ≡ false) ((list_beq_iff key k).0 e) shared,
    (value, refl, valid),
  )
  set-IsGood open_tabs key value k shared valid e = tt

  tabs-IsGood :
      (m : MapName) (device k value : Bytes)
      → (same_map open_tabs m && list_beq device k) ≡ true
      → IsGood m k (some (string value))
  tabs-IsGood history device k value e = cc
  tabs-IsGood settings device k value e = cc
  tabs-IsGood open_tabs device k value e = tt

  module _ (laws : MapLaws loro) where
    open loro use {get}

    change-IsValid :
        (c : Change) (s : OpenDoc loro)
        → IsValid s.doc
        → IsValid (change loro json to_lowercase c s).doc
    unfolding add_history write_setting write_tabs clean_stale_tabs is_safe_url
    change-IsValid (visit url title favicon ts) s p m k =
        elim (Bool-cases (is_safe_url to_lowercase url)) [
          | inr blocked ↦ rw blocked (p m k)
          | inl safe ↦ rw safe (
              subst (IsGood m k)
                (sym (
                  insert_compact-get loro laws history m (history_key url ts) k
                    (json.history_entry url (escape_title title) favicon ts) s))
                (if-IsGood m k (same_map history m && list_beq (history_key url ts) k)
                  (some (string (json.history_entry url (escape_title title) favicon ts)))
                  (get m k s.doc) (visit-IsGood m url title favicon ts k safe) (p m k)))
        ]
    change-IsValid (set key value) s p m k = elim (Bool-cases (has key device_local)) [
      | inl local ↦ rw local (p m k)
      | inr shared ↦ elim (Bool-cases (validate_setting json value)) [
        | inr invalid ↦ rw shared (rw invalid (p m k))
        | inl valid ↦ rw shared (
            rw valid (
              subst (IsGood m k) (sym (insert_compact-get loro laws settings m key k value s)) (
                if-IsGood m k (same_map settings m && list_beq key k) (some (string value))
                  (get m k s.doc) (set-IsGood m key value k shared valid) (p m k))))
      ]
    ]
    change-IsValid (show_tabs tabs_json now) s p m k =
        subst (IsGood m k)
          (sym (laws.get-insert open_tabs m s.device_id k (json.tabs_entry tabs_json now) s.doc))
          (if-IsGood m k (same_map open_tabs m && list_beq s.device_id k)
            (some (string (json.tabs_entry tabs_json now))) (get m k s.doc)
            (tabs-IsGood m s.device_id k (json.tabs_entry tabs_json now)) (p m k))
    change-IsValid (prune now cutoff_days max_entries) s p m k =
        left-IsGood m k (get m k (compact_history loro now cutoff_days max_entries s).1.doc)
          (get m k s.doc)
          (compact_history-keeps_or_deletes loro laws now cutoff_days max_entries s k m) (p m k)
    change-IsValid (forget_tabs now stale_days) s p m k =
        left-IsGood m k (get m k (delete_all loro open_tabs gone s.doc)) (get m k s.doc)
          (none-or (same_map open_tabs m && has k gone)
            (get-delete_all loro laws open_tabs m gone k s.doc) (inr refl))
          (p m k)
      where
        gone : List Bytes
        gone = stale loro json (cutoff now stale_days) s.doc (loro.keys open_tabs s.doc)

    -- In every sequence of changes, with compactions that succeed or fail, the entries of the history
    -- stay as they are written: under the key of their address and time, with an address of no blocked
    -- scheme and a title without angle brackets; and the settings stay JSON, none of them under a key
    -- of the device's own.
    pub changes-IsValid :
        (cs : List Change) (s : OpenDoc loro)
        → IsValid s.doc
        → IsValid (changes loro json to_lowercase cs s).doc
    changes-IsValid [] s p = p
    changes-IsValid (c ∷ cs) s p =
        changes-IsValid cs (change loro json to_lowercase c s) (change-IsValid c s p)
