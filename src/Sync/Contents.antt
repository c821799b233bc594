-- ===== src/Sync/Contents.antt =====
-- The contents of the document of src-tauri/src/sync/sync_doc.rs: history, settings and open tabs, as
-- its operations read and write them. The containers of Loro, serde_json and `to_lowercase` are
-- parameters. An `i64` is its number below 2 ^ 64 in two's complement.
pub mod Steps
pub mod Maps
pub mod History
pub mod Sorting
pub mod Prune
pub mod Distinct
pub mod Kept
pub mod Tabs
pub mod Times
pub mod Toy
mod Tests
use bushido.Prelude.{
  ℕ, zero, suc, ◌+◌, ◌*◌, ◌-◌, ◌%◌, ◌/◌, ◌^◌, Bool, true, false, not, List, [], ◌∷◌, ◌++◌, map,
  Bytes, codes, length, take, drop, ltb, leb, ◌==◌, ◌&&◌, ◌||◌, if◌then◌else◌, Option, none, some,
  Result, ok, err, ensure,
}
use bushido.Prelude.Table.{list_beq}
use bushido.Prelude.Io.{Io, pure, fail, after, ◌>>=◌, ◌>>◌}
use bushido.Sync.Incoming.{escape_title, is_safe_url}
pub use bushido.Sync.Stamps.{
  signed, before, cutoff, print_i64, is_digit, parse_digits, with_sign, parse_number, parse_i64,
  behind_bar, time_of, key_time, history_key,
}

-- The maps of a document.
pub data MapName : Type 0 where
  history settings open_tabs : MapName

-- A value of a map: a string, or a value of another kind.
pub data LoroValue : Type 0 where
  string : Bytes → LoroValue
  other : LoroValue

-- `LoroDoc`: `get` of a map and its keys in the order of `for_each`. `renewed` is a new document of
-- the same peer into which a snapshot has been imported.
pub record LoroMaps : Type 1 where
  pub Doc : Type 0
  pub get : MapName → Bytes → Doc → Option LoroValue
  pub keys : MapName → Doc → List Bytes
  pub insert : MapName → Bytes → Bytes → Doc → Doc
  pub delete : MapName → Bytes → Doc → Doc
  pub export_snapshot : Doc → Result Bytes
  pub renewed : Doc → Bytes → Result Doc

-- serde_json: `Value`, and the objects that the code writes with `json!`.
pub record Json : Type 1 where
  pub Value : Type 0
  pub from_str : Bytes → Option Value
  pub history_entry : Bytes → Bytes → Option Bytes → ℕ → Bytes
  pub tabs_entry : Bytes → ℕ → Bytes
  pub member : Bytes → Value → Option Value
  pub as_i64 : Value → Option ℕ

abbrev pub has : Bytes → List Bytes → Bool
has k [] = false
has k (j ∷ ks) = list_beq j k || has k ks

abbrev pub device_local : List Bytes
device_local =
    codes "compactMode"
    ∷ codes "suspendTimeout"
    ∷ codes "downloadLocation"
    ∷ codes "askDownloadLocation"
    ∷ codes "onStartup"
    ∷ codes "syncDeviceName"
    ∷ codes "syncEnabled"
    ∷ codes "onboardingComplete"
    ∷ []

-- An entry that is not too old: its key and its time.
abbrev pub Dated : Type 0
Dated = Bytes × ℕ

-- `sort_by_key(|(_, ts)| *ts)`, which is stable.
abbrev pub sort_in : Dated → List Dated → List Dated
sort_in e [] = e ∷ []
sort_in e (f ∷ fs) = let rest = sort_in e fs in if before f.1 e.1 then f ∷ rest else e ∷ f ∷ fs

abbrev pub sort_by_time : List Dated → List Dated
sort_by_time [] = []
sort_by_time (e ∷ es) = sort_in e (sort_by_time es)

-- `ts < cutoff`, of an entry that has a time.
abbrev pub is_stale : ℕ → Option ℕ → Bool
is_stale limit none = false
is_stale limit (some ts) = before ts limit

-- `all_keys.push` of an entry that has a time and is not too old.
abbrev pub dated : ℕ → Bytes → Option ℕ → List Dated → List Dated
dated limit k none es = es
dated limit k (some ts) es = if before ts limit then es else (k, ts) ∷ es

-- The pass over the keys: the entries that are too old, and the others that have a time.
abbrev pub too_old : ℕ → List Bytes → List Bytes
too_old limit [] = []
too_old limit (k ∷ ks) =
    let rest = too_old limit ks in if is_stale limit (key_time k) then k ∷ rest else rest

abbrev pub recent : ℕ → List Bytes → List Dated
recent limit [] = []
recent limit (k ∷ ks) = dated limit k (key_time k) (recent limit ks)

-- The oldest of the entries over the limit, and the entries that are left.
abbrev pub excess : ℕ → List Dated → List Dated
excess max_entries es =
    if ltb max_entries (length es) then take (length es - max_entries) (sort_by_time es) else []

abbrev pub newest : ℕ → List Dated → List Dated
newest max_entries es = drop (length es - max_entries) (sort_by_time es)

module _ (json : Json) where
  open json use {Value, from_str, member, as_i64}

  abbrev pub is_json : Option Value → Bool
  is_json none = false
  is_json (some v) = true

  abbrev pub validate_setting : Bytes → Bool
  validate_setting value = is_json (from_str value)

  -- The time of a device's entry: `v.get("ts").and_then(|t| t.as_i64())`.
  abbrev pub number_of : Option Value → Option ℕ
  number_of none = none
  number_of (some v) = as_i64 v

  abbrev pub ts_of : Option Value → Option ℕ
  ts_of none = none
  ts_of (some v) = number_of (member (codes "ts") v)

  abbrev pub tabs_time : Option LoroValue → Option ℕ
  tabs_time (some (string s)) = ts_of (from_str s)
  tabs_time other_value = none

module _ (loro : LoroMaps) where
  open loro use {Doc, get, keys, insert, delete, export_snapshot, renewed}

  -- `SyncDoc` without its file.
  pub record OpenDoc : Type 0 where
    pub doc : Doc
    pub op_count : ℕ
    pub device_id : Bytes

  abbrev pub compacted : OpenDoc → Result Doc → Result (Unit {0}) × OpenDoc
  compacted s (ok d) = (ok tt, record s { doc = d; op_count = 0 })
  compacted s (err e) = (err e, s)

  abbrev pub load_snapshot : OpenDoc → Result Bytes → Result (Unit {0}) × OpenDoc
  load_snapshot s (ok snapshot) = compacted s (renewed s.doc snapshot)
  load_snapshot s (err e) = (err e, s)

  -- `op_count` is a `u32`.
  abbrev pub count_op : OpenDoc → OpenDoc
  count_op s = record s { op_count = (s.op_count + 1) % 2 ^ 32 }

  unfoldable pub maybe_compact : Io OpenDoc (Unit {0})
  maybe_compact s =
      if ltb (count_op s).op_count 500
      then (ok tt, count_op s)
      else load_snapshot (count_op s) (export_snapshot s.doc)

  abbrev pub edit : (Doc → Doc) → OpenDoc → OpenDoc
  edit f s = record s { doc = f s.doc }

  abbrev pub delete_all : MapName → List Bytes → Doc → Doc
  delete_all m [] d = d
  delete_all m (k ∷ ks) d = delete_all m ks (delete m k d)

  unfoldable pub compact_history : ℕ → ℕ → ℕ → Io OpenDoc ℕ
  compact_history now cutoff_days max_entries s =
      let limit = cutoff now cutoff_days in
      let old = too_old limit (keys history s.doc) in
      let over = map (λ e. e.0) (excess max_entries (recent limit (keys history s.doc))) in
      let pruned = edit (λ d. delete_all history over (delete_all history old d)) s in
      let count = length old + length over in
      if ltb 0 count then (maybe_compact >>= λ _. pure count) pruned else pure count pruned

  module _ (json : Json) where
    open json use {history_entry, tabs_entry}

    unfoldable pub add_history :
        (Bytes → Bytes) → Bytes → Bytes → Option Bytes → ℕ → Io OpenDoc (Unit {0})
    add_history to_lowercase url title favicon timestamp s =
        if is_safe_url to_lowercase url
        then maybe_compact (
            edit
              (insert history (history_key url timestamp)
                (history_entry url (escape_title title) favicon timestamp))
              s)
        else (ok tt, s)

    unfoldable pub write_setting : Bytes → Bytes → Io OpenDoc (Unit {0})
    write_setting key value s =
        if has key device_local
        then (ok tt, s)
        else (if validate_setting json value
            then maybe_compact (edit (insert settings key value) s)
            else (err "invalid setting value", s))

    unfoldable pub write_tabs : Bytes → ℕ → Io OpenDoc (Unit {0})
    write_tabs tabs_json now s =
        (ok tt, edit (insert open_tabs s.device_id (tabs_entry tabs_json now)) s)

    abbrev pub stale : ℕ → Doc → List Bytes → List Bytes
    stale limit d [] = []
    stale limit d (k ∷ ks) =
        let rest = stale limit d ks in
        if is_stale limit (tabs_time json (get open_tabs k d)) then k ∷ rest else rest

    unfoldable pub clean_stale_tabs : ℕ → ℕ → Io OpenDoc ℕ
    clean_stale_tabs now stale_days s =
        let gone = stale (cutoff now stale_days) s.doc (keys open_tabs s.doc) in
        (ok (length gone), edit (delete_all open_tabs gone) s)
