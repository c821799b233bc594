-- ===== src/Sync/Contents/Steps.antt =====
-- The changes that the browser makes to the maps of its document, one after the other.
use bushido.Prelude.{ℕ, List, [], ◌∷◌, Bytes, Option}
use bushido.Sync.Contents.{
  LoroMaps, Json, OpenDoc, compact_history, add_history, write_setting, write_tabs,
  clean_stale_tabs,
}

-- The operations with their arguments; `now` is the time at which the operation reads the clock.
pub data Change : Type 0 where
  visit : Bytes → Bytes → Option Bytes → ℕ → Change
  set : Bytes → Bytes → Change
  show_tabs : Bytes → ℕ → Change
  prune : ℕ → ℕ → ℕ → Change
  forget_tabs : ℕ → ℕ → Change

module _ (loro : LoroMaps) (json : Json) (to_lowercase : Bytes → Bytes) where
  abbrev pub change : Change → OpenDoc loro → OpenDoc loro
  change (visit url title favicon timestamp) s =
      (add_history loro json to_lowercase url title favicon timestamp s).1
  change (set key value) s = (write_setting loro json key value s).1
  change (show_tabs tabs_json now) s = (write_tabs loro json tabs_json now s).1
  change (prune now cutoff_days max_entries) s =
      (compact_history loro now cutoff_days max_entries s).1
  change (forget_tabs now stale_days) s = (clean_stale_tabs loro json now stale_days s).1

  -- Each change on what the one before it left, whatever it returned.
  abbrev pub changes : List Change → OpenDoc loro → OpenDoc loro
  changes [] s = s
  changes (c ∷ cs) s = changes cs (change c s)
