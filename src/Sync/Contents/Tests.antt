-- ===== src/Sync/Contents/Tests.antt =====
-- The theorems on the history, the settings and the open tabs at work.
use bushido.Prelude.{
  ℕ, ◌^◌, ◌-◌, arith, ◌≤◌, ◌≡◌, refl, ◌⊎◌, true, List, [], ◌∷◌, Bytes, codes, length, All, none,
  some, if◌then◌else◌,
}
use bushido.Prelude.Table.{list_beq}
use bushido.Sync.Contents.{
  history, settings, open_tabs, string, OpenDoc, cutoff, before, newest, has, history_key, key_time,
  clean_stale_tabs, write_tabs,
}
use bushido.Sync.Contents.Steps.{Change, visit, set, show_tabs, changes}
use bushido.Sync.Contents.Sorting.{names, IsRecent}
use bushido.Sync.Contents.Prune.{dated_entries, after_pruning, compact_history-bounds}
use bushido.Sync.Contents.Kept.{IsFull, compact_history-keeps}
use bushido.Sync.Contents.History.{IsValid, changes-IsValid}
use bushido.Sync.Contents.Times.{bar_url-stays, old_visit-goes}
use bushido.Sync.Contents.Tabs.{write_tabs-clean_stale_tabs}
use bushido.Sync.Contents.Toy.{toy, toy-MapLaws, toy_json, toy_json-tabs, empty}

abbrev to_lowercase : Bytes → Bytes
to_lowercase text = text

abbrev site : Bytes
site = codes "https://a.b"

abbrev bar_site : Bytes
bar_site = codes "https://a.b/?q=1|2"

-- Three visits, at 5, at 100 days and at 101 days, and one to an address with a bar.
abbrev day : ℕ
day = 86400000

abbrev fresh_doc : OpenDoc toy
fresh_doc = record { doc = empty; op_count = 0; device_id = codes "d1" }

abbrev visits : List Change
visits =
    visit site (codes "<A>") none 5
    ∷ visit site (codes "A") none 8640000000
    ∷ visit site (codes "A") none 8726400000
    ∷ visit bar_site (codes "B") none 5
    ∷ visit (codes "javascript:1") (codes "C") none 7
    ∷ set (codes "themeMode") (codes "dark")
    ∷ set (codes "compactMode") (codes "true")
    ∷ set (codes "accentColor") []
    ∷ show_tabs (codes "[]") 8640000000
    ∷ []

abbrev used : OpenDoc toy
used = changes toy toy_json to_lowercase visits fresh_doc

abbrev now : ℕ
now = 8726400001

key_written : history_key site 5 ≡ codes "https://a.b|5"
key_written = refl

key_read : key_time (codes "https://a.b|-17") ≡ some (2 ^ 64 - 17)
key_read = refl

key_too_large : key_time (codes "https://a.b|9223372036854775808") ≡ none
key_too_large = refl

empty-IsValid : IsValid toy toy_json to_lowercase empty
empty-IsValid history k = tt
empty-IsValid settings k = tt
empty-IsValid open_tabs k = tt

changes-IsValid_example : IsValid toy toy_json to_lowercase used.doc
changes-IsValid_example =
    changes-IsValid toy toy_json to_lowercase toy-MapLaws visits fresh_doc empty-IsValid

compact_history-bounds_example :
    (length (newest 1 (dated_entries toy now 90 used)) ≤ 1)
    × (All (IsRecent (cutoff now 90)) (newest 1 (dated_entries toy now 90 used))
        × ((toy.get history (history_key site 8640000000) (after_pruning toy now 90 used 1).doc
              ≡ none)
            ⊎ ((has (history_key site 8640000000) (names (newest 1 (dated_entries toy now 90 used)))
                  ≡ true)
                ⊎ ((key_time (history_key site 8640000000) ≡ none)
                    × (toy.get history
                          (history_key site 8640000000)
                          (after_pruning toy now 90 used 1).doc
                        ≡ toy.get history (history_key site 8640000000) used.doc)))))
compact_history-bounds_example =
    compact_history-bounds toy toy-MapLaws now 90 1 used (history_key site 8640000000)

compact_history-keeps_example :
    (toy.get history (history_key site 8640000000) (after_pruning toy now 90 used 1).doc
      ≡ toy.get history (history_key site 8640000000) used.doc)
    ⊎ ((toy.get history (history_key site 8640000000) (after_pruning toy now 90 used 1).doc ≡ none)
        × ((ts : ℕ) × (key_time (history_key site 8640000000) ≡ some ts)
            × ((before ts (cutoff now 90) ≡ true)
                ⊎ IsFull toy 1 ts used
                    (after_pruning toy now 90 used 1)
                    (newest 1 (dated_entries toy now 90 used)))))
compact_history-keeps_example =
    compact_history-keeps toy toy-MapLaws now 90 1 used (history_key site 8640000000)

bar_url-stays_example :
    toy.get history (history_key bar_site 5) (after_pruning toy now 90 used 1).doc
    ≡ toy.get history (history_key bar_site 5) used.doc
bar_url-stays_example = bar_url-stays toy toy-MapLaws now 90 1 used bar_site 5 refl

old_visit-goes_example :
    toy.get history (history_key site 5) (after_pruning toy now 90 used 50000).doc ≡ none
old_visit-goes_example =
    old_visit-goes toy toy-MapLaws now 90 50000 used site 5 refl (omega arith) refl

write_tabs-clean_stale_tabs_example :
    toy.get open_tabs
      (codes "d1")
      (clean_stale_tabs toy toy_json now 7
        (write_tabs toy toy_json (codes "[]") 8640000000 used).1).1.doc
    ≡ (if list_beq used.device_id (codes "d1")
        then (if before 8640000000 (cutoff now 7)
            then none
            else some (string (toy_json.tabs_entry (codes "[]") 8640000000)))
        else toy.get open_tabs (codes "d1") (clean_stale_tabs toy toy_json now 7 used).1.doc)
write_tabs-clean_stale_tabs_example =
    write_tabs-clean_stale_tabs toy toy_json toy-MapLaws (codes "[]") 8640000000 now 7 used
      (codes "d1") toy_json-tabs
