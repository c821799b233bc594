-- ===== src/Blocker/Engine.antt =====
-- The filter engine of src-tauri/src/blocker.rs: how it is started, compiled from the filter lists,
-- kept on disk and updated. The crate adblock, serde_json and what is UTF-8 are parameters.
pub mod Lists
pub mod Restart
mod Tests
use bushido.Prelude.{
  ℕ, Bool, true, false, List, [], ◌∷◌, ◌++◌, Bytes, codes, ◌==◌, ◌&&◌, if◌then◌else◌, Option, none,
  some, Result, ok, err,
}
use bushido.Prelude.Table.{lookup, insert, erase, list_eq}
use bushido.Prelude.Io.{Io, pure, after, ◌>>=◌}

-- `Engine` and `FilterSet`; `deserialize` into a default engine; the permission bits of a list; the
-- regex policy in seconds; and `serde_json::from_str` of a text of resources.
pub record Adblock : Type 1 where
  pub Engine : Type 0
  pub FilterSet : Type 0
  pub Resource : Type 0
  pub new_set : FilterSet
  pub add_filters : List Bytes → ℕ → FilterSet → FilterSet
  pub from_filter_set : FilterSet → Engine
  pub set_regex_discard_policy : ℕ → ℕ → Engine → Engine
  pub use_resources : List Resource → Engine → Engine
  pub serialize : Engine → Bytes
  pub deserialize : Bytes → Option Engine
  pub resources_from_str : Bytes → Option (List Resource)
  pub is_utf8 : Bytes → Bool

-- `FilterListDef`
pub record FilterListDef : Type 0 where
  pub name : Bytes
  pub url : Bytes
  pub bundled : Bytes
  pub trusted : Bool

-- `FILTER_LISTS`, given the texts that are compiled into the program.
abbrev pub shipped_lists : (Bytes → Bytes) → List FilterListDef
shipped_lists bundled =
    record {
      name = codes "easylist";
      url = codes "https://easylist.to/easylist/easylist.txt";
      bundled = bundled (codes "easylist");
      trusted = false;
    }
    ∷ record {
      name = codes "easyprivacy";
      url = codes "https://easylist.to/easylist/easyprivacy.txt";
      bundled = bundled (codes "easyprivacy");
      trusted = false;
    }
    ∷ record {
      name = codes "ublock-filters";
      url = codes "https://ublockorigin.github.io/uAssets/filters/filters.txt";
      bundled = bundled (codes "ublock-filters");
      trusted = true;
    }
    ∷ record {
      name = codes "ublock-privacy";
      url = codes "https://ublockorigin.github.io/uAssets/filters/privacy.txt";
      bundled = bundled (codes "ublock-privacy");
      trusted = true;
    }
    ∷ record {
      name = codes "ublock-unbreak";
      url = codes "https://ublockorigin.github.io/uAssets/filters/unbreak.txt";
      bundled = bundled (codes "ublock-unbreak");
      trusted = true;
    }
    ∷ record {
      name = codes "ublock-badware";
      url = codes "https://ublockorigin.github.io/uAssets/filters/badware.txt";
      bundled = bundled (codes "ublock-badware");
      trusted = true;
    }
    ∷ record {
      name = codes "ublock-quick-fixes";
      url = codes "https://ublockorigin.github.io/uAssets/filters/quick-fixes.txt";
      bundled = bundled (codes "ublock-quick-fixes");
      trusted = true;
    }
    ∷ record {
      name = codes "peter-lowe";
      url =
          codes
            "https://pgl.yoyo.org/adservers/serverlist.php?hostformat=adblockplus&showintro=1&mimetype=plaintext";
      bundled = bundled (codes "peter-lowe");
      trusted = false;
    }
    ∷ record {
      name = codes "fanboy-annoyance";
      url = codes "https://easylist.to/easylist/fanboy-annoyance.txt";
      bundled = bundled (codes "fanboy-annoyance");
      trusted = false;
    }
    ∷ record {
      name = codes "urlhaus-filter";
      url = codes "https://malware-filter.gitlab.io/malware-filter/urlhaus-filter-online.txt";
      bundled = bundled (codes "urlhaus-filter");
      trusted = false;
    }
    ∷ []

-- The files of the blocker: the downloaded lists by their names, and the others.
pub record Files : Type 0 where
  pub lists : List (Bytes × Bytes)
  pub engine : Option Bytes
  pub resources : Option Bytes
  pub metadata : Option Bytes

-- How a write of a file ends: the text is in it, or the write fails and leaves something, which may be
-- what there was, a part of the text, or no file.
pub data Write : Type 0 where
  written : Write
  failed : Option Bytes → Write

abbrev pub after_write : Write → Bytes → Option Bytes
after_write written text = some text
after_write (failed left) text = left

-- How the writes end, of the lists by their names.
pub record Writes : Type 0 where
  pub list : Bytes → Write
  pub engine : Write
  pub metadata : Write

abbrev pub set_list : Bytes → Option Bytes → List (Bytes × Bytes) → List (Bytes × Bytes)
set_list name none lists = erase name lists
set_list name (some text) lists = insert name text lists

-- `str::lines`
abbrev pub starts_lf : Bytes → Bool
starts_lf [] = false
starts_lf (c ∷ t) = c == 10

abbrev pub onto_line : ℕ → List Bytes → List Bytes
onto_line c [] = (c ∷ []) ∷ []
onto_line c (l ∷ ls) = (c ∷ l) ∷ ls

abbrev pub lines : Bytes → List Bytes
lines [] = []
lines (c ∷ t) =
    let rest = lines t in
    if c == 10 then [] ∷ rest else (if (c == 13) && starts_lf t then rest else onto_line c rest)

module _ (lib : Adblock) (resources_json : Bytes) where
  open lib use {
    Engine, FilterSet, Resource, new_set, add_filters, from_filter_set, set_regex_discard_policy,
    use_resources, serialize, deserialize, resources_from_str, is_utf8,
  }

  -- `read_to_string(..).ok()`
  abbrev pub read_text : Option Bytes → Option Bytes
  read_text none = none
  read_text (some bytes) = if is_utf8 bytes then some bytes else none

  abbrev pub read_downloaded_list : Files → Bytes → Option Bytes
  read_downloaded_list files name = read_text (lookup name files.lists)

  abbrev pub or_bundled : Option Bytes → Bytes → Bytes
  or_bundled none bundled = bundled
  or_bundled (some text) bundled = text

  abbrev pub list_content : Files → FilterListDef → Bytes
  list_content files d = or_bundled (read_downloaded_list files d.name) d.bundled

  abbrev pub permissions : Bool → ℕ
  permissions trusted = if trusted then 1 else 0

  abbrev pub add_content : Bool → Bytes → FilterSet → FilterSet
  add_content trusted [] set = set
  add_content trusted (c ∷ text) set = add_filters (lines (c ∷ text)) (permissions trusted) set

  abbrev pub add_lists : Files → List FilterListDef → FilterSet → FilterSet
  add_lists files [] set = set
  add_lists files (d ∷ ds) set =
      add_lists files ds (add_content d.trusted (list_content files d) set)

  -- The resources of the file, or those in the program, or none.
  abbrev pub parsed_resources : Option Bytes → Option (List Resource)
  parsed_resources none = none
  parsed_resources (some text) = resources_from_str text

  abbrev pub or_default : Option (List Resource) → List Resource
  or_default none = []
  or_default (some rs) = rs

  abbrev pub or_shipped : Option (List Resource) → List Resource
  or_shipped none = or_default (resources_from_str resources_json)
  or_shipped (some rs) = rs

  abbrev pub best_resources : Files → List Resource
  best_resources files = or_shipped (parsed_resources (read_text files.resources))

  abbrev pub use_all : List Resource → Engine → Engine
  use_all [] e = e
  use_all (r ∷ rs) e = use_resources (r ∷ rs) e

  abbrev pub load_resources : Files → Engine → Engine
  load_resources files e = use_all (best_resources files) e

  module _ (filter_lists : List FilterListDef) where
    unfoldable pub compile_engine : Files → Engine
    compile_engine files =
        load_resources files (
          set_regex_discard_policy 120 300 (from_filter_set (add_lists files filter_lists new_set)))

    abbrev pub cache_engine : Writes → Engine → Files → Files
    cache_engine writes e files = record files { engine = after_write writes.engine (serialize e) }

    abbrev pub compile_and_cache : Writes → Files → Engine × Files
    compile_and_cache writes files =
        (compile_engine files, cache_engine writes (compile_engine files) files)

    abbrev pub start_from : Writes → Files → Option Engine → Engine × Files
    start_from writes files none = compile_and_cache writes files
    start_from writes files (some e) = (load_resources files e, files)

    abbrev pub cached : Option Bytes → Option Engine
    cached none = none
    cached (some bytes) = deserialize bytes

    unfoldable pub init_engine : Writes → Files → Engine × Files
    init_engine writes files = start_from writes files (cached files.engine)

    -- The task of one list: the text of a successful response is written over the list's file, and an
    -- error of the write is ignored.
    abbrev pub store_list : Writes → Bytes → Option Bytes → Files → Files
    store_list writes name none files = files
    store_list writes name (some text) files = record files {
      lists = set_list name (after_write (writes.list name) text) files.lists;
    }

    abbrev pub downloads : Writes → (Bytes → Option Bytes) → List FilterListDef → Files → Files
    downloads writes answers [] files = files
    downloads writes answers (d ∷ ds) files =
        downloads writes answers ds (store_list writes d.name (answers d.url) files)

    -- The engine in use and the files.
    pub record Blocker : Type 0 where
      pub engine : Engine
      pub files : Files

    abbrev pub write_metadata : Writes → Bytes → Files → Files
    write_metadata writes text files = record files { metadata = after_write writes.metadata text }

    abbrev pub swapped : Writes → Bytes → Engine → Files → Blocker
    swapped writes metadata e files = record {
      engine = e;
      files = write_metadata writes metadata (cache_engine writes e files);
    }

    -- `update_filter_lists`. The tasks end in the order of `finished`; `client` and `joined` say
    -- whether the client is built and the compilation ends without a panic.
    unfoldable pub update_filter_lists :
        Result (Unit {0})
        → Result (Unit {0})
        → Writes
        → (Bytes → Option Bytes)
        → List FilterListDef
        → Bytes
        → Io Blocker (Unit {0})
    update_filter_lists (err e) joined writes answers finished metadata b = (err e, b)
    update_filter_lists (ok u) (err e) writes answers finished metadata b =
        (err e, record b { files = downloads writes answers finished b.files })
    update_filter_lists (ok u) (ok w) writes answers finished metadata b =
        let files = downloads writes answers finished b.files in
        (ok tt, swapped writes metadata (compile_engine files) files)
