-- ===== src/Sync/Bookmarks/Tests.antt =====
-- The theorems on bookmarks and folders at work.
use bushido.Prelude.{ℕ, ◌≡◌, ◌≢◌, ◌⊎◌, false, List, [], ◌∷◌, codes, All, none, some, ok}
use bushido.Prelude.Table.{list_beq}
use bushido.Sync.Contents.{OpenDoc}
use bushido.Sync.Bookmarks.{
  Bookmark, BookmarkFolder, BookmarkData, write_full, read_nodes, read_bookmarks, find_node_by_id,
}
use bushido.Sync.Bookmarks.Edits.{delete_folder_cascade, move_out}
use bushido.Sync.Bookmarks.Nodes.{without}
use bushido.Sync.Bookmarks.RoundTrip.{write_full-read_bookmarks}
use bushido.Sync.Bookmarks.Moves.{leave_all}
use bushido.Sync.Bookmarks.Cascade.{delete_folder_cascade-empties}
use bushido.Sync.Bookmarks.Toy.{Rows, toy_maps, toy_tree, toy-TreeLaws}

abbrev rust : Bookmark ℕ
rust = record {
  id = codes "b1";
  url = codes "https://rust-lang.org";
  title = codes "Rust";
  favicon = some (codes "fav.ico");
  folder_id = codes "f1";
  created_at = 1700000000;
}

abbrev tauri : Bookmark ℕ
tauri = record {
  id = codes "b2";
  url = codes "https://tauri.app";
  title = codes "Tauri";
  favicon = none;
  folder_id = codes "root";
  created_at = 1700000001;
}

abbrev dev : BookmarkFolder ℕ
dev = record { id = codes "f1"; name = codes "Dev"; parent_id = codes "root"; order = 0 }

abbrev sample : BookmarkData ℕ
sample = record { bookmarks = rust ∷ tauri ∷ []; folders = dev ∷ [] }

abbrev older : Rows
older = (write_full toy_maps toy_tree (record { bookmarks = tauri ∷ []; folders = [] }) []).1

write_full-read_bookmarks_example :
    ((write_full toy_maps toy_tree sample older).0 ≡ ok tt)
    × (read_bookmarks toy_maps toy_tree (write_full toy_maps toy_tree sample older).1 ≡ ok sample)
write_full-read_bookmarks_example =
    write_full-read_bookmarks toy_maps toy_tree toy-TreeLaws sample older

abbrev filled : OpenDoc toy_maps
filled = record {
  doc = (write_full toy_maps toy_tree sample older).1;
  op_count = 499;
  device_id = codes "d1";
}

filled-read : read_bookmarks toy_maps toy_tree filled.doc ≡ ok sample
filled-read = write_full-read_bookmarks_example.1

named : codes "f1" ≢ []
named e = cc

delete_folder_cascade-empties_example :
    (ns : List ℕ) × (c : BookmarkData ℕ) × (read_nodes toy_maps toy_tree ns filled.doc ≡ ok c)
    × (read_bookmarks toy_maps toy_tree
          (delete_folder_cascade toy_maps toy_tree (codes "f1") filled).1.doc
        ≡ ok (leave_all (codes "f1") c))
    × All (λ x. list_beq x.folder_id (codes "f1") ≡ false) (leave_all (codes "f1") c).bookmarks
    × (toy_tree.children (delete_folder_cascade toy_maps toy_tree (codes "f1") filled).1.doc ≡ ns)
    × (((find_node_by_id toy_maps toy_tree
              (codes "f1")
              (move_out toy_maps toy_tree (codes "f1") (toy_tree.children filled.doc) filled.doc)
            ≡ none)
          × (ns ≡ toy_tree.children filled.doc))
        ⊎ ((node : ℕ) × (find_node_by_id toy_maps toy_tree
                (codes "f1")
                (move_out toy_maps toy_tree (codes "f1") (toy_tree.children filled.doc) filled.doc)
              ≡ some node)
            × (ns ≡ without toy_maps toy_tree node (toy_tree.children filled.doc))))
delete_folder_cascade-empties_example =
    delete_folder_cascade-empties toy_maps toy_tree toy-TreeLaws (codes "f1") named filled sample
      filled-read
