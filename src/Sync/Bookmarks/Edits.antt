-- ===== src/Sync/Bookmarks/Edits.antt =====
-- The changes of one bookmark or folder in src-tauri/src/sync/sync_doc.rs.
use Prim.Native.String.{String}
use bushido.Prelude.{
  Bool, false, List, [], ◌∷◌, Bytes, codes, ◌&&◌, if◌then◌else◌, Option, none, some, Result, ok,
  err,
}
use bushido.Prelude.Io.{Io, pure, fail, ◌>>=◌}
use bushido.Sync.Contents.{LoroMaps, OpenDoc, maybe_compact}
use bushido.Sync.Bookmarks.{
  LoroTree, text, Meta, Bookmark, BookmarkFolder, bookmark_fields, folder_fields, add_node, on_tree,
  meta_in, is_text, get_map_str, find_node_by_id,
}

module _ (loro : LoroMaps) (tree : LoroTree loro) where
  open tree use {F64, TreeId, children, get_meta, delete_node, insert_meta}

  unfoldable pub add_bookmark : Bookmark F64 → Io (OpenDoc loro) (Unit {0})
  add_bookmark b =
      on_tree loro tree (add_node loro tree (bookmark_fields b)) >>= λ u. maybe_compact loro

  unfoldable pub add_folder : BookmarkFolder F64 → Io (OpenDoc loro) (Unit {0})
  add_folder f =
      on_tree loro tree (add_node loro tree (folder_fields f)) >>= λ u. maybe_compact loro

  -- The node of an id, or an error.
  abbrev pub with_node :
      (TreeId → Io (OpenDoc loro) (Unit {0}))
      → String
      → Option TreeId
      → Io (OpenDoc loro) (Unit {0})
  with_node f missing none = fail missing
  with_node f missing (some node) = f node

  abbrev pub set_string : Bytes → Bytes → TreeId → Io loro.Doc (Unit {0})
  set_string key val node = do
    meta ← meta_in loro tree node
    λ d. (ok tt, insert_meta node key (text val) d)

  unfoldable pub remove_bookmark : Bytes → Io (OpenDoc loro) (Unit {0})
  remove_bookmark id s =
      (with_node (λ node. on_tree loro tree (delete_node node)) "bookmark not found"
            (find_node_by_id loro tree id s.doc)
          >>= λ u. maybe_compact loro)
        s

  unfoldable pub rename_folder : Bytes → Bytes → Io (OpenDoc loro) (Unit {0})
  rename_folder id name s =
      (with_node (λ node. on_tree loro tree (set_string (codes "name") name node))
            "folder not found" (find_node_by_id loro tree id s.doc)
          >>= λ u. maybe_compact loro)
        s

  unfoldable pub move_bookmark : Bytes → Bytes → Io (OpenDoc loro) (Unit {0})
  move_bookmark id folder_id s =
      (with_node (λ node. on_tree loro tree (set_string (codes "folderId") folder_id node))
            "bookmark not found" (find_node_by_id loro tree id s.doc)
          >>= λ u. maybe_compact loro)
        s

  -- Whether a node is a bookmark of a folder.
  abbrev pub is_in : Bytes → Result (Meta F64) → Bool
  is_in folder_id (ok meta) =
      is_text (get_map_str meta (codes "type")) (codes "bookmark")
      && is_text (get_map_str meta (codes "folderId")) folder_id
  is_in folder_id (err e) = false

  abbrev pub move_out : Bytes → List TreeId → loro.Doc → loro.Doc
  move_out folder_id [] d = d
  move_out folder_id (n ∷ ns) d =
      move_out folder_id ns
        (if is_in folder_id (get_meta n d) then insert_meta n (codes "folderId") (text []) d else d)

  -- `if let Some(node)`
  abbrev pub delete_found : Option TreeId → Io loro.Doc (Unit {0})
  delete_found none = pure tt
  delete_found (some node) = delete_node node

  abbrev pub cascade : Bytes → Io loro.Doc (Unit {0})
  cascade folder_id d =
      let moved = move_out folder_id (children d) d in
      delete_found (find_node_by_id loro tree folder_id moved) moved

  unfoldable pub delete_folder_cascade : Bytes → Io (OpenDoc loro) (Unit {0})
  delete_folder_cascade folder_id =
      on_tree loro tree (cascade folder_id) >>= λ u. maybe_compact loro
