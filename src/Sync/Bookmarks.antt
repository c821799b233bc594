-- ===== src/Sync/Bookmarks.antt =====
-- The bookmarks and folders in the document of src-tauri/src/sync/sync_doc.rs: the nodes at the root of
-- a tree, each with a map of its own. The tree of Loro is a parameter.
pub mod Edits
pub mod Nodes
pub mod RoundTrip
pub mod Moves
pub mod Cascade
pub mod Toy
mod Tests
use bushido.Prelude.{
  ℕ, Bool, true, false, List, [], ◌∷◌, ◌++◌, Bytes, codes, ◌&&◌, if◌then◌else◌, Option, none, some,
  Result, ok, err,
}
use bushido.Prelude.Table.{Eq, list_beq}
use bushido.Prelude.Io.{Io, pure, fail, after, ◌>>=◌, ◌>>◌}
use bushido.Sync.Contents.{LoroMaps, OpenDoc, maybe_compact}

-- A value of a node's map; `F` is `f64`. The numbers of `i64` are in two's complement.
pub data MetaValue (F : Type 0) : Type 0 where
  text : Bytes → MetaValue F
  double : F → MetaValue F
  i64 : ℕ → MetaValue F
  other : MetaValue F

-- What `get` of a node's map gives.
abbrev pub Meta : Type 0 → Type 0
Meta F = Bytes → Option (MetaValue F)

-- `LoroTree`: `children` of the root, `get_meta`, which fails on a node that does not exist, and the
-- changes to the tree and to the maps of its nodes.
pub record LoroTree (loro : LoroMaps) : Type 1 where
  pub F64 : Type 0
  pub zero : F64
  pub as_f64 : ℕ → F64
  pub TreeId : Type 0
  pub same : TreeId → TreeId → Bool
  pub children : loro.Doc → List TreeId
  pub get_meta : TreeId → loro.Doc → Result (Meta F64)
  pub create : Io loro.Doc TreeId
  pub delete_node : TreeId → Io loro.Doc (Unit {0})
  pub insert_meta : TreeId → Bytes → MetaValue F64 → loro.Doc → loro.Doc

pub record Bookmark (F : Type 0) : Type 0 where
  pub id : Bytes
  pub url : Bytes
  pub title : Bytes
  pub favicon : Option Bytes
  pub folder_id : Bytes
  pub created_at : F

pub record BookmarkFolder (F : Type 0) : Type 0 where
  pub id : Bytes
  pub name : Bytes
  pub parent_id : Bytes
  pub order : F

pub record BookmarkData (F : Type 0) : Type 0 where
  pub bookmarks : List (Bookmark F)
  pub folders : List (BookmarkFolder F)

-- `unwrap_or_default` of a string.
abbrev pub text_or_empty : Option Bytes → Bytes
text_or_empty none = []
text_or_empty (some s) = s

-- `as_deref() == Some(s)`
abbrev pub is_text : Option Bytes → Bytes → Bool
is_text none s = false
is_text (some t) s = list_beq t s

-- The fields of a new node in the order in which they are set.
abbrev pub Fields : Type 0 → Type 0
Fields F = List (Bytes × MetaValue F)

module _ {F : Type 0} where
  abbrev pub as_text : Option (MetaValue F) → Option Bytes
  as_text (some (text s)) = some s
  as_text other_value = none

  abbrev pub get_map_str : Meta F → Bytes → Option Bytes
  get_map_str meta key = as_text (meta key)

  abbrev pub folder_fields : BookmarkFolder F → Fields F
  folder_fields f =
      (codes "type", text (codes "folder"))
      ∷ (codes "id", text f.id)
      ∷ (codes "name", text f.name)
      ∷ (codes "parentId", text f.parent_id)
      ∷ (codes "order", double f.order)
      ∷ []

  abbrev pub favicon_field : Option Bytes → Fields F → Fields F
  favicon_field none fields = fields
  favicon_field (some fav) fields = (codes "favicon", text fav) ∷ fields

  abbrev pub bookmark_fields : Bookmark F → Fields F
  bookmark_fields b =
      (codes "type", text (codes "bookmark"))
      ∷ (codes "id", text b.id)
      ∷ (codes "url", text b.url)
      ∷ (codes "title", text b.title)
      ∷ favicon_field b.favicon
          ((codes "folderId", text b.folder_id) ∷ (codes "createdAt", double b.created_at) ∷ [])

module _ (loro : LoroMaps) (tree : LoroTree loro) where
  open tree use {F64, TreeId, children, get_meta, create, delete_node, insert_meta}

  abbrev pub as_number : Option (MetaValue F64) → F64
  as_number (some (double d)) = d
  as_number (some (i64 n)) = tree.as_f64 n
  as_number other_value = tree.zero

  -- `get_map_f64(..).unwrap_or(0.0)`
  abbrev pub get_map_f64 : Meta F64 → Bytes → F64
  get_map_f64 meta key = as_number (meta key)

  -- A result of the tree in the operation of the document.
  abbrev pub in_doc : {A : Type 0} → OpenDoc loro → Result A × loro.Doc → Result A × OpenDoc loro
  in_doc s (r, d) = (r, record s { doc = d })

  abbrev pub on_tree : {A : Type 0} → Io loro.Doc A → Io (OpenDoc loro) A
  on_tree m s = in_doc s (m s.doc)

  abbrev pub meta_in : TreeId → Io loro.Doc (Meta F64)
  meta_in node d = (get_meta node d, d)

  abbrev pub set_fields : TreeId → Fields F64 → loro.Doc → loro.Doc
  set_fields node [] d = d
  set_fields node ((key, val) ∷ fields) d = set_fields node fields (insert_meta node key val d)

  abbrev pub fill : TreeId → Fields F64 → Io loro.Doc (Unit {0})
  fill node fields d = (ok tt, set_fields node fields d)

  -- A new node with its fields.
  abbrev pub add_node : Fields F64 → Io loro.Doc (Unit {0})
  add_node fields = do node ← create; meta ← meta_in node; fill node fields

  abbrev pub write_folders : List (BookmarkFolder F64) → Io loro.Doc (Unit {0})
  write_folders [] = pure tt
  write_folders (f ∷ fs) = add_node (folder_fields f) >>= λ u. write_folders fs

  abbrev pub write_bookmarks : List (Bookmark F64) → Io loro.Doc (Unit {0})
  write_bookmarks [] = pure tt
  write_bookmarks (b ∷ bs) = add_node (bookmark_fields b) >>= λ u. write_bookmarks bs

  -- `let _ = tree.delete(..)` of every node.
  abbrev pub delete_nodes : List TreeId → loro.Doc → loro.Doc
  delete_nodes [] d = d
  delete_nodes (n ∷ ns) d = delete_nodes ns (delete_node n d).1

  unfoldable pub write_full : BookmarkData F64 → Io loro.Doc (Unit {0})
  write_full given d =
      (write_folders given.folders >>= λ u. write_bookmarks given.bookmarks)
        (delete_nodes (children d) d)

  abbrev pub folder_of : Meta F64 → BookmarkFolder F64
  folder_of meta = record {
    id = text_or_empty (get_map_str meta (codes "id"));
    name = text_or_empty (get_map_str meta (codes "name"));
    parent_id = text_or_empty (get_map_str meta (codes "parentId"));
    order = get_map_f64 meta (codes "order");
  }

  abbrev pub bookmark_of : Meta F64 → Bookmark F64
  bookmark_of meta = record {
    id = text_or_empty (get_map_str meta (codes "id"));
    url = text_or_empty (get_map_str meta (codes "url"));
    title = text_or_empty (get_map_str meta (codes "title"));
    favicon = get_map_str meta (codes "favicon");
    folder_id = text_or_empty (get_map_str meta (codes "folderId"));
    created_at = get_map_f64 meta (codes "createdAt");
  }

  -- A node in front of what is read of the nodes behind it.
  abbrev pub read_node : Meta F64 → BookmarkData F64 → BookmarkData F64
  read_node meta rest =
      let kind = text_or_empty (get_map_str meta (codes "type")) in
      if list_beq kind (codes "folder")
      then record rest { folders = folder_of meta ∷ rest.folders }
      else (if list_beq kind (codes "bookmark")
          then record rest { bookmarks = bookmark_of meta ∷ rest.bookmarks }
          else rest)

  abbrev pub read_found : Result (Meta F64) → Result (BookmarkData F64) → Result (BookmarkData F64)
  read_found (ok meta) (ok rest) = ok (read_node meta rest)
  read_found (ok meta) (err e) = err e
  read_found (err e) rest = err e

  abbrev pub read_nodes : List TreeId → loro.Doc → Result (BookmarkData F64)
  read_nodes [] d = ok (record { bookmarks = []; folders = [] })
  read_nodes (n ∷ ns) d = read_found (get_meta n d) (read_nodes ns d)

  -- `read_bookmarks_as_json`, before its data become a text.
  abbrev pub read_bookmarks : loro.Doc → Result (BookmarkData F64)
  read_bookmarks d = read_nodes (children d) d

  abbrev pub has_id : Bytes → Result (Meta F64) → Bool
  has_id target (ok meta) = is_text (get_map_str meta (codes "id")) target
  has_id target (err e) = false

  abbrev pub find_among : Bytes → List TreeId → loro.Doc → Option TreeId
  find_among target [] d = none
  find_among target (n ∷ ns) d =
      let rest = find_among target ns d in if has_id target (get_meta n d) then some n else rest

  abbrev pub find_node_by_id : Bytes → loro.Doc → Option TreeId
  find_node_by_id target d = find_among target (children d) d
