-- ===== src/Sync/Bookmarks/Cascade.antt =====
-- What `delete_folder_cascade` of src-tauri/src/sync/sync_doc.rs does with the bookmarks of its folder.
use bushido.Prelude.{
  true-ne-false, ◌≡◌, ◌≢◌, refl, sym, ◌∙◌, ap, false, List, [], ◌∷◌, map, Bytes, Option, none, some,
  Result, ok, err, inl, inr, Bool-cases, ◌⊎◌, All, All-map,
}
use bushido.Prelude.Table.{list_beq, list_beq-false}
use bushido.Prelude.Io.{after}
use bushido.Sync.Contents.{LoroMaps, OpenDoc, maybe_compact}
use bushido.Sync.Contents.Maps.{maybe_compact-same}
use bushido.Sync.Bookmarks.{
  LoroTree, Meta, Bookmark, BookmarkData, read_node, read_nodes, read_found, read_bookmarks,
  find_node_by_id, in_doc,
}
use bushido.Sync.Bookmarks.RoundTrip.{AllIn-self}
use bushido.Sync.Bookmarks.Edits.{move_out, delete_found, cascade, delete_folder_cascade}
use bushido.Sync.Bookmarks.Nodes.{TreeLaws, without, read_nodes-same}
use bushido.Sync.Bookmarks.Moves.{
  moved, leave, leave_all, get_meta-move_out, children-move_out, read_nodes-moved,
}

module _ (loro : LoroMaps) (tree : LoroTree loro) (laws : TreeLaws loro tree) (folder : Bytes)
    (named : folder ≢ []) where
  open tree use {F64, TreeId, same, children, get_meta, delete_node, insert_meta}

  abbrev IsOut : Bookmark F64 → Type 0
  IsOut b = list_beq b.folder_id folder ≡ false

  IsRead : Result (BookmarkData F64) → Type 0
  IsRead r = (a : BookmarkData F64) × (r ≡ ok a)

  read_found-IsRead :
      (r : Result (Meta F64)) (x y : Result (BookmarkData F64))
      → IsRead (read_found loro tree r x)
      → (IsRead x → IsRead y)
      → IsRead y × IsRead (read_found loro tree r y)
  unfolding IsRead
  read_found-IsRead (ok meta) (ok a) y h k =
      let (b, e) = k (a, refl) in
      ((b, e), (read_node loro tree meta b, ap (read_found loro tree (ok meta)) e))
  read_found-IsRead (ok meta) (err e) y h k = cc
  read_found-IsRead (err e) x y h k = cc

  -- Where all nodes are read, those that are left without one are read.
  read_nodes-without :
      (n : TreeId) (ns : List TreeId) (d : loro.Doc)
      → IsRead (read_nodes loro tree ns d)
      → IsRead (read_nodes loro tree (without loro tree n ns) d)
  unfolding IsRead
  read_nodes-without n [] d p = p
  read_nodes-without n (m ∷ ns) d p =
      let both =
        read_found-IsRead (get_meta m d) (read_nodes loro tree ns d)
          (read_nodes loro tree (without loro tree n ns) d) p (read_nodes-without n ns d) in
      elim (Bool-cases (same n m)) [ inl own ↦ rw own both.0 | inr foreign ↦ rw foreign both.1 ]

  All-without :
      (P : TreeId → Type 0) (n : TreeId) (ns : List TreeId)
      → All P ns
      → All (λ m. P m × (same n m ≡ false)) (without loro tree n ns)
  All-without P n [] p = tt
  All-without P n (m ∷ ns) p = elim (Bool-cases (same n m)) [
    | inl own ↦ rw own (All-without P n ns p.1)
    | inr foreign ↦ rw foreign ((p.0, foreign), All-without P n ns p.1)
  ]

  leave-IsOut : (b : Bookmark F64) → IsOut (leave folder b)
  leave-IsOut b = elim (Bool-cases (list_beq b.folder_id folder)) [
    | inl inside ↦ rw inside (list_beq-false [] folder (λ e. named (sym e)))
    | inr outside ↦ rw outside outside
  ]

  all_leave-IsOut : (bs : List (Bookmark F64)) → All IsOut (map (leave folder) bs)
  all_leave-IsOut [] = tt
  all_leave-IsOut (b ∷ bs) = (leave-IsOut b, all_leave-IsOut bs)

  abbrev after_loop : loro.Doc → loro.Doc
  after_loop d = move_out loro tree folder (children d) d

  -- The map of each node after the loop.
  all_moved :
      (d : loro.Doc)
      → All
          (λ n. get_meta n (after_loop d) ≡ moved loro tree laws folder named (get_meta n d))
          (children d)
  all_moved d =
      All-map (children d)
        (λ n member.
          get_meta-move_out loro tree laws folder named (children d) n d ∙ rw member refl)
        (AllIn-self loro tree laws (children d))

  read-after_loop :
      (d : loro.Doc) (a : BookmarkData F64)
      → read_bookmarks loro tree d ≡ ok a
      → read_bookmarks loro tree (after_loop d) ≡ ok (leave_all folder a)
  read-after_loop d a h =
      ap (λ ns. read_nodes loro tree ns (after_loop d))
        (children-move_out loro tree laws folder named (children d) d)
      ∙ read_nodes-moved loro tree laws folder named (children d) d (after_loop d) a (all_moved d) h

  -- What is read of a document is read of it after a compaction.
  read-compacted :
      (s : OpenDoc loro)
      → read_bookmarks loro tree (maybe_compact loro s).1.doc ≡ read_bookmarks loro tree s.doc
  read-compacted =
      maybe_compact-same loro (read_bookmarks loro tree) (λ snapshot d d' exported imported.
        (ap (λ ns. read_nodes loro tree ns d')
            (laws.children-renewed snapshot d d' exported imported)
          ∙ read_nodes-same loro tree (children d) d d'
              (λ n. laws.get_meta-renewed n snapshot d d' exported imported)))

  read-then_compacted :
      (s : OpenDoc loro) (r : Result (Unit {0}) × loro.Doc)
      → read_bookmarks loro tree (after (λ u. maybe_compact loro) (in_doc loro tree s r)).1.doc
        ≡ read_bookmarks loro tree r.1
  read-then_compacted s (ok u, d) = read-compacted (record s { doc = d })
  read-then_compacted s (err e, d) = refl

  children-then_compacted :
      (s : OpenDoc loro) (r : Result (Unit {0}) × loro.Doc)
      → children (after (λ u. maybe_compact loro) (in_doc loro tree s r)).1.doc ≡ children r.1
  children-then_compacted s (ok u, d) =
      maybe_compact-same loro children laws.children-renewed (record s { doc = d })
  children-then_compacted s (err e, d) = refl

  -- The nodes that are left, and what was read of them.
  abbrev Emptied : OpenDoc loro → loro.Doc → Type 0
  Emptied s d =
      (ns : List TreeId) × (c : BookmarkData F64) × (read_nodes loro tree ns s.doc ≡ ok c)
      × (read_bookmarks loro tree d ≡ ok (leave_all folder c))
      × All IsOut (leave_all folder c).bookmarks
      × (children d ≡ ns)
      × (((find_node_by_id loro tree folder (after_loop s.doc) ≡ none) × (ns ≡ children s.doc))
          ⊎ ((node : TreeId) × (find_node_by_id loro tree folder (after_loop s.doc) ≡ some node)
              × (ns ≡ without loro tree node (children s.doc))))

  meta-deleted :
      (node n : TreeId) (s : OpenDoc loro)
      → (get_meta n (after_loop s.doc) ≡ moved loro tree laws folder named (get_meta n s.doc))
        × (same node n ≡ false)
      → get_meta n (delete_node node (after_loop s.doc)).1
        ≡ moved loro tree laws folder named (get_meta n s.doc)
  meta-deleted node n s h = elim (laws.get_meta-delete node n (after_loop s.doc)) [
    | inl own ↦ absurd (true-ne-false (sym own ∙ h.1))
    | inr kept ↦ kept ∙ h.0
  ]

  children-deleted :
      (node : TreeId) (d : loro.Doc)
      → children (delete_node node (after_loop d)).1 ≡ without loro tree node (children d)
  children-deleted node d =
      laws.children-delete node (after_loop d)
      ∙ ap (without loro tree node) (children-move_out loro tree laws folder named (children d) d)

  deleted-Emptied :
      (s : OpenDoc loro) (a : BookmarkData F64) (found : Option TreeId)
      → find_node_by_id loro tree folder (after_loop s.doc) ≡ found
      → read_bookmarks loro tree s.doc ≡ ok a
      → Emptied s (delete_found loro tree found (after_loop s.doc)).1
  unfolding IsRead
  deleted-Emptied s a none e h = (
    children s.doc,
    a,
    h,
    read-after_loop s.doc a h,
    all_leave-IsOut a.bookmarks,
    children-move_out loro tree laws folder named (children s.doc) s.doc,
    inl (e, refl),
  )
  deleted-Emptied s a (some node) e h =
      let (c, left) = read_nodes-without node (children s.doc) s.doc (a, h) in
      (
        without loro tree node (children s.doc),
        c,
        left,
        ap (λ ns. read_nodes loro tree ns (delete_node node (after_loop s.doc)).1)
              (children-deleted node s.doc)
            ∙ read_nodes-moved loro tree laws folder named (without loro tree node (children s.doc))
                s.doc (delete_node node (after_loop s.doc)).1 c
                (All-map (without loro tree node (children s.doc)) (λ n p. meta-deleted node n s p)
                  (All-without
                    (λ n.
                      get_meta n (after_loop s.doc)
                      ≡ moved loro tree laws folder named (get_meta n s.doc))
                    node (children s.doc) (all_moved s.doc)))
                left,
        all_leave-IsOut c.bookmarks,
        children-deleted node s.doc,
        inr (node, e, refl),
      )

  -- After `delete_folder_cascade` of a folder whose id is not empty, of a document whose bookmarks can
  -- be read, whatever it returns: where a node has the folder's id, the first one that is found is
  -- gone, and the nodes are all others; where none has it, they are those before. What is read is what
  -- was read of these nodes before, but the bookmarks of the folder are in no folder.
  pub delete_folder_cascade-empties :
      (s : OpenDoc loro) (a : BookmarkData F64)
      → read_bookmarks loro tree s.doc ≡ ok a
      → (ns : List TreeId) × (c : BookmarkData F64) × (read_nodes loro tree ns s.doc ≡ ok c)
        × (read_bookmarks loro tree (delete_folder_cascade loro tree folder s).1.doc
            ≡ ok (leave_all folder c))
        × All (λ x. list_beq x.folder_id folder ≡ false) (leave_all folder c).bookmarks
        × (children (delete_folder_cascade loro tree folder s).1.doc ≡ ns)
        × (((find_node_by_id loro tree folder (move_out loro tree folder (children s.doc) s.doc)
                ≡ none)
              × (ns ≡ children s.doc))
            ⊎ ((node : TreeId) × (find_node_by_id loro tree folder
                    (move_out loro tree folder (children s.doc) s.doc)
                  ≡ some node)
                × (ns ≡ without loro tree node (children s.doc))))
  unfolding delete_folder_cascade
  delete_folder_cascade-empties s a h =
      let (ns, c, left, read, out, lost, why) =
        deleted-Emptied s a (find_node_by_id loro tree folder (after_loop s.doc)) refl h in
      (
        ns,
        c,
        left,
        read-then_compacted s (cascade loro tree folder s.doc) ∙ read,
        out,
        children-then_compacted s (cascade loro tree folder s.doc) ∙ lost,
        why,
      )
