-- ===== src/Sync/Bookmarks/RoundTrip.antt =====
-- The bookmarks of a file, written into the tree of src-tauri/src/sync/sync_doc.rs and read back.
use bushido.Prelude.{
  ◌≡◌, refl, sym, ◌∙◌, subst, ap, true, List, [], ◌∷◌, ◌++◌, Bytes, Option, none, some, Result, ok,
  err, inl, inr, Bool-cases, All, All-map, append_assoc, append-nil, arith,
}
use bushido.Prelude.Io.{Io, after}
use bushido.Sync.Contents.{LoroMaps}
use bushido.Sync.Bookmarks.{
  LoroTree, Bookmark, BookmarkFolder, BookmarkData, add_node, folder_fields, bookmark_fields,
  write_folders, write_bookmarks, write_full, delete_nodes, read_node, read_nodes, read_bookmarks,
}
use bushido.Sync.Bookmarks.Nodes.{
  with_fields, empty_meta, TreeLaws, join, add_node-read, has_node, without,
}

module _ (loro : LoroMaps) (tree : LoroTree loro) where
  open tree use {F64, TreeId, same, children, delete_node}

  abbrev pub nothing : BookmarkData F64
  nothing = record { bookmarks = []; folders = [] }

  read_folder-fields :
      (f : BookmarkFolder F64)
      → read_node loro tree (with_fields (folder_fields f) empty_meta) nothing
        ≡ record { bookmarks = []; folders = f ∷ [] }
  read_folder-fields f = refl

  read_bookmark-of :
      (id url title : Bytes) (favicon : Option Bytes) (folder_id : Bytes) (created_at : F64)
      → let b : Bookmark F64 = record {
        id = id;
        url = url;
        title = title;
        favicon = favicon;
        folder_id = folder_id;
        created_at = created_at;
      } in
        read_node loro tree (with_fields (bookmark_fields b) empty_meta) nothing
        ≡ record { bookmarks = b ∷ []; folders = [] }
  read_bookmark-of id url title none folder_id created_at = refl
  read_bookmark-of id url title (some fav) folder_id created_at = refl

  read_bookmark-fields :
      (b : Bookmark F64)
      → read_node loro tree (with_fields (bookmark_fields b) empty_meta) nothing
        ≡ record { bookmarks = b ∷ []; folders = [] }
  read_bookmark-fields b = read_bookmark-of b.id b.url b.title b.favicon b.folder_id b.created_at

  -- A change of the tree that succeeds and leaves a document of which certain data are read.
  abbrev pub Reads : BookmarkData F64 → Result (Unit {0}) × loro.Doc → Type 0
  Reads a r = (r.0 ≡ ok tt) × (read_bookmarks loro tree r.1 ≡ ok a)

  after-Reads :
      (a c : BookmarkData F64) (f : Unit {0} → Io loro.Doc (Unit {0}))
      (r : Result (Unit {0}) × loro.Doc)
      → Reads a r
      → ((d : loro.Doc) → read_bookmarks loro tree d ≡ ok a → Reads c (f tt d))
      → Reads c (after f r)
  after-Reads a c f (ok u, d) h k = k d h.1
  after-Reads a c f (err e, d) h k = cc

  module _ (laws : TreeLaws loro tree) where
    add_folder-Reads :
        (f : BookmarkFolder F64) (d : loro.Doc) (a : BookmarkData F64)
        → read_bookmarks loro tree d ≡ ok a
        → Reads
            (record a { folders = a.folders ++ (f ∷ []) })
            (add_node loro tree (folder_fields f) d)
    add_folder-Reads f d a h =
        let (done, read) = add_node-read loro tree laws (folder_fields f) d a h in
        (
          done,
          read
              ∙ (ap (λ b. ok (join loro tree a b)) (read_folder-fields f)
                  ∙ ap (λ bs. ok (record { bookmarks = bs; folders = a.folders ++ (f ∷ []) }))
                      (append-nil a.bookmarks)),
        )

    add_bookmark-Reads :
        (b : Bookmark F64) (d : loro.Doc) (a : BookmarkData F64)
        → read_bookmarks loro tree d ≡ ok a
        → Reads
            (record a { bookmarks = a.bookmarks ++ (b ∷ []) })
            (add_node loro tree (bookmark_fields b) d)
    add_bookmark-Reads b d a h =
        let (done, read) = add_node-read loro tree laws (bookmark_fields b) d a h in
        (
          done,
          read
              ∙ (ap (λ c. ok (join loro tree a c)) (read_bookmark-fields b)
                  ∙ ap (λ fs. ok (record { bookmarks = a.bookmarks ++ (b ∷ []); folders = fs }))
                      (append-nil a.folders)),
        )

    write_folders-Reads :
        (fs : List (BookmarkFolder F64)) (d : loro.Doc) (a : BookmarkData F64)
        → read_bookmarks loro tree d ≡ ok a
        → Reads (record a { folders = a.folders ++ fs }) (write_folders loro tree fs d)
    write_folders-Reads [] d a h =
        (refl, h ∙ ap (λ fs. ok (record a { folders = fs })) (sym (append-nil a.folders)))
    write_folders-Reads (f ∷ fs) d a h =
        after-Reads (record a { folders = a.folders ++ (f ∷ []) })
          (record a { folders = a.folders ++ (f ∷ fs) }) (λ u. write_folders loro tree fs)
          (add_node loro tree (folder_fields f) d) (add_folder-Reads f d a h)
          (λ e r.
            subst (λ gs. Reads (record a { folders = gs }) (write_folders loro tree fs e))
              (append_assoc a.folders (f ∷ []) fs)
              (write_folders-Reads fs e (record a { folders = a.folders ++ (f ∷ []) }) r))

    write_bookmarks-Reads :
        (bs : List (Bookmark F64)) (d : loro.Doc) (a : BookmarkData F64)
        → read_bookmarks loro tree d ≡ ok a
        → Reads (record a { bookmarks = a.bookmarks ++ bs }) (write_bookmarks loro tree bs d)
    write_bookmarks-Reads [] d a h =
        (refl, h ∙ ap (λ bs. ok (record a { bookmarks = bs })) (sym (append-nil a.bookmarks)))
    write_bookmarks-Reads (b ∷ bs) d a h =
        after-Reads (record a { bookmarks = a.bookmarks ++ (b ∷ []) })
          (record a { bookmarks = a.bookmarks ++ (b ∷ bs) }) (λ u. write_bookmarks loro tree bs)
          (add_node loro tree (bookmark_fields b) d) (add_bookmark-Reads b d a h)
          (λ e r.
            subst (λ cs. Reads (record a { bookmarks = cs }) (write_bookmarks loro tree bs e))
              (append_assoc a.bookmarks (b ∷ []) bs)
              (write_bookmarks-Reads bs e (record a { bookmarks = a.bookmarks ++ (b ∷ []) }) r))

    -- Deleting every node that was there leaves none.
    abbrev without_all : List TreeId → List TreeId → List TreeId
    without_all [] ms = ms
    without_all (n ∷ ns) ms = without_all ns (without loro tree n ms)

    children-delete_nodes :
        (ns : List TreeId) (d : loro.Doc)
        → children (delete_nodes loro tree ns d) ≡ without_all ns (children d)
    children-delete_nodes [] d = refl
    children-delete_nodes (n ∷ ns) d =
        children-delete_nodes ns (delete_node n d).1
        ∙ ap (without_all ns) (laws.children-delete n d)

    abbrev pub AllIn : List TreeId → TreeId → Type 0
    AllIn ns m = has_node loro tree m ns ≡ true

    without-AllIn :
        (n : TreeId) (ns ms : List TreeId)
        → All (AllIn (n ∷ ns)) ms
        → All (AllIn ns) (without loro tree n ms)
    without-AllIn n ns [] h = tt
    without-AllIn n ns (m ∷ ms) h = elim (Bool-cases (same n m)) [
      | inl own ↦ rw own (without-AllIn n ns ms h.1)
      | inr foreign ↦ rw foreign (
        ground (arith, foreign, laws.same_iff n m, laws.same_iff m n, h.0),
        without-AllIn n ns ms h.1,
      )
    ]

    without_all-nothing : (ns ms : List TreeId) → All (AllIn ns) ms → without_all ns ms ≡ []
    without_all-nothing [] [] h = refl
    without_all-nothing [] (m ∷ ms) h = cc
    without_all-nothing (n ∷ ns) ms h =
        without_all-nothing ns (without loro tree n ms) (without-AllIn n ns ms h)

    pub AllIn-self : (ns : List TreeId) → All (AllIn ns) ns
    AllIn-self [] = tt
    AllIn-self (n ∷ ns) = (
      ground (arith, (laws.same_iff n n).1 refl),
      All-map ns (λ m h. ground (arith, h)) (AllIn-self ns),
    )

    -- Writing the bookmarks and folders of a file succeeds, and what is then read of the document are
    -- these bookmarks and folders in their order, whatever the document held before.
    pub write_full-read_bookmarks :
        (given : BookmarkData F64) (d : loro.Doc)
        → ((write_full loro tree given d).0 ≡ ok tt)
          × (read_bookmarks loro tree (write_full loro tree given d).1 ≡ ok given)
    unfolding write_full
    write_full-read_bookmarks given d =
        after-Reads (record { bookmarks = []; folders = given.folders }) given
          (λ u. write_bookmarks loro tree given.bookmarks)
          (write_folders loro tree given.folders cleared)
          (write_folders-Reads given.folders cleared nothing (
            ap (λ ns. read_nodes loro tree ns cleared)
              (children-delete_nodes (children d) d
                ∙ without_all-nothing (children d) (children d) (AllIn-self (children d)))))
          (λ e r.
            write_bookmarks-Reads given.bookmarks e
              (record { bookmarks = []; folders = given.folders }) r)
      where
        cleared : loro.Doc
        cleared = delete_nodes loro tree (children d) d
