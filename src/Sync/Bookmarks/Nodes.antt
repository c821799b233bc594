-- ===== src/Sync/Bookmarks/Nodes.antt =====
-- What is read of the nodes of a document after a change of its tree, given what Loro documents of it.
use bushido.Prelude.{
  or-left, or-right, ◌≡◌, refl, ◌∙◌, subst, ap, Bool, true, false, List, [], ◌∷◌, ◌++◌, Bytes,
  codes, ◌||◌, if◌then◌else◌, none, some, Result, ok, err, inl, inr, Bool-cases, ◌↔◌, ◌⊎◌,
}
use bushido.Prelude.Table.{list_beq}
use bushido.Prelude.Io.{◌>>=◌, >>=-ok}
use bushido.Sync.Contents.{LoroMaps}
use bushido.Sync.Contents.Maps.{Renews}
use bushido.Sync.Bookmarks.{
  LoroTree, MetaValue, Meta, Fields, Bookmark, BookmarkFolder, BookmarkData, meta_in, fill,
  add_node, set_fields, read_node, read_found, read_nodes, read_bookmarks, text_or_empty,
  get_map_str, folder_of, bookmark_of,
}

module _ {F : Type 0} where
  abbrev pub with_field : Bytes → MetaValue F → Meta F → Meta F
  with_field k v meta j = if list_beq k j then some v else meta j

  abbrev pub with_fields : Fields F → Meta F → Meta F
  with_fields [] meta = meta
  with_fields ((k, v) ∷ fields) meta = with_fields fields (with_field k v meta)

  abbrev pub empty_meta : Meta F
  empty_meta j = none

  abbrev pub set_in : Bytes → MetaValue F → Result (Meta F) → Result (Meta F)
  set_in k v (ok meta) = ok (with_field k v meta)
  set_in k v (err e) = err e

module _ (loro : LoroMaps) (tree : LoroTree loro) where
  open tree use {F64, TreeId, same, children, get_meta, create, delete_node, insert_meta}

  abbrev pub has_node : TreeId → List TreeId → Bool
  has_node n [] = false
  has_node n (m ∷ ms) = same n m || has_node n ms

  abbrev pub without : TreeId → List TreeId → List TreeId
  without n [] = []
  without n (m ∷ ms) = let rest = without n ms in if same n m then rest else m ∷ rest

  -- A new node stands behind the others, with an empty map; a value that is set is in the map of its
  -- node; a deletion takes its node from the tree and leaves the maps of the others; and a document
  -- that imports a snapshot has its tree.
  pub record TreeLaws : Type 0 where
    pub same_iff : (n m : TreeId) → (same n m ≡ true) ↔ (n ≡ m)
    pub get_meta-child :
        (n : TreeId) (d : loro.Doc)
        → has_node n (children d) ≡ true
        → (meta : Meta F64) × (get_meta n d ≡ ok meta)
    pub create-new :
        (d : loro.Doc)
        → (n : TreeId) × (d' : loro.Doc) × (create d ≡ (ok n, d'))
          × (has_node n (children d) ≡ false)
          × (children d' ≡ children d ++ (n ∷ []))
          × ((m : TreeId) → get_meta m d' ≡ (if same n m then ok empty_meta else get_meta m d))
    pub children-insert :
        (n : TreeId) (k : Bytes) (v : MetaValue F64) (d : loro.Doc)
        → children (insert_meta n k v d) ≡ children d
    pub get_meta-insert :
        (n m : TreeId) (k : Bytes) (v : MetaValue F64) (d : loro.Doc)
        → get_meta m (insert_meta n k v d)
          ≡ (if same n m then set_in k v (get_meta m d) else get_meta m d)
    pub children-delete :
        (n : TreeId) (d : loro.Doc) → children (delete_node n d).1 ≡ without n (children d)
    pub get_meta-delete :
        (n m : TreeId) (d : loro.Doc)
        → (same n m ≡ true) ⊎ (get_meta m (delete_node n d).1 ≡ get_meta m d)
    pub children-renewed : Renews loro children
    pub get_meta-renewed : (n : TreeId) → Renews loro (get_meta n)

  abbrev pub join : BookmarkData F64 → BookmarkData F64 → BookmarkData F64
  join a b = record { bookmarks = a.bookmarks ++ b.bookmarks; folders = a.folders ++ b.folders }

  abbrev both : Result (BookmarkData F64) → Result (BookmarkData F64) → Result (BookmarkData F64)
  both (ok a) (ok b) = ok (join a b)
  both (ok a) (err e) = err e
  both (err e) r = err e

  pick-join :
      (f g : Bool) (x : BookmarkFolder F64) (y : Bookmark F64) (a b : BookmarkData F64)
      → (if f
          then record (join a b) { folders = x ∷ (join a b).folders }
          else (if g then record (join a b) { bookmarks = y ∷ (join a b).bookmarks } else join a b))
        ≡ join
            (if f
              then record a { folders = x ∷ a.folders }
              else (if g then record a { bookmarks = y ∷ a.bookmarks } else a))
            b
  pick-join true g x y a b = refl
  pick-join false true x y a b = refl
  pick-join false false x y a b = refl

  pub read_node-join :
      (meta : Meta F64) (a b : BookmarkData F64)
      → read_node loro tree meta (join a b) ≡ join (read_node loro tree meta a) b
  read_node-join meta a b =
      pick-join (list_beq (text_or_empty (get_map_str meta (codes "type"))) (codes "folder"))
        (list_beq (text_or_empty (get_map_str meta (codes "type"))) (codes "bookmark"))
        (folder_of loro tree meta) (bookmark_of loro tree meta) a b

  both-empty :
      (r : Result (BookmarkData F64)) → r ≡ both (ok (record { bookmarks = []; folders = [] })) r
  both-empty (ok b) = refl
  both-empty (err e) = refl

  read_found-both :
      (r : Result (Meta F64)) (x y : Result (BookmarkData F64))
      → read_found loro tree r (both x y) ≡ both (read_found loro tree r x) y
  read_found-both (ok meta) (ok a) (ok b) = ap ok (read_node-join meta a b)
  read_found-both (ok meta) (ok a) (err e) = refl
  read_found-both (ok meta) (err e) y = refl
  read_found-both (err e) x y = refl

  read_nodes-append :
      (ns ms : List TreeId) (d : loro.Doc)
      → read_nodes loro tree (ns ++ ms) d
        ≡ both (read_nodes loro tree ns d) (read_nodes loro tree ms d)
  read_nodes-append [] ms d = both-empty (read_nodes loro tree ms d)
  read_nodes-append (n ∷ ns) ms d =
      rw (read_nodes-append ns ms d)
        (read_found-both (get_meta n d) (read_nodes loro tree ns d) (read_nodes loro tree ms d))

  pub read_nodes-same :
      (ns : List TreeId) (d d' : loro.Doc)
      → ((m : TreeId) → get_meta m d' ≡ get_meta m d)
      → read_nodes loro tree ns d' ≡ read_nodes loro tree ns d
  read_nodes-same [] d d' h = refl
  read_nodes-same (n ∷ ns) d d' h = rw (h n) (rw (read_nodes-same ns d d' h) refl)

  -- Nodes other than one that has changed.
  read_nodes-other :
      (n : TreeId) (x : TreeId → Result (Meta F64)) (ns : List TreeId) (d d' : loro.Doc)
      → ((m : TreeId) → get_meta m d' ≡ (if same n m then x m else get_meta m d))
      → has_node n ns ≡ false
      → read_nodes loro tree ns d' ≡ read_nodes loro tree ns d
  read_nodes-other n x [] d d' h away = refl
  read_nodes-other n x (m ∷ ns) d d' h away = rw (h m) (
      rw (or-left (same n m) (has_node n ns) away) (
        ap (read_found loro tree (get_meta m d))
          (read_nodes-other n x ns d d' h (or-right (same n m) (has_node n ns) away))))

  module _ (laws : TreeLaws) where
    if-own : {A : Type 0} (n : TreeId) (x y : A) → (if same n n then x else y) ≡ x
    if-own n x y = rw ((laws.same_iff n n).1 refl) refl

    -- The document after an `add_node`.
    abbrev IsAdded : Fields F64 → loro.Doc → Result (Unit {0}) × loro.Doc → Type 0
    IsAdded fields d r =
        (n : TreeId) × (d' : loro.Doc) × (r ≡ (ok tt, d'))
        × (has_node n (children d) ≡ false)
        × (children d' ≡ children d ++ (n ∷ []))
        × ((m : TreeId)
            → get_meta m d'
              ≡ (if same n m then ok (with_fields fields empty_meta) else get_meta m d))

    children-set_fields :
        (n : TreeId) (fields : Fields F64) (d : loro.Doc)
        → children (set_fields loro tree n fields d) ≡ children d
    children-set_fields n [] d = refl
    children-set_fields n ((k, v) ∷ fields) d =
        children-set_fields n fields (insert_meta n k v d) ∙ laws.children-insert n k v d

    get_meta-set_fields :
        (n m : TreeId) (fields : Fields F64) (meta : Meta F64) (d : loro.Doc)
        → get_meta n d ≡ ok meta
        → get_meta m (set_fields loro tree n fields d)
          ≡ (if same n m then ok (with_fields fields meta) else get_meta m d)
    get_meta-set_fields n m [] meta d h = elim (Bool-cases (same n m)) [
      | inl own ↦ rw own (subst (λ x. get_meta x d ≡ ok meta) ((laws.same_iff n m).0 own) h)
      | inr foreign ↦ rw foreign refl
    ]
    get_meta-set_fields n m ((k, v) ∷ fields) meta d h =
        get_meta-set_fields n m fields (with_field k v meta) (insert_meta n k v d)
          (laws.get_meta-insert n n k v d ∙ rw ((laws.same_iff n n).1 refl) (ap (set_in k v) h))
        ∙ elim (Bool-cases (same n m)) [
          | inl own ↦ rw own refl
          | inr foreign ↦ rw foreign (laws.get_meta-insert n m k v d ∙ rw foreign refl)
        ]

    add_node-IsAdded :
        (fields : Fields F64) (d : loro.Doc) → IsAdded fields d (add_node loro tree fields d)
    add_node-IsAdded fields d = go (laws.create-new d)
      where
        go :
            ((n : TreeId) × (d' : loro.Doc) × (create d ≡ (ok n, d'))
              × (has_node n (children d) ≡ false)
              × (children d' ≡ children d ++ (n ∷ []))
              × ((m : TreeId) → get_meta m d' ≡ (if same n m then ok empty_meta else get_meta m d)))
            → IsAdded fields d (add_node loro tree fields d)
        go (n, d', made, new, behind, metas) = (
          n,
          set_fields loro tree n fields d',
          >>=-ok create (λ node. meta_in loro tree node >>= λ meta. fill loro tree node fields) d
                made
              ∙ >>=-ok (meta_in loro tree n) (λ meta. fill loro tree n fields) d'
                  (ap (λ r. (r, d')) (metas n ∙ if-own n (ok empty_meta) (get_meta n d))),
          new,
          children-set_fields n fields d' ∙ behind,
          λ m.
              (get_meta-set_fields n m fields empty_meta d'
                  (metas n ∙ rw ((laws.same_iff n n).1 refl) refl)
                ∙ elim (Bool-cases (same n m)) [
                  | inl own ↦ rw own refl
                  | inr foreign ↦ rw foreign (metas m ∙ rw foreign refl)
                ]),
        )

    -- What is read after a node has been added: as before, and the node behind it.
    pub add_node-read :
        (fields : Fields F64) (d : loro.Doc) (a : BookmarkData F64)
        → read_bookmarks loro tree d ≡ ok a
        → ((add_node loro tree fields d).0 ≡ ok tt)
          × (read_bookmarks loro tree (add_node loro tree fields d).1
              ≡ ok (
                  join a (
                    read_node loro tree
                      (with_fields fields empty_meta)
                      (record { bookmarks = []; folders = [] }))))
    add_node-read fields d a h = go (add_node-IsAdded fields d)
      where
        none_read : BookmarkData F64
        none_read = record { bookmarks = []; folders = [] }

        go :
            IsAdded fields d (add_node loro tree fields d)
            → ((add_node loro tree fields d).0 ≡ ok tt)
              × (read_bookmarks loro tree (add_node loro tree fields d).1
                  ≡ ok (join a (read_node loro tree (with_fields fields empty_meta) none_read)))
        go (n, d', added, new, behind, metas) = (
          ap (λ r. r.0) added,
          ap (λ r. read_bookmarks loro tree r.1) added
              ∙ (ap (λ ns. read_nodes loro tree ns d') behind
                  ∙ (read_nodes-append (children d) (n ∷ []) d'
                      ∙ (ap (λ r. both r (read_nodes loro tree (n ∷ []) d'))
                            (read_nodes-other n (λ m. ok (with_fields fields empty_meta))
                                (children d) d d' metas new
                              ∙ h)
                          ∙ ap (λ r. both (ok a) (read_found loro tree r (ok none_read)))
                              (metas n
                                ∙ if-own n (ok (with_fields fields empty_meta)) (get_meta n d))))),
        )
