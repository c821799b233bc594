-- ===== src/Sync/Bookmarks/Moves.antt =====
-- The loop of `delete_folder_cascade` of src-tauri/src/sync/sync_doc.rs, which moves the bookmarks out
-- of the folder.
use bushido.Prelude.{
  ◌≡◌, ◌≢◌, refl, sym, ◌∙◌, subst, ap, Bool, true, false, List, [], ◌∷◌, map, Bytes, codes, ◌&&◌,
  ◌||◌, if◌then◌else◌, Option, none, some, Result, ok, err, inl, inr, Bool-cases, All, arith,
}
use bushido.Prelude.Table.{list_beq, list_beq-false}
use bushido.Sync.Contents.{LoroMaps}
use bushido.Sync.Bookmarks.{
  LoroTree, Meta, text, Bookmark, BookmarkFolder, BookmarkData, folder_of, read_node, read_nodes,
  read_found, text_or_empty, is_text, bookmark_of, get_map_str,
}
use bushido.Sync.Bookmarks.Edits.{is_in, move_out}
use bushido.Sync.Bookmarks.Nodes.{with_field, set_in, TreeLaws, has_node}

module _ {F : Type 0} where
  -- What becomes of the bookmarks of a folder.
  abbrev pub leave : Bytes → Bookmark F → Bookmark F
  leave folder b = if list_beq b.folder_id folder then record b { folder_id = [] } else b

  abbrev pub leave_all : Bytes → BookmarkData F → BookmarkData F
  leave_all folder a = record a { bookmarks = map (leave folder) a.bookmarks }

module _ (loro : LoroMaps) (tree : LoroTree loro) (laws : TreeLaws loro tree) (folder : Bytes)
    (named : folder ≢ []) where
  open tree use {F64, TreeId, same, children, get_meta, delete_node, insert_meta}

  -- The map of a node after the loop over the nodes.
  abbrev pub moved : Result (Meta F64) → Result (Meta F64)
  moved r = if is_in loro tree folder r then set_in (codes "folderId") (text []) r else r

  pub moved-is_out : (r : Result (Meta F64)) → is_in loro tree folder (moved r) ≡ false
  moved-is_out (err e) = refl
  moved-is_out (ok meta) = elim (Bool-cases (is_in loro tree folder (ok meta))) [
    | inr outside ↦ rw outside outside
    | inl inside ↦ rw inside (rw (list_beq-false [] folder (λ e. named (sym e))) (ground arith))
  ]

  pub moved-twice : (r : Result (Meta F64)) → moved (moved r) ≡ moved r
  moved-twice r =
      ap (λ b. if b then set_in (codes "folderId") (text []) (moved r) else moved r)
        (moved-is_out r)

  pub same_sym : (n m : TreeId) → same n m ≡ same m n
  same_sym n m = ground (arith, laws.same_iff n m, laws.same_iff m n)

  pub get_meta-step :
      (n m : TreeId) (d : loro.Doc)
      → get_meta m (
          if is_in loro tree folder (get_meta n d)
          then insert_meta n (codes "folderId") (text []) d
          else d)
        ≡ (if same m n then moved (get_meta m d) else get_meta m d)
  get_meta-step n m d = elim (Bool-cases (same m n)) [
    | inr foreign ↦ rw foreign (elim (Bool-cases (is_in loro tree folder (get_meta n d))) [
      | inr outside ↦ rw outside refl
      | inl inside ↦ rw inside (
          laws.get_meta-insert n m (codes "folderId") (text []) d
          ∙ rw (same_sym n m ∙ foreign) refl)
    ])
    | inl own ↦ rw own (
        subst
          (λ x.
            get_meta m (
              if is_in loro tree folder (get_meta x d)
              then insert_meta x (codes "folderId") (text []) d
              else d)
            ≡ moved (get_meta m d))
          ((laws.same_iff m n).0 own)
          (elim (Bool-cases (is_in loro tree folder (get_meta m d))) [
            | inr outside ↦ rw outside refl
            | inl inside ↦ rw inside (
                laws.get_meta-insert m m (codes "folderId") (text []) d
                ∙ rw ((laws.same_iff m m).1 refl) refl)
          ]))
  ]

  pub again :
      (b c : Bool) (x : Result (Meta F64))
      → (if c then moved (if b then moved x else x) else (if b then moved x else x))
        ≡ (if b || c then moved x else x)
  again true true x = moved-twice x
  again true false x = refl
  again false c x = refl

  pub get_meta-move_out :
      (ns : List TreeId) (m : TreeId) (d : loro.Doc)
      → get_meta m (move_out loro tree folder ns d)
        ≡ (if has_node loro tree m ns then moved (get_meta m d) else get_meta m d)
  get_meta-move_out [] m d = refl
  get_meta-move_out (n ∷ ns) m d =
      get_meta-move_out ns m (
        if is_in loro tree folder (get_meta n d)
        then insert_meta n (codes "folderId") (text []) d
        else d)
      ∙ (ap (λ r. if has_node loro tree m ns then moved r else r) (get_meta-step n m d)
          ∙ again (same m n) (has_node loro tree m ns) (get_meta m d))

  pub children-move_out :
      (ns : List TreeId) (d : loro.Doc) → children (move_out loro tree folder ns d) ≡ children d
  children-move_out [] d = refl
  children-move_out (n ∷ ns) d = elim (Bool-cases (is_in loro tree folder (get_meta n d))) [
    | inl inside ↦ rw inside (
        children-move_out ns (insert_meta n (codes "folderId") (text []) d)
        ∙ laws.children-insert n (codes "folderId") (text []) d)
    | inr outside ↦ rw outside (children-move_out ns d)
  ]

  pub is_text-text_or_empty :
      (o : Option Bytes) (t : Bytes) → t ≢ [] → is_text o t ≡ list_beq (text_or_empty o) t
  is_text-text_or_empty none t h = sym (list_beq-false [] t (λ e. h (sym e)))
  is_text-text_or_empty (some u) t h = refl

  abbrev pub kind : Meta F64 → Bytes
  kind meta = text_or_empty (get_map_str meta (codes "type"))

  pub is_in-eq :
      (meta : Meta F64)
      → is_in loro tree folder (ok meta) ≡ (
          list_beq (kind meta) (codes "bookmark")
          && list_beq (bookmark_of loro tree meta).folder_id folder)
  is_in-eq meta =
      rw (is_text-text_or_empty (get_map_str meta (codes "type")) (codes "bookmark") (λ e. cc))
        (rw (is_text-text_or_empty (get_map_str meta (codes "folderId")) folder named) refl)

  abbrev pub put :
      Bool → Bool → BookmarkFolder F64 → Bookmark F64 → BookmarkData F64 → BookmarkData F64
  put f g x y a =
      if f
      then record a { folders = x ∷ a.folders }
      else (if g then record a { bookmarks = y ∷ a.bookmarks } else a)

  pub put-leave :
      (f g u : Bool) (x : BookmarkFolder F64) (y z : Bookmark F64) (a : BookmarkData F64)
      → leave folder y ≡ (if u then z else y)
      → (if g && u then put f g x z (leave_all folder a) else put f g x y (leave_all folder a))
        ≡ leave_all folder (put f g x y a)
  put-leave true true true x y z a h = refl
  put-leave true true false x y z a h = refl
  put-leave true false u x y z a h = refl
  put-leave false true true x y z a h =
      ap (λ b. record a { bookmarks = b ∷ map (leave folder) a.bookmarks }) (sym h)
  put-leave false true false x y z a h =
      ap (λ b. record a { bookmarks = b ∷ map (leave folder) a.bookmarks }) (sym h)
  put-leave false false u x y z a h = refl

  pub read_found-if :
      (c : Bool) (m n : Meta F64) (a : BookmarkData F64)
      → read_found loro tree (if c then ok m else ok n) (ok a)
        ≡ ok (if c then read_node loro tree m a else read_node loro tree n a)
  read_found-if true m n a = refl
  read_found-if false m n a = refl

  pub read_node-moved :
      (meta : Meta F64) (a : BookmarkData F64)
      → read_found loro tree (moved (ok meta)) (ok (leave_all folder a))
        ≡ ok (leave_all folder (read_node loro tree meta a))
  read_node-moved meta a =
      ap
        (λ c.
          read_found loro tree
            (if c then ok (with_field (codes "folderId") (text []) meta) else ok meta)
            (ok (leave_all folder a)))
        (is_in-eq meta)
      ∙ (read_found-if
            (list_beq (kind meta) (codes "bookmark")
              && list_beq (bookmark_of loro tree meta).folder_id folder)
            (with_field (codes "folderId") (text []) meta) meta (leave_all folder a)
          ∙ ap ok (
              put-leave (list_beq (kind meta) (codes "folder"))
                (list_beq (kind meta) (codes "bookmark"))
                (list_beq (bookmark_of loro tree meta).folder_id folder) (folder_of loro tree meta)
                (bookmark_of loro tree meta)
                (record (bookmark_of loro tree meta) { folder_id = [] }) a refl))

  pub ok-injective : {x y : BookmarkData F64} → ok x ≡ ok y → x ≡ y
  ok-injective e = cc

  -- The bookmarks of the folder leave it and nothing else changes.
  pub read_found-moved :
      (r : Result (Meta F64)) (x : Result (BookmarkData F64)) (a : BookmarkData F64)
      → read_found loro tree r x ≡ ok a
      → (y : Result (BookmarkData F64))
      → ((b : BookmarkData F64) → x ≡ ok b → y ≡ ok (leave_all folder b))
      → read_found loro tree (moved r) y ≡ ok (leave_all folder a)
  read_found-moved (ok meta) (ok b) a h y k =
      ap (read_found loro tree (moved (ok meta))) (k b refl)
      ∙ (read_node-moved meta b ∙ ap (λ c. ok (leave_all folder c)) (ok-injective h))
  read_found-moved (ok meta) (err e) a h y k = cc
  read_found-moved (err e) x a h y k = cc

  pub read_nodes-moved :
      (ns : List TreeId) (d d' : loro.Doc) (a : BookmarkData F64)
      → All (λ n. get_meta n d' ≡ moved (get_meta n d)) ns
      → read_nodes loro tree ns d ≡ ok a
      → read_nodes loro tree ns d' ≡ ok (leave_all folder a)
  read_nodes-moved [] d d' a h e = ap (λ c. ok (leave_all folder c)) (ok-injective e)
  read_nodes-moved (n ∷ ns) d d' a h e =
      ap (λ r. read_found loro tree r (read_nodes loro tree ns d')) h.0
      ∙ read_found-moved (get_meta n d) (read_nodes loro tree ns d) a e (read_nodes loro tree ns d')
          (λ b read. read_nodes-moved ns d d' b h.1 read)
