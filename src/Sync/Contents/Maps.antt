-- ===== src/Sync/Contents/Maps.antt =====
-- What the maps of a document hold after the steps that the operations of
-- src-tauri/src/sync/sync_doc.rs have in common, given what Loro documents of its maps.
use bushido.Prelude.{
  ℕ, ◌≡◌, refl, ◌∙◌, Bool, true, false, List, [], ◌∷◌, Bytes, ◌&&◌, ltb, if◌then◌else◌, Option,
  none, some, Result, ok, err, inl, inr, Bool-cases, arith, ap,
}
use bushido.Prelude.Table.{list_beq}
use bushido.Prelude.Io.{after, pure, ◌>>=◌}
use bushido.Sync.Contents.{
  edit, MapName, history, settings, open_tabs, LoroValue, string, LoroMaps, OpenDoc, compacted,
  load_snapshot, count_op, maybe_compact, delete_all, has,
}

abbrev pub same_map : MapName → MapName → Bool
same_map history history = true
same_map settings settings = true
same_map open_tabs open_tabs = true
same_map history settings = false
same_map history open_tabs = false
same_map settings history = false
same_map settings open_tabs = false
same_map open_tabs history = false
same_map open_tabs settings = false

abbrev pub is_set : Option LoroValue → Bool
is_set none = false
is_set (some v) = true

-- No key comes twice.
abbrev pub IsDistinct : List Bytes → Type 0
IsDistinct [] = Unit {0}
IsDistinct (k ∷ ks) = (has k ks ≡ false) × IsDistinct ks

-- A map gives back what was last inserted under a key and nothing after a deletion, `for_each`
-- visits the keys that are set, each once, and a document that imports a snapshot has its contents.
pub record MapLaws (loro : LoroMaps) : Type 0 where
  pub get-insert :
      (m n : MapName) (k j v : Bytes) (d : loro.Doc)
      → loro.get n j (loro.insert m k v d)
        ≡ (if same_map m n && list_beq k j then some (string v) else loro.get n j d)
  pub get-delete :
      (m n : MapName) (k j : Bytes) (d : loro.Doc)
      → loro.get n j (loro.delete m k d)
        ≡ (if same_map m n && list_beq k j then none else loro.get n j d)
  pub has-keys :
      (m : MapName) (k : Bytes) (d : loro.Doc) → has k (loro.keys m d) ≡ is_set (loro.get m k d)
  pub keys-IsDistinct : (m : MapName) (d : loro.Doc) → IsDistinct (loro.keys m d)
  pub get-renewed :
      (m : MapName) (k : Bytes) (snapshot : Bytes) (d d' : loro.Doc)
      → loro.export_snapshot d ≡ ok snapshot
      → loro.renewed d snapshot ≡ ok d'
      → loro.get m k d' ≡ loro.get m k d

-- What a renewed document keeps is kept by a compaction, which happens or fails.
module _ (loro : LoroMaps) where
  open loro use {Doc, export_snapshot, renewed}

  abbrev pub Renews : {X : Type 0} → (Doc → X) → Type 0
  Renews view =
      (snapshot : Bytes) (d d' : Doc)
      → export_snapshot d ≡ ok snapshot
      → renewed d snapshot ≡ ok d'
      → view d' ≡ view d

  module _ {X : Type 0} (view : Doc → X) (renews : Renews view) where
    compacted-same :
        (snapshot : Bytes) (s : OpenDoc loro) (r : Result Doc)
        → export_snapshot s.doc ≡ ok snapshot
        → renewed s.doc snapshot ≡ r
        → view (compacted loro s r).1.doc ≡ view s.doc
    compacted-same snapshot s (ok d) exported imported = renews snapshot s.doc d exported imported
    compacted-same snapshot s (err e) exported imported = refl

    load-same :
        (s : OpenDoc loro) (r : Result Bytes)
        → export_snapshot s.doc ≡ r
        → view (load_snapshot loro s r).1.doc ≡ view s.doc
    load-same s (ok snapshot) exported =
        compacted-same snapshot s (renewed s.doc snapshot) exported refl
    load-same s (err e) exported = refl

    pub maybe_compact-same : (s : OpenDoc loro) → view (maybe_compact loro s).1.doc ≡ view s.doc
    unfolding maybe_compact
    maybe_compact-same s = elim (Bool-cases (ltb (count_op loro s).op_count 500)) [
      | inl below ↦ rw below refl
      | inr reached ↦ rw reached (load-same (count_op loro s) (export_snapshot s.doc) refl)
    ]

pub after-pure-state : {S A B : Type 0} (b : B) (r : Result A × S) → (after (λ a. pure b) r).1 ≡ r.1
after-pure-state b (ok a, s) = refl
after-pure-state b (err e, s) = refl

module _ (loro : LoroMaps) (laws : MapLaws loro) where
  open loro use {Doc, get, export_snapshot, renewed}

  -- A compaction, which happens or fails, changes no entry.
  pub maybe_compact-get :
      (m : MapName) (k : Bytes) (s : OpenDoc loro)
      → get m k (maybe_compact loro s).1.doc ≡ get m k s.doc
  maybe_compact-get m k = maybe_compact-same loro (get m k) (laws.get-renewed m k)

  pub get-delete_all :
      (m n : MapName) (ks : List Bytes) (j : Bytes) (d : Doc)
      → get n j (delete_all loro m ks d) ≡ (if same_map m n && has j ks then none else get n j d)
  get-delete_all m n [] j d = ground arith
  get-delete_all m n (k ∷ ks) j d =
      rw (get-delete_all m n ks j (loro.delete m k d))
        (rw (laws.get-delete m n k j d) (ground arith))

  -- What a document holds after an insertion and after a count of deletions, with their compaction.
  pub insert_compact-get :
      (m n : MapName) (k j v : Bytes) (s : OpenDoc loro)
      → get n j (maybe_compact loro (edit loro (loro.insert m k v) s)).1.doc
        ≡ (if same_map m n && list_beq k j then some (string v) else get n j s.doc)
  insert_compact-get m n k j v s =
      maybe_compact-get n j (edit loro (loro.insert m k v) s) ∙ laws.get-insert m n k j v s.doc

  pub settled-get :
      (m : MapName) (k : Bytes) (count : ℕ) (t : OpenDoc loro)
      → get m k
          (if ltb 0 count then (maybe_compact loro >>= λ u. pure count) t else pure count t).1.doc
        ≡ get m k t.doc
  settled-get m k count t = elim (Bool-cases (ltb 0 count)) [
    | inl some_gone ↦ rw some_gone (
        ap (λ o. get m k o.doc) (after-pure-state count (maybe_compact loro t))
        ∙ maybe_compact-get m k t)
    | inr none_gone ↦ rw none_gone refl
  ]
