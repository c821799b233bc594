-- ===== src/Blocker/Engine/Lists.antt =====
-- What the engine of src-tauri/src/blocker.rs is compiled from after an update of the filter lists.
use bushido.Prelude.{
  or-left, or-right, ◌≡◌, refl, ◌∙◌, ap, Bool, true, false, List, [], ◌∷◌, ◌++◌, Bytes, ◌||◌,
  if◌then◌else◌, Option, none, some, ok, arith, All,
}
use bushido.Prelude.Table.{list_beq, list_eq, lookup, lookup-insert, lookup-erase, beq_refl}
use bushido.Blocker.Engine.{
  Adblock, FilterListDef, Files, Write, written, failed, after_write, set_list, lines, Writes,
  add_lists, add_content, load_resources, use_all, or_shipped, parsed_resources, list_content,
  or_bundled, read_text, compile_engine, store_list, downloads, swapped, update_filter_lists,
  Blocker,
}

abbrev pub has_name : Bytes → List FilterListDef → Bool
has_name n [] = false
has_name n (d ∷ ds) = list_beq d.name n || has_name n ds

-- A file after a download: what there was where nothing was fetched, else what was fetched, or what a
-- failed write of it left.
abbrev pub fetched : Write → Option Bytes → Option Bytes → Option Bytes
fetched write none before = before
fetched written (some text) before = some text
fetched (failed left) (some text) before = left

-- A list is among those downloaded, and no other of its name.
abbrev pub IsOnceIn : List FilterListDef → FilterListDef → Type 0
IsOnceIn finished d =
    (xs : List FilterListDef) × (ys : List FilterListDef) × (finished ≡ xs ++ (d ∷ ys))
    × (has_name d.name xs ≡ false)
    × (has_name d.name ys ≡ false)

lookup-set_list :
    (m n : Bytes) (o : Option Bytes) (lists : List (Bytes × Bytes))
    → lookup n (set_list m o lists) ≡ (if list_beq m n then o else lookup n lists)
lookup-set_list m n none lists = lookup-erase m n lists
lookup-set_list m n (some text) lists = lookup-insert m n text lists

fetched-after_write :
    (w : Write) (text : Bytes) (before : Option Bytes)
    → after_write w text ≡ fetched w (some text) before
fetched-after_write written text before = refl
fetched-after_write (failed left) text before = refl

module _ (lib : Adblock) (resources_json : Bytes) (filter_lists : List FilterListDef)
    (writes : Writes) (answers : Bytes → Option Bytes) where
  abbrev after_store : FilterListDef → Files → Files
  after_store d = store_list lib resources_json filter_lists writes d.name (answers d.url)

  store-lookup :
      (n m : Bytes) (answer : Option Bytes) (files : Files)
      → lookup n (store_list lib resources_json filter_lists writes m answer files).lists ≡ (
          if list_beq m n
          then fetched (writes.list m) answer (lookup n files.lists)
          else lookup n files.lists)
  store-lookup n m none files = ground arith
  store-lookup n m (some text) files =
      lookup-set_list m n (after_write (writes.list m) text) files.lists
      ∙ ap (λ o. if list_beq m n then o else lookup n files.lists)
          (fetched-after_write (writes.list m) text (lookup n files.lists))

  store-other :
      (n : Bytes) (d : FilterListDef) (files : Files)
      → list_beq d.name n ≡ false
      → lookup n (after_store d files).lists ≡ lookup n files.lists
  store-other n d files h = store-lookup n d.name (answers d.url) files ∙ rw h refl

  downloads-other :
      (n : Bytes) (ds : List FilterListDef) (files : Files)
      → has_name n ds ≡ false
      → lookup n (downloads lib resources_json filter_lists writes answers ds files).lists
        ≡ lookup n files.lists
  downloads-other n [] files h = refl
  downloads-other n (d ∷ ds) files h =
      downloads-other n ds (after_store d files) (or-right (list_beq d.name n) (has_name n ds) h)
      ∙ store-other n d files (or-left (list_beq d.name n) (has_name n ds) h)

  downloads-lookup :
      (xs ys : List FilterListDef) (d : FilterListDef) (files : Files)
      → has_name d.name xs ≡ false
      → has_name d.name ys ≡ false
      → lookup d.name
          (downloads lib resources_json filter_lists writes answers (xs ++ (d ∷ ys)) files).lists
        ≡ fetched (writes.list d.name) (answers d.url) (lookup d.name files.lists)
  downloads-lookup [] ys d files hx hy =
      downloads-other d.name ys (after_store d files) hy
      ∙ (store-lookup d.name d.name (answers d.url) files
          ∙ ap
              (λ b.
                if b
                then fetched (writes.list d.name) (answers d.url) (lookup d.name files.lists)
                else lookup d.name files.lists)
              (beq_refl d.name))
  downloads-lookup (x ∷ xs) ys d files hx hy =
      downloads-lookup xs ys d (after_store x files)
        (or-right (list_beq x.name d.name) (has_name d.name xs) hx) hy
      ∙ ap (fetched (writes.list d.name) (answers d.url))
          (store-other d.name x files (or-left (list_beq x.name d.name) (has_name d.name xs) hx))

  content-same :
      (f g : Files) (d : FilterListDef)
      → f.lists ≡ g.lists
      → list_content lib resources_json f d ≡ list_content lib resources_json g d
  content-same f g d e =
      ap
        (λ ls.
          or_bundled lib resources_json (read_text lib resources_json (lookup d.name ls)) d.bundled)
        e

  add_lists-same :
      (f g : Files) (ds : List FilterListDef) (set : lib.FilterSet)
      → f.lists ≡ g.lists
      → add_lists lib resources_json f ds set ≡ add_lists lib resources_json g ds set
  add_lists-same f g [] set e = refl
  add_lists-same f g (d ∷ ds) set e =
      add_lists-same f g ds
        (add_content lib resources_json d.trusted (list_content lib resources_json f d) set) e
      ∙ ap
          (λ text.
            add_lists lib resources_json g ds (add_content lib resources_json d.trusted text set))
          (content-same f g d e)

  pub compile_engine-same :
      (f g : Files)
      → f.lists ≡ g.lists
      → f.resources ≡ g.resources
      → compile_engine lib resources_json filter_lists f
        ≡ compile_engine lib resources_json filter_lists g
  unfolding compile_engine
  compile_engine-same f g e h =
      ap
        (λ set.
          load_resources lib resources_json f
            (lib.set_regex_discard_policy 120 300 (lib.from_filter_set set)))
        (add_lists-same f g filter_lists lib.new_set e)
      ∙ ap
          (λ file.
            use_all lib resources_json
              (or_shipped lib resources_json
                (parsed_resources lib resources_json (read_text lib resources_json file)))
              (lib.set_regex_discard_policy 120 300
                (lib.from_filter_set (add_lists lib resources_json g filter_lists lib.new_set))))
          h

  store-resources :
      (name : Bytes) (answer : Option Bytes) (files : Files)
      → (store_list lib resources_json filter_lists writes name answer files).resources
        ≡ files.resources
  store-resources name none files = refl
  store-resources name (some text) files = refl

  downloads-resources :
      (ds : List FilterListDef) (files : Files)
      → (downloads lib resources_json filter_lists writes answers ds files).resources
        ≡ files.resources
  downloads-resources [] files = refl
  downloads-resources (d ∷ ds) files =
      downloads-resources ds (after_store d files) ∙ store-resources d.name (answers d.url) files

  -- The newest text of a list: of its file after the download, or the one in the program.
  abbrev pub newest_text : Files → FilterListDef → Bytes
  newest_text files d =
      or_bundled lib resources_json
        (read_text lib resources_json
          (fetched (writes.list d.name) (answers d.url) (lookup d.name files.lists)))
        d.bundled

  -- The rules of a text that is not empty, with the permission of a trusted list.
  abbrev pub with_rules : Bool → Bytes → lib.FilterSet → lib.FilterSet
  with_rules trusted [] set = set
  with_rules false (c ∷ text) set = lib.add_filters (lines (c ∷ text)) 0 set
  with_rules true (c ∷ text) set = lib.add_filters (lines (c ∷ text)) 1 set

  -- The rules of the newest texts, in the order of the lists.
  abbrev pub newest_rules : Files → List FilterListDef → lib.FilterSet → lib.FilterSet
  newest_rules files [] set = set
  newest_rules files (d ∷ ds) set =
      newest_rules files ds (with_rules d.trusted (newest_text files d) set)

  with_rules-eq :
      (trusted : Bool) (text : Bytes) (set : lib.FilterSet)
      → add_content lib resources_json trusted text set ≡ with_rules trusted text set
  with_rules-eq trusted [] set = refl
  with_rules-eq true (c ∷ text) set = refl
  with_rules-eq false (c ∷ text) set = refl

  newest-content :
      (finished : List FilterListDef) (files : Files) (d : FilterListDef)
      → IsOnceIn finished d
      → list_content lib resources_json
          (downloads lib resources_json filter_lists writes answers finished files)
          d
        ≡ newest_text files d
  newest-content finished files d (xs, ys, e, hx, hy) =
      ap (λ file. or_bundled lib resources_json (read_text lib resources_json file) d.bundled)
        (ap
            (λ ds.
              lookup d.name
                (downloads lib resources_json filter_lists writes answers ds files).lists)
            e
          ∙ downloads-lookup xs ys d files hx hy)

  add_lists-newest :
      (finished : List FilterListDef) (files : Files) (ds : List FilterListDef)
      (set : lib.FilterSet)
      → All (IsOnceIn finished) ds
      → add_lists lib resources_json
          (downloads lib resources_json filter_lists writes answers finished files)
          ds
          set
        ≡ newest_rules files ds set
  add_lists-newest finished files [] set once = refl
  add_lists-newest finished files (d ∷ ds) set (first, once) =
      ap
        (λ text.
          add_lists lib resources_json
            (downloads lib resources_json filter_lists writes answers finished files) ds
            (add_content lib resources_json d.trusted text set))
        (newest-content finished files d first)
      ∙ ap
          (add_lists lib resources_json
            (downloads lib resources_json filter_lists writes answers finished files) ds)
          (with_rules-eq d.trusted (newest_text files d) set)
      ∙ add_lists-newest finished files ds (with_rules d.trusted (newest_text files d) set) once

  compile_engine-newest :
      (finished : List FilterListDef) (files : Files)
      → All (IsOnceIn finished) filter_lists
      → compile_engine lib resources_json filter_lists
          (downloads lib resources_json filter_lists writes answers finished files)
        ≡ load_resources lib resources_json files (
            lib.set_regex_discard_policy 120 300
              (lib.from_filter_set (newest_rules files filter_lists lib.new_set)))
  unfolding compile_engine
  compile_engine-newest finished files once =
      ap
        (λ set.
          load_resources lib resources_json
            (downloads lib resources_json filter_lists writes answers finished files)
            (lib.set_regex_discard_policy 120 300 (lib.from_filter_set set)))
        (add_lists-newest finished files filter_lists lib.new_set once)
      ∙ ap
          (λ file.
            use_all lib resources_json
              (or_shipped lib resources_json
                (parsed_resources lib resources_json (read_text lib resources_json file)))
              (lib.set_regex_discard_policy 120 300
                (lib.from_filter_set (newest_rules files filter_lists lib.new_set))))
          (downloads-resources finished files)

  -- An update that ends well, in which each of the filter lists was downloaded once, in whatever order
  -- the downloads end. The engine in use has the resources, the policy for its regexes, and of each
  -- list in turn the rules of its newest text: what was fetched of it and written, else what a failed
  -- write left of its file, else what was in its file before, and the text in the program where no
  -- such file can be read. And it is the engine that is compiled from the files as they then are.
  pub update_filter_lists-newest :
      (finished : List FilterListDef) (metadata : Bytes)
      (b : Blocker lib resources_json filter_lists)
      → All (IsOnceIn finished) filter_lists
      → let after =
          (update_filter_lists lib resources_json filter_lists
            (ok tt)
            (ok tt)
            writes
            answers
            finished
            metadata
            b).1 in
        (after.engine
          ≡ load_resources lib resources_json b.files (
              lib.set_regex_discard_policy 120 300
                (lib.from_filter_set (newest_rules b.files filter_lists lib.new_set))))
        × (after.engine ≡ compile_engine lib resources_json filter_lists after.files)
  unfolding update_filter_lists
  update_filter_lists-newest finished metadata b once = (
    compile_engine-newest finished b.files once,
    compile_engine-same updated
        (swapped lib resources_json filter_lists writes metadata
          (compile_engine lib resources_json filter_lists updated) updated).files
        refl refl,
  )
    where
      updated : Files
      updated = downloads lib resources_json filter_lists writes answers finished b.files
