-- ===== src/Download/Commands/Laws.antt =====
-- What the commands of the download manager in src-tauri/src/downloads.rs leave behind.
use bushido.Prelude.{
  ℕ, ◌≡◌, ◌≢◌, refl, sym, ap, ◌∙◌, ◌⊎◌, inl, inr, Bool, true, false, ◌||◌, List, [], ◌∷◌, Bytes,
  none, some, Bool-cases, true-ne-false,
}
use bushido.Prelude.Table.{
  list_eq, list_beq, list_beq_iff, list_beq-false, starts_with, lookup, insert, lookup-insert,
  lookup-erase,
}
use bushido.Download.FileName.{IsChosen, dedup_filename-IsChosen}
use bushido.Download.Item.{DlItem, paused, Manifest, manifest_of, IsFresh}
use bushido.Download.Commands.{
  Texts, MimeRoute, Head, Manager, exists, removed, is_empty, target_dir, or_download, free_name,
  new_item, start, pause, cancel, pending_item, pending, load_pending,
}

pub exists-removed : (path : Bytes) (files : List Bytes) → exists path (removed path files) ≡ false
exists-removed path [] = refl
exists-removed path (p ∷ files) = elim (Bool-cases (list_beq p path)) [
  | inl same ↦ rw same (exists-removed path files)
  | inr on ↦ rw on (rw on (exists-removed path files))
]

exists-removed_other :
    (path gone : Bytes) (files : List Bytes)
    → list_beq gone path ≡ false
    → exists path (removed gone files) ≡ exists path files
exists-removed_other path gone [] ne = refl
exists-removed_other path gone (p ∷ files) ne = elim (Bool-cases (list_beq p gone)) [
  | inl same ↦
      let off : list_beq p path ≡ false =
        ap (λ x. list_beq x path) ((list_beq_iff p gone).0 same) ∙ ne in
      rw same (rw off (exists-removed_other path gone files ne))
  | inr on ↦ rw on (ap (λ b. list_beq p path || b) (exists-removed_other path gone files ne))
]

pub IsIn : {A : Type 0} → A → List A → Type 0
IsIn x [] = ⊥
IsIn x (y ∷ ys) = (x ≡ y) ⊎ IsIn x ys

pending-insert :
    (files : List Bytes) (id : Bytes) (m : Manifest) (manifests : List (Bytes × Manifest))
    → exists m.file_path files ≡ true
    → IsIn (pending_item m) (pending files (insert id m manifests))
unfolding IsIn
pending-insert files id m [] here = rw here (inl refl)
pending-insert files id m ((j, other) ∷ manifests) here = elim (Bool-cases (list_beq j id)) [
  | inl same ↦ rw same (rw here (inl refl))
  | inr on ↦
      let rest = pending-insert files id m manifests here in
      rw on (elim (Bool-cases (exists other.file_path files)) [
        | inl there ↦ rw there (inr rest)
        | inr gone ↦ rw gone rest
      ])
]

-- The item as it comes back.
abbrev pub restored : DlItem → DlItem
restored i = record i { mime_type = []; state = paused; speed = 0; error = none; segments = 0 }

-- An item in the table with no manifest yet and with its file on disk is paused, where manifests can
-- be written: the browser finds it at its next start, paused, with the same address, path, name,
-- total, bytes received, time and priority.
pub pause-load_pending :
    (id : Bytes) (i : DlItem) (m : Manager)
    → lookup id m.downloads ≡ some i
    → i.id ≡ id
    → lookup id m.manifests ≡ none
    → m.writes ≡ true
    → exists i.file_path m.files ≡ true
    → IsIn (restored i) (load_pending (pause id m).1)
unfolding pause load_pending
pause-load_pending id i m has named new writes here = rw has (
    rw new (
      rw writes (
        rw named (
          pending-insert m.files id (record (manifest_of i i.received_bytes none) { id = id })
            m.manifests here))))

-- An item is cancelled: its entry, its channel, its manifest and its file are gone, and those of
-- every other id and path are as they were.
pub cancel-forgets :
    (id other path : Bytes) (i : DlItem) (m : Manager)
    → lookup id m.downloads ≡ some i
    → other ≢ id
    → path ≢ i.file_path
    → let m' = (cancel id m).1 in
      (lookup id m'.downloads ≡ none)
      × (lookup id m'.cancel_tx ≡ none)
      × (lookup id m'.manifests ≡ none)
      × (exists i.file_path m'.files ≡ false)
      × (lookup other m'.downloads ≡ lookup other m.downloads)
      × (lookup other m'.manifests ≡ lookup other m.manifests)
      × (exists path m'.files ≡ exists path m.files)
unfolding cancel
cancel-forgets id other path i m has ne ne' =
    let mine = (list_beq_iff id id).1 refl in
    let apart = list_beq-false id other (λ e. ne (sym e)) in
    rw has (
      lookup-erase id id m.downloads ∙ rw mine refl,
      lookup-erase id id m.cancel_tx ∙ rw mine refl,
      lookup-erase id id m.manifests ∙ rw mine refl,
      exists-removed i.file_path m.files,
      lookup-erase id other m.downloads ∙ rw apart refl,
      lookup-erase id other m.manifests ∙ rw apart refl,
      exists-removed_other path i.file_path m.files
          (list_beq-false i.file_path path (λ e. ne' (sym e))),
    )

-- Whether a type has a route's prefix, where it is known and the route has a folder.
abbrev pub Matches : Bytes → MimeRoute → Type 0
Matches mime_type route =
    (mime_type ≢ []) × (route.folder ≢ []) × (starts_with mime_type route.mime_prefix ≡ true)

abbrev pub Misses : Bytes → MimeRoute → Type 0
Misses mime_type route =
    (mime_type ≡ []) ⊎ ((route.folder ≡ []) ⊎ (starts_with mime_type route.mime_prefix ≡ false))

-- The folder of the first route that a type matches, or the user's where it matches none.
pub IsTarget : Bytes → List MimeRoute → Bytes → Bytes → Type 0
IsTarget mime_type [] dir target = target ≡ dir
IsTarget mime_type (route ∷ routes) dir target =
    (Matches mime_type route × (target ≡ route.folder))
    ⊎ (Misses mime_type route × IsTarget mime_type routes dir target)

is_empty-true : (text : Bytes) → is_empty text ≡ true → text ≡ []
is_empty-true [] h = refl
is_empty-true (b ∷ text) h = cc

is_empty-false : (text : Bytes) → is_empty text ≡ false → text ≢ []
is_empty-false text h e = true-ne-false (sym (ap is_empty e) ∙ h)

target_dir-IsTarget :
    (mime_type : Bytes) (routes : List MimeRoute) (dir : Bytes)
    → IsTarget mime_type routes dir (target_dir mime_type routes dir)
unfolding IsTarget
target_dir-IsTarget mime_type [] dir = refl
target_dir-IsTarget mime_type (route ∷ routes) dir =
    go (is_empty mime_type) (is_empty route.folder) (starts_with mime_type route.mime_prefix) refl
      refl refl (target_dir-IsTarget mime_type routes dir)
  where
    go :
        (a b c : Bool)
        → is_empty mime_type ≡ a
        → is_empty route.folder ≡ b
        → starts_with mime_type route.mime_prefix ≡ c
        → IsTarget mime_type routes dir (target_dir mime_type routes dir)
        → IsTarget mime_type (route ∷ routes) dir (target_dir mime_type (route ∷ routes) dir)
    go true b c e f g rest = rw e (inr (inl (is_empty-true mime_type e), rest))
    go false true c e f g rest = rw (e, f) (inr (inr (inl (is_empty-true route.folder f)), rest))
    go false false false e f g rest = rw (e, f, g) (inr (inr (inr refl), rest))
    go false false true e f g rest =
        rw (e, f, g) (inl ((is_empty-false mime_type e, is_empty-false route.folder f, refl), refl))

module _ (texts : Texts) where
  -- Where a download of a name lands among the files that are there.
  abbrev pub IsPlaced : Bytes → List MimeRoute → Bytes → List Bytes → DlItem → Type 0
  IsPlaced name routes download_dir files i =
      (dir : Bytes) × IsTarget i.mime_type routes download_dir dir
      × (i.file_path ≡ texts.join dir i.file_name)
      × IsChosen (λ n. exists (texts.join dir n) files)
          (texts.stem (or_download texts (texts.file_name name)))
          (texts.extension (or_download texts (texts.file_name name)))
          (or_download texts (texts.file_name name)) i.file_name

  -- A download that is started is in the table, fresh, with a channel to cancel it, and every other
  -- item is as it was. It lands in the folder of the first route with a folder whose prefix its type
  -- has, or in the user's where there is none, under its name where no file has it, else under the
  -- first of the names with the numbers 1 to 999 that is free, else under its name.
  pub start-IsPlaced :
      (id other url name download_dir : Bytes) (routes : List MimeRoute) (head : Head) (now : ℕ)
      (m : Manager)
      → other ≢ id
      → let i = (start texts id url name download_dir routes head now m).0.0 in
        let m' = (start texts id url name download_dir routes head now m).1 in
        (lookup id m'.downloads ≡ some i)
        × (lookup id m'.cancel_tx ≡ some tt)
        × IsFresh i
        × IsPlaced name routes download_dir m.files i
        × (lookup other m'.downloads ≡ lookup other m.downloads)
  unfolding start new_item free_name
  start-IsPlaced id other url name download_dir routes head now m ne =
      let mine = (list_beq_iff id id).1 refl in
      let i = new_item texts id url name download_dir routes head now m.files in
      let dir = target_dir i.mime_type routes download_dir in
      let safe = or_download texts (texts.file_name name) in
      (
        lookup-insert id id i m.downloads ∙ rw mine refl,
        lookup-insert id id _ m.cancel_tx ∙ rw mine refl,
        (refl, refl),
        (
          dir,
          target_dir-IsTarget i.mime_type routes download_dir,
          refl,
          dedup_filename-IsChosen (λ n. exists (texts.join dir n) m.files) (texts.stem safe)
              (texts.extension safe) safe,
        ),
        lookup-insert id other i m.downloads ∙ rw (list_beq-false id other (λ e. ne (sym e))) refl,
      )
