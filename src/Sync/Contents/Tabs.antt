-- ===== src/Sync/Contents/Tabs.antt =====
-- The open tabs that the devices show each other, in src-tauri/src/sync/sync_doc.rs.
use bushido.Prelude.{
  ℕ, ◌≡◌, refl, sym, ◌∙◌, ap, Bool, List, [], ◌∷◌, Bytes, ◌&&◌, if◌then◌else◌, Option, none, some,
  inl, inr, Bool-cases, arith,
}
use bushido.Prelude.Table.{list_beq, list_eq}
use bushido.Sync.Contents.{
  open_tabs, LoroMaps, LoroValue, string, Json, OpenDoc, write_tabs, clean_stale_tabs, cutoff,
  stale, is_stale, tabs_time, has, before,
}
use bushido.Sync.Contents.Maps.{MapLaws, is_set, get-delete_all}
use bushido.Sync.Contents.Sorting.{has-choose}

module _ (loro : LoroMaps) (json : Json) where
  open loro use {get}

  -- Whether the entry of a device is too old.
  abbrev pub is_gone : ℕ → ℕ → Option LoroValue → Bool
  is_gone now stale_days v = is_stale (cutoff now stale_days) (tabs_time json v)

  has-stale :
      (limit : ℕ) (d : loro.Doc) (k : Bytes) (ks : List Bytes)
      → has k (stale loro json limit d ks)
        ≡ (has k ks && is_stale limit (tabs_time json (get open_tabs k d)))
  has-stale limit d k [] = refl
  has-stale limit d k (j ∷ ks) =
      has-choose (λ x. is_stale limit (tabs_time json (get open_tabs x d))) k j ks
        (stale loro json limit d ks) (has-stale limit d k ks)

  module _ (laws : MapLaws loro) where
    gone-set :
        (b : Bool) (v : Option LoroValue)
        → (if is_set v && b then none else v) ≡ (if b then none else v)
    gone-set b none = ground arith
    gone-set b (some v) = refl

    -- `clean_stale_tabs` removes the entries of exactly the devices whose time is before the cutoff.
    pub clean_stale_tabs-get :
        (now stale_days : ℕ) (s : OpenDoc loro) (device : Bytes)
        → get open_tabs device (clean_stale_tabs loro json now stale_days s).1.doc ≡ (
            if is_gone now stale_days (get open_tabs device s.doc)
            then none
            else get open_tabs device s.doc)
    unfolding clean_stale_tabs
    clean_stale_tabs-get now stale_days s device =
        get-delete_all loro laws open_tabs open_tabs
          (stale loro json (cutoff now stale_days) s.doc (loro.keys open_tabs s.doc)) device s.doc
        ∙ (ap (λ b. if b then none else get open_tabs device s.doc)
              (has-stale (cutoff now stale_days) s.doc device (loro.keys open_tabs s.doc)
                ∙ ap (λ b. b && is_gone now stale_days (get open_tabs device s.doc))
                    (laws.has-keys open_tabs device s.doc))
            ∙ gone-set (is_gone now stale_days (get open_tabs device s.doc))
                (get open_tabs device s.doc))

    -- The tabs that a device wrote are there after a cleaning if the time of their entry, as it is
    -- read, is not before the cutoff, and else nothing is left of the device; what another device
    -- has is as the cleaning alone leaves it.
    pub write_tabs-clean_stale_tabs :
        (tabs : Bytes) (written now stale_days : ℕ) (s : OpenDoc loro) (device : Bytes)
        → ((t : Bytes) (n : ℕ) → tabs_time json (some (string (json.tabs_entry t n))) ≡ some n)
        → get open_tabs device
            (clean_stale_tabs loro json now stale_days
              (write_tabs loro json tabs written s).1).1.doc
          ≡ (if list_beq s.device_id device
              then (if before written (cutoff now stale_days)
                  then none
                  else some (string (json.tabs_entry tabs written)))
              else get open_tabs device (clean_stale_tabs loro json now stale_days s).1.doc)
    unfolding write_tabs
    write_tabs-clean_stale_tabs tabs written now stale_days s device read =
        clean_stale_tabs-get now stale_days (write_tabs loro json tabs written s).1 device
        ∙ (ap (λ v. if is_gone now stale_days v then none else v)
              (laws.get-insert open_tabs open_tabs s.device_id device (json.tabs_entry tabs written)
                s.doc)
            ∙ elim (Bool-cases (list_beq s.device_id device)) [
              | inl own ↦ rw own (rw (read tabs written) refl)
              | inr foreign ↦ rw foreign (sym (clean_stale_tabs-get now stale_days s device))
            ])
