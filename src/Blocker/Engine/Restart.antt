-- ===== src/Blocker/Engine/Restart.antt =====
-- The engine that src-tauri/src/blocker.rs starts with after an update, against the one in use before.
use bushido.Prelude.{ℕ, ◌≡◌, refl, sym, ◌∙◌, ap, List, [], ◌∷◌, Bytes, Option, some, ok}
use bushido.Blocker.Engine.{
  Adblock, FilterListDef, Files, written, after_write, Writes, Blocker, best_resources, or_shipped,
  parsed_resources, read_text, use_all, load_resources, add_lists, compile_engine, swapped, cached,
  start_from, init_engine, downloads, update_filter_lists,
}

-- What can be told of an engine: its filters, its resources and the policy for its regexes. An engine
-- that is read back has the filters, but no resources and the policy that every engine starts with.
pub record AdblockLaws (lib : Adblock) : Type 1 where
  pub Filters : Type 0
  pub filters : lib.Engine → Filters
  pub resources : lib.Engine → List lib.Resource
  pub policy : lib.Engine → ℕ × ℕ
  pub default_policy : ℕ × ℕ
  pub resources-new : (set : lib.FilterSet) → resources (lib.from_filter_set set) ≡ []
  pub filters-use :
      (rs : List lib.Resource) (e : lib.Engine) → filters (lib.use_resources rs e) ≡ filters e
  pub resources-use :
      (rs : List lib.Resource) (e : lib.Engine) → resources (lib.use_resources rs e) ≡ rs
  pub policy-use :
      (rs : List lib.Resource) (e : lib.Engine) → policy (lib.use_resources rs e) ≡ policy e
  pub resources-set :
      (a b : ℕ) (e : lib.Engine) → resources (lib.set_regex_discard_policy a b e) ≡ resources e
  pub policy-set : (a b : ℕ) (e : lib.Engine) → policy (lib.set_regex_discard_policy a b e) ≡ (a, b)
  pub deserialize-serialize :
      (e : lib.Engine)
      → (e' : lib.Engine) × (lib.deserialize (lib.serialize e) ≡ some e')
        × (filters e' ≡ filters e)
        × (resources e' ≡ [])
        × (policy e' ≡ default_policy)

module _ (lib : Adblock) (laws : AdblockLaws lib) (resources_json : Bytes) where
  open lib use {Engine, Resource, serialize, deserialize}

  use_all-filters :
      (rs : List Resource) (e : Engine)
      → laws.filters (use_all lib resources_json rs e) ≡ laws.filters e
  use_all-filters [] e = refl
  use_all-filters (r ∷ rs) e = laws.filters-use (r ∷ rs) e

  use_all-policy :
      (rs : List Resource) (e : Engine)
      → laws.policy (use_all lib resources_json rs e) ≡ laws.policy e
  use_all-policy [] e = refl
  use_all-policy (r ∷ rs) e = laws.policy-use (r ∷ rs) e

  use_all-resources :
      (rs : List Resource) (e : Engine)
      → laws.resources e ≡ []
      → laws.resources (use_all lib resources_json rs e) ≡ rs
  use_all-resources [] e h = h
  use_all-resources (r ∷ rs) e h = laws.resources-use (r ∷ rs) e

  module _ (filter_lists : List FilterListDef) where
    compiled :
        (files : Files)
        → (laws.resources (compile_engine lib resources_json filter_lists files)
            ≡ best_resources lib resources_json files)
          × (laws.policy (compile_engine lib resources_json filter_lists files) ≡ (120, 300))
    unfolding compile_engine
    compiled files = (
      use_all-resources (best_resources lib resources_json files)
          (lib.set_regex_discard_policy 120 300 fresh)
          (laws.resources-set 120 300 fresh
            ∙ laws.resources-new (add_lists lib resources_json files filter_lists lib.new_set)),
      use_all-policy (best_resources lib resources_json files)
            (lib.set_regex_discard_policy 120 300 fresh)
          ∙ laws.policy-set 120 300 fresh,
    )
      where
        fresh : Engine
        fresh = lib.from_filter_set (add_lists lib resources_json files filter_lists lib.new_set)

    -- The files after an update that writes its cache.
    swapped-files :
        (writes : Writes) (metadata : Bytes) (e : Engine) (files : Files)
        → writes.engine ≡ written
        → ((swapped lib resources_json filter_lists writes metadata e files).files.engine
            ≡ some (serialize e))
          × ((swapped lib resources_json filter_lists writes metadata e files).files.resources
              ≡ files.resources)
    swapped-files writes metadata e files h = (ap (λ w. after_write w (serialize e)) h, refl)

    -- What an update leaves, and the engine of the start after it.
    abbrev pub updated :
        Writes
        → (Bytes → Option Bytes)
        → List FilterListDef
        → Bytes
        → Blocker lib resources_json filter_lists
        → Blocker lib resources_json filter_lists
    updated writes answers finished metadata b =
        (update_filter_lists lib resources_json filter_lists (ok tt) (ok tt) writes answers finished
          metadata b).1

    abbrev pub restarted : Writes → Files → Engine
    restarted later files = (init_engine lib resources_json filter_lists later files).0

    restarted-eq :
        (later : Writes) (files : Files) (e e' : Engine)
        → files.engine ≡ some (serialize e)
        → deserialize (serialize e) ≡ some e'
        → restarted later files ≡ load_resources lib resources_json files e'
    unfolding init_engine
    restarted-eq later files e e' kept read =
        ap (λ c. (start_from lib resources_json filter_lists later files c).0)
          (ap (cached lib resources_json filter_lists) kept ∙ read)

    -- A start after an update whose cache was written comes to an engine with the filters and the
    -- resources of the one that the update put in use; but its regexes are kept by the policy that
    -- every engine starts with, where the policy of the one in use is set.
    pub init_engine-update_filter_lists :
        (writes later : Writes) (answers : Bytes → Option Bytes) (finished : List FilterListDef)
        (metadata : Bytes) (b : Blocker lib resources_json filter_lists)
        → writes.engine ≡ written
        → (laws.filters (restarted later (updated writes answers finished metadata b).files)
            ≡ laws.filters (updated writes answers finished metadata b).engine)
          × (laws.resources (restarted later (updated writes answers finished metadata b).files)
              ≡ laws.resources (updated writes answers finished metadata b).engine)
          × (laws.policy (restarted later (updated writes answers finished metadata b).files)
              ≡ laws.default_policy)
          × (laws.policy (updated writes answers finished metadata b).engine ≡ (120, 300))
    unfolding update_filter_lists
    init_engine-update_filter_lists writes later answers finished metadata b h =
        let (e', read, same, bare, plain) = laws.deserialize-serialize in_use in
        let (kept, shipped) = swapped-files writes metadata in_use files h in
        let begun = restarted-eq later after_update in_use e' kept read in
        let all = best_resources lib resources_json after_update in
        (
          ap laws.filters begun ∙ (use_all-filters all e' ∙ same),
          ap laws.resources begun
              ∙ (use_all-resources all e' bare
                  ∙ (ap
                        (λ file.
                          or_shipped lib resources_json (
                            parsed_resources lib resources_json
                              (read_text lib resources_json file)))
                        shipped
                      ∙ sym (compiled files).0)),
          ap laws.policy begun ∙ (use_all-policy all e' ∙ plain),
          (compiled files).1,
        )
      where
        files : Files
        files = downloads lib resources_json filter_lists writes answers finished b.files

        in_use : Engine
        in_use = compile_engine lib resources_json filter_lists files

        after_update : Files
        after_update = (swapped lib resources_json filter_lists writes metadata in_use files).files
