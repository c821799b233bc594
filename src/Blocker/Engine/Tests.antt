-- ===== src/Blocker/Engine/Tests.antt =====
-- The theorems on the filter engine at work.
use bushido.Prelude.{
  ℕ, ◌≡◌, refl, Bool, true, false, List, [], ◌∷◌, ◌++◌, Bytes, codes, Option, none, some, ok,
  if◌then◌else◌,
}
use bushido.Prelude.Table.{list_beq}
use bushido.Blocker.Engine.{
  Adblock, FilterListDef, Write, written, failed, Writes, Blocker, load_resources, shipped_lists,
  lines, compile_engine, update_filter_lists,
}
use bushido.Blocker.Engine.Lists.{newest_rules, update_filter_lists-newest}
use bushido.Blocker.Engine.Restart.{
  AdblockLaws, updated, restarted, init_engine-update_filter_lists,
}

-- An engine is its rules, its resources and its policy; its text has the rules, each as its length and
-- its characters would be told apart by a mark.
record Toy : Type 0 where
  pub rules : Bytes
  pub resources : List Bytes
  pub policy : ℕ × ℕ

abbrev flat : List Bytes → Bytes
flat [] = []
flat (l ∷ ls) = l ++ (10 ∷ flat ls)

abbrev toy : Adblock
toy = record {
  Engine = Toy;
  FilterSet = Bytes;
  Resource = Bytes;
  new_set = [];
  add_filters = λ ls bits set. set ++ (bits ∷ flat ls);
  from_filter_set = λ set. record { rules = set; resources = []; policy = (30, 180) };
  set_regex_discard_policy = λ a b e. record e { policy = (a, b) };
  use_resources = λ rs e. record e { resources = rs };
  serialize = λ e. e.rules;
  deserialize = λ bytes. some (record { rules = bytes; resources = []; policy = (30, 180) });
  resources_from_str = λ text. some (text ∷ []);
  is_utf8 = λ bytes. true;
}

toy-AdblockLaws : AdblockLaws toy
toy-AdblockLaws = record {
  Filters = Bytes;
  filters = λ e. e.rules;
  resources = λ e. e.resources;
  policy = λ e. e.policy;
  default_policy = (30, 180);
  resources-new = λ set. refl;
  filters-use = λ rs e. refl;
  resources-use = λ rs e. refl;
  policy-use = λ rs e. refl;
  resources-set = λ a b e. refl;
  policy-set = λ a b e. refl;
  deserialize-serialize =
      λ e. (record { rules = e.rules; resources = []; policy = (30, 180) }, refl, refl, refl, refl);
}

two_lines : lines (97 ∷ 13 ∷ 10 ∷ 10 ∷ 98 ∷ []) ≡ (97 ∷ []) ∷ [] ∷ (98 ∷ []) ∷ []
two_lines = refl

abbrev lists : List FilterListDef
lists = shipped_lists (λ name. codes "||" ++ name)

abbrev easylist : FilterListDef
easylist = record {
  name = codes "easylist";
  url = codes "https://easylist.to/easylist/easylist.txt";
  bundled = codes "||easylist";
  trusted = false;
}

abbrev privacy : FilterListDef
privacy = record {
  name = codes "ublock-privacy";
  url = codes "https://ublockorigin.github.io/uAssets/filters/privacy.txt";
  bundled = codes "||ublock-privacy";
  trusted = true;
}

abbrev writes : Writes
writes = record { list = λ name. written; engine = written; metadata = written }

abbrev answers : Bytes → Option Bytes
answers url = if list_beq url easylist.url then some (codes "||ads.example") else none

abbrev idle : Blocker toy [] lists
idle = record {
  engine = record { rules = []; resources = []; policy = (30, 180) };
  files = record { lists = []; engine = none; resources = none; metadata = none };
}

-- Two of the lists, of which the second could not be written as a whole.
abbrev two_lists : List FilterListDef
two_lists = easylist ∷ privacy ∷ []

abbrev list_write : Bool → Write
list_write true = written
list_write false = failed (some (codes "||trac"))

abbrev full_disk : Writes
full_disk = record {
  list = λ name. list_write (list_beq name easylist.name);
  engine = failed (some []);
  metadata = failed none;
}

abbrev both_answers : Bytes → Option Bytes
both_answers url =
    some (if list_beq url easylist.url then codes "||ads.example" else codes "||tracker")

abbrev two_idle : Blocker toy [] two_lists
two_idle = record {
  engine = record { rules = []; resources = []; policy = (30, 180) };
  files = record { lists = []; engine = none; resources = none; metadata = none };
}

abbrev two_updated : Blocker toy [] two_lists
two_updated =
    (update_filter_lists toy [] two_lists (ok tt) (ok tt) full_disk both_answers
      (privacy ∷ easylist ∷ []) [] two_idle).1

update_filter_lists-newest_example :
    (two_updated.engine
      ≡ load_resources toy [] two_idle.files (
          toy.set_regex_discard_policy 120 300 (
            toy.from_filter_set
              (newest_rules toy [] two_lists full_disk both_answers two_idle.files two_lists []))))
    × (two_updated.engine ≡ compile_engine toy [] two_lists two_updated.files)
update_filter_lists-newest_example =
    update_filter_lists-newest toy [] two_lists full_disk both_answers (privacy ∷ easylist ∷ []) []
      two_idle ((privacy ∷ [], [], refl, refl, refl), (([], easylist ∷ [], refl, refl, refl), tt))

two_rules :
    newest_rules toy [] two_lists full_disk both_answers two_idle.files two_lists []
    ≡ (0 ∷ (codes "||ads.example" ++ (10 ∷ []))) ++ (1 ∷ (codes "||trac" ++ (10 ∷ [])))
two_rules = refl

init_engine-update_filter_lists_example :
    (toy-AdblockLaws.filters (
        restarted toy toy-AdblockLaws [] lists writes
          (updated toy toy-AdblockLaws [] lists writes answers (easylist ∷ []) [] idle).files)
      ≡ toy-AdblockLaws.filters
          (updated toy toy-AdblockLaws [] lists writes answers (easylist ∷ []) [] idle).engine)
    × (toy-AdblockLaws.resources (
          restarted toy toy-AdblockLaws [] lists writes
            (updated toy toy-AdblockLaws [] lists writes answers (easylist ∷ []) [] idle).files)
        ≡ toy-AdblockLaws.resources
            (updated toy toy-AdblockLaws [] lists writes answers (easylist ∷ []) [] idle).engine)
    × (toy-AdblockLaws.policy (
          restarted toy toy-AdblockLaws [] lists writes
            (updated toy toy-AdblockLaws [] lists writes answers (easylist ∷ []) [] idle).files)
        ≡ toy-AdblockLaws.default_policy)
    × (toy-AdblockLaws.policy
          (updated toy toy-AdblockLaws [] lists writes answers (easylist ∷ []) [] idle).engine
        ≡ (120, 300))
init_engine-update_filter_lists_example =
    init_engine-update_filter_lists toy toy-AdblockLaws [] lists writes writes answers
      (easylist ∷ []) [] idle refl
