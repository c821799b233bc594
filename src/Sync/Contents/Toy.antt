-- ===== src/Sync/Contents/Toy.antt =====
-- Maps and JSON of a simple kind, of which the laws hold.
use bushido.Prelude.{
  ℕ, ◌≡◌, refl, List, [], ◌∷◌, ◌++◌, Bytes, Option, none, some, ok, if◌then◌else◌, ◌&&◌, ap, sym,
  subst, true, inl, inr, Bool-cases,
}
use bushido.Prelude.Table.{
  list_eq, list_beq, list_beq_iff, lookup, insert, erase, lookup-insert, lookup-erase,
}
use bushido.Sync.Contents.{
  MapName, history, settings, open_tabs, LoroValue, string, LoroMaps, Json, tabs_time, has,
}
use bushido.Sync.Contents.Maps.{IsDistinct, MapLaws, same_map, is_set}

abbrev pub Entries : Type 0
Entries = List (Bytes × LoroValue)

-- The three maps.
pub record Toy : Type 0 where
  pub visits : Entries
  pub values : Entries
  pub tabs : Entries

abbrev pub part : MapName → Toy → Entries
part history d = d.visits
part settings d = d.values
part open_tabs d = d.tabs

abbrev pub with_part : MapName → (Entries → Entries) → Toy → Toy
with_part history f d = record d { visits = f d.visits }
with_part settings f d = record d { values = f d.values }
with_part open_tabs f d = record d { tabs = f d.tabs }

-- The keys, each once.
abbrev keys_of : Entries → List Bytes
keys_of [] = []
keys_of ((k, v) ∷ es) = let rest = keys_of es in if has k rest then rest else k ∷ rest

abbrev pub toy : LoroMaps
toy = record {
  Doc = Toy;
  get = λ m k d. lookup k (part m d);
  keys = λ m d. keys_of (part m d);
  insert = λ m k v d. with_part m (insert k (string v)) d;
  delete = λ m k d. with_part m (erase k) d;
  export_snapshot = λ d. ok [];
  renewed = λ d snapshot. ok d;
}

abbrev pub empty : Toy
empty = record { visits = []; values = []; tabs = [] }

toy_insert :
    (m n : MapName) (k j v : Bytes) (d : Toy)
    → toy.get n j (toy.insert m k v d)
      ≡ (if same_map m n && list_beq k j then some (string v) else toy.get n j d)
toy_insert history history k j v d = lookup-insert k j (string v) d.visits
toy_insert settings settings k j v d = lookup-insert k j (string v) d.values
toy_insert open_tabs open_tabs k j v d = lookup-insert k j (string v) d.tabs
toy_insert history settings k j v d = refl
toy_insert history open_tabs k j v d = refl
toy_insert settings history k j v d = refl
toy_insert settings open_tabs k j v d = refl
toy_insert open_tabs history k j v d = refl
toy_insert open_tabs settings k j v d = refl

toy_delete :
    (m n : MapName) (k j : Bytes) (d : Toy)
    → toy.get n j (toy.delete m k d)
      ≡ (if same_map m n && list_beq k j then none else toy.get n j d)
toy_delete history history k j d = lookup-erase k j d.visits
toy_delete settings settings k j d = lookup-erase k j d.values
toy_delete open_tabs open_tabs k j d = lookup-erase k j d.tabs
toy_delete history settings k j d = refl
toy_delete history open_tabs k j d = refl
toy_delete settings history k j d = refl
toy_delete settings open_tabs k j d = refl
toy_delete open_tabs history k j d = refl
toy_delete open_tabs settings k j d = refl

has-keys_of : (k : Bytes) (es : Entries) → has k (keys_of es) ≡ is_set (lookup k es)
has-keys_of k [] = refl
has-keys_of k ((j, v) ∷ es) = elim (Bool-cases (list_beq j k)) [
  | inl same ↦ elim (Bool-cases (has j (keys_of es))) [
    | inl there ↦
        rw there
          (rw same (subst (λ x. has x (keys_of es) ≡ true) ((list_beq_iff j k).0 same) there))
    | inr new ↦ rw new (rw same refl)
  ]
  | inr other ↦ elim (Bool-cases (has j (keys_of es))) [
    | inl there ↦ rw there (rw other (has-keys_of k es))
    | inr new ↦ rw new (rw other (has-keys_of k es))
  ]
]

keys_of-IsDistinct : (es : Entries) → IsDistinct (keys_of es)
keys_of-IsDistinct [] = tt
keys_of-IsDistinct ((k, v) ∷ es) = elim (Bool-cases (has k (keys_of es))) [
  | inl there ↦ rw there (keys_of-IsDistinct es)
  | inr new ↦ rw new (new, keys_of-IsDistinct es)
]

ok-injective : {d d' : Toy} → ok d ≡ ok d' → d ≡ d'
ok-injective e = cc

pub toy-MapLaws : MapLaws toy
toy-MapLaws = record {
  get-insert = toy_insert;
  get-delete = toy_delete;
  has-keys = λ m k d. has-keys_of k (part m d);
  keys-IsDistinct = λ m d. keys_of-IsDistinct (part m d);
  get-renewed =
      λ m k snapshot d d' exported imported. ap (λ x. toy.get m k x) (sym (ok-injective imported));
}

-- A text that is not empty is JSON, and its time is its second byte.
abbrev second : Bytes → Option ℕ
second [] = none
second (c ∷ []) = none
second (c ∷ (n ∷ text)) = some n

abbrev not_empty : Bytes → Option Bytes
not_empty [] = none
not_empty (c ∷ text) = some (c ∷ text)

abbrev pub toy_json : Json
toy_json = record {
  Value = Bytes;
  from_str = not_empty;
  history_entry = λ url title favicon ts. 123 ∷ (url ++ title);
  tabs_entry = λ tabs now. 123 ∷ (now ∷ tabs);
  member = λ name v. some v;
  as_i64 = second;
}

pub toy_json-tabs :
    (t : Bytes) (n : ℕ) → tabs_time toy_json (some (string (toy_json.tabs_entry t n))) ≡ some n
toy_json-tabs t n = refl
