-- ===== src/Sync/Bookmarks/Toy.antt =====
-- A tree of a simple kind, of which the laws hold.
use bushido.Prelude.{
  ℕ, suc, ◌+◌, ◌≤◌, ◌≡◌, refl, ◌∙◌, ap, true, false, List, [], ◌∷◌, ◌++◌, map, Bytes, ◌==◌, ◌||◌,
  if◌then◌else◌, none, ok, ok_or, inl, inr, ◌⊎◌, Bool-cases, arith, ==_iff,
}
use bushido.Prelude.Table.{nat_eq, lookup, erase, lookup-erase}
use bushido.Sync.Contents.{LoroMaps}
use bushido.Sync.Bookmarks.{LoroTree, MetaValue, Meta}
use bushido.Sync.Bookmarks.Nodes.{TreeLaws, with_field, set_in, empty_meta, has_node, without}

abbrev pub Rows : Type 0
Rows = List (ℕ × Meta ℕ)

-- The nodes are the document.
abbrev pub toy_maps : LoroMaps
toy_maps = record {
  Doc = Rows;
  get = λ m k d. none;
  keys = λ m d. [];
  insert = λ m k v d. d;
  delete = λ m k d. d;
  export_snapshot = λ d. ok [];
  renewed = λ d snapshot. ok d;
}

abbrev pub ids : Rows → List ℕ
ids = map (λ r. r.0)

abbrev fresh : Rows → ℕ
fresh [] = 0
fresh ((n, meta) ∷ rows) = suc n + fresh rows

abbrev update : ℕ → Bytes → MetaValue ℕ → Rows → Rows
update n k v [] = []
update n k v ((m, meta) ∷ rows) =
    (m, if m == n then with_field k v meta else meta) ∷ update n k v rows

abbrev pub toy_tree : LoroTree toy_maps
toy_tree = record {
  F64 = ℕ;
  zero = 0;
  as_f64 = λ n. n;
  TreeId = ℕ;
  same = λ n m. m == n;
  children = ids;
  get_meta = λ n d. ok_or (lookup n d) "no node";
  create = λ d. (ok (fresh d), d ++ ((fresh d, empty_meta) ∷ []));
  delete_node = λ n d. (ok tt, erase n d);
  insert_meta = update;
}

fresh-new : (n : ℕ) (d : Rows) → fresh d ≤ n → has_node toy_maps toy_tree n (ids d) ≡ false
fresh-new n [] h = refl
fresh-new n ((m, meta) ∷ d) h = ground (arith, fresh-new n d (omega (arith, h)), h)

ids-append : (d : Rows) (n : ℕ) (meta : Meta ℕ) → ids (d ++ ((n, meta) ∷ [])) ≡ ids d ++ (n ∷ [])
ids-append [] n meta = refl
ids-append ((m, x) ∷ d) n meta = ap (λ ns. m ∷ ns) (ids-append d n meta)

ids-update : (n : ℕ) (k : Bytes) (v : MetaValue ℕ) (d : Rows) → ids (update n k v d) ≡ ids d
ids-update n k v [] = refl
ids-update n k v ((m, meta) ∷ d) = ap (λ ns. m ∷ ns) (ids-update n k v d)

ids-erase : (n : ℕ) (d : Rows) → ids (erase n d) ≡ without toy_maps toy_tree n (ids d)
ids-erase n [] = refl
ids-erase n ((m, meta) ∷ d) = elim (Bool-cases (m == n)) [
  | inl own ↦ rw own (ids-erase n d)
  | inr foreign ↦ rw foreign (ap (λ ns. m ∷ ns) (ids-erase n d))
]

meta-child :
    (n : ℕ) (d : Rows)
    → has_node toy_maps toy_tree n (ids d) ≡ true
    → (meta : Meta ℕ) × (toy_tree.get_meta n d ≡ ok meta)
meta-child n [] h = cc
meta-child n ((m, meta) ∷ d) h = elim (Bool-cases (m == n)) [
  | inl own ↦ (meta, rw own refl)
  | inr foreign ↦ (let (x, e) = meta-child n d (ground (arith, h, foreign)) in (x, rw foreign e))
]

beq_sym : (n m : ℕ) → (n == m) ≡ (m == n)
beq_sym n m = ground arith

meta-append :
    (n m : ℕ) (d : Rows)
    → has_node toy_maps toy_tree n (ids d) ≡ false
    → toy_tree.get_meta m (d ++ ((n, empty_meta) ∷ []))
      ≡ (if m == n then ok empty_meta else toy_tree.get_meta m d)
meta-append n m [] h =
    rw (beq_sym n m)
      (elim (Bool-cases (m == n)) [ inl own ↦ rw own refl | inr foreign ↦ rw foreign refl ])
meta-append n m ((i, meta) ∷ d) h = elim (Bool-cases (i == m)) [
  | inr foreign ↦ rw foreign (meta-append n m d (ground (arith, h)))
  | inl own ↦ rw own (rw (other_id n m i own h) refl)
]
  where
    other_id :
        (n m i : ℕ)
        → (i == m) ≡ true
        → ((i == n) || has_node toy_maps toy_tree n (ids d)) ≡ false
        → (m == n) ≡ false
    other_id n m i own h = ground (arith, ==_iff i m, h)

meta-update :
    (n m : ℕ) (k : Bytes) (v : MetaValue ℕ) (d : Rows)
    → toy_tree.get_meta m (update n k v d)
      ≡ (if m == n then set_in k v (toy_tree.get_meta m d) else toy_tree.get_meta m d)
meta-update n m k v [] = ground arith
meta-update n m k v ((i, meta) ∷ d) = elim (Bool-cases (i == m)) [
  | inr foreign ↦ rw foreign (meta-update n m k v d)
  | inl own ↦ rw own (
      rw (ap (λ x. x == n) ((==_iff i m).0 own))
        (elim (Bool-cases (m == n)) [ inl same ↦ rw same refl | inr differs ↦ rw differs refl ]))
]

meta-erase :
    (n m : ℕ) (d : Rows)
    → ((m == n) ≡ true) ⊎ (toy_tree.get_meta m (erase n d) ≡ toy_tree.get_meta m d)
meta-erase n m d = elim (Bool-cases (m == n)) [
  | inl own ↦ inl own
  | inr foreign ↦ inr (ap (λ o. ok_or o "no node") (lookup-erase n m d ∙ rw (n_m foreign) refl))
]
  where
    n_m : (m == n) ≡ false → (n == m) ≡ false
    n_m e = ground arith

ok-injective : {d d' : Rows} → ok d ≡ ok d' → d' ≡ d
ok-injective e = cc

pub toy-TreeLaws : TreeLaws toy_maps toy_tree
toy-TreeLaws = record {
  same_iff = λ n m. ground (arith, ==_iff m n);
  get_meta-child = meta-child;
  create-new = λ d. (
    fresh d,
    d ++ ((fresh d, empty_meta) ∷ []),
    refl,
    fresh-new (fresh d) d (omega arith),
    ids-append d (fresh d) empty_meta,
    λ m. meta-append (fresh d) m d (fresh-new (fresh d) d (omega arith)),
  );
  children-insert = ids-update;
  get_meta-insert = meta-update;
  children-delete = ids-erase;
  get_meta-delete = meta-erase;
  children-renewed = λ snapshot d d' exported imported. ap ids (ok-injective imported);
  get_meta-renewed =
      λ n snapshot d d' exported imported. ap (toy_tree.get_meta n) (ok-injective imported);
}
