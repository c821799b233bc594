-- ===== src/Sync/Contents/Distinct.antt =====
-- The entries that `compact_history` of src-tauri/src/sync/sync_doc.rs keeps are none of those that it
-- deletes, because a map visits each of its keys once.
use bushido.Prelude.{
  ℕ, zero, suc, ◌≡◌, refl, sym, ◌∙◌, ap, Bool, true, false, List, [], ◌∷◌, Bytes, ◌&&◌, ◌||◌,
  if◌then◌else◌, Option, none, some, inl, inr, Bool-cases, arith, take, drop, All, All-map, All-zip,
}
use bushido.Prelude.Table.{list_beq, list_beq_iff}
use bushido.Sync.Contents.{
  has, Dated, before, dated, recent, sort_in, sort_by_time, too_old, key_time, is_stale,
}
use bushido.Sync.Contents.Maps.{IsDistinct}
use bushido.Sync.Contents.Sorting.{
  names, names-dated, has-recent, has-sort_in, has-sort_by_time, has-too_old, IsRecent, is_recent,
  All-drop,
}

pub list_beq_sym : (xs ys : Bytes) → list_beq xs ys ≡ list_beq ys xs
list_beq_sym xs ys = elim (Bool-cases (list_beq xs ys)) [
  | inl same ↦ same ∙ sym ((list_beq_iff ys xs).1 (sym ((list_beq_iff xs ys).0 same)))
  | inr differ ↦ elim (Bool-cases (list_beq ys xs)) [
    | inl same ↦ (list_beq_iff xs ys).1 (sym ((list_beq_iff ys xs).0 same)) ∙ sym same
    | inr other ↦ differ ∙ sym other
  ]
]

cons-IsDistinct :
    (b : Bool) (k : Bytes) (ks : List Bytes)
    → (has k ks ≡ false)
    → IsDistinct ks
    → IsDistinct (if b then k ∷ ks else ks)
cons-IsDistinct true k ks h d = (h, d)
cons-IsDistinct false k ks h d = d

absent : (a b c : Bool) → a ≡ (b && c) → b ≡ false → a ≡ false
absent a b c e h = ground arith

pub recent-IsDistinct :
    (limit : ℕ) (ks : List Bytes) → IsDistinct ks → IsDistinct (names (recent limit ks))
recent-IsDistinct limit [] d = tt
recent-IsDistinct limit (k ∷ ks) d = rw (names-dated limit k (key_time k) (recent limit ks)) (
    cons-IsDistinct (is_recent limit (key_time k)) k (names (recent limit ks))
      (absent (has k (names (recent limit ks))) (has k ks) (is_recent limit (key_time k))
        (has-recent limit k ks) d.0)
      (recent-IsDistinct limit ks d.1))

apart : (a b c : Bool) → a ≡ b → (a || c) ≡ false → (b ≡ false) × (c ≡ false)
apart true b c e h = cc
apart false b true e h = cc
apart false b false e h = (sym e, refl)

both_absent : (a b : Bool) → a ≡ false → b ≡ false → (a || b) ≡ false
both_absent a b h k = ground arith

pub sort_in-IsDistinct :
    (e : Dated) (es : List Dated)
    → has e.0 (names es) ≡ false
    → IsDistinct (names es)
    → IsDistinct (names (sort_in e es))
sort_in-IsDistinct e [] h d = (refl, tt)
sort_in-IsDistinct e (f ∷ fs) h d = elim (Bool-cases (before f.1 e.1)) [
  | inl older ↦
      let (other, rest) =
        apart (list_beq f.0 e.0) (list_beq e.0 f.0) (has e.0 (names fs)) (list_beq_sym f.0 e.0) h in
      rw older (
        has-sort_in f.0 e fs ∙ both_absent (list_beq e.0 f.0) (has f.0 (names fs)) other d.0,
        sort_in-IsDistinct e fs rest d.1,
      )
  | inr newer ↦ rw newer (h, d)
]

pub sort_by_time-IsDistinct :
    (es : List Dated) → IsDistinct (names es) → IsDistinct (names (sort_by_time es))
sort_by_time-IsDistinct [] d = tt
sort_by_time-IsDistinct (e ∷ es) d =
    sort_in-IsDistinct e (sort_by_time es) (has-sort_by_time e.0 es ∙ d.0)
      (sort_by_time-IsDistinct es d.1)

pub drop-IsDistinct :
    (n : ℕ) (es : List Dated) → IsDistinct (names es) → IsDistinct (names (drop n es))
drop-IsDistinct zero es d = d
drop-IsDistinct (suc n) [] d = tt
drop-IsDistinct (suc n) (e ∷ es) d = drop-IsDistinct n es d.1

-- The entries of a list of which one key is none.
others :
    (k : Bytes) (es : List Dated) → has k (names es) ≡ false → All (λ e. list_beq k e.0 ≡ false) es
others k [] h = tt
others k (e ∷ es) h =
    let (other, rest) =
      apart (list_beq e.0 k) (list_beq k e.0) (has k (names es)) (list_beq_sym e.0 k) h in
    (other, others k es rest)

nowhere : (es : List Dated) → All (λ e. has e.0 [] ≡ false) es
nowhere [] = tt
nowhere (e ∷ es) = (refl, nowhere es)

-- Behind a place there is none of the keys in front of it.
pub drop-not_taken :
    (n : ℕ) (es : List Dated)
    → IsDistinct (names es)
    → All (λ e. has e.0 (names (take n es)) ≡ false) (drop n es)
drop-not_taken zero es d = nowhere es
drop-not_taken (suc n) [] d = tt
drop-not_taken (suc n) (x ∷ es) d =
    All-map (drop n es)
      (λ e p. both_absent (list_beq x.0 e.0) (has e.0 (names (take n es))) p.0 p.1)
      (All-zip _ _ (drop n es) (All-drop (λ e. list_beq x.0 e.0 ≡ false) n es (others x.0 es d.0))
        (drop-not_taken n es d.1))

-- An entry that is recent is not too old.
pub IsRecent-not_old :
    (limit : ℕ) (ks : List Bytes) (e : Dated)
    → IsRecent limit e
    → has e.0 (too_old limit ks) ≡ false
IsRecent-not_old limit ks e r =
    has-too_old limit e.0 ks
    ∙ (ap (λ t. has e.0 ks && is_stale limit t) r.0 ∙ never (has e.0 ks) (before e.1 limit) r.1)
  where
    never : (a b : Bool) → b ≡ false → (a && b) ≡ false
    never a b h = ground arith

dated-visited :
    (limit : ℕ) (k : Bytes) (ks : List Bytes) (t : Option ℕ) (es : List Dated)
    → All (λ e. has e.0 (k ∷ ks) ≡ true) es
    → All (λ e. has e.0 (k ∷ ks) ≡ true) (dated limit k t es)
dated-visited limit k ks none es h = h
dated-visited limit k ks (some ts) es h = elim (Bool-cases (before ts limit)) [
  | inl old ↦ rw old h
  | inr new ↦ rw new (rw ((list_beq_iff k k).1 refl) refl, h)
]

-- A recent key is one of those that are visited.
pub recent-visited : (limit : ℕ) (ks : List Bytes) → All (λ e. has e.0 ks ≡ true) (recent limit ks)
recent-visited limit [] = tt
recent-visited limit (k ∷ ks) = dated-visited limit k ks (key_time k) (recent limit ks) (
    All-map (recent limit ks) (λ e h. ap (λ b. list_beq k e.0 || b) h ∙ ground arith)
      (recent-visited limit ks))
