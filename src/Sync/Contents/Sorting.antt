-- ===== src/Sync/Contents/Sorting.antt =====
-- The lists that `compact_history` of src-tauri/src/sync/sync_doc.rs makes of the keys: those that
-- are too old, and the others by time.
use bushido.Prelude.{
  true-ne-false, ℕ, zero, suc, ◌-◌, ◌≤◌, ◌≡◌, refl, sym, subst, ap, Bool, true, false, not, List,
  [], ◌∷◌, ◌++◌, map, Bytes, ◌&&◌, ◌||◌, ltb, if◌then◌else◌, Option, none, some, inl, inr,
  Bool-cases, arith, length, take, drop, All, All-map, not-ltb→le, ltb→lt, length-drop,
  take-append-drop, ◌∙◌,
}
use bushido.Prelude.Table.{list_beq, list_beq_iff}
use bushido.Sync.Contents.{
  has, Dated, is_stale, dated, before, signed, too_old, recent, sort_in, sort_by_time, excess,
  newest, key_time,
}

abbrev pub names : List Dated → List Bytes
names = map (λ e. e.0)

pub and-right : (a b : Bool) → (a && b) ≡ true → b ≡ true
and-right a b h = ground arith

-- A key that is visited and is not old is recent, so it is over the limit or kept.
pub still-kept :
    (old visited past found over kept : Bool)
    → old ≡ (visited && past)
    → found ≡ (visited && not past)
    → found ≡ (over || kept)
    → old ≡ false
    → visited ≡ true
    → over ≡ false
    → kept ≡ true
still-kept old visited past found over kept o f n not_old v not_over = ground arith

-- Keys chosen by a test among those that are visited.
pub has-choose :
    (p : Bytes → Bool) (k j : Bytes) (ks rest : List Bytes)
    → has k rest ≡ (has k ks && p k)
    → has k (if p j then j ∷ rest else rest) ≡ ((list_beq j k || has k ks) && p k)
has-choose p k j ks rest ih = elim (Bool-cases (list_beq j k)) [
  | inl same ↦ rw (ap p ((list_beq_iff j k).0 same)) (ground (arith, ih, same))
  | inr differs ↦ ground (arith, ih, differs)
]

-- The two lists name the keys that are visited and have a time, the old ones and the others.
module _ (limit : ℕ) where
  abbrev pub is_recent : Option ℕ → Bool
  is_recent none = false
  is_recent (some ts) = not (before ts limit)

  pub has-too_old :
      (k : Bytes) (ks : List Bytes)
      → has k (too_old limit ks) ≡ (has k ks && is_stale limit (key_time k))
  has-too_old k [] = refl
  has-too_old k (j ∷ ks) =
      has-choose (λ x. is_stale limit (key_time x)) k j ks (too_old limit ks) (has-too_old k ks)

  pub names-dated :
      (j : Bytes) (t : Option ℕ) (es : List Dated)
      → names (dated limit j t es) ≡ (if is_recent t then j ∷ names es else names es)
  names-dated j none es = refl
  names-dated j (some ts) es = elim (Bool-cases (before ts limit)) [
    | inl old ↦ rw old refl
    | inr new ↦ rw new refl
  ]

  pub has-recent :
      (k : Bytes) (ks : List Bytes)
      → has k (names (recent limit ks)) ≡ (has k ks && is_recent (key_time k))
  has-recent k [] = refl
  has-recent k (j ∷ ks) =
      rw (names-dated j (key_time j) (recent limit ks)) (
        has-choose (λ x. is_recent (key_time x)) k j ks (names (recent limit ks)) (has-recent k ks))

  abbrev pub IsRecent : Dated → Type 0
  IsRecent e = (key_time e.0 ≡ some e.1) × (before e.1 limit ≡ false)

  pub dated-IsRecent :
      (k : Bytes) (t : Option ℕ) (es : List Dated)
      → key_time k ≡ t
      → All IsRecent es
      → All IsRecent (dated limit k t es)
  dated-IsRecent k none es e r = r
  dated-IsRecent k (some ts) es e r = elim (Bool-cases (before ts limit)) [
    | inl old ↦ rw old r
    | inr new ↦ rw new ((e, new), r)
  ]

  pub recent-IsRecent : (ks : List Bytes) → All IsRecent (recent limit ks)
  recent-IsRecent [] = tt
  recent-IsRecent (k ∷ ks) =
      dated-IsRecent k (key_time k) (recent limit ks) refl (recent-IsRecent ks)

-- Sorting keeps the entries, and puts the older ones first.
pub has-sort_in :
    (k : Bytes) (e : Dated) (es : List Dated)
    → has k (names (sort_in e es)) ≡ (list_beq e.0 k || has k (names es))
has-sort_in k e [] = refl
has-sort_in k e (f ∷ fs) = elim (Bool-cases (before f.1 e.1)) [
  | inl older ↦ rw older (rw (has-sort_in k e fs) (ground arith))
  | inr newer ↦ rw newer refl
]

pub has-sort_by_time :
    (k : Bytes) (es : List Dated) → has k (names (sort_by_time es)) ≡ has k (names es)
has-sort_by_time k [] = refl
has-sort_by_time k (e ∷ es) =
    rw (has-sort_in k e (sort_by_time es)) (rw (has-sort_by_time k es) refl)

module _ (P : Dated → Type 0) where
  pub All-sort_in : (e : Dated) (es : List Dated) → P e → All P es → All P (sort_in e es)
  All-sort_in e [] p ps = (p, tt)
  All-sort_in e (f ∷ fs) p ps = elim (Bool-cases (before f.1 e.1)) [
    | inl older ↦ rw older (ps.0, All-sort_in e fs p ps.1)
    | inr newer ↦ rw newer (p, ps)
  ]

  pub All-sort_by_time : (es : List Dated) → All P es → All P (sort_by_time es)
  All-sort_by_time [] ps = tt
  All-sort_by_time (e ∷ es) ps = All-sort_in e (sort_by_time es) ps.0 (All-sort_by_time es ps.1)

  pub All-drop : (n : ℕ) (es : List Dated) → All P es → All P (drop n es)
  All-drop zero es ps = ps
  All-drop (suc n) [] ps = tt
  All-drop (suc n) (e ∷ es) ps = All-drop n es ps.1

pub length-sort_in : (e : Dated) (es : List Dated) → length (sort_in e es) ≡ suc (length es)
length-sort_in e [] = refl
length-sort_in e (f ∷ fs) = elim (Bool-cases (before f.1 e.1)) [
  | inl older ↦ rw older (rw (length-sort_in e fs) refl)
  | inr newer ↦ rw newer refl
]

pub length-sort_by_time : (es : List Dated) → length (sort_by_time es) ≡ length es
length-sort_by_time [] = refl
length-sort_by_time (e ∷ es) =
    rw (length-sort_in e (sort_by_time es)) (ap suc (length-sort_by_time es))

abbrev pub NotBefore : ℕ → Dated → Type 0
NotBefore ts e = signed ts ≤ signed e.1

abbrev pub IsSorted : List Dated → Type 0
IsSorted [] = Unit {0}
IsSorted (e ∷ es) = All (NotBefore e.1) es × IsSorted es

pub sort_in-IsSorted : (e : Dated) (es : List Dated) → IsSorted es → IsSorted (sort_in e es)
sort_in-IsSorted e [] s = (tt, tt)
sort_in-IsSorted e (f ∷ fs) s = elim (Bool-cases (before f.1 e.1)) [
  | inl older ↦ rw older (
    All-sort_in (NotBefore f.1) e fs (omega (arith, ltb→lt (signed f.1) (signed e.1) older)) s.0,
    sort_in-IsSorted e fs s.1,
  )
  | inr newer ↦ rw newer (
    (
      not-ltb→le (signed f.1) (signed e.1) newer,
      All-map fs (λ g le. omega (arith, le, not-ltb→le (signed f.1) (signed e.1) newer)) s.0,
    ),
    s,
  )
]

pub sort_by_time-IsSorted : (es : List Dated) → IsSorted (sort_by_time es)
sort_by_time-IsSorted [] = tt
sort_by_time-IsSorted (e ∷ es) = sort_in-IsSorted e (sort_by_time es) (sort_by_time-IsSorted es)

-- A key in front of a place of the sorted entries is no newer than any behind it.
pub take-NotBefore :
    (limit n : ℕ) (k : Bytes) (es : List Dated)
    → IsSorted es
    → All (IsRecent limit) es
    → has k (names (take n es)) ≡ true
    → (ts : ℕ) × (key_time k ≡ some ts) × All (NotBefore ts) (drop n es)
take-NotBefore limit zero k es s r h = cc
take-NotBefore limit (suc n) k [] s r h = cc
take-NotBefore limit (suc n) k (e ∷ es) s r h = elim (Bool-cases (list_beq e.0 k)) [
  | inl same ↦ (
    e.1,
    subst (λ x. key_time x ≡ some e.1) ((list_beq_iff e.0 k).0 same) r.0.0,
    All-drop (NotBefore e.1) n es s.0,
  )
  | inr differs ↦ take-NotBefore limit n k es s.1 r.1 (ground (arith, h, differs))
]

pub has-append-names :
    (k : Bytes) (xs ys : List Dated)
    → has k (names (xs ++ ys)) ≡ (has k (names xs) || has k (names ys))
has-append-names k [] ys = refl
has-append-names k (x ∷ xs) ys = rw (has-append-names k xs ys) (ground arith)

module _ (limit max_entries : ℕ) (es : List Dated) where
  abbrev pub over : ℕ
  over = length es - max_entries

  pub length-newest : length (newest max_entries es) ≡ length es - over
  length-newest = rw (length-drop over (sort_by_time es)) (rw (length-sort_by_time es) refl)

  -- An entry is over the limit or among the newest.
  pub has-newest :
      (k : Bytes)
      → has k (names es)
        ≡ (has k (names (take over (sort_by_time es))) || has k (names (newest max_entries es)))
  has-newest k =
      sym (has-sort_by_time k es)
      ∙ ap (λ xs. has k (names xs)) (sym (take-append-drop over (sort_by_time es)))
      ∙ has-append-names k (take over (sort_by_time es)) (newest max_entries es)

  pub excess-fits : ltb max_entries (length es) ≡ false → excess max_entries es ≡ []
  excess-fits fits = rw fits refl

  pub none_over : ltb max_entries (length es) ≡ false → 0 ≡ over
  none_over fits = omega (arith, not-ltb→le max_entries (length es) fits)

  pub excess-eq-take : excess max_entries es ≡ take over (sort_by_time es)
  excess-eq-take = elim (Bool-cases (ltb max_entries (length es))) [
    | inl more ↦ rw more refl
    | inr fits ↦ excess-fits fits ∙ ap (λ n. take n (sort_by_time es)) (none_over fits)
  ]

  pub excess-NotBefore :
      (k : Bytes)
      → All (IsRecent limit) es
      → has k (names (excess max_entries es)) ≡ true
      → (ts : ℕ) × (key_time k ≡ some ts) × All (NotBefore ts) (newest max_entries es)
  excess-NotBefore k r h =
      take-NotBefore limit over k (sort_by_time es) (sort_by_time-IsSorted es)
        (All-sort_by_time (IsRecent limit) es r) (rw (sym excess-eq-take) h)

  pub excess-full :
      (k : Bytes)
      → has k (names (excess max_entries es)) ≡ true
      → length (newest max_entries es) ≡ max_entries
  excess-full k h = elim (Bool-cases (ltb max_entries (length es))) [
    | inl more ↦ omega (arith, length-newest, ltb→lt max_entries (length es) more)
    | inr fits ↦ absurd (true-ne-false (sym h ∙ ap (λ xs. has k (names xs)) (excess-fits fits)))
  ]
