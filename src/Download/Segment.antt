-- ===== src/Download/Segment.antt =====
-- `struct Segment` of src-tauri/src/downloads.rs, and the ranges of bytes that a list of them covers.
use bushido.Prelude.{
  ℕ, ◌+◌, ◌≤◌, ◌≡◌, refl, Bool, List, [], ◌∷◌, ◌++◌, leb, ltb, ◌&&◌, if◌then◌else◌, arith, zero,
  suc, ◌<◌, true, All, Bool-cases, inl, inr, some, get_elem?, set,
}

-- The range from `start` to `end`, both included; `downloaded` counts the bytes received.
pub record Segment : Type 0 where
  pub idx : ℕ
  pub start : ℕ
  pub end : ℕ
  pub downloaded : ℕ
  pub done : Bool

abbrev pub holds : ℕ → Segment → Bool
holds o s = leb s.start o && leb o s.end

abbrev pub held : ℕ → Segment → ℕ
held o s = if holds o s then 1 else 0

-- How many of the segments hold the byte at offset `o`.
pub cover : ℕ → List Segment → ℕ
cover o [] = 0
cover o (s ∷ segs) = held o s + cover o segs

-- Every byte below `total` lies in exactly one segment, and no other byte in any.
abbrev pub IsPartition : ℕ → List Segment → Type 0
IsPartition total segs = (o : ℕ) → cover o segs ≡ (if ltb o total then 1 else 0)

-- The `idx` fields count up from `n`.
abbrev pub IsIndexed : ℕ → List Segment → Type 0
IsIndexed n [] = Unit {0}
IsIndexed n (s ∷ segs) = (s.idx ≡ n) × IsIndexed (suc n) segs

abbrev pub IsOrdered : Segment → Type 0
IsOrdered s = s.start ≤ s.end

pub cover-append : (o : ℕ) (xs ys : List Segment) → cover o (xs ++ ys) ≡ cover o xs + cover o ys
unfolding cover
cover-append o [] ys = omega arith
cover-append o (x ∷ xs) ys = omega (arith, cover-append o xs ys)

pub cover-set :
    (o : ℕ) (segs : List Segment) (i : ℕ) (s t : Segment)
    → get_elem? segs i ≡ some s
    → cover o (set segs i t) + held o s ≡ cover o segs + held o t
unfolding cover
cover-set o [] i s t e = cc
cover-set o (x ∷ segs) zero s t e = ground arith
cover-set o (x ∷ segs) (suc i) s t e = omega (arith, cover-set o segs i s t e)

pub cover_cons :
    (o : ℕ) (s : Segment) (segs : List Segment) → cover o (s ∷ segs) ≡ held o s + cover o segs
unfolding cover
cover_cons o s segs = refl

pub cover_single : (o : ℕ) (s : Segment) → cover o (s ∷ []) ≡ held o s
unfolding cover
cover_single o s = omega arith

-- Some segment holds a byte that is covered.
pub cover-any :
    (C : Type 0) (o : ℕ) (segs : List Segment)
    → 0 < cover o segs
    → All (λ s. holds o s ≡ true → C) segs
    → C
unfolding cover
cover-any C o [] pos h = absurd (omega arith)
cover-any C o (s ∷ segs) pos h = elim (Bool-cases (holds o s)) [
  | inl here ↦ h.0 here
  | inr other ↦ cover-any C o segs (ground arith) h.1
]

-- The segments follow one another from `lo` up to `hi`.
abbrev pub Tiles : ℕ → ℕ → List Segment → Type 0
Tiles lo hi [] = lo ≡ hi
Tiles lo hi (s ∷ segs) = (s.start ≡ lo) × (s.start ≤ s.end) × Tiles (suc s.end) hi segs

pub Tiles-le : (lo hi : ℕ) (segs : List Segment) → Tiles lo hi segs → lo ≤ hi
Tiles-le lo hi [] h = omega arith
Tiles-le lo hi (s ∷ segs) h = omega (arith, Tiles-le (suc s.end) hi segs h.2)

pub cover-Tiles :
    (o lo hi : ℕ) (segs : List Segment)
    → Tiles lo hi segs
    → cover o segs ≡ (if leb lo o && ltb o hi then 1 else 0)
unfolding cover
cover-Tiles o lo hi [] h = ground arith
cover-Tiles o lo hi (s ∷ segs) h =
    ground (arith, cover-Tiles o (suc s.end) hi segs, Tiles-le (suc s.end) hi segs)
