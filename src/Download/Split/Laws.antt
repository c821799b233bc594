-- ===== src/Download/Split/Laws.antt =====
-- The laws of `try_split`.
use bushido.Prelude.{
  ℕ, zero, suc, ◌+◌, ◌≤◌, ◌<◌, ◌≡◌, refl, ap, ◌∙◌, ◌⊎◌, inl, inr, sym, of_some, ◌*◌, false, Option,
  none, some, List, [], ◌∷◌, ◌++◌, All, All-map, All-set, All-append, length, length-set, get_elem?,
  set, arith, ltb, Bool-cases,
}
use native.Mathlib.Nat.{zero-add}
use bushido.Download.Segment.{
  Segment, cover, held, cover_single, cover-append, cover-set, IsPartition, IsIndexed, IsOrdered,
}
use bushido.Download.Split.{
  remaining, best_from, better, midpoint, first_half, second_half, split_at, split_floor,
  split_best, try_split,
}

IsIndexed-set :
    (n : ℕ) (segs : List Segment) (i : ℕ) (s : Segment) (end : ℕ)
    → get_elem? segs i ≡ some s
    → IsIndexed n segs
    → IsIndexed n (set segs i (record s { end = end }))
IsIndexed-set n [] i s end e h = tt
IsIndexed-set n (x ∷ segs) zero s end e h = ground arith
IsIndexed-set n (x ∷ segs) (suc i) s end e h = (h.0, IsIndexed-set (suc n) segs i s end e h.1)

IsIndexed-append :
    (n : ℕ) (segs : List Segment) (s : Segment)
    → IsIndexed n segs
    → s.idx ≡ n + length segs
    → IsIndexed n (segs ++ (s ∷ []))
IsIndexed-append n [] s h e = (omega arith, tt)
IsIndexed-append n (x ∷ segs) s h e = (h.0, IsIndexed-append (suc n) segs s h.1 (omega arith))

better-cases :
    (n : ℕ) (s : Segment) (best : Option ℕ × ℕ)
    → (better n s best ≡ best) ⊎ ((better n s best ≡ (some n, remaining s)) × (s.done ≡ false))
better-cases n s best = ground arith

-- Where the search for the best segment ends: where it began, or at an open segment of the list.
best_from-cases :
    (n : ℕ) (segs : List Segment) (best : Option ℕ × ℕ)
    → (best_from n segs best ≡ best)
      ⊎ ((i : ℕ) × (s : Segment) × (best_from n segs best ≡ (some (n + i), remaining s))
          × (get_elem? segs i ≡ some s)
          × (s.done ≡ false))
unfolding best_from
best_from-cases n [] best = inl refl
best_from-cases n (x ∷ segs) best = elim (best_from-cases (suc n) segs (better n x best)) [
  | inl e ↦ elim (better-cases n x best) [
    | inl kept ↦ inl (e ∙ kept)
    | inr (taken, open_) ↦
        inr (0, x, e ∙ taken ∙ ap (λ k. (some k, remaining x)) (omega arith), refl, open_)
  ]
  | inr (i, s, e, at_i, open_) ↦
      inr (suc i, s, e ∙ ap (λ k. (some k, remaining s)) (omega arith), at_i, open_)
]

-- No open segment of the list has more left than the best one.
best_from_most :
    (n : ℕ) (segs : List Segment) (best : Option ℕ × ℕ)
    → (best.1 ≤ (best_from n segs best).1)
      × All (λ s. s.done ≡ false → remaining s ≤ (best_from n segs best).1) segs
unfolding best_from
best_from_most n [] best = (omega arith, tt)
best_from_most n (x ∷ segs) best =
    let (rest, all) = best_from_most (suc n) segs (better n x best) in
    (ground arith, (λ h. ground arith, all))

-- The two ways that `try_split` ends: nothing large enough is open, or the open segment `s` at
-- position `i` has most left.
pub try_split-cases :
    (segs : List Segment)
    → ((try_split segs ≡ (none, segs)) × All (λ s. s.done ≡ false → remaining s < split_floor) segs)
      ⊎ ((i : ℕ) × (s : Segment) × (try_split segs ≡ split_at i segs)
          × (get_elem? segs i ≡ some s)
          × (s.done ≡ false)
          × (split_floor ≤ remaining s)
          × All (λ t. t.done ≡ false → remaining t ≤ remaining s) segs)
unfolding try_split split_best
try_split-cases segs =
    let (_, most) = best_from_most 0 segs (none, 0) in
    elim (best_from-cases 0 segs (none, 0)) [
      | inl e ↦ inl (
        rw (e, try_split, split_best),
        All-map segs (λ s small open_. omega (arith, small open_, ap (λ b. b.1) e)) most,
      )
      | inr (i, s, e, at_i, open_) ↦ elim (Bool-cases (ltb (remaining s) split_floor)) [
        | inl small ↦ inl (
          rw (e, try_split, split_best) (rw small),
          All-map segs (λ t le is_open. ground (arith, le is_open, ap (λ b. b.1) e)) most,
        )
        | inr large ↦ inr (
          i,
          s,
          rw (e, try_split, split_best) (rw (large, zero-add)),
          at_i,
          open_,
          ground arith,
          All-map segs (λ t le is_open. omega (arith, le is_open, ap (λ b. b.1) e)) most,
        )
      ]
    ]

-- The halves of an open segment with 1 MiB left or more.
module _ (i : ℕ) (segs : List Segment) (s : Segment) where
  pub split_at_lem :
      get_elem? segs i ≡ some s
      → split_at i segs ≡ (
        some (length segs, midpoint s + 1, s.end),
        set segs i (first_half s) ++ (second_half (length segs) s ∷ []),
      )
  unfolding split_at
  split_at_lem e = rw (e, split_at)

  pub midpoint_bounds :
      split_floor ≤ remaining s
      → (s.start + s.downloaded + 524288 ≤ midpoint s + 1) × (midpoint s + 524288 ≤ s.end)
  unfolding remaining
  midpoint_bounds h = omega arith

  halves-held :
      (o n : ℕ)
      → split_floor ≤ remaining s
      → held o (first_half s) + held o (second_half n s) ≡ held o s
  halves-held o n h = let bounds = midpoint_bounds h in ground arith

  pub split_at-cover :
      (o : ℕ)
      → get_elem? segs i ≡ some s
      → split_floor ≤ remaining s
      → cover o (split_at i segs).1 ≡ cover o segs
  split_at-cover o e h = rw (split_at_lem e) (
      omega (
        arith,
        cover-append o (set segs i (first_half s)) (second_half (length segs) s ∷ []),
        cover_single o (second_half (length segs) s),
        cover-set o segs i s (first_half s) e,
        halves-held o (length segs) h,
      ))

  pub split_at-IsOrdered :
      get_elem? segs i ≡ some s
      → split_floor ≤ remaining s
      → All IsOrdered segs
      → All IsOrdered (split_at i segs).1
  split_at-IsOrdered e h ordered =
      let bounds = midpoint_bounds h in
      rw (split_at_lem e) (
        All-append IsOrdered (set segs i (first_half s)) (second_half (length segs) s ∷ [])
          (All-set IsOrdered segs i (first_half s) ordered (omega arith)) (omega arith, tt))

  pub split_at-IsIndexed :
      get_elem? segs i ≡ some s → IsIndexed 0 segs → IsIndexed 0 (split_at i segs).1
  split_at-IsIndexed e h = rw (split_at_lem e) (
      IsIndexed-append 0 (set segs i (first_half s)) (second_half (length segs) s)
        (IsIndexed-set 0 segs i s (midpoint s) e h)
        (omega (arith, length-set segs i (first_half s))))

-- Segments that partition a file of `total` bytes, numbered in order, none of them empty.
pub record IsSound (total : ℕ) (segs : List Segment) : Type 0 where
  pub partition : IsPartition total segs
  pub indexed : IsIndexed 0 segs
  pub ordered : All IsOrdered segs

-- A split leaves sound segments sound: every byte stays in exactly one segment.
pub try_split-IsSound :
    (total : ℕ) (segs : List Segment) → IsSound total segs → IsSound total (try_split segs).1
try_split-IsSound total segs sound = elim (try_split-cases segs) [
  | inl (e, _) ↦ rw e sound
  | inr (i, s, e, at_i, _, large, _) ↦ rw e (record {
    partition = λ o. split_at-cover i segs s o at_i large ∙ sound.partition o;
    indexed = split_at-IsIndexed i segs s at_i sound.indexed;
    ordered = split_at-IsOrdered i segs s at_i large sound.ordered;
  })
]

-- Where a split hands out the range from `lo` to `hi` under the index `n`, the index is new, the
-- range is the end of an open segment that no other open segment has more left than, and 512 KiB
-- at least are left on either side of the cut.
pub try_split_halves :
    (segs : List Segment) (n lo hi : ℕ)
    → (try_split segs).0 ≡ some (n, lo, hi)
    → (s : Segment) × (s.done ≡ false)
      × (n ≡ length segs)
      × (hi ≡ s.end)
      × (s.start + s.downloaded + 512 * 1024 ≤ lo)
      × (lo + 512 * 1024 ≤ hi + 1)
      × All (λ t. t.done ≡ false → remaining t ≤ remaining s) segs
try_split_halves segs n lo hi given = elim (try_split-cases segs) [
  | inl (e, _) ↦ cc
  | inr (i, s, e, at_i, more, large, most) ↦
      let bounds = midpoint_bounds i segs s large in
      let range = of_some (sym (ap (λ r. r.0) (e ∙ split_at_lem i segs s at_i)) ∙ given) in
      let same_n : length segs ≡ n = ap (λ r. r.0) range in
      let same_lo : midpoint s + 1 ≡ lo = ap (λ r. r.1) range in
      let same_hi : s.end ≡ hi = ap (λ r. r.2) range in
      (s, more, omega arith, omega arith, omega arith, omega arith, most)
]
