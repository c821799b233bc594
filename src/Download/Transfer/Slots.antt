-- ===== src/Download/Transfer/Slots.antt =====
-- Lookup and update by index, and what the invariant says of one segment and its worker.
use bushido.Prelude.{
  ℕ, suc, ◌+◌, ◌<◌, ◌≡◌, ◌≢◌, refl, true, false, none, some, List, [], ◌∷◌, All, All-map, length,
  arith, ◌==◌, ==_iff, Bool-cases, inl, inr, if◌then◌else◌,
}
use mathlib.Core.Option
use bushido.Download.Segment.{Segment, IsIndexed, cover, cover_cons, held}
use native.Mathlib.Decide.{ℕ_discrete}
use bushido.Download.Transfer.{
  Worker, find_seg, update_seg, find_worker, update_worker, spawn_segment_worker,
}

ne→==false : (a b : ℕ) → a ≢ b → (a == b) ≡ false
ne→==false a b h = ground arith

-- How many workers have not sent their index.
pub unfinished : List Worker → ℕ
unfinished [] = 0
unfinished (w ∷ ws) = (if w.finished then 0 else 1) + unfinished ws

pub no_unfinished : unfinished [] ≡ 0
unfolding unfinished
no_unfinished = refl

module _ (k : ℕ) (f : Worker → Worker) (keeps : (w : Worker) → (f w).seg_idx ≡ w.seg_idx) where
  find_worker-update :
      (j : ℕ) (ws : List Worker)
      → find_worker j (update_worker k f ws)
        ≡ (if k == j then Option.map f (find_worker j ws) else find_worker j ws)
  unfolding find_worker update_worker
  find_worker-update j [] = ground arith
  find_worker-update j (w ∷ ws) = ground (arith, keeps w, find_worker-update j ws)

  pub find_worker-update_other :
      (j : ℕ) (ws : List Worker) → j ≢ k → find_worker j (update_worker k f ws) ≡ find_worker j ws
  find_worker-update_other j ws ne = ground (arith, find_worker-update j ws)

  pub find_worker-update_self :
      (ws : List Worker) (w : Worker)
      → find_worker k ws ≡ some w
      → find_worker k (update_worker k f ws) ≡ some (f w)
  find_worker-update_self ws w e = ground (arith, find_worker-update k ws)

pub unfinished-finish :
    (k : ℕ) (w : Worker) (ws : List Worker)
    → find_worker k ws ≡ some w
    → w.finished ≡ false
    → unfinished (update_worker k (λ v. record v { finished = true }) ws) + 1 ≡ unfinished ws
unfolding find_worker update_worker unfinished
unfinished-finish k w [] e open_ = cc
unfinished-finish k w (x ∷ ws) e open_ = ground (arith, unfinished-finish k w ws)

pub unfinished-update :
    (k : ℕ) (f : Worker → Worker) (ws : List Worker)
    → ((w : Worker) → (f w).finished ≡ w.finished)
    → unfinished (update_worker k f ws) ≡ unfinished ws
unfolding update_worker unfinished
unfinished-update k f [] same = refl
unfinished-update k f (x ∷ ws) same = ground (arith, same x, unfinished-update k f ws same)

-- A worker that is not finished is counted.
pub unfinished_pos :
    (k : ℕ) (w : Worker) (ws : List Worker)
    → find_worker k ws ≡ some w
    → w.finished ≡ false
    → 0 < unfinished ws
unfolding find_worker unfinished
unfinished_pos k w [] e open_ = cc
unfinished_pos k w (x ∷ ws) e open_ = ground (arith, unfinished_pos k w ws)

pub unfinished-spawn :
    (k from end : ℕ) (ws : List Worker)
    → unfinished (spawn_segment_worker k from end ws) ≡ unfinished ws + 1
unfolding spawn_segment_worker unfinished
unfinished-spawn k from end [] = refl
unfinished-spawn k from end (w ∷ ws) = omega (arith, unfinished-spawn k from end ws)

-- A new worker is found under its own index if that was free, and changes no other lookup.
pub find_worker-spawn_other :
    (k from end j : ℕ) (ws : List Worker)
    → k ≢ j
    → find_worker j (spawn_segment_worker k from end ws) ≡ find_worker j ws
unfolding spawn_segment_worker find_worker
find_worker-spawn_other k from end j [] ne = ground arith
find_worker-spawn_other k from end j (w ∷ ws) ne =
    ground (arith, find_worker-spawn_other k from end j ws ne)

pub find_worker-spawn_self :
    (k from end : ℕ) (ws : List Worker)
    → find_worker k ws ≡ none
    → find_worker k (spawn_segment_worker k from end ws)
      ≡ some (record {
        seg_idx = k;
        offset = from;
        range_end = end;
        finished = false;
        stopped = false;
      })
unfolding spawn_segment_worker find_worker
find_worker-spawn_self k from end [] e = ground arith
find_worker-spawn_self k from end (w ∷ ws) e = ground (arith, find_worker-spawn_self k from end ws)

pub IsIndexed-lt :
    (n : ℕ) (segs : List Segment) → IsIndexed n segs → All (λ s. s.idx < n + length segs) segs
IsIndexed-lt n [] h = tt
IsIndexed-lt n (s ∷ segs) h = (
  omega arith,
  All-map segs (λ x (lt : x.idx < suc n + length segs). omega arith)
      (IsIndexed-lt (suc n) segs h.1),
)

All-trivial : (segs : List Segment) → All (λ s. Unit {0}) segs
All-trivial [] = tt
All-trivial (s ∷ segs) = (tt, All-trivial segs)

-- Beyond position `k` no segment has the index `k`.
All-beyond {κ μ} :
    {P : Segment → Type κ} (Q : Segment → Type μ) (k n : ℕ) (segs : List Segment)
    → ((s : Segment) → s.idx ≢ k → P s → Q s)
    → k < n
    → IsIndexed n segs
    → All P segs
    → All Q segs
All-beyond Q k n [] other lt i h = tt
All-beyond Q k n (s ∷ segs) other lt i h =
    (other s (omega arith) h.0, All-beyond Q k (suc n) segs other (omega arith) i.1 h.1)

-- An update by index changes the one segment of that index.
pub All-update_seg {κ μ} :
    {P : Segment → Type κ} (Q : Segment → Type μ) (k : ℕ) (f : Segment → Segment) (n : ℕ)
    (segs : List Segment)
    → ((s : Segment) → s.idx ≢ k → P s → Q s)
    → ((s : Segment) → s.idx ≡ k → P s → Q (f s))
    → IsIndexed n segs
    → All P segs
    → All Q (update_seg k f segs)
unfolding update_seg
All-update_seg Q k f n [] other same i h = tt
All-update_seg Q k f n (s ∷ segs) other same i h = elim (ℕ_discrete s.idx k) [
  | yes e ↦
      rw ((==_iff s.idx k).1 e)
        (same s e h.0, All-beyond Q k (suc n) segs other (omega arith) i.1 h.1)
  | no ne ↦
      rw (ne→==false s.idx k ne)
        (other s ne h.0, All-update_seg Q k f (suc n) segs other same i.1 h.1)
]

pub IsIndexed-update_seg :
    (k : ℕ) (f : Segment → Segment) (n : ℕ) (segs : List Segment)
    → ((s : Segment) → (f s).idx ≡ s.idx)
    → IsIndexed n segs
    → IsIndexed n (update_seg k f segs)
unfolding update_seg
IsIndexed-update_seg k f n [] same h = tt
IsIndexed-update_seg k f n (s ∷ segs) same h =
    ground (arith, same s, IsIndexed-update_seg k f (suc n) segs same h.1)

pub cover-update_seg :
    (o k : ℕ) (f : Segment → Segment) (segs : List Segment)
    → ((s : Segment) → held o (f s) ≡ held o s)
    → cover o (update_seg k f segs) ≡ cover o segs
unfolding update_seg
cover-update_seg o k f [] same = refl
cover-update_seg o k f (s ∷ segs) same = elim (Bool-cases (s.idx == k)) [
  | inl e ↦ rw e (omega (arith, cover_cons o (f s) segs, cover_cons o s segs, same s))
  | inr e ↦ rw e (
      omega (
        arith,
        cover_cons o s (update_seg k f segs),
        cover_cons o s segs,
        cover-update_seg o k f segs same,
      ))
]

pub length-update_seg :
    (k : ℕ) (f : Segment → Segment) (segs : List Segment)
    → length (update_seg k f segs) ≡ length segs
unfolding update_seg
length-update_seg k f [] = refl
length-update_seg k f (s ∷ segs) = ground (arith, length-update_seg k f segs)

-- The search by index finds the one segment of that index.
pub find_seg_unique :
    (k : ℕ) (s : Segment) (n : ℕ) (segs : List Segment)
    → find_seg k segs ≡ some s
    → IsIndexed n segs
    → All (λ x. x.idx ≡ k → x ≡ s) segs
unfolding find_seg
find_seg_unique k s n [] e i = tt
find_seg_unique k s n (x ∷ segs) e i = elim (ℕ_discrete x.idx k) [
  | yes same ↦
      let found : x ≡ s = ground arith in
      (
        (λ _. found),
        All-beyond {P = λ y. Unit {0}} (λ y. y.idx ≡ k → y ≡ s) k (suc n) segs
            (λ y ne _ eq. absurd (ne eq)) (omega arith) i.1 (All-trivial segs),
      )
  | no ne ↦ ((λ same. absurd (ne same)), find_seg_unique k s (suc n) segs (ground arith) i.1)
]

pub find_seg-none :
    (k : ℕ) (segs : List Segment) → find_seg k segs ≡ none → All (λ x. x.idx ≢ k) segs
unfolding find_seg
find_seg-none k [] e = tt
find_seg-none k (x ∷ segs) e = (ground arith, find_seg-none k segs (ground arith))

pub update_seg_id : (k : ℕ) (segs : List Segment) → update_seg k (λ s. s) segs ≡ segs
unfolding update_seg
update_seg_id k [] = refl
update_seg_id k (s ∷ segs) = ground (arith, update_seg_id k segs)
