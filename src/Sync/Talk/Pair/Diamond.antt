-- ===== src/Sync/Talk/Pair/Diamond.antt =====
-- Moves of the two sides can be made in either order.
use bushido.Prelude.{
  ℕ, zero, suc, ◌≡◌, refl, sym, ap, ◌∙◌, subst, Bool, false, List, [], ◌∷◌, ◌++◌, Option, none,
  some, of_some, none-ne-some,
}
use bushido.Sync.Protocol.{SyncMessage}
use bushido.Sync.Talk.{Talk, done, fault, tell, ask}
use bushido.Sync.Talk.Pair.{
  is_ended, advance, Sides, Side, on_left, on_right, left_moved, right_moved, move,
}

-- A flow that moves has not ended.
moves-open :
    {A : Type 0} (t : Talk A) (waiting : List SyncMessage) (alone : Bool)
    {r : Talk A × List SyncMessage × List SyncMessage}
    → advance t waiting alone ≡ some r
    → is_ended t ≡ false
unfolding advance
moves-open (done a) waiting alone e = cc
moves-open (fault x) waiting alone e = cc
moves-open (tell m t) waiting alone e = refl
moves-open (ask x k) waiting alone e = refl

-- A move that does not need the peer to have ended is the same with more that waits.
advance-more :
    {A : Type 0} (t : Talk A) (waiting more : List SyncMessage) (alone : Bool) (t' : Talk A)
    (waiting' sent : List SyncMessage)
    → advance t waiting false ≡ some (t', waiting', sent)
    → advance t (waiting ++ more) alone ≡ some (t', waiting' ++ more, sent)
unfolding advance
advance-more (done a) waiting more alone t' waiting' sent e = cc
advance-more (fault x) waiting more alone t' waiting' sent e = cc
advance-more (tell m t) waiting more alone t' waiting' sent e = cc
advance-more (ask x k) [] more alone t' waiting' sent e = cc
advance-more (ask x k) (m ∷ waiting) more alone t' waiting' sent e = cc

abbrev Moved : Type 0 → Type 0
Moved A = Talk A × List SyncMessage × List SyncMessage

module _ {A B : Type 0} where
  left_moved-inv :
      (s u : Sides A B) (o : Option (Moved A))
      → left_moved s o ≡ some u
      → (r : Moved A) × (o ≡ some r)
        × (u ≡ record s { left = r.0; to_left = r.1; to_right = s.to_right ++ r.2 })
  left_moved-inv s u none e = absurd (none-ne-some e)
  left_moved-inv s u (some r) e = (r, refl, sym (of_some e))

  right_moved-inv :
      (s u : Sides A B) (o : Option (Moved B))
      → right_moved s o ≡ some u
      → (r : Moved B) × (o ≡ some r)
        × (u ≡ record s { right = r.0; to_right = r.1; to_left = s.to_left ++ r.2 })
  right_moved-inv s u none e = absurd (none-ne-some e)
  right_moved-inv s u (some r) e = (r, refl, sym (of_some e))

  -- Where both sides have a move, they can be made in either order.
  diamond :
      (s u v : Sides A B)
      → move on_left s ≡ some u
      → move on_right s ≡ some v
      → (w : Sides A B) × (move on_right u ≡ some w) × (move on_left v ≡ some w)
  unfolding move
  diamond s u v l r =
      let (a, moves_a, after_a) = left_moved-inv s u _ l in
      let (b, moves_b, after_b) = right_moved-inv s v _ r in
      let left_open = moves-open s.left s.to_left (is_ended s.right) moves_a in
      let right_open = moves-open s.right s.to_right (is_ended s.left) moves_b in
      let still_a =
        advance-more s.left s.to_left b.2 (is_ended b.0) a.0 a.1 a.2 (rw right_open at moves_a) in
      let still_b =
        advance-more s.right s.to_right a.2 (is_ended a.0) b.0 b.1 b.2 (rw left_open at moves_b) in
      (
        record { left = a.0; right = b.0; to_left = a.1 ++ b.2; to_right = b.1 ++ a.2 },
        rw (after_a, still_b) refl,
        rw (after_b, still_a) refl,
      )

  abbrev pub IsFinal : Sides A B → Type 0
  IsFinal s = (move on_left s ≡ none) × (move on_right s ≡ none)

  -- `n` moves from `s` to `u`.
  unfoldable pub Runs : ℕ → Sides A B → Sides A B → Type 0
  Runs zero s u = s ≡ u
  Runs (suc n) s u = (side : Side) × (v : Sides A B) × (move side s ≡ some v) × Runs n v u

  IsFinal-none : (side : Side) (s : Sides A B) → IsFinal s → move side s ≡ none
  IsFinal-none on_left s final = final.0
  IsFinal-none on_right s final = final.1

  -- The first move of a run can be any that its start has.
  pub first_move :
      (n : ℕ) (side : Side) (s v f : Sides A B)
      → IsFinal f
      → Runs n s f
      → move side s ≡ some v
      → (m : ℕ) × (n ≡ suc m) × Runs m v f
  unfolding Runs
  first_move zero side s v f final run e =
      absurd (none-ne-some (sym (IsFinal-none side f final) ∙ ap (move side) (sym run) ∙ e))
  first_move (suc n) on_left s v f final (on_left, u, e', run) e =
      (n, refl, subst (λ x. Runs n x f) (of_some (sym e' ∙ e)) run)
  first_move (suc n) on_right s v f final (on_right, u, e', run) e =
      (n, refl, subst (λ x. Runs n x f) (of_some (sym e' ∙ e)) run)
  first_move (suc n) on_left s v f final (on_right, u, e', run) e =
      let (w, right_v, left_u) = diamond s v u e e' in
      let (m, count, rest) = first_move n on_left u w f final run left_u in
      (n, refl, subst (λ k. Runs k v f) (sym count) (on_right, w, right_v, rest))
  first_move (suc n) on_right s v f final (on_left, u, e', run) e =
      let (w, right_u, left_v) = diamond s u v e' e in
      let (m, count, rest) = first_move n on_right u w f final run right_u in
      (n, refl, subst (λ k. Runs k v f) (sym count) (on_left, w, left_v, rest))
