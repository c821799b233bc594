-- ===== src/Sync/Talk/Pair/Order.antt =====
-- The order in which two flows move does not matter to where they end.
use bushido.Prelude.{
  ℕ, zero, suc, ◌≤◌, ◌≡◌, refl, sym, ◌∙◌, subst, true, List, [], ◌∷◌, ◌++◌, Option, none, some,
  none-ne-some, arith, length,
}
use bushido.Sync.Talk.{Talk, done, fault, tell, ask}
use bushido.Sync.Talk.Pair.{
  is_ended, advance, Sides, Side, on_left, on_right, left_moved, right_moved, move, or_stay,
  schedule, rounds,
}
use bushido.Sync.Talk.Pair.Diamond.{IsFinal, Runs, first_move}

module _ {A B : Type 0} where
  after_move :
      (n : ℕ) (side : Side) (s f : Sides A B)
      → IsFinal f
      → Runs n s f
      → (m : ℕ) × (m ≤ n) × Runs m (or_stay s (move side s)) f
  after_move n side s f final run = go (move side s) refl
    where
      go : (o : Option (Sides A B)) → move side s ≡ o → (m : ℕ) × (m ≤ n) × Runs m (or_stay s o) f
      go none e = (n, omega arith, run)
      go (some v) e =
          let (m, count, rest) = first_move n side s v f final run e in (m, omega arith, rest)

  after_schedule :
      (n : ℕ) (order : List Side) (s f : Sides A B)
      → IsFinal f
      → Runs n s f
      → (m : ℕ) × (m ≤ n) × Runs m (schedule order s) f
  unfolding schedule
  after_schedule n [] s f final run = (n, omega arith, run)
  after_schedule n (side ∷ order) s f final run =
      let (m, le, rest) = after_move n side s f final run in
      let (k, le', last) = after_schedule m order _ f final rest in (k, omega arith, last)

  -- One move of each side, where there is a move left, brings the end nearer.
  after_round :
      (n : ℕ) (s f : Sides A B)
      → IsFinal f
      → Runs (suc n) s f
      → (m : ℕ) × (m ≤ n)
        × Runs m
            (or_stay (or_stay s (move on_left s)) (move on_right (or_stay s (move on_left s))))
            f
  unfolding Runs
  after_round n s f final run = go (move on_left s) refl run
    where
      right_first :
          (side : Side) (u : Sides A B)
          → move side s ≡ some u
          → Runs n u f
          → move on_left s ≡ none
          → (m : ℕ) × (m ≤ n) × Runs m (or_stay s (move on_right s)) f
      right_first on_left u e rest none_left = absurd (none-ne-some (sym none_left ∙ e))
      right_first on_right u e rest none_left =
          (n, omega arith, subst (λ o. Runs n (or_stay s o) f) (sym e) rest)

      go :
          (o : Option (Sides A B))
          → move on_left s ≡ o
          → Runs (suc n) s f
          → (m : ℕ) × (m ≤ n) × Runs m (or_stay (or_stay s o) (move on_right (or_stay s o))) f
      go none e (side, u, e', rest) = right_first side u e' rest e
      go (some v) e run =
          let (m, count, rest) = first_move (suc n) on_left s v f final run e in
          let (k, le, last) = after_move m on_right v f final rest in (k, omega arith, last)

  stays : (order : List Side) (f : Sides A B) → IsFinal f → schedule order f ≡ f
  unfolding schedule
  stays [] f final = refl
  stays (on_left ∷ order) f final = rw final.0 (stays order f final)
  stays (on_right ∷ order) f final = rw final.1 (stays order f final)

  rounds-end :
      (n k : ℕ) (s f : Sides A B) → IsFinal f → Runs n s f → n ≤ k → schedule (rounds k) s ≡ f
  unfolding schedule rounds Runs
  rounds-end zero k s f final run le =
      subst (λ x. schedule (rounds k) x ≡ f) (sym run) (stays (rounds k) f final)
  rounds-end (suc n) zero s f final run le = absurd (omega arith)
  rounds-end (suc n) (suc k) s f final run le =
      let (m, fewer, rest) = after_round n s f final run in
      rounds-end m k _ f final rest (omega arith)

  one_more :
      (k : ℕ) (side : Side) (s f : Sides A B) (o : Option (Sides A B))
      → move side s ≡ o
      → (n : ℕ) × (n ≤ k) × Runs n (or_stay s o) f
      → (n : ℕ) × (n ≤ suc k) × Runs n s f
  unfolding Runs
  one_more k side s f none e (n, le, run) = (n, omega arith, run)
  one_more k side s f (some u) e (n, le, run) = (suc n, omega arith, (side, u, e, run))

  schedule-Runs :
      (order : List Side) (s f : Sides A B)
      → schedule order s ≡ f
      → (n : ℕ) × (n ≤ length order) × Runs n s f
  unfolding schedule Runs
  schedule-Runs [] s f e = (0, omega arith, e)
  schedule-Runs (side ∷ order) s f e =
      one_more (length order) side s f (move side s) refl (schedule-Runs order _ f e)

  ended-IsFinal : (f : Sides A B) → is_ended f.left ≡ true → is_ended f.right ≡ true → IsFinal f
  unfolding move advance
  ended-IsFinal f l r = (left_none f.left l, right_none f.right r)
    where
      left_none :
          (t : Talk A)
          → is_ended t ≡ true
          → left_moved f (advance t f.to_left (is_ended f.right)) ≡ none
      left_none (done a) e = refl
      left_none (fault x) e = refl
      left_none (tell m t) e = cc
      left_none (ask x k) e = cc

      right_none :
          (t : Talk B)
          → is_ended t ≡ true
          → right_moved f (advance t f.to_right (is_ended f.left)) ≡ none
      right_none (done a) e = refl
      right_none (fault x) e = refl
      right_none (tell m t) e = cc
      right_none (ask x k) e = cc

  -- Two flows that end when they move in some order, end in the same way in any order: after any
  -- moves, as many rounds of both sides as that order has moves bring them to that end, with the same
  -- results and the same messages left.
  pub any_order :
      (order other : List Side) (s f : Sides A B)
      → schedule order s ≡ f
      → is_ended f.left ≡ true
      → is_ended f.right ≡ true
      → schedule (rounds (length order)) (schedule other s) ≡ f
  any_order order other s f ends left right =
      let final = ended-IsFinal f left right in
      let (n, le, run) = schedule-Runs order s f ends in
      let (m, fewer, rest) = after_schedule n other s f final run in
      rounds-end m (length order) (schedule other s) f final rest (omega arith)

  pub schedule-append :
      (order more : List Side) (s : Sides A B)
      → schedule (order ++ more) s ≡ schedule more (schedule order s)
  unfolding schedule
  schedule-append [] more s = refl
  schedule-append (side ∷ order) more s = schedule-append order more _
