-- ===== src/Download/FileName.antt =====
-- `dedup_filename` of src-tauri/src/downloads.rs, which chooses the name of a new file. Which names
-- have a file, and the two parts of a name (`Path::file_stem`, `Path::extension`), are parameters.
mod Tests
use bushido.Prelude.{
  ℕ, zero, suc, ◌+◌, ◌/◌, ◌%◌, ◌≤◌, ◌<◌, ◌≡◌, refl, ap, inl, inr, Bool, true, false, List, [], ◌∷◌,
  ◌++◌, Option, none, some, Bytes, codes, ltb, if◌then◌else◌, Bool-cases, arith, sym, ◌∙◌, subst,
  ◌⊎◌,
}

-- `{}` of a number, of at most `fuel` digits.
abbrev pub digits : ℕ → ℕ → Bytes
digits zero n = []
digits (suc fuel) n =
    let front = digits fuel (n / 10) in
    if ltb n 10 then (48 + n) ∷ [] else front ++ ((48 + n % 10) ∷ [])

module _ (exists : Bytes → Bool) (stem : Bytes) (ext : Option Bytes) where
  -- `i` has three digits at most.
  unfoldable pub candidate : ℕ → Bytes
  candidate i =
      (stem ++ codes " (")
      ++ (digits 3 i ++ codes ")")
      ++ elim ext [ none ↦ [] | some e ↦ codes "." ++ e ]

  -- The loop from `i` on, with the number of rounds.
  unfoldable pub first_free : ℕ → ℕ → Option Bytes
  first_free i zero = none
  first_free i (suc rounds) =
      let rest = first_free (suc i) rounds in
      if exists (candidate i) then rest else some (candidate i)

  abbrev or_name : Option Bytes → Bytes → Bytes
  or_name none name = name
  or_name (some found) name = found

  unfoldable pub dedup_filename : Bytes → Bytes
  unfolding first_free candidate
  dedup_filename name = if exists name then or_name (first_free 1 999) name else name

  first_free-free :
      (i rounds k : ℕ) (name : Bytes)
      → i ≤ k
      → k < i + rounds
      → exists (candidate k) ≡ false
      → exists (or_name (first_free i rounds) name) ≡ false
  unfolding first_free
  first_free-free i zero k name low high free = absurd (omega arith)
  first_free-free i (suc rounds) k name low high free = elim (Bool-cases (exists (candidate i))) [
    | inr here ↦ rw here here
    | inl taken ↦
        let other : suc i ≤ k =
          below i k low
            (λ same. true-ne-false (sym taken ∙ ap (λ j. exists (candidate j)) same ∙ free)) in
        rw taken (first_free-free (suc i) rounds k name other (omega arith) free)
  ]
    where
      true-ne-false : true ≡ false → ⊥
      true-ne-false e = cc

      below : (i k : ℕ) → i ≤ k → (i ≡ k → ⊥) → suc i ≤ k
      below i k low other = ground (arith, other)

  first_free-none :
      (i rounds : ℕ)
      → ((k : ℕ) → i ≤ k → k < i + rounds → exists (candidate k) ≡ true)
      → first_free i rounds ≡ none
  unfolding first_free
  first_free-none i zero taken = refl
  first_free-none i (suc rounds) taken =
      rw (taken i (omega arith) (omega arith))
        (first_free-none (suc i) rounds (λ k low high. taken k (omega arith) (omega arith)))

  -- Where one of the names with the numbers 1 to 999 is free, the name that is chosen has no file.
  pub dedup_filename-free :
      (name : Bytes) (k : ℕ)
      → 1 ≤ k
      → k ≤ 999
      → exists (candidate k) ≡ false
      → exists (dedup_filename name) ≡ false
  unfolding dedup_filename
  dedup_filename-free name k low high free = elim (Bool-cases (exists name)) [
    | inr new ↦ rw new new
    | inl old ↦ rw old (first_free-free 1 999 k name low (omega arith) free)
  ]

  -- Where the name and all of the names with the numbers 1 to 999 have a file, the name itself is
  -- chosen, which has one.
  pub dedup_filename-taken :
      (name : Bytes)
      → exists name ≡ true
      → ((k : ℕ) → 1 ≤ k → k < 1000 → exists (candidate k) ≡ true)
      → (dedup_filename name ≡ name) × (exists (dedup_filename name) ≡ true)
  unfolding dedup_filename
  dedup_filename-taken name old taken =
      let full = first_free-none 1 999 taken in rw old (rw full (refl, old))

  -- The names with the numbers 1 to `n` have a file.
  pub Taken : ℕ → Type 0
  Taken zero = Unit {0}
  Taken (suc n) = (exists (candidate (suc n)) ≡ true) × Taken n

  -- The name itself where it has no file, else the first numbered one that has none, else itself.
  abbrev pub IsChosen : Bytes → Bytes → Type 0
  IsChosen name chosen =
      ((exists name ≡ false) × (chosen ≡ name))
      ⊎ (((exists name ≡ true)
            × ((j : ℕ) × (chosen ≡ candidate (suc j))
                × (j < 999)
                × (exists (candidate (suc j)) ≡ false)
                × Taken j))
          ⊎ ((exists name ≡ true) × Taken 999 × (chosen ≡ name)))

  abbrev FirstFree : ℕ → ℕ → Option Bytes → Type 0
  FirstFree n rounds found =
      ((j : ℕ) × (found ≡ some (candidate (suc j)))
        × (j < n + rounds)
        × (exists (candidate (suc j)) ≡ false)
        × Taken j)
      ⊎ ((found ≡ none) × Taken (n + rounds))

  first_free_lem : (n rounds : ℕ) → Taken n → FirstFree n rounds (first_free (suc n) rounds)
  unfolding first_free Taken
  first_free_lem n zero taken = inr (refl, subst Taken (omega arith) taken)
  first_free_lem n (suc rounds) taken = elim (Bool-cases (exists (candidate (suc n)))) [
    | inr free ↦ inl (n, rw free refl, omega arith, free, taken)
    | inl used ↦ rw used (
        subst
          (λ m.
            ((j : ℕ) × (first_free (suc (suc n)) rounds ≡ some (candidate (suc j)))
              × (j < m)
              × (exists (candidate (suc j)) ≡ false)
              × Taken j)
            ⊎ ((first_free (suc (suc n)) rounds ≡ none) × Taken m))
          (omega arith) (first_free_lem (suc n) rounds (used, taken)))
  ]

  pub dedup_filename-IsChosen : (name : Bytes) → IsChosen name (dedup_filename name)
  unfolding dedup_filename Taken
  dedup_filename-IsChosen name = elim (Bool-cases (exists name)) [
    | inr new ↦ rw new (inl (refl, refl))
    | inl old ↦ elim (first_free_lem 0 999 tt) [
      | inl (j, found, low, free, taken) ↦
          inr (inl (old, (j, rw old (ap (λ o. or_name o name) found), low, free, taken)))
      | inr (found, taken) ↦ inr (inr (old, taken, rw old (ap (λ o. or_name o name) found)))
    ]
  ]
