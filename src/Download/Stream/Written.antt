-- ===== src/Download/Stream/Written.antt =====
-- What a single-stream download of src-tauri/src/downloads.rs leaves on disk.
use bushido.Prelude.{
  ℕ, zero, suc, ◌+◌, ◌-◌, ◌≤◌, ◌<◌, ◌≡◌, refl, sym, ap, ◌∙◌, ◌⊎◌, inl, inr, true, false, ◌&&◌, [],
  ◌∷◌, Bytes, length, length-take, length-drop, take, drop, ltb, leb, le→leb, leb→le, get_elem?,
  get_elem?-lt, Option, none, Bool-cases, arith,
}
use bushido.Download.Transfer.{seek_write}

get-take :
    (n i : ℕ) (xs : Bytes) → i < length (take n xs) → get_elem? (take n xs) i ≡ get_elem? xs i
get-take zero i xs lt = absurd (omega arith)
get-take (suc n) i [] lt = refl
get-take (suc n) zero (x ∷ xs) lt = refl
get-take (suc n) (suc i) (x ∷ xs) lt = get-take n i xs (omega arith)

get-drop : (r i o : ℕ) (xs : Bytes) → o ≡ r + i → get_elem? (drop r xs) i ≡ get_elem? xs o
get-drop zero i o xs e = let same : i ≡ o = omega (arith, e) in ap (get_elem? xs) same
get-drop (suc r) i o [] e = refl
get-drop (suc r) i zero (x ∷ xs) e = absurd (omega arith)
get-drop (suc r) i (suc o) (x ∷ xs) e = get-drop r i o xs (omega arith)

drop-taken : (n : ℕ) (xs : Bytes) → drop n xs ≡ drop (length (take n xs)) xs
drop-taken zero xs = refl
drop-taken (suc n) [] = refl
drop-taken (suc n) (x ∷ xs) = drop-taken n xs

drop-nil : (k : ℕ) → drop {A = ℕ} k [] ≡ []
drop-nil zero = refl
drop-nil (suc k) = refl

drop-drop : (r k m : ℕ) (xs : Bytes) → m ≡ r + k → drop k (drop r xs) ≡ drop m xs
drop-drop zero k m xs e = let same : k ≡ m = omega (arith, e) in ap (λ j. drop j xs) same
drop-drop (suc r) k m [] e = drop-nil k ∙ sym (drop-nil m)
drop-drop (suc r) k zero (x ∷ xs) e = absurd (omega arith)
drop-drop (suc r) k (suc m) (x ∷ xs) e = drop-drop r k m xs (omega arith)

pub get-beyond : (xs : Bytes) (i : ℕ) → length xs ≤ i → get_elem? xs i ≡ none
get-beyond [] i le = refl
get-beyond (x ∷ xs) zero le = absurd (omega arith)
get-beyond (x ∷ xs) (suc i) le = get-beyond xs i (omega arith)

module _ (content : Bytes) where
  -- Bytes of the content from an offset on.
  abbrev pub IsPart : ℕ → Bytes → Type 0
  IsPart r bytes = (i : ℕ) → i < length bytes → get_elem? bytes i ≡ get_elem? content (r + i)

  -- A file with the first bytes of the content, and no other bytes than those of the content.
  abbrev pub IsPrefix : ℕ → (ℕ → Option ℕ) → Type 0
  IsPrefix r file =
      ((o : ℕ) → o < r → file o ≡ get_elem? content o)
      × ((o : ℕ) → (file o ≡ none) ⊎ (file o ≡ get_elem? content o))

  pub taken-IsPart : (r n : ℕ) → IsPart r (take n (drop r content))
  taken-IsPart r n i lt = get-take n i (drop r content) lt ∙ get-drop r i (r + i) content refl

  module _ (file : ℕ → Option ℕ) (r : ℕ) (bytes : Bytes) (part : IsPart r bytes) where
    within :
        (o : ℕ) → r ≤ o → o - r < length bytes → seek_write file r bytes o ≡ get_elem? content o
    unfolding seek_write
    within o le lt =
        let (b, e) = get_elem?-lt bytes (o - r) lt in
        let here : r + (o - r) ≡ o = omega arith in
        rw (le→leb r o le) (rw e (sym e ∙ part (o - r) lt ∙ ap (get_elem? content) here))

    outside : (o : ℕ) → (o < r) ⊎ (length bytes ≤ o - r) → seek_write file r bytes o ≡ file o
    unfolding seek_write
    outside o side = elim (Bool-cases (leb r o)) [
      | inr before ↦ rw before refl
      | inl behind ↦ elim side [
        | inl lt ↦ absurd (let le = leb→le r o behind in omega arith)
        | inr le ↦ rw behind (rw (get-beyond bytes (o - r) le) refl)
      ]
    ]

    pub seek_write-IsPrefix :
        IsPrefix r file → IsPrefix (r + length bytes) (seek_write file r bytes)
    seek_write-IsPrefix (prefix, sub) = (
      λ o lt. first o lt (Bool-cases (leb r o)),
      λ o. rest o (Bool-cases (leb r o && ltb (o - r) (length bytes))),
    )
      where
        first :
            (o : ℕ)
            → o < r + length bytes
            → (leb r o ≡ true) ⊎ (leb r o ≡ false)
            → seek_write file r bytes o ≡ get_elem? content o
        first o lt (inl behind) =
            within o (leb→le r o behind) (let le = leb→le r o behind in omega arith)
        first o lt (inr before) =
            let less : o < r = ground arith in outside o (inl less) ∙ prefix o less

        rest :
            (o : ℕ)
            → ((leb r o && ltb (o - r) (length bytes)) ≡ true)
              ⊎ ((leb r o && ltb (o - r) (length bytes)) ≡ false)
            → (seek_write file r bytes o ≡ none) ⊎ (seek_write file r bytes o ≡ get_elem? content o)
        rest o (inl e) =
            let le : r ≤ o = ground arith in
            let lt : o - r < length bytes = ground arith in inr (within o le lt)
        rest o (inr e) =
            let off : (o < r) ⊎ (length bytes ≤ o - r) = ground arith in
            elim (sub o) [
              | inl gone ↦ inl (outside o off ∙ gone)
              | inr same ↦ inr (outside o off ∙ same)
            ]

  pub IsPrefix-less : (r k : ℕ) (file : ℕ → Option ℕ) → k ≤ r → IsPrefix r file → IsPrefix k file
  IsPrefix-less r k file le (prefix, sub) = (λ o lt. prefix o (omega arith), sub)

  pub none-IsPrefix : IsPrefix 0 (λ o. none)
  none-IsPrefix = (λ o lt. absurd (omega arith), λ o. inl refl)

  -- What is still to come after a chunk.
  pub rest-coming :
      (r n : ℕ) → drop n (drop r content) ≡ drop (r + length (take n (drop r content))) content
  rest-coming r n = drop-taken n (drop r content) ∙ drop-drop r _ _ content refl

  pub taken-fits :
      (r n : ℕ) → r ≤ length content → r + length (take n (drop r content)) ≤ length content
  taken-fits r n le = omega (arith, length-take n (drop r content), length-drop r content)
