-- ===== src/Blocker/Strip.antt =====
-- What `strip_tracking_params` of src-tauri/src/blocker.rs keeps of an address.
use bushido.Prelude.{
  ◌≤◌, ◌≡◌, refl, sym, ◌∙◌, ap, Bool, true, false, List, [], ◌∷◌, map, Bytes, length, ◌==◌, ==_iff,
  if◌then◌else◌, Option, none, some, of_some, none-ne-some, arith, All, subst, inl, inr, ◌⊎◌, ◌↔◌,
  Bool-cases,
}
use bushido.Blocker.{
  UrlCrate, tracking_params, contains, is_tracking, untracked, segment, join_segments, new_query,
  strip_query, strip_parsed, strip_tracking_params,
}
use bushido.Blocker.Form.{UrlLaws, named, is_named, form-join, join-IsKept}

length-untracked : (ps : List (Bytes × Bytes)) → length (untracked ps) ≤ length ps
length-untracked [] = omega arith
length-untracked (p ∷ ps) = elim (Bool-cases (is_tracking p)) [
  | inl tracking ↦ rw tracking (omega (arith, length-untracked ps))
  | inr other ↦ rw other (omega (arith, length-untracked ps))
]

untracked-full : (ps : List (Bytes × Bytes)) → length (untracked ps) ≡ length ps → untracked ps ≡ ps
untracked-full [] h = refl
untracked-full (p ∷ ps) h = elim (Bool-cases (is_tracking p)) [
  | inl tracking ↦ absurd (omega (arith, rw tracking at h, length-untracked ps))
  | inr other ↦ rw other (ap (λ qs. p ∷ qs) (untracked-full ps (omega (arith, rw other at h))))
]

-- A pair whose name is none of the tracking parameters.
abbrev pub Ordinary : Bytes × Bytes → Type 0
Ordinary p = contains p.0 tracking_params ≡ false

is_tracking-contains : (p : Bytes × Bytes) → is_tracking p ≡ contains p.0 tracking_params
unfolding is_tracking
is_tracking-contains (k, v) = refl

untracked-Ordinary : (ps : List (Bytes × Bytes)) → untracked ps ≡ ps → All Ordinary ps
untracked-Ordinary [] h = tt
untracked-Ordinary (p ∷ ps) h = elim (Bool-cases (is_tracking p)) [
  | inl tracking ↦
      let shorter : length (untracked ps) ≡ length (p ∷ ps) =
        ap length (sym (shown true tracking) ∙ h) in
      absurd (omega (arith, shorter, length-untracked ps))
  | inr other ↦ (
    sym (is_tracking-contains p) ∙ other,
    untracked-Ordinary ps (tail (sym (shown false other) ∙ h)),
  )
]
  where
    shown :
        (b : Bool)
        → is_tracking p ≡ b
        → untracked (p ∷ ps) ≡ (if b then untracked ps else p ∷ untracked ps)
    shown b e = ap (λ c. if c then untracked ps else p ∷ untracked ps) e

    tail : p ∷ untracked ps ≡ p ∷ ps → untracked ps ≡ ps
    tail e = cc

Ordinary-untracked : (ps : List (Bytes × Bytes)) → All Ordinary ps → untracked ps ≡ ps
Ordinary-untracked [] h = refl
Ordinary-untracked (p ∷ ps) h =
    rw (is_tracking-contains p ∙ h.0) (ap (λ qs. p ∷ qs) (Ordinary-untracked ps h.1))

-- What is kept has no tracking parameter left.
named-Ordinary : (ps : List (Bytes × Bytes)) → All Ordinary (named (untracked ps))
named-Ordinary [] = tt
named-Ordinary (p ∷ ps) = elim (Bool-cases (is_tracking p)) [
  | inl tracking ↦ rw tracking (named-Ordinary ps)
  | inr other ↦ elim (Bool-cases (is_named p)) [
    | inl given ↦ rw other (rw given (sym (is_tracking-contains p) ∙ other, named-Ordinary ps))
    | inr empty ↦ rw other (rw empty (named-Ordinary ps))
  ]
]

not_none : {A : Type 0} (b : Bool) (x : A) → b ≡ false → (if b then none else some x) ≡ none → ⊥
not_none true x e h = cc
not_none false x e h = cc

module _ (lib : UrlCrate) (laws : UrlLaws lib) where
  open lib use {Url, parse, query, query_pairs, set_query, to_string}

  -- An address of which nothing is stripped.
  abbrev pub IsClean : Url → Type 0
  IsClean u = (query u ≡ none) ⊎ All Ordinary (query_pairs u)

  pairs-new_query :
      (u : Url) (ps : List (Bytes × Bytes))
      → query_pairs (set_query (new_query lib ps) u) ≡ named ps
  pairs-new_query u [] = laws.pairs-none (set_query none u) (laws.query-set_none u)
  pairs-new_query u (p ∷ ps) =
      laws.pairs-some (set_query (new_query lib (p ∷ ps)) u)
        (join_segments (map (segment lib) (p ∷ ps)))
        (laws.query-set_some u (join_segments (map (segment lib) (p ∷ ps)))
          (join-IsKept lib laws p ps))
      ∙ form-join lib laws p ps

  -- The address that comes out, by what is found on the way.
  strip-some :
      (t t' : Bytes)
      → strip_tracking_params lib t ≡ some t'
      → (u : Url) × (parse t ≡ some u)
        × (t' ≡ to_string (set_query (new_query lib (untracked (query_pairs u))) u))
  unfolding strip_tracking_params
  strip-some t t' h = go (parse t) refl h
    where
      of_test :
          (u : Url) (b : Bool)
          → (if b
              then none
              else some (to_string (set_query (new_query lib (untracked (query_pairs u))) u)))
            ≡ some t'
          → t' ≡ to_string (set_query (new_query lib (untracked (query_pairs u))) u)
      of_test u true e = absurd (none-ne-some e)
      of_test u false e = sym (of_some e)

      of_query :
          (u : Url) (q : Option Bytes)
          → strip_query lib u q ≡ some t'
          → t' ≡ to_string (set_query (new_query lib (untracked (query_pairs u))) u)
      of_query u none e = absurd (none-ne-some e)
      of_query u (some q) e =
          of_test u (length (untracked (query_pairs u)) == length (query_pairs u)) e

      go :
          (o : Option Url)
          → parse t ≡ o
          → strip_parsed lib o ≡ some t'
          → (u : Url) × (parse t ≡ some u)
            × (t' ≡ to_string (set_query (new_query lib (untracked (query_pairs u))) u))
      go none e h = absurd (none-ne-some h)
      go (some u) e h = (u, e, of_query u (query u) h)

  IsClean-none : (u : Url) → IsClean u → strip_query lib u (query u) ≡ none
  IsClean-none u (inl bare) = ap (strip_query lib u) bare
  IsClean-none u (inr clean) = go (query u)
    where
      go : (q : Option Bytes) → strip_query lib u q ≡ none
      go none = refl
      go (some q) =
          rw
            ((==_iff (length (untracked (query_pairs u))) (length (query_pairs u))).1
              (ap length (Ordinary-untracked (query_pairs u) clean)))
            refl

  none-IsClean : (u : Url) → strip_query lib u (query u) ≡ none → IsClean u
  none-IsClean u = go (query u) refl
    where
      go : (q : Option Bytes) → query u ≡ q → strip_query lib u q ≡ none → IsClean u
      go none e h = inl e
      go (some q) e h =
          elim (Bool-cases (length (untracked (query_pairs u)) == length (query_pairs u))) [
            | inl same ↦ inr (
                untracked-Ordinary (query_pairs u) (
                  untracked-full (query_pairs u) (
                    (==_iff (length (untracked (query_pairs u))) (length (query_pairs u))).0 same)))
            | inr fewer ↦ absurd (
                not_none (length (untracked (query_pairs u)) == length (query_pairs u))
                  (to_string (set_query (new_query lib (untracked (query_pairs u))) u)) fewer h)
          ]

  -- Where `strip_tracking_params` returns an address, it is the address that came in with another
  -- query: of its pairs those that are not tracking parameters, in their order, but none without a
  -- name and a value.
  pub strip_tracking_params-keeps :
      (t t' : Bytes)
      → strip_tracking_params lib t ≡ some t'
      → (u : Url) × (u' : Url) × (parse t ≡ some u)
        × (parse t' ≡ some u')
        × (query_pairs u' ≡ named (untracked (query_pairs u)))
        × (laws.outside u' ≡ laws.outside u)
  strip_tracking_params-keeps t t' h =
      let (u, read, written) = strip-some t t' h in
      let u' = set_query (new_query lib (untracked (query_pairs u))) u in
      (
        u,
        u',
        read,
        ap parse written ∙ laws.parse-to_string u',
        pairs-new_query u (untracked (query_pairs u)),
        laws.outside-set u (new_query lib (untracked (query_pairs u))),
      )

  -- An address that `strip_tracking_params` returns is left as it is by another call.
  pub strip_tracking_params-settles :
      (t t' : Bytes) → strip_tracking_params lib t ≡ some t' → strip_tracking_params lib t' ≡ none
  unfolding strip_tracking_params
  strip_tracking_params-settles t t' h =
      let (u, u', read, read', pairs, same) = strip_tracking_params-keeps t t' h in
      ap (strip_parsed lib) read'
      ∙ IsClean-none u' (inr (subst (All Ordinary) (sym pairs) (named-Ordinary (query_pairs u))))

  -- `strip_tracking_params` leaves an address as it is exactly if it has no query or if the name
  -- of each of its pairs is none of the tracking parameters.
  pub strip_tracking_params-none :
      (t : Bytes) (u : Url)
      → parse t ≡ some u
      → (strip_tracking_params lib t ≡ none) ↔ ((query u ≡ none) ⊎ All Ordinary (query_pairs u))
  unfolding strip_tracking_params
  strip_tracking_params-none t u read = (
    (λ e. none-IsClean u (sym (ap (strip_parsed lib) read) ∙ e)),
    (λ clean. ap (strip_parsed lib) read ∙ IsClean-none u clean),
  )
