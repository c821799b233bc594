-- ===== src/Blocker/Form.antt =====
-- What the crates url and urlencoding document, and the pairs of a query that is written from pairs.
use bushido.Prelude.{
  ℕ, ◌≡◌, refl, sym, ◌∙◌, ap, Bool, true, false, List, [], ◌∷◌, ◌++◌, map, Bytes, codes,
  if◌then◌else◌, Option, none, some, All, All-append,
}
use bushido.Blocker.{UrlCrate, join_segments, segment}

-- The characters of an encoded query, which a query keeps as they are.
abbrev pub IsKept : (ℕ → Bool) → Bytes → Type 0
IsKept plain = All (λ c. plain c ≡ true)

-- `form` reads the pairs of a query, segment by segment between the `&`; a segment without a `=` is a
-- name with an empty value, and an empty segment is no pair. `plain` are the characters that `encode`
-- writes, and `=` and `&`; a query of them is set as it is. Nothing else of an address depends on its
-- query, and the text of an address is read as that address.
pub record UrlLaws (lib : UrlCrate) : Type 1 where
  pub form : Bytes → List (Bytes × Bytes)
  pub plain : ℕ → Bool
  pub Outside : Type 0
  pub outside : lib.Url → Outside
  pub form-empty : form [] ≡ []
  pub form-and : (a b : Bytes) → form (a ++ (codes "&" ++ b)) ≡ form a ++ form b
  pub form-name : (c : ℕ) (k : Bytes) → form (lib.encode (c ∷ k)) ≡ (c ∷ k, []) ∷ []
  pub form-pair : (k v : Bytes) → form (lib.encode k ++ (codes "=" ++ lib.encode v)) ≡ (k, v) ∷ []
  pub encode-empty : lib.encode [] ≡ []
  pub encode-IsKept : (t : Bytes) → IsKept plain (lib.encode t)
  pub plain_signs : IsKept plain (codes "=&")
  pub pairs-none : (u : lib.Url) → lib.query u ≡ none → lib.query_pairs u ≡ []
  pub pairs-some : (u : lib.Url) (q : Bytes) → lib.query u ≡ some q → lib.query_pairs u ≡ form q
  pub query-set_none : (u : lib.Url) → lib.query (lib.set_query none u) ≡ none
  pub query-set_some :
      (u : lib.Url) (q : Bytes) → IsKept plain q → lib.query (lib.set_query (some q) u) ≡ some q
  pub outside-set : (u : lib.Url) (q : Option Bytes) → outside (lib.set_query q u) ≡ outside u
  pub parse-to_string : (u : lib.Url) → lib.parse (lib.to_string u) ≡ some u

-- Pairs with a name or a value.
abbrev pub is_named : Bytes × Bytes → Bool
is_named ([], []) = false
is_named ([], c ∷ v) = true
is_named (c ∷ k, v) = true

abbrev pub named : List (Bytes × Bytes) → List (Bytes × Bytes)
named [] = []
named (p ∷ ps) = let rest = named ps in if is_named p then p ∷ rest else rest

module _ (lib : UrlCrate) (laws : UrlLaws lib) where
  form-segment : (p : Bytes × Bytes) → laws.form (segment lib p) ≡ named (p ∷ [])
  form-segment ([], []) = ap laws.form laws.encode-empty ∙ laws.form-empty
  form-segment (c ∷ k, []) = laws.form-name c k
  form-segment ([], d ∷ v) = laws.form-pair [] (d ∷ v)
  form-segment (c ∷ k, d ∷ v) = laws.form-pair (c ∷ k) (d ∷ v)

  named-cons :
      (p : Bytes × Bytes) (ps : List (Bytes × Bytes)) → named (p ∷ ps) ≡ named (p ∷ []) ++ named ps
  named-cons ([], []) ps = refl
  named-cons ([], d ∷ v) ps = refl
  named-cons (c ∷ k, v) ps = refl

  -- What is read of a query that is written from pairs are these pairs, but those without a name and a
  -- value.
  pub form-join :
      (p : Bytes × Bytes) (ps : List (Bytes × Bytes))
      → laws.form (join_segments (map (segment lib) (p ∷ ps))) ≡ named (p ∷ ps)
  form-join p [] = form-segment p
  form-join p (q ∷ ps) =
      laws.form-and (segment lib p) (join_segments (map (segment lib) (q ∷ ps)))
      ∙ (ap (λ xs. xs ++ laws.form (join_segments (map (segment lib) (q ∷ ps)))) (form-segment p)
          ∙ (ap (λ xs. named (p ∷ []) ++ xs) (form-join q ps) ∙ sym (named-cons p (q ∷ ps))))

  segment-IsKept : (p : Bytes × Bytes) → IsKept laws.plain (segment lib p)
  segment-IsKept (k, []) = laws.encode-IsKept k
  segment-IsKept (k, d ∷ v) =
      All-append (λ c. laws.plain c ≡ true) (lib.encode k) (codes "=" ++ lib.encode (d ∷ v))
        (laws.encode-IsKept k) (laws.plain_signs.0, laws.encode-IsKept (d ∷ v))

  pub join-IsKept :
      (p : Bytes × Bytes) (ps : List (Bytes × Bytes))
      → IsKept laws.plain (join_segments (map (segment lib) (p ∷ ps)))
  join-IsKept p [] = segment-IsKept p
  join-IsKept p (q ∷ ps) =
      All-append (λ c. laws.plain c ≡ true) (segment lib p)
        (codes "&" ++ join_segments (map (segment lib) (q ∷ ps))) (segment-IsKept p)
        (laws.plain_signs.1.0, join-IsKept q ps)
