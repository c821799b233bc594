-- ===== src/Blocker/Toy.antt =====
-- Addresses of a simple kind, of which the laws hold: a page, and a query whose characters are encoded
-- by 128 more.
use bushido.Prelude.{
  ℕ, ◌+◌, ◌-◌, ◌≡◌, refl, sym, ◌∙◌, ap, Bool, false, List, [], ◌∷◌, ◌++◌, Bytes, ◌==◌, ◌||◌, leb,
  if◌then◌else◌, Option, none, some, All, All-append, arith, append_assoc, inl, inr, Bool-cases,
}
use bushido.Blocker.{UrlCrate}
use bushido.Blocker.Form.{UrlLaws, IsKept}

abbrev Pairs : Type 0
Pairs = List (Bytes × Bytes)

abbrev encode : Bytes → Bytes
encode [] = []
encode (c ∷ t) = (c + 128) ∷ encode t

abbrev decode : Bytes → Bytes
decode [] = []
decode (c ∷ t) = (c - 128) ∷ decode t

-- The name and the value of a segment.
abbrev split : Bytes → Bytes × Bytes
split [] = ([], [])
split (c ∷ t) = let (k, v) = split t in if c == 61 then ([], decode t) else ((c - 128) ∷ k, v)

abbrev pair_of : Bytes → Pairs
pair_of [] = []
pair_of (c ∷ t) = split (c ∷ t) ∷ []

abbrev close : Bytes × Pairs → Pairs
close (s, ps) = pair_of s ++ ps

-- The first segment, and the pairs of the others.
abbrev scan : Bytes → Bytes × Pairs
scan [] = ([], [])
scan (c ∷ t) = let (s, ps) = scan t in if c == 38 then ([], close (s, ps)) else (c ∷ s, ps)

abbrev form : Bytes → Pairs
form q = close (scan q)

scan-and : (a b : Bytes) → scan (a ++ (38 ∷ b)) ≡ ((scan a).0, (scan a).1 ++ form b)
scan-and [] b = refl
scan-and (c ∷ a) b = elim (Bool-cases (c == 38)) [
  | inl sign ↦
      rw (scan-and a b) (
        rw sign (ap (λ ps. ([], ps)) (sym (append_assoc (pair_of (scan a).0) (scan a).1 (form b)))))
  | inr letter ↦ rw (scan-and a b) (rw letter refl)
]

form-and : (a b : Bytes) → form (a ++ (38 ∷ b)) ≡ form a ++ form b
form-and a b = ap close (scan-and a b) ∙ sym (append_assoc (pair_of (scan a).0) (scan a).1 (form b))

abbrev NoAnd : ℕ → Type 0
NoAnd c = (c == 38) ≡ false

scan-NoAnd : (t : Bytes) → All NoAnd t → scan t ≡ (t, [])
scan-NoAnd [] h = refl
scan-NoAnd (c ∷ t) h = rw (scan-NoAnd t h.1) (rw h.0 refl)

encode-NoAnd : (t : Bytes) → All NoAnd (encode t)
encode-NoAnd [] = tt
encode-NoAnd (c ∷ t) = (ground arith, encode-NoAnd t)

not_sign : (c : ℕ) → ((c + 128) == 61) ≡ false
not_sign c = ground arith

decode-encode : (t : Bytes) → decode (encode t) ≡ t
decode-encode [] = refl
decode-encode (c ∷ t) = rw (decode-encode t) (ap (λ d. d ∷ t) (omega arith))

split-name : (k : Bytes) → split (encode k) ≡ (k, [])
split-name [] = refl
split-name (c ∷ k) = rw (split-name k) (rw (not_sign c) (ap (λ d. (d ∷ k, [])) (omega arith)))

split-pair : (k v : Bytes) → split (encode k ++ (61 ∷ encode v)) ≡ (k, v)
split-pair [] v = ap (λ w. ([], w)) (decode-encode v)
split-pair (c ∷ k) v = rw (split-pair k v) (rw (not_sign c) (ap (λ d. (d ∷ k, v)) (omega arith)))

form-name : (c : ℕ) (k : Bytes) → form (encode (c ∷ k)) ≡ (c ∷ k, []) ∷ []
form-name c k =
    ap close (scan-NoAnd (encode (c ∷ k)) (encode-NoAnd (c ∷ k)))
    ∙ ap (λ p. p ∷ []) (split-name (c ∷ k))

form-pair : (k v : Bytes) → form (encode k ++ (61 ∷ encode v)) ≡ (k, v) ∷ []
form-pair k v =
    ap close (
      scan-NoAnd (encode k ++ (61 ∷ encode v))
        (All-append NoAnd (encode k) (61 ∷ encode v) (encode-NoAnd k) (refl, encode-NoAnd v)))
    ∙ whole k v
  where
    whole : (k v : Bytes) → close (encode k ++ (61 ∷ encode v), []) ≡ (k, v) ∷ []
    whole [] v = ap (λ p. p ∷ []) (split-pair [] v)
    whole (c ∷ k) v = ap (λ p. p ∷ []) (split-pair (c ∷ k) v)

abbrev plain : ℕ → Bool
plain c = leb 128 c || ((c == 61) || (c == 38))

encode-IsKept : (t : Bytes) → IsKept plain (encode t)
encode-IsKept [] = tt
encode-IsKept (c ∷ t) = (ground arith, encode-IsKept t)

-- A page and its query.
abbrev pub ToyUrl : Type 0
ToyUrl = ℕ × Option Bytes

abbrev behind_page : ℕ → Bytes → Option ToyUrl
behind_page p [] = some (p, none)
behind_page p (c ∷ q) = if c == 63 then some (p, some q) else none

abbrev parse : Bytes → Option ToyUrl
parse [] = none
parse (p ∷ t) = behind_page p t

abbrev pairs_of : Option Bytes → Pairs
pairs_of none = []
pairs_of (some q) = form q

abbrev query_text : Option Bytes → Bytes
query_text none = []
query_text (some q) = 63 ∷ q

abbrev pub toy : UrlCrate
toy = record {
  Url = ToyUrl;
  parse = parse;
  query = λ u. u.1;
  query_pairs = λ u. pairs_of u.1;
  set_query = λ q u. (u.0, q);
  to_string = λ u. u.0 ∷ query_text u.1;
  encode = encode;
}

parse-text : (p : ℕ) (q : Option Bytes) → parse (p ∷ query_text q) ≡ some (p, q)
parse-text p none = refl
parse-text p (some q) = refl

pub toy-UrlLaws : UrlLaws toy
toy-UrlLaws = record {
  form = form;
  plain = plain;
  Outside = ℕ;
  outside = λ u. u.0;
  form-empty = refl;
  form-and = form-and;
  form-name = form-name;
  form-pair = form-pair;
  encode-empty = refl;
  encode-IsKept = encode-IsKept;
  plain_signs = (refl, (refl, tt));
  pairs-none = λ u e. ap pairs_of e;
  pairs-some = λ u q e. ap pairs_of e;
  query-set_none = λ u. refl;
  query-set_some = λ u q kept. refl;
  outside-set = λ u q. refl;
  parse-to_string = λ u. parse-text u.0 u.1;
}
