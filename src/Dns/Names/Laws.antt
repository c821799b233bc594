-- ===== src/Dns/Names/Laws.antt =====
-- What `is_blocked` tests.
use bushido.Prelude.{
  ◌-◌, ◌≡◌, refl, sym, ap, ◌∙◌, ◌⊎◌, inl, inr, ◌↔◌, Bool, true, false, ◌&&◌, ◌||◌, List, [], ◌∷◌,
  ◌++◌, Bytes, length, length-append, drop, take, take-append-drop, drop-append, le→leb, arith,
}
use bushido.Prelude.Table.{list_beq, list_beq_iff}
use bushido.Dns.Names.{dot, trim_end_dots, ends_with, is_under, any_under, is_blocked}

and-true-right : (a b : Bool) → (a && b) ≡ true → b ≡ true
and-true-right true b e = e
and-true-right false b e = cc

or-true : (a b : Bool) → (a || b) ≡ true → (a ≡ true) ⊎ (b ≡ true)
or-true true b e = inl refl
or-true false b e = inr e

or-true-right : (a b : Bool) → b ≡ true → (a || b) ≡ true
or-true-right true b e = refl
or-true-right false b e = e

ends_with-append : (front suffix : Bytes) → ends_with (front ++ suffix) suffix ≡ true
unfolding ends_with
ends_with-append front suffix =
    let len = length-append front suffix in
    let enough = le→leb (length suffix) (length (front ++ suffix)) (omega arith) in
    let size : length (front ++ suffix) - length suffix ≡ length front = omega arith in
    rw (enough, size) (rw drop-append ((list_beq_iff suffix suffix).1 refl))

ends_with-front :
    (name suffix : Bytes)
    → ends_with name suffix ≡ true
    → (front : Bytes) × (name ≡ front ++ suffix)
unfolding ends_with
ends_with-front name suffix e =
    let n = length name - length suffix in
    let same = (list_beq_iff (drop n name) suffix).0 (and-true-right _ _ e) in
    (take n name, sym (take-append-drop n name) ∙ ap (λ l. take n name ++ l) same)

-- The name `d` is `b`, or a name below `b`.
abbrev pub IsUnder : Bytes → Bytes → Type 0
IsUnder d b = (d ≡ b) ⊎ ((front : Bytes) × (d ≡ front ++ (dot ∷ b)))

is_under_iff : (d b : Bytes) → (is_under d b ≡ true) ↔ IsUnder d b
unfolding is_under
is_under_iff d b = (
  λ e. elim (or-true (list_beq d b) (ends_with d (dot ∷ b)) e) [
    | inl same ↦ inl ((list_beq_iff d b).0 same)
    | inr below ↦ inr (ends_with-front d (dot ∷ b) below)
  ],
  λ under. elim under [
    | inl same ↦ rw ((list_beq_iff d b).1 same) refl
    | inr below ↦
        or-true-right (list_beq d b) _
          (ap (λ n. ends_with n (dot ∷ b)) below.1 ∙ ends_with-append below.0 (dot ∷ b))
  ],
)

abbrev pub Any : (Bytes → Type 0) → List Bytes → Type 0
Any P [] = ⊥
Any P (b ∷ bs) = P b ⊎ Any P bs

any_under_iff :
    (d : Bytes) (blocklist : List Bytes)
    → (any_under d blocklist ≡ true) ↔ Any (λ b. IsUnder d b) blocklist
any_under_iff d [] = ground arith
any_under_iff d (b ∷ blocklist) =
    let (to, from) = is_under_iff d b in
    let (to_rest, from_rest) = any_under_iff d blocklist in
    (
      λ e. elim (or-true (is_under d b) (any_under d blocklist) e) [
        | inl under ↦ inl (to under)
        | inr rest ↦ inr (to_rest rest)
      ],
      λ any. elim any [
        | inl under ↦ rw (from under) refl
        | inr rest ↦ or-true-right (is_under d b) _ (from_rest rest)
      ],
    )

-- A domain is blocked exactly if, without its trailing dots, it is a name of the blocklist or ends
-- in a dot and such a name.
pub is_blocked_iff :
    (blocklist : List Bytes) (domain : Bytes)
    → (is_blocked blocklist domain ≡ true) ↔ Any (λ b. IsUnder (trim_end_dots domain) b) blocklist
unfolding is_blocked
is_blocked_iff blocklist domain = any_under_iff (trim_end_dots domain) blocklist
