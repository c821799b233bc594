-- ===== src/Sync/Contents/Times.antt =====
-- The times in the keys of the history of src-tauri/src/sync/sync_doc.rs: of an address without `|`,
-- and of one with it.
use bushido.Prelude.{
  true-ne-false, not-ltb→le, lt→ltb, ltb→lt, ltb, le→leb, ◌<◌, ◌^◌, ◌%◌, ◌/◌, ℕ, zero, suc, ◌+◌,
  ◌*◌, ◌-◌, ◌≡◌, refl, sym, ◌∙◌, subst, ap, Bool, true, false, List, [], ◌∷◌, ◌++◌, Bytes, ◌||◌,
  ◌==◌, Option, none, some, inl, inr, Bool-cases, arith, none-ne-some, of_some, All,
}
use bushido.Sync.Contents.{
  Dated, before, cutoff, has, newest, history, LoroMaps, OpenDoc, history_key, key_time, time_of,
  behind_bar, parse_i64, parse_number, parse_digits, with_sign, is_digit, print_i64,
}
use bushido.Download.FileName.{digits}
use bushido.Sync.Contents.Maps.{MapLaws}
use bushido.Prelude.Table.{list_beq, list_beq_iff}
use bushido.Sync.Contents.Sorting.{names, IsRecent}
use bushido.Sync.Contents.Kept.{compact_history-keeps}
use bushido.Sync.Contents.Prune.{dated_entries, after_pruning, compact_history-bounds}

abbrev pub has_bar : Bytes → Bool
has_bar [] = false
has_bar (c ∷ text) = (c == 124) || has_bar text

parse_digits-bar : (n : ℕ) (text : Bytes) → has_bar text ≡ true → parse_digits n text ≡ none
parse_digits-bar n [] h = cc
parse_digits-bar n (c ∷ text) h = elim (Bool-cases (is_digit c)) [
  | inr other ↦ rw other refl
  | inl digit ↦ rw digit (parse_digits-bar (n * 10 + (c - 48)) text (ground (arith, h, digit)))
]

parse_number-bar :
    (negative : Bool) (text : Bytes) → has_bar text ≡ true → parse_number negative text ≡ none
parse_number-bar negative [] h = refl
parse_number-bar negative (c ∷ text) h = ap (with_sign negative) (parse_digits-bar 0 (c ∷ text) h)

parse_i64-bar : (text : Bytes) → has_bar text ≡ true → parse_i64 text ≡ none
parse_i64-bar [] h = refl
parse_i64-bar (c ∷ text) h = elim (Bool-cases (c == 43)) [
  | inl plus ↦ rw plus (parse_number-bar false text (ground (arith, h, plus)))
  | inr other ↦ elim (Bool-cases (c == 45)) [
    | inl minus ↦ rw other (rw minus (parse_number-bar true text (ground (arith, h, minus))))
    | inr digit ↦ rw other (rw digit (parse_number-bar false (c ∷ text) h))
  ]
]

has_bar-append : (text rest : Bytes) → has_bar (text ++ (124 ∷ rest)) ≡ true
has_bar-append [] rest = refl
has_bar-append (c ∷ text) rest = rw (has_bar-append text rest) (ground arith)

-- Behind the first bar of an address with one there is still the bar of the key.
behind_bar-bar :
    (url rest : Bytes)
    → has_bar url ≡ true
    → (text : Bytes) × (behind_bar (url ++ (124 ∷ rest)) ≡ some text) × (has_bar text ≡ true)
behind_bar-bar [] rest h = cc
behind_bar-bar (c ∷ url) rest h = elim (Bool-cases (c == 124)) [
  | inl bar ↦ (url ++ (124 ∷ rest), rw bar refl, has_bar-append url rest)
  | inr other ↦
      (let (text, e, b) = behind_bar-bar url rest (ground (arith, h, other)) in
        (text, rw other e, b))
]

history_key-bar : (url : Bytes) (ts : ℕ) → has_bar url ≡ true → key_time (history_key url ts) ≡ none
history_key-bar url ts h =
    let (text, e, b) = behind_bar-bar url (print_i64 ts) h in ap time_of e ∙ parse_i64-bar text b

-- The entry of an address with a `|` in it stays in every `compact_history`, however old it is and
-- however many entries there are.
pub bar_url-stays :
    (loro : LoroMaps) (laws : MapLaws loro) (now cutoff_days max_entries : ℕ) (s : OpenDoc loro)
    (url : Bytes) (ts : ℕ)
    → has_bar url ≡ true
    → loro.get history (history_key url ts) (after_pruning loro now cutoff_days s max_entries).doc
      ≡ loro.get history (history_key url ts) s.doc
bar_url-stays loro laws now cutoff_days max_entries s url ts h =
    elim (compact_history-keeps loro laws now cutoff_days max_entries s (history_key url ts)) [
      | inl same ↦ same
      | inr (gone, (time, read, why)) ↦
          absurd (none-ne-some (sym (history_key-bar url ts h) ∙ read))
    ]

-- Decimal digits are read as their number.
abbrev with_digit : Option ℕ → ℕ → Option ℕ
with_digit none d = none
with_digit (some n) d = some (n * 10 + d)

digit_lem : (d : ℕ) → d < 10 → is_digit (48 + d) ≡ true
digit_lem d h = ground arith

parse_digits-append :
    (n d : ℕ) (text : Bytes)
    → d < 10
    → parse_digits n (text ++ ((48 + d) ∷ [])) ≡ with_digit (parse_digits n text) d
parse_digits-append n d [] h = rw (digit_lem d h) (ap some (omega arith))
parse_digits-append n d (c ∷ text) h = elim (Bool-cases (is_digit c)) [
  | inl digit ↦ rw digit (parse_digits-append (n * 10 + (c - 48)) d text h)
  | inr other ↦ rw other refl
]

parse_digits-digits :
    (fuel n : ℕ) → n < 10 ^ suc fuel → parse_digits 0 (digits (suc fuel) n) ≡ some n
parse_digits-digits zero n h = rw (lt→ltb n 10 h) (rw (digit_lem n h) (ap some (omega arith)))
parse_digits-digits (suc fuel) n h = elim (Bool-cases (ltb n 10)) [
  | inl one ↦ rw one (rw (digit_lem n (ltb→lt n 10 one)) (ap some (omega arith)))
  | inr more ↦ rw more (
      parse_digits-append 0 (n % 10) (digits (suc fuel) (n / 10)) (omega arith)
      ∙ (ap (λ o. with_digit o (n % 10)) (parse_digits-digits fuel (n / 10) (omega arith))
          ∙ ap some (omega arith)))
]

append-cons : (xs : Bytes) (d : ℕ) → (c : ℕ) × (text : Bytes) × (xs ++ (d ∷ []) ≡ c ∷ text)
append-cons [] d = (d, [], refl)
append-cons (x ∷ xs) d = (x, xs ++ (d ∷ []), refl)

not_sign : (d sign : ℕ) → is_digit d ≡ true → sign < 48 → (d == sign) ≡ false
not_sign d sign h lt = ground arith

-- Digits that are read without a sign and with one.
parse_number-of :
    (negative : Bool) (n c : ℕ) (text whole : Bytes)
    → whole ≡ c ∷ text
    → parse_digits 0 whole ≡ some n
    → parse_number negative whole ≡ with_sign negative (some n)
parse_number-of negative n c text [] e h = cc
parse_number-of negative n c text (d ∷ rest) e h = ap (with_sign negative) h

parse_i64-of :
    (n : ℕ) (c : ℕ) (text whole : Bytes)
    → whole ≡ c ∷ text
    → parse_digits 0 whole ≡ some n
    → parse_i64 whole ≡ with_sign false (some n)
parse_i64-of n c text [] e h = cc
parse_i64-of n c text (d ∷ rest) e h = elim (Bool-cases (is_digit d)) [
  | inl digit ↦
      rw (not_sign d 43 digit (omega arith))
        (rw (not_sign d 45 digit (omega arith)) (ap (with_sign false) h))
  | inr other ↦ absurd (none-ne-some (sym (rw other refl) ∙ h))
]

digits-cons : (fuel n : ℕ) → (c : ℕ) × (text : Bytes) × (digits (suc fuel) n ≡ c ∷ text)
digits-cons fuel n = elim (Bool-cases (ltb n 10)) [
  | inl one ↦ (48 + n, [], rw one refl)
  | inr more ↦
      (let (c, text, e) = append-cons (digits fuel (n / 10)) (48 + n % 10) in (c, text, rw more e))
]

parse_i64-print_i64 : (ts : ℕ) → ts < 2 ^ 64 → parse_i64 (print_i64 ts) ≡ some ts
parse_i64-print_i64 ts h = elim (Bool-cases (ltb ts (2 ^ 63))) [
  | inl natural ↦
      (let (c, text, e) = digits-cons 19 ts in
        rw natural (
          parse_i64-of ts c text (digits 20 ts) e (parse_digits-digits 19 ts (omega arith))
          ∙ rw natural refl))
  | inr negative ↦
      (let (c, text, e) = digits-cons 19 (2 ^ 64 - ts) in
        rw negative (
          parse_number-of true (2 ^ 64 - ts) c text (digits 20 (2 ^ 64 - ts)) e
            (parse_digits-digits 19 (2 ^ 64 - ts) (omega arith))
          ∙ rw (le→leb (2 ^ 64 - ts) (2 ^ 63) (omega (arith, not-ltb→le ts (2 ^ 63) negative)))
              (ap some (omega arith))))
]

behind_bar-append :
    (url rest : Bytes) → has_bar url ≡ false → behind_bar (url ++ (124 ∷ rest)) ≡ some rest
behind_bar-append [] rest h = refl
behind_bar-append (c ∷ url) rest h = elim (Bool-cases (c == 124)) [
  | inl bar ↦ ground (arith, h, bar)
  | inr other ↦ rw other (behind_bar-append url rest (ground (arith, h, other)))
]

-- The time that is read in the key of a visit to an address without a `|` is the time of the visit.
pub key_time-history_key :
    (url : Bytes) (ts : ℕ)
    → has_bar url ≡ false
    → ts < 2 ^ 64
    → key_time (history_key url ts) ≡ some ts
key_time-history_key url ts h lt =
    ap time_of (behind_bar-append url (print_i64 ts) h) ∙ parse_i64-print_i64 ts lt

recent-time :
    (limit : ℕ) (k : Bytes) (es : List Dated)
    → All (IsRecent limit) es
    → has k (names es) ≡ true
    → (ts : ℕ) × (key_time k ≡ some ts) × (before ts limit ≡ false)
recent-time limit k [] r h = cc
recent-time limit k (e ∷ es) r h = elim (Bool-cases (list_beq e.0 k)) [
  | inl same ↦ (e.1, subst (λ x. key_time x ≡ some e.1) ((list_beq_iff e.0 k).0 same) r.0.0, r.0.1)
  | inr differs ↦ recent-time limit k es r.1 (ground (arith, h, differs))
]

-- A visit to an address without a `|`, at a time before the cutoff, is gone from the history after
-- `compact_history`.
pub old_visit-goes :
    (loro : LoroMaps) (laws : MapLaws loro) (now cutoff_days max_entries : ℕ) (s : OpenDoc loro)
    (url : Bytes) (ts : ℕ)
    → has_bar url ≡ false
    → ts < 2 ^ 64
    → before ts (cutoff now cutoff_days) ≡ true
    → loro.get history (history_key url ts) (after_pruning loro now cutoff_days s max_entries).doc
      ≡ none
old_visit-goes loro laws now cutoff_days max_entries s url ts h lt old =
    let bounds =
      compact_history-bounds loro laws now cutoff_days max_entries s (history_key url ts) in
    elim bounds.1.1 [
      | inl gone ↦ gone
      | inr (inl kept) ↦ absurd (
          not_recent (
            recent-time (cutoff now cutoff_days) (history_key url ts)
              (newest max_entries (dated_entries loro now cutoff_days s)) bounds.1.0 kept))
      | inr (inr (unread, same)) ↦ absurd (none-ne-some (sym unread ∙ read))
    ]
  where
    read : key_time (history_key url ts) ≡ some ts
    read = key_time-history_key url ts h lt

    not_recent :
        ((t : ℕ) × (key_time (history_key url ts) ≡ some t)
          × (before t (cutoff now cutoff_days) ≡ false))
        → ⊥
    not_recent (t, e, new) =
        true-ne-false
          (sym old ∙ (ap (λ x. before x (cutoff now cutoff_days)) (of_some (sym read ∙ e)) ∙ new))
