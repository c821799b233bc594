-- ===== src/Sync/Stamps.antt =====
-- The numbers of type `i64` that src-tauri/src/sync/sync_doc.rs reads, writes and compares, each as its
-- number below 2 ^ 64 in two's complement, and the times in the keys of the history.
use bushido.Prelude.{
  ℕ, ◌+◌, ◌*◌, ◌-◌, ◌%◌, ◌^◌, Bool, true, false, [], ◌∷◌, ◌++◌, Bytes, codes, ltb, leb, ◌==◌, ◌&&◌,
  if◌then◌else◌, Option, none, some,
}
use bushido.Download.FileName.{digits}

-- `i64`: the order of its values, its subtraction, and `days as i64 * 86_400_000`.
abbrev pub signed : ℕ → ℕ
signed a = (a + 2 ^ 63) % 2 ^ 64

abbrev pub before : ℕ → ℕ → Bool
before a b = ltb (signed a) (signed b)

abbrev pub cutoff : ℕ → ℕ → ℕ
cutoff now days = (now + (2 ^ 64 - (days * 86400000) % 2 ^ 64)) % 2 ^ 64

-- `{}` of an `i64`.
abbrev pub print_i64 : ℕ → Bytes
print_i64 n = if ltb n (2 ^ 63) then digits 20 n else codes "-" ++ digits 20 (2 ^ 64 - n)

abbrev pub is_digit : ℕ → Bool
is_digit c = leb 48 c && leb c 57

abbrev pub parse_digits : ℕ → Bytes → Option ℕ
parse_digits n [] = some n
parse_digits n (c ∷ text) =
    let rest = parse_digits (n * 10 + (c - 48)) text in if is_digit c then rest else none

-- What an unsigned number is with its sign, where it fits.
abbrev pub with_sign : Bool → Option ℕ → Option ℕ
with_sign negative none = none
with_sign true (some n) = if leb n (2 ^ 63) then some ((2 ^ 64 - n) % 2 ^ 64) else none
with_sign false (some n) = if ltb n (2 ^ 63) then some n else none

-- One digit or more.
abbrev pub parse_number : Bool → Bytes → Option ℕ
parse_number negative [] = none
parse_number negative (c ∷ text) = with_sign negative (parse_digits 0 (c ∷ text))

-- `str::parse::<i64>`
abbrev pub parse_i64 : Bytes → Option ℕ
parse_i64 [] = none
parse_i64 (c ∷ text) =
    if c == 43
    then parse_number false text
    else (if c == 45 then parse_number true text else parse_number false (c ∷ text))

-- What is behind the first `|`, if there is one: `split_once('|')`.
abbrev pub behind_bar : Bytes → Option Bytes
behind_bar [] = none
behind_bar (c ∷ text) = let rest = behind_bar text in if c == 124 then some text else rest

-- The time in the key of an entry of the history.
abbrev pub time_of : Option Bytes → Option ℕ
time_of none = none
time_of (some text) = parse_i64 text

abbrev pub key_time : Bytes → Option ℕ
key_time key = time_of (behind_bar key)

abbrev pub history_key : Bytes → ℕ → Bytes
history_key url timestamp = url ++ (codes "|" ++ print_i64 timestamp)
