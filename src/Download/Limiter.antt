-- ===== src/Download/Limiter.antt =====
-- `RateLimiter` of src-tauri/src/downloads.rs. A round of the loop of `acquire` is given by the tokens
-- that the time since the last refill is worth, which the code computes in floating point, or by
-- nothing where that time is 10 ms or less.
use bushido.Prelude.{
  ℕ, ◌+◌, ◌-◌, ◌^◌, ◌≤◌, ◌<◌, ◌≡◌, refl, ◌⊎◌, inl, inr, List, [], ◌∷◌, Option, none, some, min, leb,
  ◌==◌, if◌then◌else◌, Bool-cases, arith,
}

-- The field `last_refill` is in the rounds.
pub record RateLimiter : Type 0 where
  pub limit_bps : ℕ
  pub tokens : ℕ

-- `current.saturating_add(refill).min(limit)`
unfoldable pub refilled : ℕ → Option ℕ → ℕ → ℕ
refilled limit none current = current
refilled limit (some refill) current = min (min (current + refill) (2 ^ 64 - 1)) limit

-- The loop, which takes the tokens or sleeps: `none` where it still sleeps after the rounds.
unfoldable pub acquire_loop : ℕ → ℕ → List (Option ℕ) → ℕ → Option ℕ
acquire_loop limit bytes [] current = none
acquire_loop limit bytes (round ∷ rounds) current =
    let now = refilled limit round current in
    let later = acquire_loop limit bytes rounds now in
    if leb bytes now then some (now - bytes) else later

abbrev pub with_tokens : RateLimiter → Option ℕ → Option RateLimiter
with_tokens r none = none
with_tokens r (some tokens) = some (record r { tokens = tokens })

unfoldable pub acquire : ℕ → List (Option ℕ) → RateLimiter → Option RateLimiter
acquire bytes rounds r =
    if r.limit_bps == 0
    then some r
    else with_tokens r (acquire_loop r.limit_bps bytes rounds r.tokens)

-- The tokens that rounds are worth.
unfoldable pub worth : List (Option ℕ) → ℕ
worth [] = 0
worth (none ∷ rounds) = worth rounds
worth (some refill ∷ rounds) = refill + worth rounds

-- A refill that leaves too few tokens was not cut off.
refilled-worth :
    (limit bytes : ℕ) (round : Option ℕ) (rounds : List (Option ℕ)) (current : ℕ)
    → limit < 2 ^ 64
    → bytes ≤ limit
    → refilled limit round current < bytes
    → refilled limit round current + worth rounds ≡ current + worth (round ∷ rounds)
unfolding refilled worth
refilled-worth limit bytes none rounds current small fits few = refl
refilled-worth limit bytes (some refill) rounds current small fits few = omega arith

acquire_loop-some :
    (limit bytes : ℕ) (round : Option ℕ) (rounds : List (Option ℕ)) (current : ℕ)
    → limit < 2 ^ 64
    → bytes ≤ limit
    → bytes ≤ current + worth (round ∷ rounds)
    → (left : ℕ) × (acquire_loop limit bytes (round ∷ rounds) current ≡ some left)
unfolding acquire_loop worth
acquire_loop-some limit bytes round [] current small fits enough =
    let now = refilled limit round current in
    elim (Bool-cases (leb bytes now)) [
      | inl has ↦ (now - bytes, rw has refl)
      | inr lacks ↦
          let few : now < bytes = ground arith in
          absurd (omega (arith, refilled-worth limit bytes round [] current small fits few))
    ]
acquire_loop-some limit bytes round (next ∷ rounds) current small fits enough =
    let now = refilled limit round current in
    elim (Bool-cases (leb bytes now)) [
      | inl has ↦ (now - bytes, rw has refl)
      | inr lacks ↦
          let few : now < bytes = ground arith in
          let more = refilled-worth limit bytes round (next ∷ rounds) current small fits few in
          let (left, e) = acquire_loop-some limit bytes next rounds now small fits (omega arith) in
          (left, rw lacks e)
    ]

acquire_loop-none :
    (limit bytes : ℕ) (rounds : List (Option ℕ)) (current : ℕ)
    → limit < bytes
    → current < bytes
    → acquire_loop limit bytes rounds current ≡ none
unfolding acquire_loop refilled
acquire_loop-none limit bytes [] current large few = refl
acquire_loop-none limit bytes (none ∷ rounds) current large few =
    ground (arith, acquire_loop-none limit bytes rounds current large few)
acquire_loop-none limit bytes (some refill ∷ rounds) current large few =
    let now = min (min (current + refill) (2 ^ 64 - 1)) limit in
    ground (arith, acquire_loop-none limit bytes rounds now large (omega arith))

-- With a limit below 2^64 and at least as large as the request, or with none, `acquire` returns in
-- any rounds, one at least, that together with the tokens at hand are worth the request.
pub acquire-returns :
    (bytes : ℕ) (round : Option ℕ) (rounds : List (Option ℕ)) (r : RateLimiter)
    → r.limit_bps < 2 ^ 64
    → (r.limit_bps ≡ 0) ⊎ (bytes ≤ r.limit_bps)
    → bytes ≤ r.tokens + worth (round ∷ rounds)
    → (r' : RateLimiter) × (acquire bytes (round ∷ rounds) r ≡ some r')
unfolding acquire
acquire-returns bytes round rounds r small fits enough = elim (Bool-cases (r.limit_bps == 0)) [
  | inl unlimited ↦ (r, rw unlimited refl)
  | inr limited ↦
      let within : bytes ≤ r.limit_bps = ground arith in
      let (left, e) =
        acquire_loop-some r.limit_bps bytes round rounds r.tokens small within enough in
      (record r { tokens = left }, rw (limited, e) refl)
]

-- A request above the limit, with a limit and with fewer tokens at hand than are asked for, never
-- returns: not in any rounds.
pub acquire-starves :
    (bytes : ℕ) (rounds : List (Option ℕ)) (r : RateLimiter)
    → 0 < r.limit_bps
    → r.limit_bps < bytes
    → r.tokens < bytes
    → acquire bytes rounds r ≡ none
unfolding acquire
acquire-starves bytes rounds r limited large few =
    let waits = acquire_loop-none r.limit_bps bytes rounds r.tokens large few in ground arith
