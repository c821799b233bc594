-- ===== src/Sync/Talk/Limits.antt =====
-- The sizes of the messages of a flow, in src-tauri/src/sync/protocol.rs and src-tauri/src/sync/noise.rs:
-- before the handshake `send_message` refuses a message that is too large, and behind it `recv_large`
-- refuses one of too many chunks.
use Prim.Native.String.{String}
use bushido.Prelude.{
  ◌≡◌, refl, ap, ◌∙◌, List, [], ◌∷◌, Option, none, some, Bool, true, false, ◌*◌, ℕ, Bytes, length,
  leb, Result, ok, err,
}
use bushido.Sync.Frame.{max_msg_len}
use bushido.Sync.Noise.{noise_chunk_size, max_chunks}
use bushido.Sync.Protocol.{SyncMessage, sync_request, sync_accept, Format}
use bushido.Sync.Talk.{Talk, done, fault, tell, ask}
use bushido.Sync.Talk.Pair.{
  Sides, Side, on_left, on_right, is_ended, advance, left_moved, right_moved, move, or_stay,
  schedule,
}

-- Whether an encoded message has at most so many bytes.
abbrev is_within : ℕ → Result Bytes → Bool
is_within limit (ok bytes) = leb (length bytes) limit
is_within limit (err e) = false

abbrev is_encoded : Result Bytes → Bool
is_encoded (ok bytes) = true
is_encoded (err e) = false

abbrev or_fault : {A : Type 0} → Bool → String → Talk A → Talk A
or_fault true e t = t
or_fault false e t = fault e

module _ (format : Format) where
  -- Whether a message of a sync is sent: the first two without encryption.
  unfoldable pub is_sent : SyncMessage → Bool
  is_sent (sync_request id) = is_within max_msg_len (format.encode (sync_request id))
  is_sent sync_accept = is_within max_msg_len (format.encode sync_accept)
  is_sent other = is_encoded (format.encode other)

  unfoldable pub is_taken : SyncMessage → Bool
  is_taken (sync_request id) = is_within max_msg_len (format.encode (sync_request id))
  is_taken sync_accept = is_within max_msg_len (format.encode sync_accept)
  is_taken other = is_within (max_chunks * noise_chunk_size) (format.encode other)

  -- A flow whose messages are sent and received within the limits.
  abbrev pub within_limits : {A : Type 0} → Talk A → Talk A
  within_limits (done a) = done a
  within_limits (fault e) = fault e
  within_limits (tell m t) = or_fault (is_sent m) "message too large" (tell m (within_limits t))
  within_limits (ask e k) = ask e (λ m. or_fault (is_taken m) e (within_limits (k m)))

  -- A message passes.
  abbrev pub Fits : SyncMessage → Type 0
  Fits m = (is_sent m ≡ true) × (is_taken m ≡ true)

  -- What a flow sends next is sent, and what it takes next is taken.
  abbrev pub SendsNext : {A : Type 0} → Talk A → Type 0
  SendsNext (done a) = Unit {0}
  SendsNext (fault e) = Unit {0}
  SendsNext (tell m t) = is_sent m ≡ true
  SendsNext (ask e k) = Unit {0}

  abbrev pub TakesNext : {A : Type 0} → Talk A → List SyncMessage → Type 0
  TakesNext (done a) waiting = Unit {0}
  TakesNext (fault e) waiting = Unit {0}
  TakesNext (tell m t) waiting = Unit {0}
  TakesNext (ask e k) [] = Unit {0}
  TakesNext (ask e k) (m ∷ waiting) = is_taken m ≡ true

  abbrev limited_move :
      {A : Type 0}
      → Option (Talk A × List SyncMessage × List SyncMessage)
      → Option (Talk A × List SyncMessage × List SyncMessage)
  limited_move none = none
  limited_move (some (t, waiting, sent)) = some (within_limits t, waiting, sent)

  is_ended-within_limits :
      {A : Type 0} (t : Talk A) → SendsNext t → is_ended (within_limits t) ≡ is_ended t
  is_ended-within_limits (done a) h = refl
  is_ended-within_limits (fault e) h = refl
  is_ended-within_limits (tell m t) h =
      ap (λ b. is_ended (or_fault b "message too large" (tell m (within_limits t)))) h
  is_ended-within_limits (ask e k) h = refl

  advance-within_limits :
      {A : Type 0} (t : Talk A) (waiting : List SyncMessage) (alone : Bool)
      → SendsNext t
      → TakesNext t waiting
      → advance (within_limits t) waiting alone ≡ limited_move (advance t waiting alone)
  unfolding advance
  advance-within_limits (done a) waiting alone h k = refl
  advance-within_limits (fault e) waiting alone h k = refl
  advance-within_limits (tell m t) waiting alone h k =
      ap (λ b. advance (or_fault b "message too large" (tell m (within_limits t))) waiting alone) h
  advance-within_limits (ask e f) (m ∷ waiting) alone h k =
      ap (λ b. some (or_fault b e (within_limits (f m)), waiting, [])) k
  advance-within_limits (ask e f) [] true h k = refl
  advance-within_limits (ask e f) [] false h k = refl

  module _ {A B : Type 0} where
    abbrev pub both_limited : Sides A B → Sides A B
    both_limited s = record s { left = within_limits s.left; right = within_limits s.right }

    abbrev Passes : Side → Sides A B → Type 0
    Passes on_left s = SendsNext s.left × SendsNext s.right × TakesNext s.left s.to_left
    Passes on_right s = SendsNext s.left × SendsNext s.right × TakesNext s.right s.to_right

    -- Every message on the way passes.
    abbrev pub PassesRun : List Side → Sides A B → Type 0
    PassesRun [] s = Unit {0}
    PassesRun (side ∷ order) s =
        Passes side s × elim (move side s) [ none ↦ PassesRun order s | some u ↦ PassesRun order u ]

    abbrev PassesAfter : List Side → Sides A B → Option (Sides A B) → Type 0
    PassesAfter order s none = PassesRun order s
    PassesAfter order s (some u) = PassesRun order u

    PassesAfter-of :
        (order : List Side) (s : Sides A B) (o : Option (Sides A B))
        → (elim o as (λ x. Type 0) [ none ↦ PassesRun order s | some u ↦ PassesRun order u ])
        → PassesAfter order s o
    PassesAfter-of order s none h = h
    PassesAfter-of order s (some u) h = h

    PassesRun-next :
        (order : List Side) (s : Sides A B) (o : Option (Sides A B))
        → PassesAfter order s o
        → PassesRun order (or_stay s o)
    PassesRun-next order s none h = h
    PassesRun-next order s (some u) h = h

    left-within_limits :
        (s : Sides A B) (o : Option (Talk A × List SyncMessage × List SyncMessage))
        → or_stay (both_limited s) (left_moved (both_limited s) (limited_move o))
          ≡ both_limited (or_stay s (left_moved s o))
    left-within_limits s none = refl
    left-within_limits s (some (t, waiting, sent)) = refl

    right-within_limits :
        (s : Sides A B) (o : Option (Talk B × List SyncMessage × List SyncMessage))
        → or_stay (both_limited s) (right_moved (both_limited s) (limited_move o))
          ≡ both_limited (or_stay s (right_moved s o))
    right-within_limits s none = refl
    right-within_limits s (some (t, waiting, sent)) = refl

    move-within_limits :
        (side : Side) (s : Sides A B)
        → Passes side s
        → or_stay (both_limited s) (move side (both_limited s))
          ≡ both_limited (or_stay s (move side s))
    unfolding move
    move-within_limits on_left s (l, r, t) =
        ap
          (λ b.
            or_stay (both_limited s)
              (left_moved (both_limited s) (advance (within_limits s.left) s.to_left b)))
          (is_ended-within_limits s.right r)
        ∙ ap (λ o. or_stay (both_limited s) (left_moved (both_limited s) o))
            (advance-within_limits s.left s.to_left (is_ended s.right) l t)
        ∙ left-within_limits s (advance s.left s.to_left (is_ended s.right))
    move-within_limits on_right s (l, r, t) =
        ap
          (λ b.
            or_stay (both_limited s)
              (right_moved (both_limited s) (advance (within_limits s.right) s.to_right b)))
          (is_ended-within_limits s.left l)
        ∙ ap (λ o. or_stay (both_limited s) (right_moved (both_limited s) o))
            (advance-within_limits s.right s.to_right (is_ended s.left) r t)
        ∙ right-within_limits s (advance s.right s.to_right (is_ended s.left))

    -- Where every message passes, the limits change nothing.
    pub schedule-within_limits :
        (order : List Side) (s : Sides A B)
        → PassesRun order s
        → schedule order (both_limited s) ≡ both_limited (schedule order s)
    unfolding schedule
    schedule-within_limits [] s h = refl
    schedule-within_limits (side ∷ order) s (first, rest) =
        ap (schedule order) (move-within_limits side s first)
        ∙ schedule-within_limits order (or_stay s (move side s))
            (PassesRun-next order s (move side s) (PassesAfter-of order s (move side s) rest))
