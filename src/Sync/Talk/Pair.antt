-- ===== src/Sync/Talk/Pair.antt =====
-- Two flows against each other: each runs at its own pace, and what one sends waits in order until
-- the other asks for it. A flow that asks a peer which has ended, with nothing waiting, fails. Here
-- messages of any size pass; Limits has the sizes that the code refuses.
pub mod Diamond
pub mod Order
use bushido.Prelude.{ℕ, zero, suc, Bool, true, false, List, [], ◌∷◌, ◌++◌, Option, none, some}
use bushido.Sync.Protocol.{SyncMessage}
use bushido.Sync.Talk.{Talk, done, fault, tell, ask}

abbrev pub is_ended : {A : Type 0} → Talk A → Bool
is_ended (done a) = true
is_ended (fault e) = true
is_ended (tell m t) = false
is_ended (ask e k) = false

-- One move of a flow, if it has one: the flow after it, what then waits for it, and what it sent.
unfoldable pub advance :
    {A : Type 0}
    → Talk A
    → List SyncMessage
    → Bool
    → Option (Talk A × List SyncMessage × List SyncMessage)
advance (done a) waiting alone = none
advance (fault e) waiting alone = none
advance (tell m t) waiting alone = some (t, waiting, m ∷ [])
advance (ask e k) (m ∷ waiting) alone = some (k m, waiting, [])
advance (ask e k) [] true = some (fault e, [], [])
advance (ask e k) [] false = none

-- Two flows, and what waits for each.
pub record Sides (A B : Type 0) : Type 0 where
  pub left : Talk A
  pub right : Talk B
  pub to_left : List SyncMessage
  pub to_right : List SyncMessage

pub data Side : Type 0 where
  on_left on_right : Side

module _ {A B : Type 0} where
  abbrev pub left_moved :
      Sides A B → Option (Talk A × List SyncMessage × List SyncMessage) → Option (Sides A B)
  left_moved s none = none
  left_moved s (some (t, waiting, sent)) =
      some (record s { left = t; to_left = waiting; to_right = s.to_right ++ sent })

  abbrev pub right_moved :
      Sides A B → Option (Talk B × List SyncMessage × List SyncMessage) → Option (Sides A B)
  right_moved s none = none
  right_moved s (some (t, waiting, sent)) =
      some (record s { right = t; to_right = waiting; to_left = s.to_left ++ sent })

  -- A move of one side, if it has one.
  unfoldable pub move : Side → Sides A B → Option (Sides A B)
  move on_left s = left_moved s (advance s.left s.to_left (is_ended s.right))
  move on_right s = right_moved s (advance s.right s.to_right (is_ended s.left))

  abbrev pub or_stay : Sides A B → Option (Sides A B) → Sides A B
  or_stay s none = s
  or_stay s (some u) = u

  -- The sides move in the given order; one that has no move stays.
  unfoldable pub schedule : List Side → Sides A B → Sides A B
  schedule [] s = s
  schedule (side ∷ order) s = schedule order (or_stay s (move side s))

-- Both sides in turn.
pub rounds : ℕ → List Side
rounds zero = []
rounds (suc n) = on_left ∷ on_right ∷ rounds n

abbrev pub start : {A B : Type 0} → Talk A → Talk B → Sides A B
start left right = record { left = left; right = right; to_left = []; to_right = [] }
