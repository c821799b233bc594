-- ===== src/Sync/Talk.antt =====
-- A flow of messages with a peer, as the functions of src-tauri/src/sync/pairing.rs and
-- src-tauri/src/sync/sync_engine.rs write it: messages that it sends, messages that it waits for, and
-- its result. `perform` runs a flow on a connection; Talk/Pair runs two flows against each other.
pub mod Pair
pub mod Tcp
pub mod Limits
mod Tests
use Prim.Native.String.{String}
use bushido.Prelude.{List, [], ◌∷◌, Result, ok, err}
use bushido.Prelude.Io.{Io, after}
use bushido.Sync.Protocol.{SyncMessage}

-- `ask` gives the error of a message that does not come. Every send and every receive of the code is
-- followed by `?`.
pub data Talk (A : Type 0) : Type 0 where
  done : A → Talk A
  fault : String → Talk A
  tell : SyncMessage → Talk A → Talk A
  ask : String → (SyncMessage → Talk A) → Talk A

-- One flow inside another.
infixl 5 ◌>>=◌ ◌>>◌
abbrev pub ◌>>=◌ : {A B : Type 0} → Talk A → (A → Talk B) → Talk B
done a >>= f = f a
fault e >>= f = fault e
tell m t >>= f = tell m (t >>= f)
ask e k >>= f = ask e (λ m. k m >>= f)

abbrev pub ◌>>◌ : {A B : Type 0} → Talk A → Talk B → Talk B
m >> k = m >>= λ _. k

-- A result of code that does not talk.
abbrev pub of_result : {A : Type 0} → Result A → Talk A
of_result (ok a) = done a
of_result (err e) = fault e

-- A way to send and receive messages on a state `S`.
pub record Channel (S : Type 0) : Type 0 where
  pub send : SyncMessage → Io S (Unit {0})
  pub recv : Io S SyncMessage

module _ {S A : Type 0} (channel : Channel S) where
  abbrev error_as : String → (SyncMessage → Io S A) → Result SyncMessage × S → Result A × S
  error_as e f (ok m, s) = f m s
  error_as e f (err x, s) = (err e, s)

  -- The flow on the channel.
  unfoldable pub perform : Talk A → Io S A
  perform (done a) s = (ok a, s)
  perform (fault e) s = (err e, s)
  perform (tell m t) s = after (λ u. perform t) (channel.send m s)
  perform (ask e k) s = error_as e (λ m. perform (k m)) (channel.recv s)
