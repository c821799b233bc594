-- ===== src/Sync/Engine.antt =====
-- One sync of two devices, src-tauri/src/sync/sync_engine.rs, as flows of messages that pass the
-- document on. LZ4 is a parameter, and so is what the connection and the handshake end in. A fault
-- ends a flow; what it leaves of the document is said of the operations in Document.
pub mod Changes
pub mod Recovery
use Prim.Native.String.{String}
use bushido.Prelude.{
  Bool, true, false, ◌&&◌, List, [], ◌∷◌, Bytes, Option, none, some, Result, ok, err, if◌then◌else◌,
}
use bushido.Prelude.Table.{list_beq}
use bushido.Sync.Protocol.{
  SyncMessage, sync_request, sync_accept, hello, hello_ack, sync_delta, sync_snapshot, sync_ack,
  sync_up_to_date, close,
}
use bushido.Sync.Talk.{Talk, done, fault, tell, ask, of_result, ◌>>=◌, ◌>>◌}
use bushido.Sync.Document.{
  Loro, SyncDoc, version_vector, export_delta, export_all_updates, import_delta, import_snapshot,
}

pub data SyncResult : Type 0 where
  changes_received changes_sent both_synced already_up_to_date : SyncResult

-- The test at the end of both sides.
abbrev pub sync_result : Bool → Bool → SyncResult
sync_result received sent =
    if received && sent
    then both_synced
    else (if received
        then changes_received
        else (if sent then changes_sent else already_up_to_date))

-- `lz4_flex::compress_prepend_size` and `lz4_flex::decompress_size_prepended`.
pub record Lz4 : Type 0 where
  pub compress : Bytes → Bytes
  pub decompress : Bytes → Result Bytes

-- `Ok(bytes) if !bytes.is_empty()`
abbrev pub non_empty : Result Bytes → Option Bytes
non_empty (ok []) = none
non_empty (ok (b ∷ bytes)) = some (b ∷ bytes)
non_empty (err e) = none

abbrev pub or_else : Option Bytes → Option Bytes → Option Bytes
or_else none o = o
or_else (some bytes) o = some bytes

abbrev pub expect_accept : SyncMessage → Talk (Unit {0})
expect_accept sync_accept = done tt
expect_accept (close reason) = fault "peer rejected"
expect_accept other = fault "unexpected response to SyncRequest"

abbrev pub expect_ack : SyncMessage → Talk Bytes
expect_ack (hello_ack vv) = done vv
expect_ack other = fault "expected HelloAck"

-- The test of the key that the handshake found.
abbrev pub check_key : Bytes → Option Bytes → Talk (Unit {0})
check_key noise_public_key none = fault "no remote static key"
check_key noise_public_key (some remote_key) =
    if list_beq remote_key noise_public_key then done tt else fault "remote key mismatch"

module _ (loro : Loro) (lz4 : Lz4) where
  -- What is sent to a peer of a version: the delta, or where there is none all updates.
  unfoldable pub updates_for : SyncDoc loro → Bytes → Option Bytes
  updates_for s remote_vv =
      or_else (non_empty (export_delta loro s remote_vv)) (non_empty (export_all_updates loro s))

  unfoldable pub send_updates : Option Bytes → Talk Bool
  send_updates (some updates) = tell (sync_delta (lz4.compress updates)) (done true)
  send_updates none = tell sync_up_to_date (done false)

  abbrev pub send_delta_or_snapshot : SyncDoc loro → Bytes → Talk Bool
  send_delta_or_snapshot s remote_vv = send_updates (updates_for s remote_vv)

  abbrev pub received : Result (Unit {0}) × SyncDoc loro → Talk (Bool × SyncDoc loro)
  received (ok u, s) = done (true, s)
  received (err e, s) = fault e

  unfoldable pub on_changes : SyncDoc loro → SyncMessage → Talk (Bool × SyncDoc loro)
  on_changes s (sync_delta bytes) = received (import_delta loro lz4.decompress bytes s)
  on_changes s (sync_snapshot bytes) = received (import_snapshot loro lz4.decompress bytes s)
  on_changes s sync_up_to_date = done (false, s)
  on_changes s other = fault "expected SyncDelta/SyncSnapshot/SyncUpToDate"

  abbrev pub recv_and_import : SyncDoc loro → Talk (Bool × SyncDoc loro)
  recv_and_import s = ask "recv changes" (on_changes s)

  abbrev pub any_message : SyncMessage → Talk (Unit {0})
  any_message m = done tt

  -- The initiator once the key is checked.
  abbrev pub exchange : Bytes → SyncDoc loro → Talk (SyncResult × SyncDoc loro)
  exchange device_id s = do
    tell (hello device_id (version_vector loro s)) (done tt)
    peer_vv ← ask "recv HelloAck" expect_ack
    sent ← send_delta_or_snapshot s peer_vv
    (got, s') ← recv_and_import s
    tell sync_ack (done tt)
    ask "recv SyncAck" any_message
    done (sync_result got sent, s')

  -- `connected` is what the connection comes to within its timeout, `handshake` the remote static key
  -- where the handshake ends well.
  unfoldable pub sync_with_peer :
      Result (Unit {0})
      → Result (Option Bytes)
      → Bytes
      → Bytes
      → SyncDoc loro
      → Talk (SyncResult × SyncDoc loro)
  sync_with_peer connected handshake noise_public_key device_id s = do
    of_result connected
    tell (sync_request device_id) (done tt)
    ask "recv SyncAccept" expect_accept
    remote_key ← of_result handshake
    check_key noise_public_key remote_key
    exchange device_id s

  unfoldable pub handle_sync_responder : Bytes → SyncDoc loro → Talk (SyncResult × SyncDoc loro)
  handle_sync_responder remote_vv s = do
    tell (hello_ack (version_vector loro s)) (done tt)
    (got, s') ← recv_and_import s
    sent ← send_delta_or_snapshot s' remote_vv
    ask "recv SyncAck" any_message
    tell sync_ack (done tt)
    done (sync_result got sent, s')
