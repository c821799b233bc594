-- ===== src/Sync/Protocol.antt =====
-- The messages of src-tauri/src/sync/protocol.rs, plain and over the encrypted stream. The format,
-- MessagePack of the crate `rmp_serde`, is a parameter.
pub mod RoundTrip
mod Tests
use bushido.Prelude.{ℕ, ◌%◌, ◌^◌, Bytes, length, ltb, if◌then◌else◌, Result, ok, err}
use bushido.Prelude.Io.{Io, pure, fail, ◌>>=◌, ◌>>◌}
use bushido.Sync.Frame.{TcpStream, to_be_bytes, from_be_bytes, write_all, read_exact, max_msg_len}
use bushido.Sync.Noise.{Transport, NoiseStream, send_large, recv_large}

pub data SyncMessage : Type 0 where
  pair_request pair_accept : (device_id device_name : Bytes) → SyncMessage
  pair_reject : (reason : Bytes) → SyncMessage
  spake_msg : (msg : Bytes) → SyncMessage
  pair_confirm : (hmac : Bytes) → SyncMessage
  pair_key_exchange : (encrypted_public_key : Bytes) → SyncMessage
  pair_complete : SyncMessage
  sync_request : (device_id : Bytes) → SyncMessage
  sync_accept : SyncMessage
  hello : (device_id vv : Bytes) → SyncMessage
  hello_ack : (vv : Bytes) → SyncMessage
  sync_delta sync_snapshot : (data_ : Bytes) → SyncMessage
  sync_ack sync_up_to_date : SyncMessage
  send_tab : (sender_device_id sender_device_name url title : Bytes) → SyncMessage
  send_tab_ack : SyncMessage
  close : (reason : Bytes) → SyncMessage
  ping pong : SyncMessage

-- `rmp_serde::to_vec` and `rmp_serde::from_slice`.
pub record Format : Type 0 where
  pub encode : SyncMessage → Result Bytes
  pub decode : Bytes → Result SyncMessage

abbrev pub lift : {S A : Type 0} → Result A → Io S A
lift r s = (r, s)

module _ (format : Format) where
  open format use {encode, decode}

  abbrev pub send_data : Bytes → Io TcpStream (Unit {0})
  send_data bytes =
      if ltb max_msg_len (length bytes)
      then fail "message too large"
      else (write_all (to_be_bytes (length bytes % 2 ^ 32)) >> write_all bytes)

  unfoldable pub send_message : SyncMessage → Io TcpStream (Unit {0})
  send_message msg = do bytes ← lift (encode msg); send_data bytes

  -- What follows the four bytes of the length.
  abbrev pub recv_data : Bytes → Io TcpStream Bytes
  recv_data len_buf =
      if ltb max_msg_len (from_be_bytes len_buf)
      then fail "message too large"
      else read_exact (from_be_bytes len_buf)

  unfoldable pub recv_message : Io TcpStream SyncMessage
  recv_message = do len_buf ← read_exact 4; buf ← recv_data len_buf; lift (decode buf)

  unfoldable pub send_encrypted :
      (noise : Transport) → SyncMessage → Io (NoiseStream noise) (Unit {0})
  send_encrypted noise msg = do bytes ← lift (encode msg); send_large noise bytes

  unfoldable pub recv_encrypted : (noise : Transport) → Io (NoiseStream noise) SyncMessage
  recv_encrypted noise = do bytes ← recv_large noise; lift (decode bytes)
