-- ===== src/Sync/Protocol/RoundTrip.antt =====
-- Sending a message at one end and receiving it at the other.
use bushido.Prelude.{
  ◌+◌, ◌*◌, ◌≤◌, ◌≡◌, refl, ap, ◌∙◌, [], ◌++◌, append_assoc, Bytes, length, le→not-ltb, ok, arith,
}
use bushido.Sync.Frame.{TcpStream, to_be_bytes, send_frame, max_msg_len}
use bushido.Sync.Frame.Laws.{
  frame, send_frame_lem, read_exact-append, be_bytes_roundtrip, length-to_be_bytes,
}
use bushido.Sync.Noise.{Transport, NoiseStream, send_large, noise_chunk_size, max_chunks}
use bushido.Sync.Noise.Carries.{Session, at}
use bushido.Sync.Noise.RoundTrip.{send_large-recv_large}
use bushido.Sync.Protocol.{
  SyncMessage, Format, send_message, recv_message, send_encrypted, recv_encrypted,
}

module _ (format : Format) where
  open format use {encode, decode}

  -- What a message is encoded to is sent as the payload.
  send_encrypted-payload :
      (noise : Transport) (msg : SyncMessage) (p : Bytes) (ns : NoiseStream noise)
      → encode msg ≡ ok p
      → send_encrypted format noise msg ns ≡ send_large noise p ns
  unfolding send_encrypted
  send_encrypted-payload noise msg p ns e = rw e refl

  -- On the encrypted stream: a message that is encoded to at most 65,000,000 bytes, which are decoded
  -- to it. `send_encrypted` succeeds on a connection with nothing else written and with room for those
  -- bytes and 20,040 more; and `recv_encrypted` at the other end, whose transport is in step and to
  -- which what was written has come, returns the message and leaves on the stream what follows.
  pub send_encrypted-recv_encrypted :
      (noise : Transport) (session : Session noise) (msg : SyncMessage) (p : Bytes)
      (s r : noise.State) (out inp : TcpStream) (rest : Bytes)
      → encode msg ≡ ok p
      → decode p ≡ ok msg
      → session.InSync s r
      → length p ≤ noise_chunk_size * max_chunks
      → length p + 20 * 1002 ≤ out.room
      → out.outgoing ≡ []
      → inp.incoming
        ≡ (send_encrypted format noise msg (at noise session out s)).1.stream.outgoing ++ rest
      → ((send_encrypted format noise msg (at noise session out s)).0 ≡ ok tt)
        × ((recv_encrypted format noise (at noise session inp r)).0 ≡ ok msg)
        × ((recv_encrypted format noise (at noise session inp r)).1.stream.incoming ≡ rest)
  unfolding recv_encrypted
  send_encrypted-recv_encrypted noise session msg p s r out inp rest encodes decodes sync few room
        empty arrives =
      let same = send_encrypted-payload noise msg p (at noise session out s) encodes in
      let (sent, received, left) =
        send_large-recv_large noise session p s r out inp rest sync few room empty
          (arrives ∙ ap (λ o. o.1.stream.outgoing ++ rest) same) in
      (ap (λ o. o.0) same ∙ sent, rw received decodes, rw received left)

  pub send_message-frame :
      (msg : SyncMessage) (p : Bytes) (out : TcpStream)
      → encode msg ≡ ok p
      → length p ≤ max_msg_len
      → send_message format msg out ≡ send_frame p out
  unfolding send_message send_frame
  send_message-frame msg p out e small = rw e (rw (le→not-ltb (length p) max_msg_len small) refl)

  pub recv_message-frame :
      (msg : SyncMessage) (p rest : Bytes) (inp : TcpStream)
      → decode p ≡ ok msg
      → length p ≤ max_msg_len
      → inp.incoming ≡ frame p ++ rest
      → recv_message format inp ≡ (ok msg, record inp { incoming = rest })
  unfolding recv_message
  recv_message-frame msg p rest inp decodes small arrives =
      let header = to_be_bytes (length p) in
      let header_read =
        read_exact-append 4 header (p ++ rest) inp (arrives ∙ append_assoc header p rest)
          (length-to_be_bytes (length p)) in
      let body_read =
        read_exact-append (length p) p rest (record inp { incoming = p ++ rest }) refl refl in
      rw header_read (
        rw (be_bytes_roundtrip (length p) (omega arith))
          (rw (le→not-ltb (length p) max_msg_len small) (rw body_read (rw decodes refl))))

  -- On the plain stream: a message that is encoded to at most 65535 bytes, which are decoded to it.
  -- `send_message` succeeds on a connection with nothing else written and with room for those bytes
  -- and 4 more; and `recv_message` at the other end, to which what was written has come, returns the
  -- message and leaves on the stream what follows.
  pub send_message-recv_message :
      (msg : SyncMessage) (p : Bytes) (out inp : TcpStream) (rest : Bytes)
      → encode msg ≡ ok p
      → decode p ≡ ok msg
      → length p ≤ max_msg_len
      → length p + 4 ≤ out.room
      → out.outgoing ≡ []
      → inp.incoming ≡ (send_message format msg out).1.outgoing ++ rest
      → ((send_message format msg out).0 ≡ ok tt)
        × (recv_message format inp ≡ (ok msg, record inp { incoming = rest }))
  send_message-recv_message msg p out inp rest encodes decodes small room empty arrives =
      let sent =
        send_message-frame msg p out encodes small ∙ send_frame_lem p out (omega arith) room in
      let wire = ap (λ o. o.1.outgoing ++ rest) sent ∙ ap (λ l. (l ++ frame p) ++ rest) empty in
      (ap (λ o. o.0) sent, recv_message-frame msg p rest inp decodes small (arrives ∙ wire))
