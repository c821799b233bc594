-- ===== src/Sync/Noise.antt =====
-- The encrypted stream, `NoiseStream` of src-tauri/src/sync/noise.rs: one Noise message to a frame,
-- and payloads of any size as a count and that many chunks. The transport state is that of the crate
-- `snow`: its type and its two operations are parameters.
pub mod Chunks
pub mod Carries
pub mod RoundTrip
pub mod Tests
use bushido.Prelude.{
  ℕ, zero, suc, ◌+◌, ◌%◌, ◌^◌, Bool, true, false, not, List, [], ◌∷◌, ◌++◌, Bytes, length, take,
  drop, ltb, ◌==◌, if◌then◌else◌, Result, ok, err,
}
use bushido.Prelude.Io.{Io, pure, fail, ◌>>=◌, ◌>>◌}
use bushido.Sync.Frame.{TcpStream, send_frame, recv_frame, to_be_bytes, from_be_bytes}

abbrev pub noise_chunk_size : ℕ
noise_chunk_size = 65000

-- `plaintext.chunks(NOISE_CHUNK_SIZE)`; the fuel is the number of bytes, and each round takes one
-- at least.
pub chunks_from : ℕ → Bytes → List Bytes
chunks_from zero bytes = []
chunks_from (suc fuel) [] = []
chunks_from (suc fuel) (b ∷ bytes) =
    take noise_chunk_size (b ∷ bytes) ∷ chunks_from fuel (drop noise_chunk_size (b ∷ bytes))

unfoldable pub chunks : Bytes → List Bytes
unfolding chunks_from
chunks bytes = chunks_from (length bytes) bytes

-- What `send_large` sends after the count, which is their number: one empty chunk for the empty
-- payload.
abbrev pub payloads : Bytes → List Bytes
payloads [] = [] ∷ []
payloads (b ∷ plaintext) = chunks (b ∷ plaintext)

-- The bound of `if count > 1000`.
abbrev pub max_chunks : ℕ
max_chunks = 1000

-- `snow::TransportState`: encryption and decryption of one message.
pub record Transport : Type 1 where
  pub State : Type 0
  pub write_message : State → Bytes → Result (Bytes × State)
  pub read_message : State → Bytes → Result (Bytes × State)

module _ (noise : Transport) where
  open noise use {State, write_message, read_message}

  pub record NoiseStream : Type 0 where
    pub stream : TcpStream
    pub transport : State

  -- A frame's operation on the stream inside.
  pub on_stream : {A : Type 0} → Io TcpStream A → Io NoiseStream A
  on_stream m ns = let (r, stream) = m ns.stream in (r, record ns { stream = stream })

  -- An operation of the transport state, which changes only where it succeeds.
  pub on_transport : (State → Bytes → Result (Bytes × State)) → Bytes → Io NoiseStream Bytes
  on_transport f bytes ns = elim (f ns.transport bytes) [
    | ok r ↦ (ok r.0, record ns { transport = r.1 })
    | err e ↦ (err e, ns)
  ]

  pub send : Bytes → Io NoiseStream (Unit {0})
  send plaintext = do
    ciphertext ← on_transport write_message plaintext
    on_stream (send_frame ciphertext)

  pub recv : Io NoiseStream Bytes
  recv = do ciphertext ← on_stream recv_frame; on_transport read_message ciphertext

  -- `for chunk in &chunks { self.send(chunk).await?; }`
  pub send_each : List Bytes → Io NoiseStream (Unit {0})
  send_each [] = pure tt
  send_each (chunk ∷ rest) = send chunk >> send_each rest

  pub send_large : Bytes → Io NoiseStream (Unit {0})
  send_large plaintext = do
    send (to_be_bytes (length (payloads plaintext) % 2 ^ 32))
    send_each (payloads plaintext)

  -- `for _ in 0..count { result.extend(self.recv().await?); }`
  pub recv_each : ℕ → Bytes → Io NoiseStream Bytes
  recv_each zero result = pure result
  recv_each (suc count) result = do chunk ← recv; recv_each count (result ++ chunk)

  -- What follows the message with the count.
  pub recv_chunks : Bytes → Io NoiseStream Bytes
  recv_chunks count_bytes =
      if not (length count_bytes == 4)
      then fail "invalid chunk count"
      else (if ltb max_chunks (from_be_bytes count_bytes)
          then fail "too many chunks"
          else recv_each (from_be_bytes count_bytes) [])

  pub recv_large : Io NoiseStream Bytes
  recv_large = do count_bytes ← recv; recv_chunks count_bytes
