-- ===== src/Sync/Handshake.antt =====
-- The Noise XX handshakes of src-tauri/src/sync/noise.rs. The handshake state of the crate `snow` is a
-- parameter.
pub mod Meet
mod Tests
use bushido.Prelude.{List, [], ◌∷◌, Bytes, Option, Result, ok, err}
use bushido.Prelude.Io.{Io, ◌>>=◌, ◌>>◌, pure}
use bushido.Sync.Frame.{TcpStream, send_frame, recv_frame}
use bushido.Sync.Noise.{Transport, NoiseStream}
use bushido.Sync.Protocol.{lift}

-- `snow::Builder` with the parameters' text and a private key, `snow::HandshakeState`, and
-- `get_remote_static` of the transport state.
pub record Snow : Type 1 where
  pub noise : Transport
  pub Handshake : Type 0
  pub build_initiator : Bytes → Result Handshake
  pub build_responder : Bytes → Result Handshake
  pub hs_write : Handshake → Bytes → Result (Bytes × Handshake)
  pub hs_read : Handshake → Bytes → Result (Bytes × Handshake)
  pub into_transport_mode : Handshake → Result noise.State
  pub get_remote_static : noise.State → Option Bytes

module _ (snow : Snow) where
  open snow use {
    noise, Handshake, build_initiator, build_responder, hs_write, hs_read, into_transport_mode,
  }

  -- A message of the handshake, with no payload, sent and received.
  unfoldable pub write_step : Handshake → Io TcpStream Handshake
  write_step hs = do r ← lift (hs_write hs []); send_frame r.0; pure r.1

  unfoldable pub read_step : Handshake → Io TcpStream Handshake
  read_step hs = do msg ← recv_frame; r ← lift (hs_read hs msg); pure r.1

  abbrev pub initiate : Bytes → Io TcpStream noise.State
  initiate local_private_key = do
    start ← lift (build_initiator local_private_key)
    sent ← write_step start
    answered ← read_step sent
    finished ← write_step answered
    lift (into_transport_mode finished)

  abbrev pub respond : Bytes → Io TcpStream noise.State
  respond local_private_key = do
    start ← lift (build_responder local_private_key)
    asked ← read_step start
    answered ← write_step asked
    finished ← read_step answered
    lift (into_transport_mode finished)

  -- The stream is dropped with an error.
  abbrev pub noise_stream : Result noise.State × TcpStream → Result (NoiseStream noise)
  noise_stream (ok transport, stream) = ok (record { stream = stream; transport = transport })
  noise_stream (err e, stream) = err e

  unfoldable pub handshake_initiator : TcpStream → Bytes → Result (NoiseStream noise)
  handshake_initiator stream local_private_key = noise_stream (initiate local_private_key stream)

  unfoldable pub handshake_responder : TcpStream → Bytes → Result (NoiseStream noise)
  handshake_responder stream local_private_key = noise_stream (respond local_private_key stream)

  unfoldable pub remote_static_key : NoiseStream noise → Option Bytes
  remote_static_key ns = snow.get_remote_static ns.transport
