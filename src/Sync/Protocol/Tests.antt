-- ===== src/Sync/Protocol/Tests.antt =====
-- The messages of a small format, on the transport of the payloads' tests.
use bushido.Prelude.{ℕ, [], ◌∷◌, ◌++◌, Bytes, Result, ok, err, suc, zero}
use bushido.Sync.Frame.{TcpStream}
use bushido.Sync.Noise.{NoiseStream}
use bushido.Sync.Noise.Carries.{at}
use bushido.Sync.Noise.Tests.{marked, marked_session}
use bushido.Sync.Protocol.{SyncMessage, ping, sync_delta, Format, send_encrypted}

-- A format for two of the messages.
abbrev small_encode : SyncMessage → Result Bytes
small_encode ping = ok (0 ∷ [])
small_encode (sync_delta bytes) = ok (1 ∷ bytes)
small_encode other = err "encode"

abbrev small_decode : Bytes → Result SyncMessage
small_decode (zero ∷ []) = ok ping
small_decode (suc zero ∷ bytes) = ok (sync_delta bytes)
small_decode other = err "decode"

abbrev small : Format
small = record { encode = small_encode; decode = small_decode }

abbrev delta : SyncMessage
delta = sync_delta (7 ∷ 8 ∷ [])

abbrev open_stream : ℕ → TcpStream
open_stream room = record { incoming = []; outgoing = []; room = room }

abbrev arrived : NoiseStream marked
arrived =
    at marked marked_session
      (record {
        incoming =
            (send_encrypted small marked delta
              (at marked marked_session (open_stream 30000) 0)).1.stream.outgoing
            ++ (5 ∷ []);
        outgoing = [];
        room = 0;
      })
      0
