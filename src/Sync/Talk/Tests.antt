-- ===== src/Sync/Talk/Tests.antt =====
-- Flows of one or two messages, on a format for pings and deltas.
use bushido.Prelude.{zero, suc, ◌≡◌, refl, List, [], ◌∷◌, Bytes, Result, ok, err, arith}
use bushido.Sync.Frame.{TcpStream, to_be_bytes}
use bushido.Sync.Protocol.{SyncMessage, ping, sync_delta, Format}
use bushido.Sync.Talk.{Talk, done, fault, tell, ask, perform}
use bushido.Sync.Talk.Tcp.{converse, tcp, wire, used, perform-converse}

abbrev bytes_of : SyncMessage → Bytes
bytes_of (sync_delta data_) = 1 ∷ data_
bytes_of other = 0 ∷ []

abbrev message_of : Bytes → Result SyncMessage
message_of (zero ∷ []) = ok ping
message_of (suc zero ∷ data_) = ok (sync_delta data_)
message_of other = err "decode"

abbrev tiny : Format
tiny = record { encode = λ m. ok (bytes_of m); decode = message_of }

-- Sends a ping and gives back the data of the answer.
abbrev answer_data : SyncMessage → Talk Bytes
answer_data (sync_delta data_) = done data_
answer_data other = fault "no delta"

abbrev asking : Talk Bytes
asking = tell ping (ask "recv" answer_data)

abbrev come : List SyncMessage
come = sync_delta (7 ∷ 8 ∷ []) ∷ ping ∷ []

abbrev stream : TcpStream
stream = record {
  incoming = 0 ∷ 0 ∷ 0 ∷ 3 ∷ 1 ∷ 7 ∷ 8 ∷ 0 ∷ 0 ∷ 0 ∷ 1 ∷ 0 ∷ [];
  outgoing = 9 ∷ [];
  room = 50;
}

perform-converse_example :
    perform (tcp tiny) asking stream
    ≡ (ok (7 ∷ 8 ∷ []), used tiny bytes_of stream (ping ∷ []) (ping ∷ []))
unfolding converse wire to_be_bytes
perform-converse_example =
    perform-converse tiny bytes_of asking come (ping ∷ []) (ping ∷ []) (ok (7 ∷ 8 ∷ [])) stream
      ((refl, refl, omega arith), ((refl, refl, omega arith), tt)) ((refl, refl, omega arith), tt)
      refl refl (omega arith)
