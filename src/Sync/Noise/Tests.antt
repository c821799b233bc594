-- ===== src/Sync/Noise/Tests.antt =====
-- The payloads of noise.rs on a transport that marks each message with its number.
use bushido.Prelude.{
  ℕ, zero, suc, ◌-◌, ◌≡◌, refl, ap, [], ◌∷◌, ◌++◌, Bytes, length, length-append, take, drop,
  take-append, drop-append, leb, Result, ok, err, arith, le→leb, if◌then◌else◌,
}
use bushido.Prelude.Table.{list_beq, list_beq_iff}
use bushido.Sync.Frame.{
  TcpStream, recv_frame, read_exact, from_be_bytes, to_be_bytes, send_frame, write_all,
}
use bushido.Sync.Noise.{
  Transport, NoiseStream, send_large, recv_large, recv, on_stream, send, on_transport, send_each,
  chunks, recv_chunks, recv_each,
}
use bushido.Sync.Noise.Carries.{Session, at}
use bushido.Sync.Noise.RoundTrip.{send_large-recv_large}

-- A message's 16 last bytes are its number's.
abbrev pub mark : ℕ → Bytes
mark n = n ∷ n ∷ n ∷ n ∷ n ∷ n ∷ n ∷ n ∷ n ∷ n ∷ n ∷ n ∷ n ∷ n ∷ n ∷ n ∷ []

abbrev pub marked_write : ℕ → Bytes → Result (Bytes × ℕ)
marked_write n p = if leb (length p) 65519 then ok (p ++ mark n, suc n) else err "input"

abbrev pub marked_read : ℕ → Bytes → Result (Bytes × ℕ)
marked_read n c =
    let size = length c - 16 in
    if list_beq (drop size c) (mark n) then ok (take size c, suc n) else err "decrypt"

abbrev pub marked : Transport
marked = record { State = ℕ; write_message = marked_write; read_message = marked_read }

pub marked_read-mark : (n : ℕ) (p : Bytes) → marked_read n (p ++ mark n) ≡ ok (p, suc n)
marked_read-mark n p =
    let size : length (p ++ mark n) - 16 ≡ length p = omega (arith, length-append p (mark n)) in
    rw size (rw (take-append, drop-append) (rw ((list_beq_iff (mark n) (mark n)).1 refl) refl))

abbrev pub marked_session : Session marked
marked_session = record {
  InSync = λ s r. s ≡ r;
  deliver = λ s r sync p small. (
    p ++ mark s,
    suc s,
    suc r,
    rw (le→leb (length p) 65519 small) refl,
    omega (arith, length-append p (mark s)),
    rw sync (marked_read-mark r p),
    ap suc sync,
  );
}

-- A connection on which `room` bytes can be written.
abbrev open_stream : ℕ → TcpStream
open_stream room = record { incoming = []; outgoing = []; room = room }

abbrev holding : Bytes → TcpStream
holding bytes = record { incoming = bytes; outgoing = []; room = 0 }

-- What `send_large` puts on the wire.
abbrev wire_of : Bytes → ℕ → Bytes
wire_of p room =
    (send_large marked p (at marked marked_session (open_stream room) 0)).1.stream.outgoing

two_bytes :
    (recv_large marked (at marked marked_session (holding (wire_of (7 ∷ 9 ∷ []) 100)) 0)).0
    ≡ ok (7 ∷ 9 ∷ [])
unfolding send_large recv_large recv on_stream recv_frame read_exact send on_transport to_be_bytes
    send_frame write_all send_each chunks from_be_bytes recv_chunks recv_each
two_bytes = refl

-- The two bytes on the wire, and one byte more.
abbrev arrived : NoiseStream marked
arrived = at marked marked_session (holding (wire_of (7 ∷ 9 ∷ []) 20042 ++ (5 ∷ []))) 0

send_large-recv_large_example :
    ((send_large marked (7 ∷ 9 ∷ []) (at marked marked_session (open_stream 20042) 0)).0 ≡ ok tt)
    × ((recv_large marked arrived).0 ≡ ok (7 ∷ 9 ∷ []))
    × ((recv_large marked arrived).1.stream.incoming ≡ 5 ∷ [])
send_large-recv_large_example =
    send_large-recv_large marked marked_session (7 ∷ 9 ∷ []) 0 0 (open_stream 20042)
      (holding (wire_of (7 ∷ 9 ∷ []) 20042 ++ (5 ∷ []))) (5 ∷ []) refl (omega arith) (omega arith)
      refl refl

zeros : ℕ → Bytes
zeros zero = []
zeros (suc n) = 0 ∷ zeros n

length-zeros : (n : ℕ) → length (zeros n) ≡ n
unfolding zeros
length-zeros zero = refl
length-zeros (suc n) = ap suc (length-zeros n)

-- One byte more than 1000 chunks.
abbrev large : Bytes
large = zeros 65000001

-- A frame of three bytes, and one byte more.
three_bytes :
    recv_frame (holding (0 ∷ 0 ∷ 0 ∷ 3 ∷ 4 ∷ 5 ∷ 6 ∷ 7 ∷ []))
    ≡ (ok (4 ∷ 5 ∷ 6 ∷ []), holding (7 ∷ []))
unfolding recv_frame read_exact from_be_bytes
three_bytes = refl
