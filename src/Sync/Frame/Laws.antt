-- ===== src/Sync/Frame/Laws.antt =====
-- Frames on the wire, for `send_frame` and `recv_frame` of src-tauri/src/sync/noise.rs.
use bushido.Prelude.{
  ℕ, ◌+◌, ◌-◌, ◌^◌, ◌≤◌, ◌<◌, ◌≡◌, refl, ap, sym, length-take, take-append-drop, ◌∙◌, inl, inr,
  ◌++◌, append_assoc, Bytes, length, length-append, take-append, drop-append, ltb, leb, Bool-cases,
  if◌then◌else◌, ok, arith, Result, le→leb, le→not-ltb,
}
use bushido.Prelude.Io.{>>=-ok, >>=-eq-ok, fail}
use native.Mathlib.Nat.{mod-eq_of_lt}
use bushido.Sync.Frame.{
  TcpStream, write_all, read_exact, to_be_bytes, from_be_bytes, max_msg_len, send_frame, recv_body,
  recv_frame,
}

pub be_bytes_roundtrip : (n : ℕ) → n < 2 ^ 32 → from_be_bytes (to_be_bytes n) ≡ n
unfolding from_be_bytes to_be_bytes
be_bytes_roundtrip n h = omega arith

pub length-to_be_bytes : (n : ℕ) → length (to_be_bytes n) ≡ 4
unfolding to_be_bytes
length-to_be_bytes n = refl

-- What a frame is on the wire.
abbrev pub frame : Bytes → Bytes
frame bytes = to_be_bytes (length bytes) ++ bytes

pub length-frame : (bytes : Bytes) → length (frame bytes) ≡ length bytes + 4
length-frame bytes =
    omega
      (arith, length-append (to_be_bytes (length bytes)) bytes, length-to_be_bytes (length bytes))

write_all_lem :
    (bytes : Bytes) (s : TcpStream)
    → length bytes ≤ s.room
    → write_all bytes s
      ≡ (ok tt, record s { outgoing = s.outgoing ++ bytes; room = s.room - length bytes })
unfolding write_all
write_all_lem bytes s h = ground arith

sent :
    (s : TcpStream) {out out' : Bytes} {room room' : ℕ}
    → out ≡ out'
    → room ≡ room'
    → ◌≡◌ {A = Result (Unit {0}) × TcpStream}
        (ok tt, record s { outgoing = out; room = room })
        (ok tt, record s { outgoing = out'; room = room' })
sent s p q = cc

-- On a stream with room for it, a frame below 4 GiB is written whole.
pub send_frame_lem :
    (bytes : Bytes) (s : TcpStream)
    → length bytes < 2 ^ 32
    → length bytes + 4 ≤ s.room
    → send_frame bytes s ≡ (
      ok tt,
      record s { outgoing = s.outgoing ++ frame bytes; room = s.room - length (frame bytes) },
    )
unfolding send_frame
send_frame_lem bytes s small room =
    let header = to_be_bytes (length bytes) in
    let four = length-to_be_bytes (length bytes) in
    let whole = length-append header bytes in
    let s' = record s { outgoing = s.outgoing ++ header; room = s.room - length header } in
    rw (mod-eq_of_lt small) (
      >>=-ok (write_all header) (λ _. write_all bytes) s (write_all_lem header s (omega arith))
      ∙ write_all_lem bytes s' (omega arith)
      ∙ sent s (append_assoc s.outgoing header bytes) (omega arith))

pub read_exact-append :
    (n : ℕ) (bytes rest : Bytes) (s : TcpStream)
    → s.incoming ≡ bytes ++ rest
    → length bytes ≡ n
    → read_exact n s ≡ (ok bytes, record s { incoming = rest })
unfolding read_exact
read_exact-append n bytes rest s e len =
    rw (← len, e)
      (rw (take-append, drop-append)
        (rw (
          le→leb (length bytes) (length (bytes ++ rest))
            (omega (arith, length-append bytes rest)))))

-- A frame within the limit is received whole, and what follows it stays on the stream.
pub recv_frame_lem :
    (bytes rest : Bytes) (s : TcpStream)
    → length bytes ≤ max_msg_len
    → s.incoming ≡ frame bytes ++ rest
    → recv_frame s ≡ (ok bytes, record s { incoming = rest })
unfolding recv_frame
recv_frame_lem bytes rest s small e =
    let header = to_be_bytes (length bytes) in
    let s' = record s { incoming = bytes ++ rest } in
    >>=-ok (read_exact 4) recv_body s (
      read_exact-append 4 header (bytes ++ rest) s (e ∙ append_assoc header bytes rest)
        (length-to_be_bytes (length bytes)))
    ∙ ap (λ (n : ℕ). (if ltb max_msg_len n then fail "frame too large" else read_exact n) s')
        (be_bytes_roundtrip (length bytes) (omega arith))
    ∙ rw (le→not-ltb (length bytes) max_msg_len small)
        (read_exact-append (length bytes) bytes rest s' refl refl)

read_exact_takes :
    (n : ℕ) (s s' : TcpStream) (bytes : Bytes)
    → read_exact n s ≡ (ok bytes, s')
    → (length bytes ≡ n) × (s.incoming ≡ bytes ++ s'.incoming)
unfolding read_exact
read_exact_takes n s s' bytes e = elim (Bool-cases (leb n (length s.incoming))) [
  | inr short ↦ ground arith
  | inl enough ↦ ground (arith, length-take n s.incoming, take-append-drop n s.incoming)
]

-- A frame that is received is within the limit, and it is what stood on the stream behind four
-- bytes of its length; the rest of the stream stays.
pub recv_frame_takes :
    (s s' : TcpStream) (bytes : Bytes)
    → recv_frame s ≡ (ok bytes, s')
    → (length bytes ≤ max_msg_len)
      × ((header : Bytes) × (length header ≡ 4)
          × (from_be_bytes header ≡ length bytes)
          × (s.incoming ≡ header ++ (bytes ++ s'.incoming)))
unfolding recv_frame
recv_frame_takes s s' bytes e =
    let (header, s₁, first, second) = >>=-eq-ok (read_exact 4) recv_body s e in
    let (four, front) = read_exact_takes 4 s s₁ header first in
    elim (Bool-cases (ltb max_msg_len (from_be_bytes header))) [
      | inl large ↦ cc (rw large at second)
      | inr small ↦
          let (len, back) = read_exact_takes _ s₁ s' bytes (rw small at second) in
          (ground arith, (header, four, sym len, front ∙ ap (λ l. header ++ l) back))
    ]
