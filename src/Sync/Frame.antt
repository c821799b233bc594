-- ===== src/Sync/Frame.antt =====
-- Length-prefixed frames: `send_frame` and `recv_frame` of src-tauri/src/sync/noise.rs, over a model
-- of the TCP stream. The stream keeps the bytes that have arrived and those that were written, and
-- the number of bytes that it still takes before the connection breaks.
pub mod Laws
use bushido.Prelude.{
  ℕ, zero, suc, ◌+◌, ◌-◌, ◌*◌, ◌/◌, ◌%◌, ◌^◌, List, [], ◌∷◌, ◌++◌, Bytes, length, take, drop, ltb,
  leb, if◌then◌else◌, ok, err,
}
use bushido.Prelude.Io.{Io, pure, fail, ◌>>=◌, ◌>>◌}

pub record TcpStream : Type 0 where
  pub incoming : Bytes
  pub outgoing : Bytes
  pub room : ℕ

-- `stream.write_all(data)`, with the error's text.
unfoldable pub write_all : Bytes → Io TcpStream (Unit {0})
write_all bytes s =
    if leb (length bytes) s.room
    then (ok tt, record s { outgoing = s.outgoing ++ bytes; room = s.room - length bytes })
    else (err "frame write", record s { outgoing = s.outgoing ++ take s.room bytes; room = 0 })

-- `stream.read_exact(buf)` for a buffer of `n` bytes.
unfoldable pub read_exact : ℕ → Io TcpStream Bytes
read_exact n s =
    if leb n (length s.incoming)
    then (ok (take n s.incoming), record s { incoming = drop n s.incoming })
    else (err "frame read", record s { incoming = [] })

-- `u32::to_be_bytes`
unfoldable pub to_be_bytes : ℕ → Bytes
to_be_bytes n = n / 2 ^ 24 % 256 ∷ n / 2 ^ 16 % 256 ∷ n / 2 ^ 8 % 256 ∷ n % 256 ∷ []

-- `u32::from_be_bytes`, of the four bytes of an array.
unfoldable pub from_be_bytes : Bytes → ℕ
from_be_bytes (a ∷ b ∷ c ∷ d ∷ []) = a * 2 ^ 24 + b * 2 ^ 16 + c * 2 ^ 8 + d
from_be_bytes bytes = 0

abbrev pub max_msg_len : ℕ
max_msg_len = 65535

unfoldable pub send_frame : Bytes → Io TcpStream (Unit {0})
send_frame bytes = do write_all (to_be_bytes (length bytes % 2 ^ 32)); write_all bytes

-- What follows the four bytes of the length.
abbrev pub recv_body : Bytes → Io TcpStream Bytes
recv_body len_buf =
    let len = from_be_bytes len_buf in
    if ltb max_msg_len len then fail "frame too large" else read_exact len

unfoldable pub recv_frame : Io TcpStream Bytes
recv_frame = do len_buf ← read_exact 4; recv_body len_buf
