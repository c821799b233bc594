-- ===== src/Sync/Noise/RoundTrip.antt =====
-- Payloads from `send_large` at one end to `recv_large` at the other, in src-tauri/src/sync/noise.rs.
use bushido.Prelude.{
  append_assoc, ℕ, ◌+◌, ◌-◌, ◌*◌, ◌%◌, ◌^◌, ◌≤◌, ◌<◌, ◌≡◌, refl, ap, ◌∙◌, [], ◌∷◌, ◌++◌, Bytes,
  length, All, ok, err, arith, lt→ltb, le→not-ltb,
}
use mathlib.Core.List.{flatten}
use native.Mathlib.Nat.{mod-eq_of_lt}
use bushido.Prelude.Io.{>>=-ok, fail}
use bushido.Sync.Frame.{TcpStream, to_be_bytes, from_be_bytes}
use bushido.Sync.Frame.Laws.{be_bytes_roundtrip, length-to_be_bytes}
use bushido.Sync.Noise.{
  Transport, noise_chunk_size, payloads, send, recv, send_each, recv_each, max_chunks, recv_chunks,
  send_large, recv_large,
}
use bushido.Sync.Noise.Chunks.{IsChunk, chunks-flatten, chunks-IsChunk, length-chunks}
use bushido.Sync.Noise.Carries.{
  Session, at, Carries, send-Carries, then-Carries, after-Carries, wire_size, wire_size-flatten,
  each-Carries,
}

payloads-flatten : (p : Bytes) → flatten (payloads p) ≡ p
unfolding flatten
payloads-flatten [] = refl
payloads-flatten (b ∷ p) = chunks-flatten (b ∷ p)

payloads-IsChunk : (p : Bytes) → All IsChunk (payloads p)
payloads-IsChunk [] = (omega arith, tt)
payloads-IsChunk (b ∷ p) = chunks-IsChunk (b ∷ p)

-- A payload that has bytes is less than one chunk short of its chunks.
length-payloads :
    (p : Bytes)
    → (length p ≤ noise_chunk_size * length (payloads p))
      × (noise_chunk_size * length (payloads p) ≤ length p + noise_chunk_size)
length-payloads [] = omega arith
length-payloads (b ∷ p) = ground (arith, length-chunks (b ∷ p))

length-payloads-few :
    (p : Bytes) (k : ℕ) → 1 ≤ k → length p ≤ noise_chunk_size * k → length (payloads p) ≤ k
length-payloads-few [] k h few = h
length-payloads-few (b ∷ p) k h few = omega (arith, length-chunks (b ∷ p))

module _ (noise : Transport) (session : Session noise) where
  open noise use {State}
  open session use {InSync}

  abbrev count_bytes : Bytes → Bytes
  count_bytes p = to_be_bytes (length (payloads p) % 2 ^ 32)

  count_bytes-from :
      (p : Bytes)
      → length (payloads p) < 2 ^ 32
      → from_be_bytes (count_bytes p) ≡ length (payloads p)
  count_bytes-from p h =
      ap (λ n. from_be_bytes (to_be_bytes n)) (mod-eq_of_lt h)
      ∙ be_bytes_roundtrip (length (payloads p)) h

  count-Carries :
      (p : Bytes) (s r : State)
      → InSync s r
      → Carries noise session (send noise (count_bytes p)) (recv noise) (count_bytes p) 24 s r
  count-Carries p s r sync =
      let four = length-to_be_bytes (length (payloads p) % 2 ^ 32) in
      after-Carries noise session _ _ (count_bytes p) (count_bytes p) _ 24 s r refl (omega arith)
        (send-Carries noise session (count_bytes p) s r sync (omega arith))

  recv_chunks-ok :
      (p : Bytes)
      → length (payloads p) ≤ max_chunks
      → recv_chunks noise (count_bytes p) ≡ recv_each noise (length (payloads p)) []
  unfolding recv_chunks
  recv_chunks-ok p h =
      rw
        (
          length-to_be_bytes (length (payloads p) % 2 ^ 32),
          count_bytes-from p (omega arith),
          le→not-ltb (length (payloads p)) max_chunks h,
        )
        refl

  recv_chunks-err :
      (p : Bytes)
      → max_chunks < length (payloads p)
      → length (payloads p) < 2 ^ 32
      → recv_chunks noise (count_bytes p) ≡ fail "too many chunks"
  unfolding recv_chunks
  recv_chunks-err p h small =
      rw
        (
          length-to_be_bytes (length (payloads p) % 2 ^ 32),
          count_bytes-from p small,
          lt→ltb max_chunks (length (payloads p)) h,
        )
        refl

  -- The bytes of a payload on the wire are enough for its count, its chunks, and 20 for each.
  abbrev pub sent_size : Bytes → ℕ
  sent_size p = 24 + wire_size (payloads p)

  large-Carries :
      (p : Bytes) (s r : State)
      → InSync s r
      → length (payloads p) ≤ max_chunks
      → Carries noise session (send_large noise p) (recv_large noise) p (sent_size p) s r
  unfolding send_large recv_large
  large-Carries p s r sync few =
      let first = count-Carries p s r sync in
      let rest =
        each-Carries noise session (payloads p) [] first.sender first.receiver first.in_sync
          (payloads-IsChunk p) in
      then-Carries noise session (send noise (count_bytes p)) (send_each noise (payloads p))
        (recv noise) (recv_chunks noise) (count_bytes p) p 24 (wire_size (payloads p)) s r first
        (rw (recv_chunks-ok p few) (
          after-Carries noise session _ _ (flatten (payloads p)) p _ _ first.sender first.receiver
            (payloads-flatten p) refl rest))

  sent_size-room : (p : Bytes) → sent_size p ≤ length p + 24 + 20 * length (payloads p)
  sent_size-room p =
      omega (arith, wire_size-flatten (payloads p), ap (length {A = ℕ}) (payloads-flatten p))

  -- A payload of at most 65,000,000 bytes: `send_large` succeeds on a connection with nothing else
  -- written and with room for the payload and 20,040 bytes more; and `recv_large` at the other end,
  -- whose transport is in step and to which what was written has come, returns the payload and leaves
  -- on the stream what follows.
  pub send_large-recv_large :
      (p : Bytes) (s r : State) (out inp : TcpStream) (rest : Bytes)
      → InSync s r
      → length p ≤ noise_chunk_size * max_chunks
      → length p + 20 * 1002 ≤ out.room
      → out.outgoing ≡ []
      → inp.incoming ≡ (send_large noise p (at noise session out s)).1.stream.outgoing ++ rest
      → ((send_large noise p (at noise session out s)).0 ≡ ok tt)
        × ((recv_large noise (at noise session inp r)).0 ≡ ok p)
        × ((recv_large noise (at noise session inp r)).1.stream.incoming ≡ rest)
  send_large-recv_large p s r out inp rest sync few room empty arrives =
      let len : length (payloads p) ≤ max_chunks =
        length-payloads-few p max_chunks (omega arith) few in
      let c = large-Carries p s r sync len in
      let sent = c.sends out (omega (arith, len, sent_size-room p)) in
      let wire = ap (λ r. r.1.stream.outgoing) sent ∙ ap (λ l. l ++ c.wire) empty in
      let received = c.receives inp rest (arrives ∙ ap (λ l. l ++ rest) wire) in
      (ap (λ r. r.0) sent, ap (λ r. r.0) received, ap (λ r. r.1.stream.incoming) received)

  -- A payload of more than 65,000,000 bytes, and of less than 65,000 times 2^32 - 1: `send_large`
  -- succeeds on a connection with nothing else written and with room for twice the payload and 20,040
  -- bytes more; and `recv_large` at the other end, whose transport is in step and to which what was
  -- written has come, fails with "too many chunks".
  pub send_large-too_many :
      (p : Bytes) (s r : State) (out inp : TcpStream) (rest : Bytes)
      → InSync s r
      → noise_chunk_size * max_chunks < length p
      → length p < noise_chunk_size * (2 ^ 32 - 1)
      → 2 * length p + 20 * 1002 ≤ out.room
      → out.outgoing ≡ []
      → inp.incoming ≡ (send_large noise p (at noise session out s)).1.stream.outgoing ++ rest
      → ((send_large noise p (at noise session out s)).0 ≡ ok tt)
        × ((recv_large noise (at noise session inp r)).0 ≡ err "too many chunks")
  unfolding send_large recv_large
  send_large-too_many p s r out inp rest sync many small room empty arrives =
      let len = length-payloads p in
      let size = sent_size-room p in
      let first = count-Carries p s r sync in
      let chunks =
        each-Carries noise session (payloads p) [] first.sender first.receiver first.in_sync
          (payloads-IsChunk p) in
      let counted = record out {
        outgoing = out.outgoing ++ first.wire;
        room = out.room - length first.wire;
      } in
      let sent =
        >>=-ok (send noise (count_bytes p)) (λ _. send_each noise (payloads p))
          (at noise session out s) (first.sends out (omega arith))
        ∙ chunks.sends counted (omega (arith, first.fits)) in
      let front =
        append_assoc (out.outgoing ++ first.wire) chunks.wire rest
        ∙ ap (λ l. (l ++ first.wire) ++ (chunks.wire ++ rest)) empty in
      let wire = ap (λ r. r.1.stream.outgoing ++ rest) sent ∙ front in
      let received =
        >>=-ok (recv noise) (recv_chunks noise) (at noise session inp r)
          (first.receives inp (chunks.wire ++ rest) (arrives ∙ wire)) in
      (
        ap (λ r. r.0) sent,
        ap (λ r. r.0) received
            ∙ ap
                (λ m.
                  (m (
                    at noise session (record inp { incoming = chunks.wire ++ rest })
                      first.receiver)).0)
                (recv_chunks-err p (omega arith) (omega arith)),
      )
