-- ===== src/Sync/Noise/Carries.antt =====
-- Operations at the two ends of a connection, and how they are put together.
use bushido.Prelude.{
  ℕ, ◌+◌, ◌-◌, ◌*◌, ◌≤◌, ◌≡◌, refl, ap, sym, ◌∙◌, List, [], ◌∷◌, ◌++◌, append_assoc, append-nil,
  Bytes, length, length-append, All, Result, ok, arith,
}
use mathlib.Core.List.{flatten}
use bushido.Prelude.Io.{Io, pure, ◌>>=◌, ◌>>◌, >>=-ok}
use bushido.Sync.Frame.{TcpStream, send_frame, recv_frame}
use bushido.Sync.Frame.Laws.{frame, length-frame, send_frame_lem, recv_frame_lem}
use bushido.Sync.Noise.{
  Transport, NoiseStream, on_stream, on_transport, send, recv, send_each, recv_each,
}
use bushido.Sync.Noise.Chunks.{IsChunk}

-- What `snow` documents of two transport states of one handshake: the tag takes 16 bytes, a message
-- of at most 65535 bytes with its tag is encrypted, and the peer decrypts it, each message in turn.
pub record Session (noise : Transport) : Type 1 where
  pub InSync : noise.State → noise.State → Type 0
  pub deliver :
      (s r : noise.State)
      → InSync s r
      → (p : Bytes) → length p ≤ 65519
      → (c : Bytes) × (s' : noise.State) × (r' : noise.State) × (noise.write_message s p
          ≡ ok (c, s'))
        × (length c ≡ length p + 16)
        × (noise.read_message r c ≡ ok (p, r'))
        × InSync s' r'

-- The bytes that messages take on the wire in all: their own, and 20 for each.
pub wire_size : List Bytes → ℕ
wire_size [] = 0
wire_size (p ∷ ps) = length p + 20 + wire_size ps

pub wire_size-flatten : (ps : List Bytes) → wire_size ps ≡ length (flatten ps) + 20 * length ps
unfolding wire_size flatten
wire_size-flatten [] = refl
wire_size-flatten (p ∷ ps) = omega (arith, wire_size-flatten ps, length-append p (flatten ps))

module _ (noise : Transport) (session : Session noise) where
  open noise use {State, write_message, read_message}
  open session use {InSync, deliver}

  abbrev pub at : TcpStream → State → NoiseStream noise
  at stream transport = record { stream = stream; transport = transport }

  -- `out` at one end writes at most `size` bytes, which `inp` at the other end reads as `value`.
  pub record Carries {A : Type 0} (out : Io (NoiseStream noise) (Unit {0}))
      (inp : Io (NoiseStream noise) A) (value : A) (size : ℕ) (s r : State) : Type 0 where
    pub wire : Bytes
    pub sender : State
    pub receiver : State
    pub fits : length wire ≤ size
    pub sends :
        (stream : TcpStream)
        → size ≤ stream.room
        → out (at stream s) ≡ (
          ok tt,
          at
              (record stream {
                outgoing = stream.outgoing ++ wire;
                room = stream.room - length wire;
              })
              sender,
        )
    pub receives :
        (stream : TcpStream) (rest : Bytes)
        → stream.incoming ≡ wire ++ rest
        → inp (at stream r) ≡ (ok value, at (record stream { incoming = rest }) receiver)
    pub in_sync : InSync sender receiver

  on_transport-ok :
      (f : State → Bytes → Result (Bytes × State)) (p c : Bytes) (stream : TcpStream) (s s' : State)
      → f s p ≡ ok (c, s')
      → on_transport noise f p (at stream s) ≡ (ok c, at stream s')
  unfolding on_transport
  on_transport-ok f p c stream s s' e = rw (e, on_transport)

  on_stream-ok :
      {A : Type 0} (m : Io TcpStream A) (stream stream' : TcpStream) (s : State) {r : Result A}
      → m stream ≡ (r, stream')
      → on_stream noise m (at stream s) ≡ (r, at stream' s)
  unfolding on_stream
  on_stream-ok m stream stream' s e = ap (λ p. (p.0, at p.1 s)) e

  -- One message.
  pub send-Carries :
      (p : Bytes) (s r : State)
      → InSync s r
      → length p ≤ 65519
      → Carries (send noise p) (recv noise) p (length p + 20) s r
  unfolding send recv
  send-Carries p s r sync small =
      let (c, s', r', encrypts, len, decrypts, sync') = deliver s r sync p small in
      record {
        wire = frame c;
        sender = s';
        receiver = r';
        fits = omega (arith, length-frame c);
        sends = λ stream room.
            >>=-ok (on_transport noise write_message p) (λ d. on_stream noise (send_frame d))
              (at stream s) (on_transport-ok write_message p c stream s s' encrypts)
            ∙ on_stream-ok (send_frame c) stream _ s'
                (send_frame_lem c stream (omega arith) (omega arith));
        receives = λ stream rest e.
            >>=-ok (on_stream noise recv_frame) (on_transport noise read_message) (at stream r)
              (on_stream-ok recv_frame stream _ r (recv_frame_lem c rest stream (omega arith) e))
            ∙ on_transport-ok read_message c p (record stream { incoming = rest }) r r' decrypts;
        in_sync = sync';
      }

  sent :
      (stream : TcpStream) (s : State) {out out' : Bytes} {room room' : ℕ}
      → out ≡ out'
      → room ≡ room'
      → ◌≡◌ {A = Result (Unit {0}) × NoiseStream noise}
          (ok tt, at (record stream { outgoing = out; room = room }) s)
          (ok tt, at (record stream { outgoing = out'; room = room' }) s)
  sent stream s p q = cc

  -- Two operations after one another.
  pub then-Carries :
      {A B : Type 0} (out out' : Io (NoiseStream noise) (Unit {0})) (inp : Io (NoiseStream noise) A)
      (inp' : A → Io (NoiseStream noise) B) (a : A) (b : B) (size size' : ℕ) (s r : State)
      (first : Carries out inp a size s r)
      → Carries out' (inp' a) b size' first.sender first.receiver
      → Carries (out >> out') (inp >>= inp') b (size + size') s r
  then-Carries out out' inp inp' a b size size' s r first second = record {
    wire = first.wire ++ second.wire;
    sender = second.sender;
    receiver = second.receiver;
    fits = omega (arith, first.fits, second.fits, length-append first.wire second.wire);
    sends = λ stream room.
        let stream' = record stream {
          outgoing = stream.outgoing ++ first.wire;
          room = stream.room - length first.wire;
        } in
        >>=-ok out (λ _. out') (at stream s) (first.sends stream (omega arith))
        ∙ second.sends stream' (omega (arith, first.fits))
        ∙ sent stream second.sender (append_assoc stream.outgoing first.wire second.wire)
            (omega (arith, length-append first.wire second.wire));
    receives = λ stream rest e.
        >>=-ok inp inp' (at stream r) (
          first.receives stream (second.wire ++ rest)
            (e ∙ append_assoc first.wire second.wire rest))
        ∙ second.receives (record stream { incoming = second.wire ++ rest }) rest refl;
    in_sync = second.in_sync;
  }

  -- The two ends' states are those after `s` and `r`, or others in their places.
  pub after-Carries :
      {A : Type 0} (out : Io (NoiseStream noise) (Unit {0})) (inp : Io (NoiseStream noise) A)
      (a a' : A) (size size' : ℕ) (s r : State)
      → a ≡ a'
      → size ≡ size'
      → Carries out inp a size s r
      → Carries out inp a' size' s r
  after-Carries out inp a a' size size' s r p q c = rw (← p, ← q) c

  pub nothing-Carries :
      (result : Bytes) (s r : State) → InSync s r → Carries (pure tt) (pure result) result 0 s r
  nothing-Carries result s r sync = record {
    wire = [];
    sender = s;
    receiver = r;
    fits = omega arith;
    sends = λ stream room. sent stream s (sym (append-nil stream.outgoing)) (omega arith);
    receives = λ stream rest e. ap (λ l. (ok result, at (record stream { incoming = l }) r)) e;
    in_sync = sync;
  }

  -- Messages that are sent one by one are received as one payload.
  pub each-Carries :
      (ps : List Bytes) (result : Bytes) (s r : State)
      → InSync s r
      → All IsChunk ps
      → Carries
          (send_each noise ps)
          (recv_each noise (length ps) result)
          (result ++ flatten ps)
          (wire_size ps)
          s
          r
  unfolding wire_size flatten send_each recv_each
  each-Carries [] result s r sync small =
      after-Carries (pure tt) (pure result) result (result ++ []) 0 0 s r (sym (append-nil result))
        refl (nothing-Carries result s r sync)
  each-Carries (p ∷ ps) result s r sync small =
      let first = send-Carries p s r sync (omega (arith, small.0)) in
      let rest = each-Carries ps (result ++ p) first.sender first.receiver first.in_sync small.1 in
      after-Carries _ _ ((result ++ p) ++ flatten ps) (result ++ flatten (p ∷ ps)) _ _ s r
        (append_assoc result p (flatten ps)) refl
        (then-Carries (send noise p) (send_each noise ps) (recv noise)
          (λ chunk. recv_each noise (length ps) (result ++ chunk)) p ((result ++ p) ++ flatten ps) _
          _ s r first rest)
