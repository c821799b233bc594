-- ===== src/Sync/Handshake/Meet.antt =====
-- The two sides of a handshake of src-tauri/src/sync/noise.rs.
use bushido.Prelude.{
  ◌+◌, ◌-◌, ◌≤◌, ◌≡◌, refl, sym, ap, ◌∙◌, [], ◌++◌, append_assoc, Bytes, length, some, ok, arith,
}
use bushido.Sync.Frame.{TcpStream, max_msg_len}
use bushido.Sync.Frame.Laws.{frame, length-frame, send_frame_lem, recv_frame_lem}
use bushido.Sync.Noise.{NoiseStream}
use bushido.Sync.Noise.Carries.{Session}
use bushido.Sync.Handshake.{
  Snow, write_step, read_step, handshake_initiator, handshake_responder, remote_static_key,
}

module _ (snow : Snow) where
  open snow use {
    noise, Handshake, build_initiator, build_responder, hs_write, hs_read, into_transport_mode,
    get_remote_static,
  }

  -- A handshake of two keys, message by message, as `snow` documents it for the pattern XX: each side
  -- reads what the other writes, and the two transport states know the other's public key.
  pub record Handshaken (session : Session noise) (private_a private_b public_a public_b : Bytes)
      : Type 0 where
    pub m1 : Bytes
    pub m2 : Bytes
    pub m3 : Bytes
    pub small : (length m1 ≤ max_msg_len) × (length m2 ≤ max_msg_len) × (length m3 ≤ max_msg_len)
    pub i0 : Handshake
    pub i1 : Handshake
    pub i2 : Handshake
    pub i3 : Handshake
    pub r0 : Handshake
    pub r1 : Handshake
    pub r2 : Handshake
    pub r3 : Handshake
    pub p1 : Bytes
    pub p2 : Bytes
    pub p3 : Bytes
    pub built_a : build_initiator private_a ≡ ok i0
    pub built_b : build_responder private_b ≡ ok r0
    pub wrote1 : hs_write i0 [] ≡ ok (m1, i1)
    pub read1 : hs_read r0 m1 ≡ ok (p1, r1)
    pub wrote2 : hs_write r1 [] ≡ ok (m2, r2)
    pub read2 : hs_read i1 m2 ≡ ok (p2, i2)
    pub wrote3 : hs_write i2 [] ≡ ok (m3, i3)
    pub read3 : hs_read r2 m3 ≡ ok (p3, r3)
    pub transport_a : noise.State
    pub transport_b : noise.State
    pub into_a : into_transport_mode i3 ≡ ok transport_a
    pub into_b : into_transport_mode r3 ≡ ok transport_b
    pub in_sync : session.InSync transport_a transport_b
    pub knows_b : get_remote_static transport_a ≡ some public_b
    pub knows_a : get_remote_static transport_b ≡ some public_a

  abbrev sent_on : TcpStream → Bytes → TcpStream
  sent_on s m = record s { outgoing = s.outgoing ++ frame m; room = s.room - length (frame m) }

  write_step_lem :
      (hs hs' : Handshake) (m : Bytes) (s : TcpStream)
      → hs_write hs [] ≡ ok (m, hs')
      → length m ≤ max_msg_len
      → length m + 4 ≤ s.room
      → write_step snow hs s ≡ (ok hs', sent_on s m)
  unfolding write_step
  write_step_lem hs hs' m s wrote small room =
      rw wrote (rw (send_frame_lem m s (omega arith) room) refl)

  read_step_lem :
      (hs hs' : Handshake) (m p rest : Bytes) (s : TcpStream)
      → hs_read hs m ≡ ok (p, hs')
      → length m ≤ max_msg_len
      → s.incoming ≡ frame m ++ rest
      → read_step snow hs s ≡ (ok hs', record s { incoming = rest })
  unfolding read_step
  read_step_lem hs hs' m p rest s reads small arrives =
      rw (recv_frame_lem m rest s small arrives) (rw reads refl)

  module _ (session : Session noise) (private_a private_b public_a public_b : Bytes)
      (h : Handshaken session private_a private_b public_a public_b) where
    initiator-run :
        (s : TcpStream) (rest : Bytes)
        → s.incoming ≡ frame h.m2 ++ rest
        → length h.m1 + length h.m3 + 8 ≤ s.room
        → handshake_initiator snow s private_a
          ≡ ok (record {
            stream = sent_on (record (sent_on s h.m1) { incoming = rest }) h.m3;
            transport = h.transport_a;
          })
    unfolding handshake_initiator
    initiator-run s rest arrives room =
        let s1 = sent_on s h.m1 in
        let s2 = record s1 { incoming = rest } in
        rw h.built_a (
          rw (write_step_lem h.i0 h.i1 h.m1 s h.wrote1 h.small.0 (omega arith)) (
            rw (read_step_lem h.i1 h.i2 h.m2 h.p2 rest s1 h.read2 h.small.1 arrives) (
              rw
                (write_step_lem h.i2 h.i3 h.m3 s2 h.wrote3 h.small.2
                  (omega (arith, length-frame h.m1)))
                (rw h.into_a refl))))

    responder-run :
        (s : TcpStream) (rest : Bytes)
        → s.incoming ≡ frame h.m1 ++ (frame h.m3 ++ rest)
        → length h.m2 + 4 ≤ s.room
        → handshake_responder snow s private_b
          ≡ ok (record {
            stream = record (sent_on (record s { incoming = frame h.m3 ++ rest }) h.m2) {
              incoming = rest;
            };
            transport = h.transport_b;
          })
    unfolding handshake_responder
    responder-run s rest arrives room =
        let s1 = record s { incoming = frame h.m3 ++ rest } in
        let s2 = sent_on s1 h.m2 in
        rw h.built_b (
          rw (read_step_lem h.r0 h.r1 h.m1 h.p1 (frame h.m3 ++ rest) s h.read1 h.small.0 arrives) (
            rw (write_step_lem h.r1 h.r2 h.m2 s1 h.wrote2 h.small.1 room) (
              rw (read_step_lem h.r2 h.r3 h.m3 h.p3 rest s2 h.read3 h.small.2 refl)
                (rw h.into_b refl))))

    -- Both have a stream, which knows the other's key, with transports in step; each has written what
    -- the other has read, and has left what came behind it.
    abbrev pub IsMet : TcpStream → TcpStream → Bytes → Bytes → Type 0
    IsMet s t rest_s rest_t =
        (a : NoiseStream noise) × (b : NoiseStream noise) × (handshake_initiator snow s private_a
          ≡ ok a)
        × (handshake_responder snow t private_b ≡ ok b)
        × session.InSync a.transport b.transport
        × (remote_static_key snow a ≡ some public_b)
        × (remote_static_key snow b ≡ some public_a)
        × (a.stream.outgoing ++ rest_t ≡ t.incoming)
        × (b.stream.outgoing ++ rest_s ≡ s.incoming)
        × (a.stream.incoming ≡ rest_s)
        × (b.stream.incoming ≡ rest_t)

    -- Two sides of one handshake of `snow`, on new connections with room for its messages, to each of
    -- which the messages of the other come, and what follows them: both handshakes succeed, each then
    -- knows the other's public key, the transports are in step, each has written what the other has
    -- read, and what follows is left to be read.
    pub handshakes-meet :
        (s t : TcpStream) (rest_s rest_t : Bytes)
        → s.outgoing ≡ []
        → t.outgoing ≡ []
        → s.incoming ≡ frame h.m2 ++ rest_s
        → t.incoming ≡ frame h.m1 ++ (frame h.m3 ++ rest_t)
        → length h.m1 + length h.m3 + 8 ≤ s.room
        → length h.m2 + 4 ≤ t.room
        → IsMet s t rest_s rest_t
    unfolding remote_static_key
    handshakes-meet s t rest_s rest_t new_s new_t comes_s comes_t room_s room_t = (
      record {
        stream = sent_on (record (sent_on s h.m1) { incoming = rest_s }) h.m3;
        transport = h.transport_a;
      },
      record {
        stream = record (sent_on (record t { incoming = frame h.m3 ++ rest_t }) h.m2) {
          incoming = rest_t;
        };
        transport = h.transport_b;
      },
      initiator-run s rest_s comes_s room_s,
      responder-run t rest_t comes_t room_t,
      h.in_sync,
      h.knows_b,
      h.knows_a,
      ap (λ l. ((l ++ frame h.m1) ++ frame h.m3) ++ rest_t) new_s
          ∙ append_assoc (frame h.m1) (frame h.m3) rest_t
          ∙ sym comes_t,
      ap (λ l. (l ++ frame h.m2) ++ rest_s) new_t ∙ sym comes_s,
      refl,
      refl,
    )
