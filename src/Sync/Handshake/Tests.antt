-- ===== src/Sync/Handshake/Tests.antt =====
-- A handshake that counts its messages, on the transport of the payloads' tests.
use bushido.Prelude.{ℕ, ◌+◌, refl, [], ◌∷◌, ◌++◌, some, ok, arith}
use bushido.Sync.Frame.{TcpStream}
use bushido.Sync.Frame.Laws.{frame}
use bushido.Sync.Noise.Tests.{marked, marked_session}
use bushido.Sync.Handshake.{Snow}
use bushido.Sync.Handshake.Meet.{Handshaken, IsMet, handshakes-meet}

abbrev counting : Snow
counting = record {
  noise = marked;
  Handshake = ℕ;
  build_initiator = λ key. ok 0;
  build_responder = λ key. ok 0;
  hs_write = λ n p. ok (n ∷ [], n + 1);
  hs_read = λ n m. ok ([], n + 1);
  into_transport_mode = λ n. ok 0;
  get_remote_static = λ n. some (9 ∷ []);
}

abbrev counted : Handshaken counting marked_session (1 ∷ []) (2 ∷ []) (9 ∷ []) (9 ∷ [])
counted = record {
  m1 = 0 ∷ [];
  m2 = 1 ∷ [];
  m3 = 2 ∷ [];
  small = (omega arith, omega arith, omega arith);
  i0 = 0;
  i1 = 1;
  i2 = 2;
  i3 = 3;
  r0 = 0;
  r1 = 1;
  r2 = 2;
  r3 = 3;
  p1 = [];
  p2 = [];
  p3 = [];
  built_a = refl;
  built_b = refl;
  wrote1 = refl;
  read1 = refl;
  wrote2 = refl;
  read2 = refl;
  wrote3 = refl;
  read3 = refl;
  transport_a = 0;
  transport_b = 0;
  into_a = refl;
  into_b = refl;
  in_sync = refl;
  knows_b = refl;
  knows_a = refl;
}

abbrev caller : TcpStream
caller = record { incoming = frame (1 ∷ []) ++ (7 ∷ []); outgoing = []; room = 20 }

abbrev called : TcpStream
called = record { incoming = frame (0 ∷ []) ++ (frame (2 ∷ []) ++ []); outgoing = []; room = 9 }

handshakes-meet_example :
    IsMet counting marked_session
      (1 ∷ [])
      (2 ∷ [])
      (9 ∷ [])
      (9 ∷ [])
      counted
      caller
      called
      (7 ∷ [])
      []
handshakes-meet_example =
    handshakes-meet counting marked_session (1 ∷ []) (2 ∷ []) (9 ∷ []) (9 ∷ []) counted caller
      called (7 ∷ []) [] refl refl refl refl (omega arith) (omega arith)
