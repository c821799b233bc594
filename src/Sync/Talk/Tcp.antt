-- ===== src/Sync/Talk/Tcp.antt =====
-- Flows on a TCP connection: what a flow does with messages is what it does with their frames.
use bushido.Prelude.{
  subst, ℕ, ◌-◌, ◌≤◌, ◌≡◌, refl, sym, ap, ◌∙◌, List, [], ◌∷◌, ◌++◌, append_assoc, append-nil, All,
  Option, none, some, of_some, none-ne-some, Bytes, length, length-append, Result, ok, err, arith,
}
use bushido.Prelude.Io.{after}
use bushido.Sync.Frame.{TcpStream, max_msg_len}
use bushido.Sync.Frame.Laws.{frame, length-frame, send_frame_lem}
use bushido.Sync.Protocol.{SyncMessage, Format, send_message, recv_message}
use bushido.Sync.Protocol.RoundTrip.{send_message-frame, recv_message-frame}
use bushido.Sync.Talk.{Talk, done, fault, tell, ask, Channel, perform}

module _ {A : Type 0} where
  abbrev pub with_sent :
      SyncMessage
      → Option (Result A × List SyncMessage × List SyncMessage)
      → Option (Result A × List SyncMessage × List SyncMessage)
  with_sent m none = none
  with_sent m (some (r, waiting, sent)) = some (r, waiting, m ∷ sent)

  -- The specification: a flow with the messages that come, as its result, the messages that it leaves
  -- and those that it sends. `none` where it asks for more than come.
  unfoldable pub converse :
      Talk A → List SyncMessage → Option (Result A × List SyncMessage × List SyncMessage)
  converse (done a) waiting = some (ok a, waiting, [])
  converse (fault e) waiting = some (err e, waiting, [])
  converse (tell m t) waiting = with_sent m (converse t waiting)
  converse (ask e k) [] = none
  converse (ask e k) (m ∷ waiting) = converse (k m) waiting

module _ (format : Format) where
  abbrev pub tcp : Channel TcpStream
  tcp = record { send = send_message format; recv = recv_message format }

  -- A message that the format carries in one frame.
  abbrev pub IsCarried : (SyncMessage → Bytes) → SyncMessage → Type 0
  IsCarried bytes m =
      (format.encode m ≡ ok (bytes m))
      × (format.decode (bytes m) ≡ ok m)
      × (length (bytes m) ≤ max_msg_len)

  -- The frames of messages.
  unfoldable pub wire : (SyncMessage → Bytes) → List SyncMessage → Bytes
  wire bytes [] = []
  wire bytes (m ∷ ms) = frame (bytes m) ++ wire bytes ms

  -- The stream after what a flow leaves and sends.
  abbrev pub used :
      (SyncMessage → Bytes) → TcpStream → List SyncMessage → List SyncMessage → TcpStream
  used bytes s rest sent = record {
    incoming = wire bytes rest;
    outgoing = s.outgoing ++ wire bytes sent;
    room = s.room - length (wire bytes sent);
  }

  same_stream :
      {A : Type 0} (r : Result A) {i i' o o' : Bytes} {n n' : ℕ}
      → i ≡ i'
      → o ≡ o'
      → n ≡ n'
      → ◌≡◌ {A = Result A × TcpStream}
          (r, record { incoming = i; outgoing = o; room = n })
          (r, record { incoming = i'; outgoing = o'; room = n' })
  same_stream r p q e = cc

  ends :
      {A : Type 0} (bytes : SyncMessage → Bytes) (q r : Result A)
      (come rest sent : List SyncMessage) (s : TcpStream)
      → ◌≡◌ {A = Option (Result A × List SyncMessage × List SyncMessage)}
          (some (q, come, []))
          (some (r, rest, sent))
      → s.incoming ≡ wire bytes come
      → ◌≡◌ {A = Result A × TcpStream} (q, s) (r, used bytes s rest sent)
  unfolding wire
  ends {A} bytes q r come rest sent s e comes =
      subst (λ t. ◌≡◌ {A = Result A × TcpStream} (q, s) (t.0, used bytes s t.1 t.2)) (of_some e)
        (same_stream q comes (sym (append-nil s.outgoing)) (omega arith))

  with_sent-inv :
      {A : Type 0} (m : SyncMessage) (o : Option (Result A × List SyncMessage × List SyncMessage))
      (r : Result A) (rest sent : List SyncMessage)
      → with_sent m o ≡ some (r, rest, sent)
      → (sent' : List SyncMessage) × (o ≡ some (r, rest, sent')) × (sent ≡ m ∷ sent')
  with_sent-inv m none r rest sent e = absurd (none-ne-some e)
  with_sent-inv m (some (r', rest', sent')) r rest sent e = (sent', cc, cc)

  -- A flow that converses, on a stream to which the frames of its messages have come and which has
  -- room for the frames of what it sends: the same result, with the frames of those messages written
  -- behind what was, and the frames of the rest left to be read.
  pub perform-converse :
      {A : Type 0} (bytes : SyncMessage → Bytes) (t : Talk A) (come rest sent : List SyncMessage)
      (r : Result A) (s : TcpStream)
      → All (IsCarried bytes) come
      → All (IsCarried bytes) sent
      → converse t come ≡ some (r, rest, sent)
      → s.incoming ≡ wire bytes come
      → length (wire bytes sent) ≤ s.room
      → perform tcp t s ≡ (r, used bytes s rest sent)
  unfolding perform converse wire
  perform-converse bytes (done a) come rest sent r s carried sendable e comes room =
      ends bytes (ok a) r come rest sent s e comes
  perform-converse bytes (fault x) come rest sent r s carried sendable e comes room =
      ends bytes (err x) r come rest sent s e comes
  perform-converse {A} bytes (tell m t) come rest sent r s carried sendable e comes room =
      let (sent', e', same) = with_sent-inv m (converse t come) r rest sent e in
      let (first, others) = subst (All (IsCarried bytes)) same sendable in
      let room' : length (wire bytes (m ∷ sent')) ≤ s.room =
        subst (λ l. length (wire bytes l) ≤ s.room) same room in
      let size = length-append (frame (bytes m)) (wire bytes sent') in
      let s' = record s {
        outgoing = s.outgoing ++ frame (bytes m);
        room = s.room - length (frame (bytes m));
      } in
      let sends =
        send_message-frame format m (bytes m) s first.0 first.2
        ∙ send_frame_lem (bytes m) s (omega (arith, first.2))
            (omega (arith, length-frame (bytes m))) in
      ap (after (λ u. perform tcp t)) sends
      ∙ perform-converse bytes t come rest sent' r s' carried others e' comes (omega arith)
      ∙ same_stream r refl (append_assoc s.outgoing (frame (bytes m)) (wire bytes sent'))
          (omega arith)
      ∙ ap (λ l. (r, used bytes s rest l)) (sym same)
  perform-converse bytes (ask x k) [] rest sent r s carried sendable e comes room =
      absurd (none-ne-some e)
  perform-converse bytes (ask x k) (m ∷ come) rest sent r s (first, carried) sendable e comes room =
      rw (recv_message-frame format m (bytes m) (wire bytes come) s first.1 first.2 comes) (
        perform-converse bytes (k m) come rest sent r (record s { incoming = wire bytes come })
          carried sendable e refl room)
