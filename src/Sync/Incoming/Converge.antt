-- ===== src/Sync/Incoming/Converge.antt =====
-- Two devices that sync, in src-tauri/src/sync/sync_engine.rs and src-tauri/src/sync/mod.rs.
use bushido.Prelude.{
  ◌≡◌, refl, sym, ap, ◌∙◌, ◌⊎◌, Bool, true, false, List, [], ◌∷◌, Bytes, Option, some, ok,
}
use bushido.Prelude.Table.{list_beq, list_beq_iff}
use bushido.Sync.Talk.{Talk, done, fault, tell}
use bushido.Sync.Talk.Limits.{within_limits, Fits, PassesRun, both_limited, schedule-within_limits}
use bushido.Sync.Protocol.{Format, sync_request, sync_accept, hello, hello_ack, sync_ack}
use bushido.Sync.Talk.Pair.{Sides, Side, on_left, on_right, schedule, rounds, start, move, advance}
use bushido.Sync.Talk.Pair.Order.{any_order}
use bushido.Sync.Document.{Loro, SyncDoc, version_vector, cuts, import_delta}
use bushido.Sync.Engine.{
  Lz4, SyncResult, sync_result, updates_for, send_updates, on_changes, sync_with_peer,
  handle_sync_responder,
}
use bushido.Sync.Engine.Changes.{
  SyncLaws, packet, is_some, send_updates-packet, IsWritable, IsSaved, updates-bring,
}
use bushido.Sync.Incoming.{
  PairedDevice, find_device, synced, Served, came, handle_incoming_sync, serve,
}

abbrev whole_sync : List Side
whole_sync =
    on_left ∷ on_right ∷ on_right ∷ on_left ∷ on_left ∷ on_right ∷ on_right ∷ on_left ∷ on_left
    ∷ on_right ∷ on_right ∷ on_left ∷ on_left ∷ on_right ∷ on_right ∷ on_left ∷ []

module _ (to_lowercase : Bytes → Bytes) (loro : Loro) (lz4 : Lz4) {P : Type 0}
    (pair : Bytes → Bytes → Talk P) where
  abbrev pub Left : Type 0
  Left = SyncResult × SyncDoc loro

  abbrev pub Right : Type 0
  Right = Served to_lowercase loro lz4 P

  abbrev pub ended : Talk Left → Talk Right → Sides Left Right
  ended left right = record { left = left; right = right; to_left = []; to_right = [] }

  -- A device that syncs with one that listens; the handshake tells each the other's key.
  abbrev pub meeting :
      Bytes
      → Bytes
      → SyncDoc loro
      → SyncDoc loro
      → PairedDevice
      → List PairedDevice
      → Sides Left Right
  meeting id key_b a b peer devices =
      start (sync_with_peer loro lz4 (ok tt) (ok (some key_b)) key_b id a)
        (serve to_lowercase loro lz4 pair (ok (some peer.noise_public_key)) (some b) devices)

  -- The same with the limits of the messages.
  abbrev pub limited_meeting :
      Format
      → Bytes
      → Bytes
      → SyncDoc loro
      → SyncDoc loro
      → PairedDevice
      → List PairedDevice
      → Sides Left Right
  limited_meeting format id key_b a b peer devices =
      start (within_limits format (sync_with_peer loro lz4 (ok tt) (ok (some key_b)) key_b id a)) (
        within_limits format
          (serve to_lowercase loro lz4 pair (ok (some peer.noise_public_key)) (some b) devices))

  -- The messages of a sync other than the listener's changes pass.
  abbrev pub OthersFit : Format → Bytes → SyncDoc loro → SyncDoc loro → Type 0
  OthersFit format id a b =
      Fits format (sync_request id)
      × Fits format sync_accept
      × Fits format (hello id (version_vector loro a))
      × Fits format (hello_ack (version_vector loro b))
      × Fits format (packet loro lz4 (updates_for loro lz4 a (version_vector loro b)))
      × Fits format sync_ack

  sync-run :
      (id key_b : Bytes) (a b a' b' : SyncDoc loro) (peer : PairedDevice)
      (devices : List PairedDevice) (o_a o_b : Option Bytes)
      → find_device id devices ≡ some peer
      → list_beq key_b key_b ≡ true
      → list_beq peer.noise_public_key peer.noise_public_key ≡ true
      → send_updates loro lz4 (updates_for loro lz4 a (version_vector loro b))
        ≡ tell (packet loro lz4 o_a) (done (is_some loro lz4 o_a))
      → on_changes loro lz4 b (packet loro lz4 o_a) ≡ done (is_some loro lz4 o_a, b')
      → send_updates loro lz4 (updates_for loro lz4 b' (version_vector loro a))
        ≡ tell (packet loro lz4 o_b) (done (is_some loro lz4 o_b))
      → on_changes loro lz4 a (packet loro lz4 o_b) ≡ done (is_some loro lz4 o_b, a')
      → schedule whole_sync (meeting id key_b a b peer devices)
        ≡ ended
            (done (sync_result (is_some loro lz4 o_b) (is_some loro lz4 o_a), a'))
            (done (came (synced (sync_result (is_some loro lz4 o_a) (is_some loro lz4 o_b)) b')))
  unfolding schedule move advance sync_with_peer handle_incoming_sync handle_sync_responder
  sync-run id key_b a b a' b' peer devices o_a o_b finds same_b same_a sends_a takes_b sends_b
        takes_a =
      rw same_b (rw (finds, same_a) (rw sends_a (rw takes_b (rw sends_b (rw takes_a refl)))))

  sync-passes :
      (format : Format) (id key_b : Bytes) (a b a' b' : SyncDoc loro) (peer : PairedDevice)
      (devices : List PairedDevice) (o_a o_b : Option Bytes)
      → find_device id devices ≡ some peer
      → list_beq key_b key_b ≡ true
      → list_beq peer.noise_public_key peer.noise_public_key ≡ true
      → send_updates loro lz4 (updates_for loro lz4 a (version_vector loro b))
        ≡ tell (packet loro lz4 o_a) (done (is_some loro lz4 o_a))
      → on_changes loro lz4 b (packet loro lz4 o_a) ≡ done (is_some loro lz4 o_a, b')
      → send_updates loro lz4 (updates_for loro lz4 b' (version_vector loro a))
        ≡ tell (packet loro lz4 o_b) (done (is_some loro lz4 o_b))
      → on_changes loro lz4 a (packet loro lz4 o_b) ≡ done (is_some loro lz4 o_b, a')
      → Fits format (sync_request id)
      → Fits format sync_accept
      → Fits format (hello id (version_vector loro a))
      → Fits format (hello_ack (version_vector loro b))
      → Fits format (packet loro lz4 o_a)
      → Fits format (packet loro lz4 o_b)
      → Fits format sync_ack
      → PassesRun format whole_sync (meeting id key_b a b peer devices)
  unfolding move advance sync_with_peer handle_incoming_sync handle_sync_responder
  sync-passes format id key_b a b a' b' peer devices o_a o_b finds same_b same_a sends_a takes_b
        sends_b takes_a request accept greet answer out back ack =
      rw finds (
        rw (same_b, same_a)
          (rw sends_a (
            rw takes_b (
              rw sends_b (
                rw takes_a (
                  (
                    (request.0, tt, tt),
                    (
                      (tt, tt, request.1),
                      (
                        (tt, accept.0, tt),
                        (
                          (tt, tt, accept.1),
                          (
                            (greet.0, tt, tt),
                            (
                              (tt, tt, greet.1),
                              (
                                (tt, answer.0, tt),
                                (
                                  (tt, tt, answer.1),
                                  (
                                    (out.0, tt, tt),
                                    (
                                      (tt, tt, out.1),
                                      (
                                        (tt, back.0, tt),
                                        (
                                          (tt, tt, back.1),
                                          (
                                            (ack.0, tt, tt),
                                            (
                                              (tt, tt, ack.1),
                                              ((tt, ack.0, tt), ((tt, tt, ack.1), tt)),
                                            ),
                                          ),
                                        ),
                                      ),
                                    ),
                                  ),
                                ),
                              ),
                            ),
                          ),
                        ),
                      ),
                    ),
                  )))))))

  abbrev until_panic : List Side
  until_panic =
      on_left ∷ on_right ∷ on_right ∷ on_left ∷ on_left ∷ on_right ∷ on_right ∷ on_left ∷ on_left
      ∷ on_right ∷ on_left ∷ []

  panic-run :
      (id key_b u : Bytes) (a b : SyncDoc loro) (peer : PairedDevice) (devices : List PairedDevice)
      → find_device id devices ≡ some peer
      → list_beq key_b key_b ≡ true
      → list_beq peer.noise_public_key peer.noise_public_key ≡ true
      → updates_for loro lz4 a (version_vector loro b) ≡ some u
      → lz4.decompress (lz4.compress u) ≡ ok u
      → cuts loro 200 (loro.bookmarks_json b.doc) ≡ false
      → schedule until_panic (meeting id key_b a b peer devices)
        ≡ ended (fault "recv changes") (fault "byte index is not a char boundary")
  unfolding schedule move advance sync_with_peer handle_incoming_sync handle_sync_responder
      send_updates on_changes import_delta
  panic-run id key_b u a b peer devices finds same_b same_a has expands splits =
      rw same_b (rw (finds, same_a) (rw has (rw expands (rw splits refl))))

  module _ (laws : SyncLaws loro lz4) where
    open laws use {changes, join, join_comm, join_assoc, join_idem}

    absorb : (x y : laws.Changes) → join x (join y x) ≡ join x y
    absorb x y =
        ap (join x) (join_comm y x) ∙ sym (join_assoc x x y) ∙ ap (λ z. join z y) (join_idem x)

    -- What a sync leaves: both devices have done their part, with results that mirror each other, have
    -- the changes of both, and have saved them where the peer sent any.
    abbrev pub IsSynced : SyncDoc loro → SyncDoc loro → Sides Left Right → Type 0
    IsSynced a b s =
        (from_a : Bool) × (from_b : Bool) × (a' : SyncDoc loro) × (b' : SyncDoc loro) × (s
          ≡ ended (done (sync_result from_b from_a, a'))
              (done (came (synced (sync_result from_a from_b) b'))))
        × (changes a'.doc ≡ join (changes a.doc) (changes b.doc))
        × (changes b'.doc ≡ join (changes a.doc) (changes b.doc))
        × ((from_b ≡ false) ⊎ IsSaved loro lz4 laws a')
        × ((from_a ≡ false) ⊎ IsSaved loro lz4 laws b')

    -- A device syncs with one that listens, has it paired, and holds the key that the handshake finds.
    -- Where Loro and LZ4 do as documented, the disks take the files, the logs of the bookmarks are cut
    -- between characters, and no message is larger than is sent and received: whatever moves the two
    -- have made, 16 rounds of both bring the sync to its end, where no message is left, each device
    -- has the changes of both, their results mirror each other, and each that was sent changes has
    -- saved its document.
    pub sync-converges :
        (format : Format) (id key_b : Bytes) (a b : SyncDoc loro) (peer : PairedDevice)
        (devices : List PairedDevice) (moves : List Side)
        → find_device id devices ≡ some peer
        → IsWritable loro lz4 a
        → IsWritable loro lz4 b
        → cuts loro 200 (loro.bookmarks_json a.doc) ≡ true
        → cuts loro 200 (loro.bookmarks_json b.doc) ≡ true
        → ((d : loro.Doc)
            → changes d ≡ join (changes a.doc) (changes b.doc)
            → cuts loro 300 (loro.bookmarks_json d) ≡ true)
        → OthersFit format id a b
        → ((s : SyncDoc loro)
            → changes s.doc ≡ join (changes a.doc) (changes b.doc)
            → Fits format (packet loro lz4 (updates_for loro lz4 s (version_vector loro a))))
        → IsSynced a b (
            schedule
              (rounds 16)
              (schedule moves (limited_meeting format id key_b a b peer devices)))
    sync-converges format id key_b a b peer devices moves finds writable_a writable_b log_a log_b
          log (request, accept, greet, answer, out, ack) back =
        let swap = join_comm (changes b.doc) (changes a.doc) in
        let (b', takes_b, joined_b, saved_b) =
          updates-bring loro lz4 laws a b writable_b log_b (λ d e. log d (e ∙ swap)) in
        let merged : join (changes a.doc) (changes b'.doc) ≡ join (changes a.doc) (changes b.doc) =
          ap (join (changes a.doc)) joined_b ∙ absorb (changes a.doc) (changes b.doc) in
        let (a', takes_a, joined_a, saved_a) =
          updates-bring loro lz4 laws b' a writable_a log_a (λ d e. log d (e ∙ merged)) in
        let from_a = updates_for loro lz4 a (version_vector loro b) in
        let from_b = updates_for loro lz4 b' (version_vector loro a) in
        let same_b = (list_beq_iff key_b key_b).1 refl in
        let same_a = (list_beq_iff peer.noise_public_key peer.noise_public_key).1 refl in
        let sends_a = send_updates-packet loro lz4 from_a in
        let sends_b = send_updates-packet loro lz4 from_b in
        let passes =
          sync-passes format id key_b a b a' b' peer devices from_a from_b finds same_b same_a
            sends_a takes_b sends_b takes_a request accept greet answer out
            (back b' (joined_b ∙ swap)) ack in
        let run =
          schedule-within_limits format whole_sync (meeting id key_b a b peer devices) passes
          ∙ ap (both_limited format) (
              sync-run id key_b a b a' b' peer devices from_a from_b finds same_b same_a sends_a
                takes_b sends_b takes_a) in
        (
          is_some loro lz4 from_a,
          is_some loro lz4 from_b,
          a',
          b',
          any_order whole_sync moves _ _ run refl refl,
          joined_a ∙ merged,
          joined_b ∙ swap,
          saved_a,
          saved_b,
        )

    -- The 200th byte of the listener's bookmarks is inside a character, and the other device has
    -- changes for it: whatever moves the two have made, 11 rounds of both end the sync with the
    -- listener's panic and with an error of the other, and no result on either side.
    pub sync-panics :
        (id key_b u : Bytes) (a b : SyncDoc loro) (peer : PairedDevice)
        (devices : List PairedDevice) (moves : List Side)
        → find_device id devices ≡ some peer
        → updates_for loro lz4 a (version_vector loro b) ≡ some u
        → cuts loro 200 (loro.bookmarks_json b.doc) ≡ false
        → schedule (rounds 11) (schedule moves (meeting id key_b a b peer devices))
          ≡ ended (fault "recv changes") (fault "byte index is not a char boundary")
    sync-panics id key_b u a b peer devices moves finds has splits =
        any_order until_panic moves _ _
          (panic-run id key_b u a b peer devices finds ((list_beq_iff key_b key_b).1 refl)
            ((list_beq_iff peer.noise_public_key peer.noise_public_key).1 refl) has
            (laws.decompress-compress u) splits)
          refl refl
