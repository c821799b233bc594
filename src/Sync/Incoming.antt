-- ===== src/Sync/Incoming.antt =====
-- A connection that a peer makes, `start_tcp_listener` and `handle_incoming_sync` of
-- src-tauri/src/sync/mod.rs, as a flow. An early return is a fault with a text that says which.
-- `to_lowercase` of a text is a parameter, and here so is what a request to pair leads to.
pub mod Converge
pub mod Guards
mod Tests
use Prim.Native.String.{String}
use bushido.Prelude.{
  Bool, true, false, not, List, [], ◌∷◌, ◌++◌, Bytes, codes, ◌==◌, ◌&&◌, ◌||◌, Option, none, some,
  Result, if◌then◌else◌,
}
use bushido.Prelude.Table.{list_beq, starts_with}
use bushido.Sync.Protocol.{
  SyncMessage, pair_request, sync_request, sync_accept, hello, send_tab, send_tab_ack, close, ping,
  pong,
}
use bushido.Sync.Talk.{Talk, done, fault, tell, ask, of_result, ◌>>=◌, ◌>>◌}
use bushido.Sync.Document.{Loro, SyncDoc}
use bushido.Sync.Engine.{SyncResult, Lz4, handle_sync_responder}

-- `PairedDevice` of keys.rs, without the time of the pairing.
pub record PairedDevice : Type 0 where
  pub device_id : Bytes
  pub name : Bytes
  pub noise_public_key : Bytes
  pub fingerprint : Bytes

abbrev pub find_device : Bytes → List PairedDevice → Option PairedDevice
find_device id [] = none
find_device id (d ∷ devices) = if list_beq d.device_id id then some d else find_device id devices

abbrev any_prefix : Bytes → List Bytes → Bool
any_prefix text [] = false
any_prefix text (prefix ∷ prefixes) = starts_with text prefix || any_prefix text prefixes

abbrev blocked_schemes : List Bytes
blocked_schemes =
    codes "ms-msdt:"
    ∷ codes "search-ms:"
    ∷ codes "ms-officecmd:"
    ∷ codes "ms-word:"
    ∷ codes "ms-excel:"
    ∷ codes "ms-powerpoint:"
    ∷ codes "ms-cxh:"
    ∷ codes "ms-cxh-full:"
    ∷ codes "file:"
    ∷ codes "javascript:"
    ∷ codes "data:"
    ∷ codes "vbscript:"
    ∷ []

-- `title.replace('<', "&lt;").replace('>', "&gt;")`
abbrev pub escape_title : Bytes → Bytes
escape_title [] = []
escape_title (b ∷ title) =
    if b == 60
    then codes "&lt;" ++ escape_title title
    else (if b == 62 then codes "&gt;" ++ escape_title title else b ∷ escape_title title)

-- The tab that the window is told of.
pub record TabReceived : Type 0 where
  pub from_device : Bytes
  pub from_device_id : Bytes
  pub url : Bytes
  pub title : Bytes

module _ (to_lowercase : Bytes → Bytes) where
  unfoldable pub is_safe_url : Bytes → Bool
  is_safe_url url = not (any_prefix (to_lowercase url) blocked_schemes)

  unfoldable pub tab_received : Bytes → Bytes → Bytes → Bytes → Option TabReceived
  tab_received id name url title =
      if is_safe_url url
      then some (record {
        from_device = name;
        from_device_id = id;
        url = url;
        title = escape_title title;
      })
      else none

  module _ (loro : Loro) (lz4 : Lz4) where
    -- What an incoming connection comes to: a tab, if the window is told of it, or a sync.
    pub data Incoming : Type 0 where
      tab : Option TabReceived → Incoming
      synced : SyncResult → SyncDoc loro → Incoming

    abbrev pub with_doc : Option (SyncDoc loro) → Bytes → Talk Incoming
    with_doc none remote_vv = fault "sync_doc is None"
    with_doc (some s) remote_vv = do
      (result, s') ← handle_sync_responder loro lz4 remote_vv s
      done (synced result s')

    abbrev pub on_first : Option (SyncDoc loro) → SyncMessage → Talk Incoming
    on_first doc (send_tab id name url title) =
        tell send_tab_ack (done (tab (tab_received id name url title)))
    on_first doc (hello device_id vv) = with_doc doc vv
    on_first doc other = fault "no Hello"

    abbrev pub check_remote : PairedDevice → Option Bytes → Talk (Unit {0})
    check_remote peer none = fault "no remote static key"
    check_remote peer (some remote_key) =
        if list_beq remote_key peer.noise_public_key then done tt else fault "remote key mismatch"

    abbrev pub from_device :
        Result (Option Bytes) → Option (SyncDoc loro) → Option PairedDevice → Talk Incoming
    from_device handshake doc none = tell (close (codes "not paired")) (fault "not paired")
    from_device handshake doc (some peer) = do
      tell sync_accept (done tt)
      remote_key ← of_result handshake
      check_remote peer remote_key
      ask "recv first message" (on_first doc)

    -- `handshake` is the remote static key where the handshake ends well.
    unfoldable pub handle_incoming_sync :
        Result (Option Bytes) → Option (SyncDoc loro) → List PairedDevice → Bytes → Talk Incoming
    handle_incoming_sync handshake doc devices peer_device_id =
        from_device handshake doc (find_device peer_device_id devices)

    -- What a connection comes to, by its first message.
    pub data Served (P : Type 0) : Type 0 where
      paired : P → Served P
      came : Incoming → Served P
      ponged closed : Served P

    module _ {P : Type 0} (pair : Bytes → Bytes → Talk P) (handshake : Result (Option Bytes))
        (doc : Option (SyncDoc loro)) (devices : List PairedDevice) where
      abbrev pub on_intent : SyncMessage → Talk (Served P)
      on_intent (pair_request id name) = do p ← pair id name; done (paired p)
      on_intent (sync_request id) = do
        i ← handle_incoming_sync handshake doc devices id
        done (came i)
      on_intent ping = tell pong (done ponged)
      on_intent other = tell (close (codes "unexpected message")) (done closed)

      abbrev pub serve : Talk (Served P)
      serve = ask "recv first message" on_intent
