-- ===== src/Sync/Incoming/Guards.antt =====
-- What an incoming connection is let do, in src-tauri/src/sync/mod.rs.
use bushido.Prelude.{
  ℕ, ◌≡◌, ◌≢◌, refl, ap, subst, ◌∙◌, ◌⊎◌, inl, inr, true, false, List, [], ◌∷◌, Bytes, ◌==◌, ==_iff,
  All, Option, none, some, of_some, none-ne-some, Result, ok, err, Bool-cases, if◌then◌else◌, arith,
}
use bushido.Prelude.Table.{list_beq, list_beq_iff}
use bushido.Sync.Protocol.{SyncMessage}
use bushido.Sync.Talk.Tcp.{converse}
use bushido.Sync.Document.{Loro, SyncDoc}
use bushido.Sync.Engine.{Lz4}
use bushido.Sync.Incoming.{
  PairedDevice, find_device, escape_title, TabReceived, is_safe_url, tab_received, Incoming,
  from_device, handle_incoming_sync,
}

-- Neither `<` nor `>`.
abbrev pub IsPlain : ℕ → Type 0
IsPlain c = (c ≢ 60) × (c ≢ 62)

entity-IsPlain :
    (c : ℕ) (rest : Bytes) → IsPlain c → All IsPlain rest → All IsPlain (38 ∷ c ∷ 116 ∷ 59 ∷ rest)
entity-IsPlain c rest p ps = (
  (λ e. omega arith, λ e. omega arith),
  (p, ((λ e. omega arith, λ e. omega arith), ((λ e. omega arith, λ e. omega arith), ps))),
)

escape_cons-IsPlain :
    (b : ℕ) (title : Bytes)
    → All IsPlain (escape_title title)
    → All IsPlain (escape_title (b ∷ title))
escape_cons-IsPlain b title ps = go (Bool-cases (b == 60)) (Bool-cases (b == 62))
  where
    go :
        ((b == 60) ≡ true) ⊎ ((b == 60) ≡ false)
        → ((b == 62) ≡ true) ⊎ ((b == 62) ≡ false)
        → All IsPlain (escape_title (b ∷ title))
    go (inl e) f = rw e (entity-IsPlain 108 _ (λ e. omega arith, λ e. omega arith) ps)
    go (inr e) (inl f) = rw (e, f) (entity-IsPlain 103 _ (λ e. omega arith, λ e. omega arith) ps)
    go (inr e) (inr f) =
        rw (e, f)
          ((λ x. (let y = (==_iff b 60).1 x in cc), λ x. (let y = (==_iff b 62).1 x in cc)), ps)

pub escape_title-IsPlain : (title : Bytes) → All IsPlain (escape_title title)
escape_title-IsPlain [] = tt
escape_title-IsPlain (b ∷ title) = escape_cons-IsPlain b title (escape_title-IsPlain title)

module _ (to_lowercase : Bytes → Bytes) where
  -- A tab that the window is told of has a URL that is_safe_url takes, and no `<` or `>` in its title.
  pub tab_received-safe :
      (id name url title : Bytes) (t : TabReceived)
      → tab_received to_lowercase id name url title ≡ some t
      → (is_safe_url to_lowercase t.url ≡ true) × All IsPlain t.title
  unfolding tab_received
  tab_received-safe id name url title t e = go (Bool-cases (is_safe_url to_lowercase url)) e
    where
      shown : Option TabReceived
      shown = some (record {
        from_device = name;
        from_device_id = id;
        url = url;
        title = escape_title title;
      })

      go :
          (is_safe_url to_lowercase url ≡ true) ⊎ (is_safe_url to_lowercase url ≡ false)
          → (if is_safe_url to_lowercase url then shown else none) ≡ some t
          → (is_safe_url to_lowercase t.url ≡ true) × All IsPlain t.title
      go (inl safe) e =
          subst (λ x. (is_safe_url to_lowercase x.url ≡ true) × All IsPlain x.title)
            (of_some (rw safe at e)) (safe, escape_title-IsPlain title)
      go (inr bad) e = absurd (none-ne-some (rw bad at e))

  module _ (loro : Loro) (lz4 : Lz4) where
    abbrev IsLetIn : Result (Option Bytes) → List PairedDevice → Bytes → Type 0
    IsLetIn handshake devices id =
        (peer : PairedDevice) × (find_device id devices ≡ some peer)
        × (handshake ≡ ok (some peer.noise_public_key))

    -- Whatever messages come: a connection that ends with a tab or a sync is that of a paired device,
    -- and the handshake found the key that was paired.
    pub handle_incoming_sync-paired :
        (handshake : Result (Option Bytes)) (doc : Option (SyncDoc loro))
        (devices : List PairedDevice) (id : Bytes) (come rest sent : List SyncMessage)
        (i : Incoming to_lowercase loro lz4)
        → converse (handle_incoming_sync to_lowercase loro lz4 handshake doc devices id) come
          ≡ some (ok i, rest, sent)
        → IsLetIn handshake devices id
    unfolding handle_incoming_sync converse
    handle_incoming_sync-paired handshake doc devices id come rest sent i e =
        go (find_device id devices) handshake refl refl e
      where
        go :
            (found : Option PairedDevice) (shaken : Result (Option Bytes))
            → find_device id devices ≡ found
            → handshake ≡ shaken
            → converse (from_device to_lowercase loro lz4 shaken doc found) come
              ≡ some (ok i, rest, sent)
            → IsLetIn handshake devices id
        go none shaken f h e = cc
        go (some peer) (err x) f h e = cc
        go (some peer) (ok none) f h e = cc
        go (some peer) (ok (some key)) f h e =
            same (Bool-cases (list_beq key peer.noise_public_key)) e
          where
            same :
                (list_beq key peer.noise_public_key ≡ true)
                  ⊎ (list_beq key peer.noise_public_key ≡ false)
                → converse (from_device to_lowercase loro lz4 (ok (some key)) doc (some peer)) come
                  ≡ some (ok i, rest, sent)
                → IsLetIn handshake devices id
            same (inl eq) e =
                (peer, f, h ∙ ap (λ k. ok (some k)) ((list_beq_iff key peer.noise_public_key).0 eq))
            same (inr ne) e = let bad = of_some (rw ne at e) in cc
