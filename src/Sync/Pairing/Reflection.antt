-- ===== src/Sync/Pairing/Reflection.antt =====
-- A peer that sends back what it receives, against the initiator of src-tauri/src/sync/pairing.rs.
use bushido.Prelude.{◌≡◌, refl, ap, ◌∙◌, List, [], ◌∷◌, ◌++◌, Bytes, length, ok, true}
use bushido.Prelude.Table.{list_beq, list_beq_iff}
use bushido.Sync.Protocol.{SyncMessage, pair_accept, spake_msg}
use bushido.Sync.Talk.{Talk, done, ask, tell}
use bushido.Sync.Talk.Pair.{Sides, Side, on_left, on_right, schedule, rounds, start, move, advance}
use bushido.Sync.Talk.Pair.Order.{any_order, schedule-append}
use bushido.Sync.Pairing.{
  PairResult, PairCrypto, Device, encrypt_public_key, decrypt_public_key, compute_hmac, pair_result,
  initiator_keys, run_initiator,
}
use bushido.Sync.Pairing.Laws.{PairLaws, key_roundtrip}

-- After its own message of SPAKE2, the peer only sends back the messages that come.
abbrev echo : SyncMessage → Talk (Unit {0}) → Talk (Unit {0})
echo m rest = tell m rest

abbrev pub echoes : Talk (Unit {0})
echoes =
    ask "confirm" (λ confirm.
      echo confirm (ask "key" (λ key. echo key (ask "complete" (λ m. echo m (done tt))))))

-- It answers the request with any id and name, and any message of SPAKE2.
abbrev pub reflect : Bytes → Bytes → Bytes → Talk (Unit {0})
reflect id name spake =
    ask "request"
      (λ request. tell (pair_accept id name) (ask "spake" (λ s. tell (spake_msg spake) echoes)))

module _ (crypto : PairCrypto) where
  abbrev until_keys : List Side
  until_keys =
      on_left ∷ on_right ∷ on_right ∷ on_left ∷ on_left ∷ on_right ∷ on_right ∷ on_left ∷ on_left
      ∷ on_right ∷ on_right ∷ on_left ∷ []

  abbrev keys : List Side
  keys = on_left ∷ on_right ∷ on_right ∷ on_left ∷ on_left ∷ on_right ∷ on_right ∷ on_left ∷ []

  abbrev pub sides : Talk PairResult → Talk (Unit {0}) → Sides PairResult (Unit {0})
  sides left right = record { left = left; right = right; to_left = []; to_right = [] }

  abbrev key_echoes : Talk (Unit {0})
  key_echoes = ask "key" (λ key. echo key (ask "complete" (λ m. echo m (done tt))))

  until_keys-run :
      (code secret nonce : Bytes) (own : Device) (id name spake k : Bytes)
      → crypto.finish (crypto.start_a code secret).0 spake ≡ ok k
      → list_beq (compute_hmac crypto k) (compute_hmac crypto k) ≡ true
      → schedule until_keys
          (start (run_initiator crypto secret nonce code own) (reflect id name spake))
        ≡ sides (initiator_keys crypto nonce own (id, name) k) key_echoes
  unfolding schedule move advance run_initiator
  until_keys-run code secret nonce own id name spake k fin same = rw fin (rw same refl)

  keys-run :
      (nonce : Bytes) (own : Device) (id name k e : Bytes)
      → encrypt_public_key crypto nonce k own.noise_public_key ≡ ok e
      → decrypt_public_key crypto k e ≡ ok own.noise_public_key
      → schedule keys (sides (initiator_keys crypto nonce own (id, name) k) key_echoes)
        ≡ sides (done (pair_result crypto (id, name) own.noise_public_key)) (done tt)
  unfolding schedule move advance
  keys-run nonce own id name k e enc dec = rw enc (rw dec refl)

  -- An initiator that meets a peer which does not know the code, but sends back the confirmation, the
  -- encrypted key and the end as they come: for any message of SPAKE2 from which the initiator
  -- derives some key of 32 bytes, it ends with success, whatever moves were made before. It takes the
  -- peer's id and name as the peer gave them, and its own public key as the peer's.
  pub pairing-reflected :
      (laws : PairLaws crypto) (code secret nonce : Bytes) (own : Device) (id name spake k : Bytes)
      (moves : List Side)
      → crypto.finish (crypto.start_a code secret).0 spake ≡ ok k
      → length k ≡ 32
      → length nonce ≡ 24
      → schedule (rounds 20) (
          schedule moves
            (start (run_initiator crypto secret nonce code own) (reflect id name spake)))
        ≡ sides (done (pair_result crypto (id, name) own.noise_public_key)) (done tt)
  pairing-reflected laws code secret nonce own id name spake k moves fin len_k len_n =
      let (e, enc, dec) = key_roundtrip crypto laws nonce k own.noise_public_key len_k len_n in
      let same = (list_beq_iff (compute_hmac crypto k) (compute_hmac crypto k)).1 refl in
      any_order (until_keys ++ keys) moves _ _
        (schedule-append until_keys keys _
          ∙ ap (schedule keys) (until_keys-run code secret nonce own id name spake k fin same)
          ∙ keys-run nonce own id name k e enc dec)
        refl refl
